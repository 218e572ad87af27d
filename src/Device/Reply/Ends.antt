-- ===== src/Device/Reply/Ends.antt =====
-- The reply that the adapter waits for.
use libmobile_atmega.Prelude.{
  ℕ, ◌≤◌, ◌≡◌, ◌≢◌, refl, ap, sym, ◌∙◌, arith, ◌==◌, Bool, true, some, List, [], ◌∷◌, ◌++◌, ne→==,
  length,
}
use libmobile_atmega.Wire.{gbridge_timeout_us, reply}
use libmobile_atmega.Wire.Cmd
use libmobile_atmega.Device.State.{Device, elapsed}
use libmobile_atmega.Device.Loop.{gbridge_loop, loop_connected, fetch_cmd, accept_cmd}
use libmobile_atmega.Device.Send.{Event, arrive, serial_room, returned, wait_while, wait_cmd}
use libmobile_atmega.Device.Packet.Pieces.{arrive-rx}
use libmobile_atmega.Device.Reply.Wait.{wait_cmd-wait_while, wait_while_done}

-- The call of `gbridge_loop` that reads the reply
loop_takes_reply :
    (cmd : ℕ) (first : List ℕ) (s : Device)
    → cmd ≢ Cmd.none
    → reply cmd ≢ Cmd.none
    → s.connected ≡ true
    → s.waiting_cmd ≡ cmd
    → s.processing_cmd ≡ Cmd.none
    → s.rx ≡ reply cmd ∷ first
    → elapsed s.now s.waiting_cmd_time ≤ gbridge_timeout_us
    → gbridge_loop s ≡ some (tt, record s { waiting_cmd = Cmd.none; rx = first })
unfolding gbridge_loop loop_connected fetch_cmd accept_cmd
loop_takes_reply cmd first s ne ne' c w idle r soon = ground (arith, ap reply w)

-- A call that finds nothing in the ring, within the timeout
loop_waits :
    (cmd : ℕ) (s : Device)
    → s.connected ≡ true
    → s.waiting_cmd ≡ cmd
    → s.processing_cmd ≡ Cmd.none
    → s.rx ≡ []
    → elapsed s.now s.waiting_cmd_time ≤ gbridge_timeout_us
    → gbridge_loop s ≡ some (tt, s)
unfolding gbridge_loop loop_connected fetch_cmd
loop_waits cmd s c w idle r soon = ground arith

-- Rounds in which nothing arrives, all within the timeout of `now`
abbrev pub IsQuiet : ℕ → List Event → Type 0
IsQuiet now [] = Unit
IsQuiet now (e ∷ es) = (e.bytes ≡ []) × (elapsed e.time now ≤ gbridge_timeout_us) × IsQuiet now es

abbrev waits_for : ℕ → Device → Bool
waits_for cmd r = r.waiting_cmd == cmd

wait_once :
    (cmd : ℕ) (e : Event) (es : List Event) (s s' : Device)
    → s.waiting_cmd ≡ cmd
    → gbridge_loop (arrive e s) ≡ some (tt, s')
    → s'.waiting_cmd ≢ cmd
    → wait_while (waits_for cmd) (e ∷ es) s ≡ returned tt s' es
unfolding wait_while
wait_once cmd e es s s' w ran ne =
    ground (arith, ran, wait_while_done (waits_for cmd) es s' (ne→== s'.waiting_cmd cmd ne))

wait_on :
    (cmd : ℕ) (e : Event) (es : List Event) (s s' : Device)
    → s.waiting_cmd ≡ cmd
    → gbridge_loop (arrive e s) ≡ some (tt, s')
    → wait_while (waits_for cmd) (e ∷ es) s ≡ wait_while (waits_for cmd) es s'
unfolding wait_while
wait_on cmd e es s s' w ran = ground (arith, ran)

module _ (cmd : ℕ) (ne : cmd ≢ Cmd.none) (ne' : reply cmd ≢ Cmd.none) (e : Event) (es : List Event)
    (first : List ℕ) (bytes : e.bytes ≡ reply cmd ∷ first)
    (room : length e.bytes ≤ serial_room) where
  wait_ends :
      (quiet : List Event) (s : Device)
      → s.connected ≡ true
      → s.waiting_cmd ≡ cmd
      → s.processing_cmd ≡ Cmd.none
      → s.rx ≡ []
      → IsQuiet s.waiting_cmd_time quiet
      → elapsed e.time s.waiting_cmd_time ≤ gbridge_timeout_us
      → wait_while (waits_for cmd) (quiet ++ (e ∷ es)) s
        ≡ returned tt (record s { waiting_cmd = Cmd.none; rx = first; now = e.time }) es
  wait_ends [] s c w idle r silent soon =
      wait_once cmd e es s _ w
        (loop_takes_reply cmd first (arrive e s) ne ne' c w idle
          (arrive-rx e s (omega (arith, room, ap length r)) ∙ ap (λ x. x ++ e.bytes) r ∙ bytes)
          soon)
        (λ q. ne (sym q))
  wait_ends (q ∷ quiet) s c w idle r (none, in_time, silent) soon =
      let empty : (arrive q s).rx ≡ [] = rw (r, none) refl in
      wait_on cmd q (quiet ++ (e ∷ es)) s (arrive q s) w
        (loop_waits cmd (arrive q s) c w idle empty in_time)
      ∙ wait_ends quiet (arrive q s) c w idle empty silent soon

  -- The reply that comes within the timeout, after any number of rounds without a byte, ends the
  -- adapter's wait. The bytes behind it stay in the ring.
  pub reply_ends_wait :
      (quiet : List Event) (s : Device)
      → s.connected ≡ true
      → s.waiting_cmd ≡ Cmd.none
      → s.processing_cmd ≡ Cmd.none
      → s.rx ≡ []
      → IsQuiet s.now quiet
      → elapsed e.time s.now ≤ gbridge_timeout_us
      → wait_cmd cmd (quiet ++ (e ∷ es)) s
        ≡ returned tt
            (record s {
              waiting_cmd = Cmd.none;
              waiting_cmd_time = s.now;
              rx = first;
              now = e.time;
            })
            es
  reply_ends_wait quiet s c w idle r silent soon =
      wait_cmd-wait_while cmd (quiet ++ (e ∷ es)) s c w
      ∙ wait_ends quiet (record s { waiting_cmd = cmd; waiting_cmd_time = s.now }) c refl idle r
          silent soon
