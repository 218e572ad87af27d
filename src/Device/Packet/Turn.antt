-- ===== src/Device/Packet/Turn.antt =====
-- One call of `gbridge_loop` on a data packet of which some bytes have arrived.
use libmobile_atmega.Prelude.{
  ℕ, ◌≤◌, ◌<◌, ◌≡◌, ◌≢◌, ◌⊎◌, inl, inr, refl, ap, subst, ◌∙◌, arith, true, false, some, List, [],
  ◌∷◌, ◌++◌, length,
}
use libmobile_atmega.Wire.{gbridge_max_data_size, word_bytes}
use libmobile_atmega.Wire.Cmd
use libmobile_atmega.Wire.Checksum.{checksum}
use libmobile_atmega.Wire.Frame.{data_frame}
use libmobile_atmega.Device.State.{Device}
use libmobile_atmega.Device.Receive.{Rc, recv_cmd_data_pc}
use libmobile_atmega.Device.Loop.{
  is_expired, accept_cmd, fetch_cmd, run_cmd, settle, loop_connected, gbridge_loop,
}
use libmobile_atmega.Device.Inv.{IsValid, Ends, recv_cmd_data_pc-IsValid}
use libmobile_atmega.Device.Packet.{Needs, command, size, bytes, sum, IsDelivered, IsOpen}
use libmobile_atmega.Device.Packet.Check.{Progress, delivered, stopped, Progresses}
use libmobile_atmega.Device.Packet.Step.{handler-Progresses}

-- When the command in progress was started: at this call, or before it
abbrev pub IsTimed : Device → Device → Type 0
IsTimed s s' =
    (s'.processing_cmd ≡ Cmd.none)
    ⊎ ((s'.processing_cmd_time ≡ s.now)
        ⊎ ((s.processing_cmd ≢ Cmd.none) × (s'.processing_cmd_time ≡ s.processing_cmd_time)))

-- Where one call leads: the packet is delivered, or the adapter waits for the rest of it.
pub data Turn (payload sent todo rest : List ℕ) (s : Device) (s' : Device) : Type 0 where
  arrived :
      s'.rx ++ todo ≡ rest
      → IsDelivered payload sent s'
      → s'.connected ≡ true
      → s'.waiting_cmd ≡ Cmd.none
      → s'.processing_cmd ≡ Cmd.none
      → Turn payload sent todo rest s s'
  waits :
      (w : List ℕ)
      → Needs payload s' w
      → s'.rx ++ todo ≡ w ++ rest
      → length s'.rx < length w
      → length s'.rx ≤ 1
      → IsOpen sent s'
      → IsTimed s s'
      → Turn payload sent todo rest s s'

abbrev pub OnTime : Device → Type 0
OnTime s = is_expired s.processing_cmd s.processing_cmd_time s.now ≡ false

-- A call whose command runs
pub loop_fetched :
    (s s₁ s₂ : Device) (rc : Rc)
    → s.connected ≡ true
    → OnTime s
    → s.waiting_cmd ≡ Cmd.none
    → fetch_cmd s ≡ some (true, s₁)
    → run_cmd s₁ ≡ some (rc, s₂)
    → gbridge_loop s ≡ some (tt, settle rc s₂)
unfolding gbridge_loop loop_connected
loop_fetched s s₁ s₂ rc c time w fetched runs = ground arith

-- A call that has no command to run
pub loop_idle :
    (s s₁ : Device)
    → s.connected ≡ true
    → OnTime s
    → s.waiting_cmd ≡ Cmd.none
    → fetch_cmd s ≡ some (false, s₁)
    → gbridge_loop s ≡ some (tt, s₁)
unfolding gbridge_loop loop_connected
loop_idle s s₁ c time w fetched = ground arith

module _ (payload sent todo rest : List ℕ) (some_payload : 0 < length payload)
    (fits : length payload ≤ gbridge_max_data_size) where
  -- The end of the call, from what the handler has come to
  settle-Turn :
      (s s₁ : Device)
      → (p : Progresses payload sent todo rest s₁ (recv_cmd_data_pc s₁)) → IsValid p.state
      → (s₁.processing_cmd_time ≡ s.now)
        ⊎ ((s.processing_cmd ≢ Cmd.none) × (s₁.processing_cmd_time ≡ s.processing_cmd_time))
      → Turn payload sent todo rest s (settle p.rc p.state)
  unfolding settle
  settle-Turn s s₁ p v t = go p.progress
    where
      go :
          Progress payload sent todo rest p.rc p.state
          → Turn payload sent todo rest s (settle p.rc p.state)
      go (delivered rc e d c w) = rw rc (
          arrived e
            (record {
              ready = d.ready;
              size = d.size;
              bytes = d.bytes;
              acknowledged = d.acknowledged;
            })
            c w refl)
      go (stopped w rc needs e short few c wait free written) = rw rc (
          waits w needs e short few
            (record { valid = v; connected = c; waiting = wait; free = free; written = written })
            (inr (rw p.time t)))

  loop_runs :
      (s s₁ : Device)
      → IsOpen sent s
      → OnTime s
      → fetch_cmd s ≡ some (true, s₁)
      → s₁.processing_cmd ≡ Cmd.data_pc
      → (p : Progresses payload sent todo rest s₁ (recv_cmd_data_pc s₁))
      → gbridge_loop s ≡ some (tt, settle p.rc p.state)
  loop_runs s s₁ open_ time fetched cmd p =
      loop_fetched s s₁ p.state p.rc open_.connected time open_.waiting fetched
        (unfold run_cmd in ground (arith, p.returns))

  -- A call that finds the handler's command in progress, or has just read it
  run-Turn :
      (s s₁ : Device) {w : List ℕ}
      → IsOpen sent s
      → OnTime s
      → fetch_cmd s ≡ some (true, s₁)
      → IsOpen sent s₁
      → s₁.processing_cmd ≡ Cmd.data_pc
      → Needs payload s₁ w
      → s₁.rx ++ todo ≡ w ++ rest
      → (s₁.processing_cmd_time ≡ s.now)
        ⊎ ((s.processing_cmd ≢ Cmd.none) × (s₁.processing_cmd_time ≡ s.processing_cmd_time))
      → (s' : Device) × (gbridge_loop s ≡ some (tt, s')) × Turn payload sent todo rest s s'
  run-Turn s s₁ open_ time fetched open₁ cmd needs e t =
      let p = handler-Progresses payload sent todo rest some_payload fits s₁ open₁ cmd needs e in
      (settle p.rc p.state, loop_runs s s₁ open_ time fetched cmd p, settle-Turn s s₁ p (valid p) t)
    where
      valid : (p : Progresses payload sent todo rest s₁ (recv_cmd_data_pc s₁)) → IsValid p.state
      valid p =
          subst (Ends (λ _ s'. IsValid s')) p.returns (recv_cmd_data_pc-IsValid s₁ open₁.valid cmd)

  abbrev begun : Device → List ℕ → Device
  begun s l = record s {
    rx = l;
    processing_cmd = Cmd.data_pc;
    processing_cmd_state = 0;
    processing_cmd_time = s.now;
  }

  begun-IsOpen : (s : Device) (l : List ℕ) → IsOpen sent s → IsOpen sent (begun s l)
  begun-IsOpen s l open_ = record {
    valid = ground (arith, open_.valid);
    connected = open_.connected;
    waiting = open_.waiting;
    free = open_.free;
    written = open_.written;
  }

  fetch_first :
      (s : Device) (l : List ℕ)
      → s.waiting_cmd ≡ Cmd.none
      → s.processing_cmd ≡ Cmd.none
      → s.rx ≡ Cmd.data_pc ∷ l
      → fetch_cmd s ≡ some (true, begun s l)
  unfolding fetch_cmd accept_cmd
  fetch_first s l w idle r = ground arith

  fetch_nothing :
      (s : Device) → s.processing_cmd ≡ Cmd.none → s.rx ≡ [] → fetch_cmd s ≡ some (false, s)
  unfolding fetch_cmd
  fetch_nothing s idle r = ground arith

  fetch_again : (s : Device) → s.processing_cmd ≡ Cmd.data_pc → fetch_cmd s ≡ some (true, s)
  unfolding fetch_cmd
  fetch_again s cmd = ground arith

  abbrev Turns : Device → Type 0
  Turns s = (s' : Device) × (gbridge_loop s ≡ some (tt, s')) × Turn payload sent todo rest s s'

  turn_command :
      (s : Device)
      → IsOpen sent s
      → OnTime s
      → s.processing_cmd ≡ Cmd.none
      → s.rx ++ todo ≡ data_frame Cmd.data_pc payload ++ rest
      → Turns s
  turn_command s open_ time idle e = go s.rx refl
    where
      go : (r : List ℕ) → s.rx ≡ r → Turns s
      go [] p = (
        s,
        loop_idle s s open_.connected time open_.waiting (fetch_nothing s idle p),
        waits (data_frame Cmd.data_pc payload) (command idle refl) e (rw p (omega arith))
            (rw p (omega arith)) open_ (inl idle),
      )
      go (x ∷ l) p =
          let e' : x ∷ (l ++ todo)
              ≡ Cmd.data_pc
                ∷ ((length payload ∷ (payload ++ word_bytes (checksum payload))) ++ rest) =
            rw p at e in
          run-Turn s (begun s l) open_ time
            (fetch_first s l open_.waiting idle (p ∙ ap (λ y. y ∷ l) (cc e')))
            (begun-IsOpen s l open_) refl (size refl refl refl) (cc e') (inl refl)

  turn_running :
      (s : Device) {w : List ℕ}
      → IsOpen sent s
      → OnTime s
      → s.processing_cmd ≡ Cmd.data_pc
      → Needs payload s w
      → s.rx ++ todo ≡ w ++ rest
      → Turns s
  turn_running s open_ time cmd needs e =
      run-Turn s s open_ time (fetch_again s cmd) open_ cmd needs e
        (inr (ground (arith, cmd), refl))

  -- Wherever the packet stands, one call takes it on.
  pub loop-Turn :
      (s : Device) {w : List ℕ}
      → IsOpen sent s
      → OnTime s
      → Needs payload s w
      → s.rx ++ todo ≡ w ++ rest
      → Turns s
  loop-Turn s open_ time (command idle f) e =
      turn_command s open_ time idle (e ∙ ap (λ x. x ++ rest) f)
  loop-Turn s open_ time (size c at f) e = turn_running s open_ time c (size c at f) e
  loop-Turn s open_ time (bytes p q c at l k h v m f) e =
      turn_running s open_ time c (bytes p q c at l k h v m f) e
  loop-Turn s open_ time (sum c at l h f) e = turn_running s open_ time c (sum c at l h f) e
