-- ===== src/Device/Packet/Awaited.antt =====
-- A data packet that `gbridge_recv_data_wait` waits for: rounds without a byte, and then its pieces.
use libmobile_atmega.Prelude.{
  ℕ, ◌+◌, ◌≤◌, ◌<◌, ◌^◌, ◌≡◌, ◌⊎◌, inl, inr, refl, ap, sym, ◌∙◌, arith, not, Bool, true, false,
  some, List, [], ◌∷◌, ◌++◌, append-nil, append_assoc, length,
}
use libmobile_atmega.Wire.{gbridge_max_data_size, gbridge_timeout_us}
use libmobile_atmega.Wire.Cmd
use libmobile_atmega.Wire.Frame.{data_frame}
use libmobile_atmega.Device.State.{Device}
use libmobile_atmega.Device.Loop.{gbridge_loop, fetch_cmd}
use libmobile_atmega.Device.Send.{Event, arrive, returned, wait_while, gbridge_recv_data_wait}
use libmobile_atmega.Device.Packet.{Needs, command, IsDelivered, IsOpen}
use libmobile_atmega.Device.Packet.Turn.{Turn, arrived, waits, IsTimed, loop-Turn, loop_idle}
use libmobile_atmega.Device.Packet.Pieces.{
  all_bytes, InTime, InRoom, InRoom-le, arrive-rx, arrive-Needs, arrive-IsOpen, StartedIn,
}
use libmobile_atmega.Device.Packet.Chunks.{
  IsIdle, Received, IsDelivered-Received, IsOpen-of_idle, on_time, started_now,
}

-- The test of the loop of `gbridge_recv_data_wait`
abbrev pub goes_on : Device → Bool
goes_on r = elim r.connected [ true ↦ not r.data_ready | false ↦ false ]

-- The loop has ended with the packet, and has used all bytes.
abbrev Awaited : List ℕ → List ℕ → List Event → Device → Type 0
Awaited payload sent es s =
    (s' : Device) × (left : List Event) × (wait_while goes_on es s ≡ returned tt s' left)
    × IsDelivered payload sent s'
    × (s'.connected ≡ true)
    × (s'.rx ++ all_bytes left ≡ [])

ends_now :
    (payload sent : List ℕ) (es : List Event) (s : Device)
    → IsDelivered payload sent s
    → s.connected ≡ true
    → s.rx ++ all_bytes es ≡ []
    → Awaited payload sent es s
unfolding wait_while
ends_now payload sent [] s d c e = (s, [], ground (arith, d.ready), d, c, e)
ends_now payload sent (x ∷ es) s d c e = (s, x ∷ es, ground (arith, d.ready), d, c, e)

goes_round :
    (payload sent : List ℕ) (x : Event) (es : List Event) (s s₁ : Device)
    → s.connected ≡ true
    → s.data_ready ≡ false
    → gbridge_loop (arrive x s) ≡ some (tt, s₁)
    → Awaited payload sent es s₁
    → Awaited payload sent (x ∷ es) s
unfolding wait_while
goes_round payload sent x es s s₁ c free ran (s', left, e, d, on, used) =
    (s', left, ground (arith, ran, e), d, on, used)

module _ (payload sent : List ℕ) (some_payload : 0 < length payload)
    (fits : length payload ≤ gbridge_max_data_size) (t last : ℕ)
    (soon : last ≤ t + gbridge_timeout_us) (last_in : last < 2 ^ 32) where
  -- The rest of the rounds, from where one round has led
  Turn-Awaited :
      (es : List Event) (now : ℕ) (s s₁ : Device)
      → Turn payload sent (all_bytes es) [] s s₁
      → (IsTimed s s₁ → StartedIn t now s₁)
      → ((w : List ℕ)
          → IsOpen sent s₁
          → Needs payload s₁ w
          → s₁.rx ++ all_bytes es ≡ w
          → length s₁.rx < length w
          → length s₁.rx ≤ 1
          → StartedIn t now s₁
          → Awaited payload sent es s₁)
      → Awaited payload sent es s₁
  Turn-Awaited es now s s₁ (arrived e d c w p) begin more = ends_now payload sent es s₁ d c e
  Turn-Awaited es now s s₁ (waits w needs e short few open_ timed) begin more =
      more w open_ needs (e ∙ append-nil w) short few (begin timed)

  Needs-Awaited :
      (es : List Event) (now : ℕ) (s : Device) {w : List ℕ}
      → IsOpen sent s
      → Needs payload s w
      → s.rx ++ all_bytes es ≡ w
      → (length s.rx < length w) ⊎ (0 < length es)
      → StartedIn t now s
      → t ≤ now
      → InTime now last es
      → InRoom (length s.rx) es
      → Awaited payload sent es s
  Needs-Awaited [] now s open_ needs e (inl short) started from times room =
      absurd (omega (arith, ap length (sym (append-nil s.rx) ∙ e), short))
  Needs-Awaited [] now s open_ needs e (inr more) started from times room =
      absurd (omega (arith, more))
  Needs-Awaited (x ∷ es) now s {w} open_ needs e more started from (late, soon_enough, times)
        (space, room) =
      let (s₁, ran, turn) =
        loop-Turn payload sent (all_bytes es) [] some_payload fits (arrive x s)
          (arrive-IsOpen sent x s open_)
          (on_time payload sent some_payload fits t last soon last_in now x s started late
            soon_enough)
          (arrive-Needs payload x s needs)
          (ap (λ r. r ++ all_bytes es) (arrive-rx x s space)
            ∙ append_assoc s.rx x.bytes (all_bytes es)
            ∙ e
            ∙ sym (append-nil w)) in
      goes_round payload sent x es s s₁ open_.connected open_.free ran (
        Turn-Awaited es x.time (arrive x s) s₁ turn
          (started_now payload sent some_payload fits t last soon last_in now x s s₁ started from
            late)
          (λ w₁ o n f sh few st.
            Needs-Awaited es x.time s₁ {w = w₁} o n f (inl sh) st (omega arith) times
              (InRoom-le (length s₁.rx) 1 es few room)))

-- Rounds in which no byte arrives
abbrev pub IsSilent : List Event → Type 0
IsSilent [] = Unit
IsSilent (e ∷ es) = (e.bytes ≡ []) × IsSilent es

silent_round :
    (x : Event) (s : Device)
    → IsIdle s
    → s.rx ≡ []
    → x.bytes ≡ []
    → (IsIdle (arrive x s) × ((arrive x s).rx ≡ []))
      × (gbridge_loop (arrive x s) ≡ some (tt, arrive x s))
silent_round x s i r b =
    let none : (arrive x s).rx ≡ [] = rw (r, b) refl in
    (
      (
        record {
          valid = ground (arith, i.valid);
          connected = i.connected;
          waiting = i.waiting;
          processing = i.processing;
          free = i.free;
        },
        none,
      ),
      loop_idle (arrive x s) (arrive x s) i.connected (ground (arith, i.processing)) i.waiting
          (unfold fetch_cmd in ground (arith, i.processing, none)),
    )

module _ (payload : List ℕ) (some_payload : 0 < length payload)
    (fits : length payload ≤ gbridge_max_data_size) (t : ℕ) (pieces : List Event)
    (small : t + gbridge_timeout_us < 2 ^ 32) (times : InTime t (t + gbridge_timeout_us) pieces)
    (some_piece : 0 < length pieces) where
  pieces-Awaited :
      (s : Device)
      → IsIdle s
      → s.rx ++ all_bytes pieces ≡ data_frame Cmd.data_pc payload
      → InRoom (length s.rx) pieces
      → Awaited payload s.tx pieces s
  pieces-Awaited s i e room =
      Needs-Awaited payload s.tx some_payload fits t (t + gbridge_timeout_us) (omega arith) small
        pieces t s (IsOpen-of_idle s i) (command i.processing refl) e (inr some_piece)
        (inl i.processing) (omega arith) times room

  silent-Awaited :
      (silent : List Event) (s : Device)
      → IsIdle s
      → s.rx ≡ []
      → IsSilent silent
      → all_bytes pieces ≡ data_frame Cmd.data_pc payload
      → InRoom 0 pieces
      → Awaited payload s.tx (silent ++ pieces) s
  silent-Awaited [] s i r silent e room =
      pieces-Awaited s i (ap (λ x. x ++ all_bytes pieces) r ∙ e) (rw r room)
  silent-Awaited (x ∷ silent) s i r (none, still) e room =
      let ((i', r'), ran) = silent_round x s i r none in
      goes_round payload s.tx x (silent ++ pieces) s (arrive x s) i.connected i.free ran
        (silent-Awaited silent (arrive x s) i' r' still e room)

  -- The wait returns the packet. Its first bytes may be in the ring already; if not, any number of
  -- rounds may pass before them.
  pub recv_data_wait-Received :
      (first : List ℕ) (silent : List Event) (s : Device)
      → IsIdle s
      → s.rx ≡ first
      → (first ≡ []) ⊎ (silent ≡ [])
      → IsSilent silent
      → first ++ all_bytes pieces ≡ data_frame Cmd.data_pc payload
      → InRoom (length first) pieces
      → (s' : Device) × (left : List Event) × (gbridge_recv_data_wait (silent ++ pieces) s
          ≡ returned (some (length payload, s'.data_buf)) s' left)
        × Received payload s.tx s'
        × (s'.connected ≡ true)
        × (s'.rx ++ all_bytes left ≡ [])
  unfolding gbridge_recv_data_wait
  recv_data_wait-Received first silent s i r start still e room = go (awaited start)
    where
      awaited : (first ≡ []) ⊎ (silent ≡ []) → Awaited payload s.tx (silent ++ pieces) s
      awaited (inl none) =
          silent-Awaited silent s i (r ∙ none) still
            (ap (λ x. x ++ all_bytes pieces) (sym none) ∙ e) (rw none at room)
      awaited (inr none) =
          rw none (pieces-Awaited s i (ap (λ x. x ++ all_bytes pieces) r ∙ e) (rw r room))

      go :
          Awaited payload s.tx (silent ++ pieces) s
          → (s' : Device) × (left : List Event) × (gbridge_recv_data_wait (silent ++ pieces) s
              ≡ returned (some (length payload, s'.data_buf)) s' left)
            × Received payload s.tx s'
            × (s'.connected ≡ true)
            × (s'.rx ++ all_bytes left ≡ [])
      go (s', left, ends, d, c, used) =
          let got = IsDelivered-Received payload s.tx s' d in
          (s', left, ground (arith, ends, c, got.0), got, c, used)
