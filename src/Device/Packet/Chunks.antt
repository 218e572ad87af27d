-- ===== src/Device/Packet/Chunks.antt =====
-- A whole data packet through `gbridge_loop`: at once, and in pieces over many calls.
use libmobile_atmega.Prelude.{
  ℕ, ◌+◌, ◌≤◌, ◌<◌, ◌^◌, ◌≡◌, inl, refl, ap, sym, ◌∙◌, arith, true, false, some, List, [], ◌∷◌,
  ◌++◌, append-nil, append_assoc, length, length-append, take,
}
use libmobile_atmega.Wire.{gbridge_max_data_size, gbridge_timeout_us, reply}
use libmobile_atmega.Wire.Cmd
use libmobile_atmega.Wire.Frame.{data_frame}
use libmobile_atmega.Device.State.{Device}
use libmobile_atmega.Device.Loop.{gbridge_loop, gbridge_recv_data, fetch_cmd}
use libmobile_atmega.Device.Send.{Event, arrive, serial_room}
use libmobile_atmega.Device.Inv.{IsValid}
use libmobile_atmega.Device.Packet.{Needs, command, IsDelivered, IsOpen}
use libmobile_atmega.Device.Packet.Turn.{
  Turn, arrived, waits, OnTime, IsTimed, loop-Turn, loop_idle,
}
use libmobile_atmega.Device.Packet.Pieces.{
  deliver, all_bytes, InTime, InRoom, InRoom-le, arrive-rx, arrive-Needs, arrive-IsOpen, StartedIn,
}

-- The adapter is connected and idle: it neither processes a command nor waits for a reply, and the
-- last data packet has been taken.
pub record IsIdle (s : Device) : Type 0 where
  pub valid : IsValid s
  pub connected : s.connected ≡ true
  pub waiting : s.waiting_cmd ≡ Cmd.none
  pub processing : s.processing_cmd ≡ Cmd.none
  pub free : s.data_ready ≡ false

-- What the program sees of a delivered packet
abbrev pub Received : List ℕ → List ℕ → Device → Type 0
Received payload sent s =
    (gbridge_recv_data s ≡ some (length payload, s.data_buf))
    × (take (length payload) s.data_buf ≡ payload)
    × (s.tx ≡ sent ++ (reply Cmd.data_pc ∷ []))

pub IsDelivered-Received :
    (payload sent : List ℕ) (s : Device) → IsDelivered payload sent s → Received payload sent s
unfolding gbridge_recv_data
IsDelivered-Received payload sent s d =
    (ground (arith, d), ap (λ n. take n s.data_buf) (sym d.size) ∙ d.bytes, d.acknowledged)

pub IsOpen-of_idle : (s : Device) → IsIdle s → IsOpen s.tx s
IsOpen-of_idle s i = record {
  valid = i.valid;
  connected = i.connected;
  waiting = i.waiting;
  free = i.free;
  written = refl;
}

-- A data packet with a payload of 1 to 128 bytes that is in the ring as a whole (which the 63 bytes of
-- the ring allow up to 59) is received by one call of `gbridge_loop`: an idle adapter makes its payload
-- available, acknowledges it with one byte, stays connected, and leaves the bytes behind the packet
-- in the ring.
pub data_packet-Received :
    (payload rest : List ℕ) (s : Device)
    → 0 < length payload
    → length payload ≤ gbridge_max_data_size
    → IsIdle s
    → s.rx ≡ data_frame Cmd.data_pc payload ++ rest
    → (s' : Device) × (gbridge_loop s ≡ some (tt, s'))
      × Received payload s.tx s'
      × (s'.rx ≡ rest)
      × (s'.connected ≡ true)
data_packet-Received payload rest s some_payload fits idle e =
    let (s', returns, t) =
      loop-Turn payload s.tx [] rest some_payload fits s (IsOpen-of_idle s idle)
        (ground (arith, idle.processing)) (command idle.processing refl) (append-nil s.rx ∙ e) in
    let (received, left, stays) = go s' t in (s', returns, received, left, stays)
  where
    go :
        (s' : Device)
        → Turn payload s.tx [] rest s s'
        → Received payload s.tx s' × (s'.rx ≡ rest) × (s'.connected ≡ true)
    go s' (arrived e' d c w p) =
        (IsDelivered-Received payload s.tx s' d, sym (append-nil s'.rx) ∙ e', c)
    go s' (waits w needs e' short few open_ t) =
        absurd (omega (arith, ap length (sym (append-nil s'.rx) ∙ e'), length-append w rest, short))

empty_front : (xs ys : List ℕ) → xs ++ ys ≡ [] → xs ≡ []
empty_front [] ys e = refl
empty_front (x ∷ xs) ys e = cc e

empty_back : (xs ys : List ℕ) → xs ++ ys ≡ [] → ys ≡ []
empty_back [] ys e = e
empty_back (x ∷ xs) ys e = cc e

-- A delivered packet stays while nothing more arrives.
IsDelivered-stays :
    (payload sent : List ℕ) (es : List Event) (s : Device)
    → IsDelivered payload sent s
    → s.connected ≡ true
    → s.waiting_cmd ≡ Cmd.none
    → s.processing_cmd ≡ Cmd.none
    → s.rx ++ all_bytes es ≡ []
    → (s' : Device) × (deliver es s ≡ some s') × IsDelivered payload sent s'
unfolding deliver
IsDelivered-stays payload sent [] s d c w p e = (s, refl, d)
IsDelivered-stays payload sent (x ∷ es) s d c w p e =
    let (s', ran, d') =
      IsDelivered-stays payload sent es (arrive x s)
        (record { ready = d.ready; size = d.size; bytes = d.bytes; acknowledged = d.acknowledged })
        c w p
        (ap (λ r. r ++ all_bytes es) none_left
          ∙ empty_back (s.rx ++ x.bytes) (all_bytes es)
              (append_assoc s.rx x.bytes (all_bytes es) ∙ e)) in
    (s', rw (idles, deliver) ran, d')
  where
    nothing : s.rx ++ x.bytes ≡ []
    nothing =
        empty_front (s.rx ++ x.bytes) (all_bytes es) (append_assoc s.rx x.bytes (all_bytes es) ∙ e)

    none_left : (arrive x s).rx ≡ []
    none_left = ap (λ r. take serial_room r) nothing

    idles : gbridge_loop (arrive x s) ≡ some (tt, arrive x s)
    idles =
        loop_idle (arrive x s) (arrive x s) c (ground (arith, p)) w
          (unfold fetch_cmd in ground (arith, p, none_left))

module _ (payload sent : List ℕ) (some_payload : 0 < length payload)
    (fits : length payload ≤ gbridge_max_data_size) (t last : ℕ)
    (soon : last ≤ t + gbridge_timeout_us) (last_in : last < 2 ^ 32) where
  pub on_time :
      (now : ℕ) (e : Event) (s : Device)
      → StartedIn t now s
      → now ≤ e.time
      → e.time ≤ last
      → OnTime (arrive e s)
  on_time now e s started h k = ground arith

  pub started_now :
      (now : ℕ) (x : Event) (s s₁ : Device)
      → StartedIn t now s
      → t ≤ now
      → now ≤ x.time
      → IsTimed (arrive x s) s₁
      → StartedIn t x.time s₁
  started_now now x s s₁ started from late timed = ground arith

  -- The rest of the calls, from where one call has led
  deliver-Turn :
      (es : List Event) (now : ℕ) (s s₁ : Device)
      → Turn payload sent (all_bytes es) [] s s₁
      → (IsTimed s s₁ → StartedIn t now s₁)
      → ((w : List ℕ)
          → IsOpen sent s₁
          → Needs payload s₁ w
          → s₁.rx ++ all_bytes es ≡ w
          → length s₁.rx < length w
          → length s₁.rx ≤ 1
          → StartedIn t now s₁
          → (s' : Device) × (deliver es s₁ ≡ some s') × IsDelivered payload sent s')
      → (s' : Device) × (deliver es s₁ ≡ some s') × IsDelivered payload sent s'
  deliver-Turn es now s s₁ (arrived e d c w p) begin more =
      IsDelivered-stays payload sent es s₁ d c w p e
  deliver-Turn es now s s₁ (waits w needs e short few open_ timed) begin more =
      more w open_ needs (e ∙ append-nil w) short few (begin timed)

  deliver_lem :
      (es : List Event) (now : ℕ) (s : Device) {w : List ℕ}
      → IsOpen sent s
      → Needs payload s w
      → s.rx ++ all_bytes es ≡ w
      → length s.rx < length w
      → StartedIn t now s
      → t ≤ now
      → InTime now last es
      → InRoom (length s.rx) es
      → (s' : Device) × (deliver es s ≡ some s') × IsDelivered payload sent s'
  unfolding deliver
  deliver_lem [] now s open_ needs e short started from times fits_in =
      absurd (omega (arith, ap length (sym (append-nil s.rx) ∙ e), short))
  deliver_lem (x ∷ es) now s {w} open_ needs e short started from (late, soon_enough, times)
        (space, fits_in) =
      let (s₁, ran, turn) =
        loop-Turn payload sent (all_bytes es) [] some_payload fits (arrive x s)
          (arrive-IsOpen sent x s open_) (on_time now x s started late soon_enough)
          (arrive-Needs payload x s needs)
          (ap (λ r. r ++ all_bytes es) (arrive-rx x s space)
            ∙ append_assoc s.rx x.bytes (all_bytes es)
            ∙ e
            ∙ sym (append-nil w)) in
      let (s', delivered', d) =
        deliver-Turn es x.time (arrive x s) s₁ turn (started_now now x s s₁ started from late)
          (λ w₁ o n f sh few st.
            deliver_lem es x.time s₁ {w = w₁} o n f sh st (omega arith) times
              (InRoom-le (length s₁.rx) 1 es few fits_in)) in
      (s', rw (ran, deliver) delivered', d)

-- A data packet with a payload of 1 to 128 bytes that arrives in pieces, cut anywhere into pieces that
-- the ring holds (63 bytes for the first, 62 for the others, since a byte of the last one may still
-- be there), with any number of calls of `gbridge_loop` between the pieces, is received as a whole.
-- It must start at an idle adapter whose ring is empty, the times must not go back, all of it must
-- arrive within the timeout, and the clock must not wrap around before the timeout. Then no call
-- fails, and after the last one the payload is available and has been acknowledged once.
pub data_packet_in_pieces :
    (payload : List ℕ) (es : List Event) (s : Device)
    → 0 < length payload
    → length payload ≤ gbridge_max_data_size
    → IsIdle s
    → s.rx ≡ []
    → all_bytes es ≡ data_frame Cmd.data_pc payload
    → s.now + gbridge_timeout_us < 2 ^ 32
    → InTime s.now (s.now + gbridge_timeout_us) es
    → InRoom 0 es
    → (s' : Device) × (deliver es s ≡ some s') × Received payload s.tx s'
data_packet_in_pieces payload es s some_payload fits idle empty e small times fits_in =
    let (s', ran, d) =
      deliver_lem payload s.tx some_payload fits s.now (s.now + gbridge_timeout_us) (omega arith)
        small es s.now s (IsOpen-of_idle s idle) (command idle.processing refl)
        (ap (λ r. r ++ all_bytes es) empty ∙ e) (rw empty (omega arith)) (inl idle.processing)
        (omega arith) times (rw empty fits_in) in
    (s', ran, IsDelivered-Received payload s.tx s' d)
