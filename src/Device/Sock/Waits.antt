-- ===== src/Device/Sock/Waits.antt =====
-- The functions of gbridge.c that wait or write never fail, whatever arrives meanwhile.
use libmobile_atmega.Prelude.{
  ℕ, zero, suc, ◌+◌, ◌%◌, ◌≤◌, ◌≡◌, refl, arith, ◌==◌, not, leb, ◌&&◌, Bool, true, false,
  Bool-cases, Option, none, some, inl, inr, List, [], ◌∷◌, ◌++◌, length, take, if◌then◌else◌,
}
use libmobile_atmega.Wire.{gbridge_max_data_size, byte, word_bytes, checksum_loop}
use libmobile_atmega.Wire.Cmd
use libmobile_atmega.Device.State.{Device}
use libmobile_atmega.Device.Loop.{gbridge_recv_data, gbridge_recv_data_done}
use libmobile_atmega.Device.Inv.{IsValid}
use libmobile_atmega.Device.Safe.{gbridge_loop_total}
use libmobile_atmega.Device.Send.{
  Event, arrive, Outcome, returned, waiting, fault, and_then, wait_while, wait_cmd,
  gbridge_cmd_data, gbridge_recv_data_wait, gbridge_cmd_stream_start, gbridge_cmd_stream_data,
  gbridge_cmd_stream_finish, checksum_add,
}
use libmobile_atmega.Device.Write.{gbridge_cmd_data-data_frame, put_bytes_lem}
use libmobile_atmega.Device.Sock.{Reply}

-- A call has returned with such a value, or still waits, and the adapter's state is valid; it has
-- not failed.
abbrev pub IsSafe : {A : Type 0} → (A → Type 0) → Outcome A → Type 0
IsSafe P (returned a s es) = P a × IsValid s
IsSafe P (waiting s) = IsValid s
IsSafe P fault = ⊥

abbrev pub Any : {A : Type 0} → A → Type 0
Any a = Unit

pub arrive-IsValid : (e : Event) (s : Device) → IsValid s → IsValid (arrive e s)
arrive-IsValid e s v = ground arith

-- What follows a call that is safe, and a choice between two
pub and_then-IsSafe :
    {A B : Type 0} {P : A → Type 0} (Q : B → Type 0) (o : Outcome A)
    (f : A → Device → List Event → Outcome B)
    → IsSafe P o
    → ((a : A) (s : Device) (es : List Event) → P a → IsValid s → IsSafe Q (f a s es))
    → IsSafe Q (and_then o f)
and_then-IsSafe Q (returned a s es) f h k = k a s es h.0 h.1
and_then-IsSafe Q (waiting s) f h k = h
and_then-IsSafe Q fault f h k = absurd h

pub if-IsSafe :
    {A : Type 0} (Q : A → Type 0) (b : Bool) (o o' : Outcome A)
    → IsSafe Q o
    → IsSafe Q o'
    → IsSafe Q (if b then o else o')
if-IsSafe Q true o o' h h' = h
if-IsSafe Q false o o' h h' = h'

pub wait_while-IsSafe :
    (test : Device → Bool) (es : List Event) (s : Device)
    → IsValid s
    → IsSafe Any (wait_while test es s)
unfolding wait_while
wait_while-IsSafe test [] s v = go (test s)
  where
    go : (b : Bool) → IsSafe Any (if b then waiting s else returned tt s [])
    go true = v
    go false = (tt, v)
wait_while-IsSafe test (e ∷ es) s v =
    let (s', runs, v') = gbridge_loop_total (arrive e s) (arrive-IsValid e s v) in
    let rest = wait_while-IsSafe test es s' v' in
    elim (Bool-cases (test s)) [
      | inl b ↦ rw (b, runs, wait_while) rest
      | inr b ↦ rw (b, wait_while) (tt, v)
    ]

pub await-IsValid :
    (cmd : ℕ) (s : Device)
    → IsValid s
    → IsValid (record s { waiting_cmd = cmd; waiting_cmd_time = s.now })
await-IsValid cmd s v = ground arith

pub wait_cmd-IsSafe :
    (cmd : ℕ) (es : List Event) (s : Device) → IsValid s → IsSafe Any (wait_cmd cmd es s)
unfolding wait_cmd
wait_cmd-IsSafe cmd es s v =
    if-IsSafe Any (not s.connected) _ _ (tt, v)
      (and_then-IsSafe {P = Any} Any (wait_while (λ r. not (r.waiting_cmd == Cmd.none)) es s) _
        (wait_while-IsSafe _ es s v)
        (λ u s' es' p v'. wait_while-IsSafe _ es' _ (await-IsValid cmd s' v')))

pub written-IsValid : (l : List ℕ) (s : Device) → IsValid s → IsValid (record s { tx = l })
written-IsValid l s v = ground arith

pub cmd_data-IsSafe :
    (l : List ℕ) (es : List Event) (s : Device)
    → IsValid s
    → IsSafe Any (gbridge_cmd_data (length l) l es s)
cmd_data-IsSafe l es s v = rw (gbridge_cmd_data-data_frame (length l) l es s (omega arith)) (
    if-IsSafe Any (s.connected && leb (length l) gbridge_max_data_size) _ (returned tt s es)
      (wait_cmd-IsSafe Cmd.data_packet es _ (written-IsValid _ s v)) (tt, v))

-- A reply is a packet in the buffer of 128 bytes.
abbrev pub IsPacket : Reply → Type 0
IsPacket none = Unit
IsPacket (some (size, buffer)) =
    (length buffer ≡ gbridge_max_data_size) × (size ≤ gbridge_max_data_size)

pub recv_data-IsPacket :
    (b : Bool) (s : Device) → IsValid s → IsPacket (if b then gbridge_recv_data s else none)
unfolding gbridge_recv_data
recv_data-IsPacket false s v = tt
recv_data-IsPacket true s v = go s.data_ready
  where
    go : (b : Bool) → IsPacket (if not b then none else some (s.data_size, s.data_buf))
    go true = (v.data_room, v.data_fits)
    go false = tt

pub data_wait-IsSafe :
    (es : List Event) (s : Device) → IsValid s → IsSafe IsPacket (gbridge_recv_data_wait es s)
unfolding gbridge_recv_data_wait
data_wait-IsSafe es s v =
    and_then-IsSafe {P = Any} IsPacket (wait_while _ es s) _ (wait_while-IsSafe _ es s v)
      (λ u s' es' p v'. (recv_data-IsPacket s'.connected s' v', v'))

pub done-IsValid : (s : Device) → IsValid s → IsValid (gbridge_recv_data_done s)
unfolding gbridge_recv_data_done
done-IsValid s v = ground arith

checksum_loop_total :
    (n : ℕ) (l : List ℕ) (x : ℕ) → n ≤ length l → (y : ℕ) × (checksum_loop n l x ≡ some y)
unfolding checksum_loop
checksum_loop_total zero l x h = (x, refl)
checksum_loop_total (suc n) [] x h = absurd (omega arith)
checksum_loop_total (suc n) (c ∷ l) x h = checksum_loop_total n l ((x + c) % 0x1_0000) (omega arith)

-- The functions that write a stream
abbrev pub Returns : Option (Unit {0} × Device) → Type 0
Returns o = (s : Device) × (o ≡ some (tt, s)) × IsValid s

pub stream_start-Returns : (n : ℕ) (s : Device) → IsValid s → Returns (gbridge_cmd_stream_start n s)
unfolding gbridge_cmd_stream_start
stream_start-Returns n s v = elim (Bool-cases s.connected) [
  | inl b ↦ (
    record s { tx = (s.tx ++ (Cmd.stream ∷ [])) ++ word_bytes n; stream_checksum = 0 },
    ground (arith, b),
    ground arith,
  )
  | inr b ↦ (s, ground (arith, b), v)
]

pub stream_data-Returns :
    (buffer : List ℕ) (size : ℕ) (s : Device)
    → size ≤ length buffer
    → IsValid s
    → Returns (gbridge_cmd_stream_data buffer size s)
unfolding gbridge_cmd_stream_data checksum_add
stream_data-Returns buffer size s h v =
    let (y, sums) = checksum_loop_total (byte size) buffer s.stream_checksum (omega arith) in
    let s₁ = record s { stream_checksum = y } in
    elim (Bool-cases s.connected) [
      | inl b ↦ (
        record s₁ { tx = s.tx ++ take size buffer },
        ground (arith, b, sums, put_bytes_lem size buffer s₁ h),
        ground arith,
      )
      | inr b ↦ (s, ground (arith, b), v)
    ]

pub stream_finish-IsSafe :
    (es : List Event) (s : Device) → IsValid s → IsSafe Any (gbridge_cmd_stream_finish es s)
unfolding gbridge_cmd_stream_finish
stream_finish-IsSafe es s v =
    if-IsSafe Any (not s.connected) (returned tt s es) _ (tt, v)
      (wait_cmd-IsSafe Cmd.stream es _ (written-IsValid _ s v))
