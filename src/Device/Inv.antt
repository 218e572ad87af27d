-- ===== src/Device/Inv.antt =====
-- The invariant of the adapter's protocol state, and that the handlers keep it: no handler touches
-- a buffer outside its bounds or waits for a byte that has not arrived.
use libmobile_atmega.Prelude.{
  ℕ, suc, ◌+◌, ◌-◌, ◌≤◌, ◌<◌, ◌≡◌, ◌≢◌, arith, Option, none, some, length, get_elem?-eq-get_or,
}
use libmobile_atmega.Wire.{handshake, gbridge_max_data_size}
use libmobile_atmega.Wire.Checksum.{checksum_loop_lem}
use libmobile_atmega.Wire.Cmd
use libmobile_atmega.Device.State.{Device, gbridge_init}
use libmobile_atmega.Device.Receive.{
  Filled, fill, match_byte, do_handshake, recv_cmd_reset, data_verify, data_checksum, data_bytes,
  data_length, recv_cmd_data_pc, stream_verify, stream_checksum_bytes, stream_bytes, stream_fits,
  stream_length, recv_cmd_stream_pc,
}
use libmobile_atmega.Device.Fill.{wanted, IsFilled, fill_lem}

-- A call returns, and what it returns has a property.
abbrev pub Ends : {A : Type 0} → (A → Device → Type 0) → Option (A × Device) → Type 0
Ends P none = ⊥
Ends P (some (a, s)) = P a s

-- The bytes still to come when a data packet's payload is being read
abbrev pub IsReadingData : Device → Type 0
IsReadingData s = (s.data_len ≤ gbridge_max_data_size) × (s.data_cur < wanted s.data_len)

pub record IsValid (s : Device) : Type 0 where
  pub progress : s.handshake_progress < length handshake
  pub data_room : length s.data_buf ≡ gbridge_max_data_size
  pub data_fits : s.data_size ≤ gbridge_max_data_size
  pub stream_room : s.stream_max_size ≤ length s.stream_buf
  pub max_unsigned : s.stream_max_size < 0x1_0000
  pub size_byte : s.stream_size < 0x100
  pub data_stage : s.processing_cmd ≡ Cmd.data_pc → s.processing_cmd_state ≡ 1 → IsReadingData s
  pub stream_cur_stage :
      s.processing_cmd ≡ Cmd.stream_pc
      → s.processing_cmd_state ≡ 1
      → s.stream_cur < wanted s.stream_size
  pub stream_stage :
      s.processing_cmd ≡ Cmd.stream_pc
      → s.processing_cmd_state ≢ 0
      → s.stream_max_size ≢ 0
      → s.stream_size ≤ s.stream_max_size

pub gbridge_init-IsValid : {s : Device} → IsValid s → IsValid (gbridge_init s)
unfolding gbridge_init
gbridge_init-IsValid v = ground arith

pub match_byte-IsValid :
    (c : ℕ) (s : Device) → IsValid s → Ends (λ _ s'. IsValid s') (match_byte c s)
unfolding match_byte
match_byte-IsValid c s v = ground (arith, get_elem?-eq-get_or handshake s.handshake_progress 0)

data_verify-IsValid : (x : ℕ) (s : Device) → IsValid s → Ends (λ _ s'. IsValid s') (data_verify x s)
unfolding data_verify
data_verify-IsValid x s v = ground (arith, checksum_loop_lem s.data_size s.data_buf)

data_checksum-IsValid : (s : Device) → IsValid s → Ends (λ _ s'. IsValid s') (data_checksum s)
unfolding data_checksum data_verify
data_checksum-IsValid s v = ground (arith, checksum_loop_lem s.data_size s.data_buf)

data_bytes-IsFilled :
    (s : Device) (f : Filled) (n : ℕ)
    → IsValid s
    → s.data_len ≤ gbridge_max_data_size
    → s.processing_cmd ≡ Cmd.data_pc
    → wanted s.data_len ≡ s.data_cur + suc n
    → fill 256 s.data_len s.data_buf s.data_cur s.rx ≡ some f
    → IsFilled (suc n) s.data_buf s.data_cur s.rx f
    → Ends (λ _ s'. IsValid s') (data_bytes s)
unfolding data_bytes data_checksum data_verify
data_bytes-IsFilled s f n v fits cmd missing e filled =
    rw (e, data_bytes) (ground (arith, checksum_loop_lem s.data_len f.buffer))

data_bytes-IsValid :
    (s : Device)
    → IsValid s
    → IsReadingData s
    → s.processing_cmd ≡ Cmd.data_pc
    → Ends (λ _ s'. IsValid s') (data_bytes s)
data_bytes-IsValid s v stage cmd =
    let n = wanted s.data_len - s.data_cur - 1 in
    let (f, e, filled) =
      fill_lem 256 s.data_len s.data_buf s.data_cur s.rx n (omega arith)
        (omega (arith, v.data_room)) (omega arith) in
    data_bytes-IsFilled s f n v stage.0 cmd (omega arith) e filled

data_length-IsValid :
    (s : Device)
    → IsValid s
    → s.processing_cmd ≡ Cmd.data_pc
    → s.processing_cmd_state ≡ 0
    → Ends (λ _ s'. IsValid s') (data_length s)
unfolding data_length
data_length-IsValid s v cmd at = grind (arith, data_bytes-IsValid)

pub recv_cmd_data_pc-IsValid :
    (s : Device)
    → IsValid s
    → s.processing_cmd ≡ Cmd.data_pc
    → Ends (λ _ s'. IsValid s') (recv_cmd_data_pc s)
unfolding recv_cmd_data_pc
recv_cmd_data_pc-IsValid s v cmd =
    ground (arith, data_length-IsValid s, data_bytes-IsValid s, data_checksum-IsValid s)

stream_verify-IsValid :
    (x : ℕ) (s : Device)
    → IsValid s
    → s.stream_size ≤ s.stream_max_size
    → Ends (λ _ s'. IsValid s') (stream_verify x s)
unfolding stream_verify
stream_verify-IsValid x s v fits = ground (arith, checksum_loop_lem s.stream_size s.stream_buf)

stream_checksum_bytes-IsValid :
    (s : Device)
    → IsValid s
    → s.stream_size ≤ s.stream_max_size
    → Ends (λ _ s'. IsValid s') (stream_checksum_bytes s)
unfolding stream_checksum_bytes stream_verify
stream_checksum_bytes-IsValid s v fits =
    ground (arith, checksum_loop_lem s.stream_size s.stream_buf)

stream_bytes-IsFilled :
    (s : Device) (f : Filled) (n : ℕ)
    → IsValid s
    → s.stream_size ≤ s.stream_max_size
    → s.processing_cmd ≡ Cmd.stream_pc
    → wanted s.stream_size ≡ s.stream_cur + suc n
    → fill 0x1_0000 s.stream_size s.stream_buf s.stream_cur s.rx ≡ some f
    → IsFilled (suc n) s.stream_buf s.stream_cur s.rx f
    → Ends (λ _ s'. IsValid s') (stream_bytes s)
unfolding stream_bytes stream_checksum_bytes stream_verify
stream_bytes-IsFilled s f n v fits cmd missing e filled =
    rw (e, stream_bytes) (ground (arith, checksum_loop_lem s.stream_size f.buffer))

stream_bytes-IsValid :
    (s : Device)
    → IsValid s
    → s.stream_cur < wanted s.stream_size
    → s.stream_size ≤ s.stream_max_size
    → s.stream_max_size ≢ 0
    → s.processing_cmd ≡ Cmd.stream_pc
    → Ends (λ _ s'. IsValid s') (stream_bytes s)
stream_bytes-IsValid s v below fits some_room cmd =
    let n = wanted s.stream_size - s.stream_cur - 1 in
    let (f, e, filled) =
      fill_lem 0x1_0000 s.stream_size s.stream_buf s.stream_cur s.rx n (omega arith)
        (omega (arith, v.stream_room)) (omega (arith, v.size_byte)) in
    stream_bytes-IsFilled s f n v fits cmd (omega arith) e filled

stream_fits-IsValid :
    (s : Device)
    → IsValid s
    → s.stream_max_size ≢ 0
    → s.processing_cmd ≡ Cmd.stream_pc
    → s.processing_cmd_state ≡ 0
    → Ends (λ _ s'. IsValid s') (stream_fits s)
unfolding stream_fits
stream_fits-IsValid s v some_room cmd at =
    ground (arith, stream_bytes-IsValid (record s { stream_cur = 0; processing_cmd_state = 1 }))

stream_length-IsValid :
    (s : Device)
    → IsValid s
    → s.stream_max_size ≢ 0
    → s.processing_cmd ≡ Cmd.stream_pc
    → s.processing_cmd_state ≡ 0
    → Ends (λ _ s'. IsValid s') (stream_length s)
unfolding stream_length
stream_length-IsValid s v some_room cmd at = grind (arith, stream_fits-IsValid)

pub recv_cmd_stream_pc-IsValid :
    (s : Device)
    → IsValid s
    → s.processing_cmd ≡ Cmd.stream_pc
    → Ends (λ _ s'. IsValid s') (recv_cmd_stream_pc s)
unfolding recv_cmd_stream_pc
recv_cmd_stream_pc-IsValid s v cmd =
    ground (arith, stream_length-IsValid s, stream_bytes-IsValid s, stream_checksum_bytes-IsValid s)

pub recv_cmd_reset-IsValid : (s : Device) → IsValid s → Ends (λ _ s'. IsValid s') (recv_cmd_reset s)
unfolding recv_cmd_reset gbridge_init
recv_cmd_reset-IsValid s v = ground arith

pub do_handshake-IsValid : (s : Device) → IsValid s → Ends (λ _ s'. IsValid s') (do_handshake s)
unfolding do_handshake
do_handshake-IsValid s v = grind (arith, match_byte-IsValid)
