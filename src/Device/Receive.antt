-- ===== src/Device/Receive.antt =====
-- The receiving half of atmega328p/source/gbridge.c up to `gbridge_loop`: the handshake and the
-- handlers of the commands that the bridge sends.
use libmobile_atmega.Prelude.{
  ℕ, ◌+◌, ◌*◌, ◌%◌, ◌==◌, ltb, leb, not, Bool, true, false, Option, none, some, List, [], ◌∷◌,
  length, get_elem?, store, bit_or, if◌then◌else◌,
}
use libmobile_atmega.Wire.{handshake, gbridge_max_data_size, reply, byte, word, checksum_loop}
use libmobile_atmega.Wire.Cmd
use libmobile_atmega.Device.State.{
  M, pure, ◌>>=◌, ◌>>◌, modify, available, getchar, put_all, putchar, gbridge_init,
}

-- What a handler returns: 1, 0 or -1
pub data Rc : Type 0 where
  finished pending failed : Rc

-- The part of `do_handshake` behind the read of the byte `c`
unfoldable pub match_byte : ℕ → M Bool
match_byte c s = elim (get_elem? handshake s.handshake_progress) [
  | none ↦ none
  | some expected ↦
      let progress = byte (s.handshake_progress + 1) in
      let accepted = record s { handshake_progress = 0 } in
      if not (expected == c)
      then some (false, record s { handshake_progress = if c == 0x99 then 1 else 0 })
      else if not (progress == length handshake)
      then some (false, record s { handshake_progress = progress })
      else (put_all handshake >> pure true) accepted
]

unfoldable pub do_handshake : M Bool
do_handshake = do n ← available; if n == 0 then pure false else getchar >>= match_byte

unfoldable pub recv_cmd_reset : M Rc
recv_cmd_reset = do modify gbridge_init; putchar (reply Cmd.reset); pure finished

-- The variables of the loop `while (serial_available()) { buffer[cur++] = serial_getchar(); … }`
-- when it ends: `full` says that it ended by its `break`.
pub record Filled : Type 0 where
  pub buffer : List ℕ
  pub cur : ℕ
  pub rest : List ℕ
  pub full : Bool

-- That loop over the bytes at hand. `cur` is a number below `modulus`, and `none` is a write
-- outside the buffer.
unfoldable pub fill : ℕ → ℕ → List ℕ → ℕ → List ℕ → Option Filled
fill modulus len buffer cur [] =
    some (record { buffer = buffer; cur = cur; rest = []; full = false })
fill modulus len buffer cur (c ∷ rx) = elim (store buffer cur c) [
  | none ↦ none
  | some written ↦
      let next = (cur + 1) % modulus in
      let more = fill modulus len written next rx in
      if leb len next
      then some (record { buffer = written; cur = next; rest = rx; full = true })
      else more
]

-- `case 2` of `recv_cmd_data_pc`
unfoldable pub data_verify : ℕ → M Rc
data_verify checksum s = elim (checksum_loop s.data_size s.data_buf 0) [
  | none ↦ none
  | some expected ↦
      if not (checksum == expected)
      then some (failed, s)
      else (do
        putchar (reply Cmd.data_pc)
        modify (λ r. record r { data_ready = true })
        pure finished)
          s
]

unfoldable pub data_checksum : M Rc
data_checksum = do
  n ← available
  if ltb n 2 then pure pending else (do hi ← getchar; lo ← getchar; data_verify (word hi lo))

-- `case 1`, and the fall through into `case 2`
unfoldable pub data_bytes : M Rc
data_bytes s = elim (fill 256 s.data_len s.data_buf s.data_cur s.rx) [
  | none ↦ none
  | some f ↦
      let read = record s { data_buf = f.buffer; data_cur = f.cur; rx = f.rest } in
      if f.full
      then data_checksum (record read { data_size = s.data_len; processing_cmd_state = 2 })
      else some (pending, read)
]

-- `case 0`, and the fall through into `case 1`
unfoldable pub data_length : M Rc
data_length = do
  n ← available
  if n == 0 then pure pending else (do
    len ← getchar
    modify (λ s. record s { data_len = len })
    if ltb gbridge_max_data_size len
        then pure failed
        else (do modify (λ s. record s { data_cur = 0; processing_cmd_state = 1 }); data_bytes))

unfoldable pub recv_cmd_data_pc : M Rc
recv_cmd_data_pc s =
    if s.data_ready
    then some (failed, s)
    else if s.processing_cmd_state == 0
    then data_length s
    else if s.processing_cmd_state == 1
    then data_bytes s
    else if s.processing_cmd_state == 2
    then data_checksum s
    else some (pending, s)

-- `case 2` of `recv_cmd_stream_pc`
unfoldable pub stream_verify : ℕ → M Rc
stream_verify checksum s = elim (checksum_loop s.stream_size s.stream_buf 0) [
  | none ↦ none
  | some expected ↦
      if not (checksum == expected)
      then some (failed, s)
      else (do
        putchar (reply Cmd.stream_pc)
        modify (λ r. record r { stream_max_size = 0 })
        pure finished)
          s
]

unfoldable pub stream_checksum_bytes : M Rc
stream_checksum_bytes = do
  n ← available
  if ltb n 2 then pure pending else (do hi ← getchar; lo ← getchar; stream_verify (word hi lo))

unfoldable pub stream_bytes : M Rc
stream_bytes s = elim (fill 0x1_0000 s.stream_size s.stream_buf s.stream_cur s.rx) [
  | none ↦ none
  | some f ↦
      let read = record s { stream_buf = f.buffer; stream_cur = f.cur; rx = f.rest } in
      if f.full
      then stream_checksum_bytes (record read { processing_cmd_state = 2 })
      else some (pending, read)
]

-- The end of `case 0`, and the fall through into `case 1`
unfoldable pub stream_fits : M Rc
stream_fits s =
    if ltb s.stream_max_size s.stream_size
    then some (failed, s)
    else stream_bytes (record s { stream_cur = 0; processing_cmd_state = 1 })

-- The field `size` is an `unsigned char`, so it keeps the low byte of each value assigned to it.
unfoldable pub stream_length : M Rc
stream_length = do
  n ← available
  if ltb n 2 then pure pending else (do
    hi ← getchar
    modify (λ s. record s { stream_size = byte (hi * 256) })
    lo ← getchar
    modify (λ s. record s { stream_size = byte (bit_or s.stream_size lo) })
    stream_fits)

unfoldable pub recv_cmd_stream_pc : M Rc
recv_cmd_stream_pc s =
    if s.stream_max_size == 0
    then some (failed, s)
    else if s.processing_cmd_state == 0
    then stream_length s
    else if s.processing_cmd_state == 1
    then stream_bytes s
    else if s.processing_cmd_state == 2
    then stream_checksum_bytes s
    else some (pending, s)
