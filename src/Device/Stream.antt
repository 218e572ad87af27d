-- ===== src/Device/Stream.antt =====
-- A stream packet at the adapter: `recv_cmd_stream_pc` of atmega328p/source/gbridge.c.
pub mod Packet
use libmobile_atmega.Prelude.{
  ℕ, suc, ◌+◌, ◌-◌, ◌*◌, ◌/◌, ◌≤◌, ◌<◌, ◌≡◌, ◌≢◌, refl, ap, ap₂, sym, ◌∙◌, arith, true, false, some,
  List, [], ◌∷◌, ◌++◌, append_assoc, length, length-append, take, drop, take-length-append,
  drop-length-append, take-take, bit_or, zero-bit_or,
}
use libmobile_atmega.Wire.{byte, word, word_bytes, checksum_loop, reply}
use libmobile_atmega.Wire.Cmd
use libmobile_atmega.Wire.Checksum.{checksum, checksum-lt, checksum_loop_lem, word-word_bytes}
use libmobile_atmega.Wire.Frame.{stream_frame}
use libmobile_atmega.Device.State.{Device, gbridge_init}
use libmobile_atmega.Device.Receive.{
  Rc, finished, failed, stream_verify, stream_checksum_bytes, stream_bytes, stream_fits,
  stream_length, recv_cmd_stream_pc,
}
use libmobile_atmega.Device.Fill.{wanted, fill_lem}
use libmobile_atmega.Device.Loop.{
  run_cmd, settle, gbridge_loop, fetch_cmd, accept_cmd, gbridge_recv_stream_done,
}
use libmobile_atmega.Device.Packet.Turn.{loop_fetched}
use libmobile_atmega.Device.Packet.Chunks.{IsIdle}

-- The length bytes: what the field `size` keeps of them is the low byte.
stream_length_low :
    (n : ℕ) (tail : List ℕ) (s : Device)
    → s.rx ≡ word_bytes n ++ tail
    → byte n ≤ s.stream_max_size
    → stream_length s
      ≡ stream_bytes
          (record s { stream_size = byte n; rx = tail; stream_cur = 0; processing_cmd_state = 1 })
unfolding stream_length stream_fits
stream_length_low n tail s r fits = rw (r, stream_length) (ground (arith, low))
  where
    low : bit_or (byte (byte (n / 256) * 256)) (byte n) ≡ byte n
    low = ap (λ (x : ℕ). bit_or x (byte n)) (omega arith) ∙ zero-bit_or (byte n)

-- The state after the bytes that the handler wants
abbrev pub loaded : List ℕ → List ℕ → ℕ → Device → Device
loaded buf tail cur s = record s {
  stream_buf = buf;
  stream_cur = cur;
  rx = tail;
  processing_cmd_state = 2;
}

stream_bytes_whole :
    (front tail : List ℕ) (s : Device)
    → s.stream_cur ≡ 0
    → length front ≡ wanted s.stream_size
    → wanted s.stream_size ≤ length s.stream_buf
    → s.stream_size < 256
    → s.rx ≡ front ++ tail
    → (buf : List ℕ) × (stream_bytes s ≡ stream_checksum_bytes (loaded buf tail (length front) s))
      × (take (length front) buf ≡ front)
      × (length buf ≡ length s.stream_buf)
unfolding stream_bytes
stream_bytes_whole front tail s cur len room small r =
    let n = length front - 1 in
    let all : length front ≡ suc n = omega arith in
    let (f, e, v) =
      fill_lem 0x1_0000 s.stream_size s.stream_buf s.stream_cur s.rx n (omega arith) room
        (omega arith) in
    let lens : length s.rx ≡ length front + length tail = ap length r ∙ length-append front tail in
    let full : f.full ≡ true = ground (arith, v.full, all, lens) in
    let cur' : f.cur ≡ length front = omega (arith, v.count, all, lens, cur) in
    let left : f.rest ≡ tail = v.rest ∙ ap₂ drop (sym all) r ∙ drop-length-append front tail in
    (
      f.buffer,
      ground (arith, e, full, cur', left),
      ap (λ k. take k f.buffer) (sym cur')
          ∙ v.bytes
          ∙ ap₂ (λ k m. take k s.stream_buf ++ m) cur
              (ap₂ take (sym all) r ∙ take-length-append front tail),
      v.size,
    )

-- The handler from the command on, to the checksum
pub stream_whole :
    (n : ℕ) (front tail : List ℕ) (s : Device)
    → s.stream_max_size ≢ 0
    → s.processing_cmd_state ≡ 0
    → s.stream_max_size ≤ length s.stream_buf
    → s.rx ≡ word_bytes n ++ (front ++ tail)
    → byte n ≤ s.stream_max_size
    → length front ≡ wanted (byte n)
    → (buf : List ℕ) × (recv_cmd_stream_pc s
        ≡ stream_checksum_bytes
            (loaded buf tail (length front) (record s { stream_size = byte n })))
      × (take (length front) buf ≡ front)
      × (length buf ≡ length s.stream_buf)
unfolding recv_cmd_stream_pc
stream_whole n front tail s some_room at room r fits len =
    let s₁ = record s {
      stream_size = byte n;
      rx = front ++ tail;
      stream_cur = 0;
      processing_cmd_state = 1;
    } in
    let (buf, goes, held, size) =
      stream_bytes_whole front tail s₁ refl len (omega arith) (omega arith) refl in
    (buf, ground (arith, stream_length_low n (front ++ tail) s r fits, goes), held, size)

-- At the checksum, where it is the one of the bytes held
pub sum_accepted :
    (payload rest : List ℕ) (s : Device)
    → s.rx ≡ word_bytes (checksum payload) ++ rest
    → take s.stream_size s.stream_buf ≡ payload
    → s.stream_size ≤ length s.stream_buf
    → stream_checksum_bytes s
      ≡ some (
        finished,
        record s { rx = rest; tx = s.tx ++ (reply Cmd.stream_pc ∷ []); stream_max_size = 0 },
      )
unfolding stream_checksum_bytes stream_verify
sum_accepted payload rest s r held room =
    rw (r, stream_checksum_bytes)
      (ground (arith, sums, word-word_bytes (checksum payload) (checksum-lt payload)))
  where
    sums : checksum_loop s.stream_size s.stream_buf 0 ≡ some (checksum payload)
    sums = checksum_loop_lem s.stream_size s.stream_buf room ∙ ap (λ p. some (checksum p)) held

-- At the checksum, where it is another
pub sum_refused :
    (held rest : List ℕ) (hi lo : ℕ) (s : Device)
    → s.rx ≡ hi ∷ lo ∷ rest
    → take s.stream_size s.stream_buf ≡ held
    → s.stream_size ≤ length s.stream_buf
    → word hi lo ≢ checksum held
    → stream_checksum_bytes s ≡ some (failed, record s { rx = rest })
unfolding stream_checksum_bytes stream_verify
sum_refused held rest hi lo s r holds room ne = rw (r, stream_checksum_bytes) (ground (arith, sums))
  where
    sums : checksum_loop s.stream_size s.stream_buf 0 ≡ some (checksum held)
    sums = checksum_loop_lem s.stream_size s.stream_buf room ∙ ap (λ p. some (checksum p)) holds

abbrev pub started : Device → List ℕ → Device
started s l = record s {
  rx = l;
  processing_cmd = Cmd.stream_pc;
  processing_cmd_state = 0;
  processing_cmd_time = s.now;
}

fetch_stream_pc :
    (s : Device) (l : List ℕ)
    → s.waiting_cmd ≡ Cmd.none
    → s.processing_cmd ≡ Cmd.none
    → s.rx ≡ Cmd.stream_pc ∷ l
    → fetch_cmd s ≡ some (true, started s l)
unfolding fetch_cmd accept_cmd
fetch_stream_pc s l w idle r = ground arith

-- The call of `gbridge_loop` in which the handler ends
pub stream_loop :
    (s s₂ : Device) (l : List ℕ) (rc : Rc)
    → IsIdle s
    → s.rx ≡ Cmd.stream_pc ∷ l
    → recv_cmd_stream_pc (started s l) ≡ some (rc, s₂)
    → gbridge_loop s ≡ some (tt, settle rc s₂)
stream_loop s s₂ l rc i r runs =
    loop_fetched s (started s l) s₂ rc i.connected (ground (arith, i.processing)) i.waiting
      (fetch_stream_pc s l i.waiting i.processing r) (unfold run_cmd in runs)
