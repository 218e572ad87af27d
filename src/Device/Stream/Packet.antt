-- ===== src/Device/Stream/Packet.antt =====
-- Whole stream packets through `gbridge_loop` of atmega328p/source/gbridge.c: those that are received,
-- and those whose length does not fit a byte.
use libmobile_atmega.Prelude.{
  ℕ, ◌≤◌, ◌<◌, ◌≡◌, ◌≢◌, refl, ap, sym, ◌∙◌, arith, true, false, some, List, [], ◌∷◌, ◌++◌,
  append_assoc, length, take, take-take,
}
use libmobile_atmega.Wire.{byte, word, word_bytes, reply}
use libmobile_atmega.Wire.Cmd
use libmobile_atmega.Wire.Checksum.{checksum}
use libmobile_atmega.Wire.Frame.{stream_frame}
use libmobile_atmega.Device.State.{Device, gbridge_init}
use libmobile_atmega.Device.Receive.{finished, failed}
use libmobile_atmega.Device.Fill.{wanted}
use libmobile_atmega.Device.Loop.{settle, gbridge_loop, gbridge_recv_stream_done}
use libmobile_atmega.Device.Packet.Chunks.{IsIdle}
use libmobile_atmega.Device.Stream.{
  loaded, started, stream_whole, sum_accepted, sum_refused, stream_loop,
}

-- A stream packet with a payload of 1 to 255 bytes, no longer than the caller of
-- `gbridge_recv_stream` allows, that is in the ring as a whole is received by one call of
-- `gbridge_loop` at an idle adapter: its payload is in the buffer, `gbridge_recv_stream_done` holds,
-- it is acknowledged once, and the bytes behind it stay in the ring.
pub stream_packet_received :
    (payload rest : List ℕ) (s : Device)
    → IsIdle s
    → 0 < length payload
    → length payload < 256
    → length payload ≤ s.stream_max_size
    → s.rx ≡ stream_frame Cmd.stream_pc payload ++ rest
    → (s' : Device) × (gbridge_loop s ≡ some (tt, s'))
      × (gbridge_recv_stream_done s' ≡ true)
      × (take (length payload) s'.stream_buf ≡ payload)
      × (s'.tx ≡ s.tx ++ (reply Cmd.stream_pc ∷ []))
      × (s'.rx ≡ rest)
      × (s'.connected ≡ true)
unfolding gbridge_recv_stream_done
stream_packet_received payload rest s i some_payload short fits r =
    let tail = word_bytes (checksum payload) ++ rest in
    let low : byte (length payload) ≡ length payload = omega arith in
    let l = word_bytes (length payload) ++ (payload ++ tail) in
    let at : s.rx ≡ Cmd.stream_pc ∷ l =
      r
      ∙ ap (λ x. Cmd.stream_pc ∷ (word_bytes (length payload) ++ x))
          (append_assoc payload (word_bytes (checksum payload)) rest) in
    let (buf, goes, held, size) =
      stream_whole (length payload) payload tail (started s l) (omega arith) refl
        i.valid.stream_room refl (omega arith) (omega arith) in
    let s₁ =
      loaded buf tail (length payload)
        (record (started s l) { stream_size = byte (length payload) }) in
    let ends =
      sum_accepted payload rest s₁ refl (ap (λ n. take n buf) low ∙ held)
        (omega (arith, size, i.valid.stream_room)) in
    (
      settle finished
          (record s₁ { rx = rest; tx = s.tx ++ (reply Cmd.stream_pc ∷ []); stream_max_size = 0 }),
      stream_loop s _ l finished i at (goes ∙ ends),
      (unfold settle in refl),
      (unfold settle in held),
      (unfold settle in refl),
      (unfold settle in refl),
      (unfold settle in i.connected),
    )

-- The length of a stream packet is taken modulo 256: of a packet that announces `n` bytes and of
-- which an idle adapter with a large enough buffer has as many as that remainder asks for (at least
-- one), it takes the two bytes behind them for the checksum. If they are not the checksum of the
-- bytes of the remainder, it resets and is disconnected, and acknowledges nothing.
pub stream_length_truncated :
    (n hi lo : ℕ) (front rest : List ℕ) (s : Device)
    → IsIdle s
    → s.stream_max_size ≢ 0
    → byte n ≤ s.stream_max_size
    → length front ≡ wanted (byte n)
    → s.rx ≡ Cmd.stream_pc ∷ (word_bytes n ++ (front ++ (hi ∷ lo ∷ rest)))
    → word hi lo ≢ checksum (take (byte n) front)
    → (s' : Device) × (gbridge_loop s ≡ some (tt, s'))
      × (s'.connected ≡ false)
      × (s'.tx ≡ s.tx)
      × (s'.rx ≡ rest)
unfolding gbridge_init
stream_length_truncated n hi lo front rest s i some_room fits len r ne =
    let tail = hi ∷ lo ∷ rest in
    let l = word_bytes n ++ (front ++ tail) in
    let (buf, goes, held, size) =
      stream_whole n front tail (started s l) some_room refl i.valid.stream_room refl fits len in
    let s₁ = loaded buf tail (length front) (record (started s l) { stream_size = byte n }) in
    let part : take (byte n) buf ≡ take (byte n) front =
      sym (take-take (byte n) (length front) buf (omega arith)) ∙ ap (λ x. take (byte n) x) held in
    let ends =
      sum_refused (take (byte n) front) rest hi lo s₁ refl part
        (omega (arith, size, i.valid.stream_room, fits)) ne in
    (
      gbridge_init (record s₁ { rx = rest }),
      stream_loop s _ l failed i r (goes ∙ ends) ∙ (unfold settle in refl),
      refl,
      refl,
      refl,
    )
