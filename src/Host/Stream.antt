-- ===== src/Host/Stream.antt =====
-- Streams at the computer: `gbridge_recv_stream` of bridge/source/gbridge.c.
use libmobile_atmega.Prelude.{
  ℕ, ◌≤◌, ◌<◌, ◌≡◌, refl, ap, sym, ◌∙◌, arith, true, some, List, [], ◌∷◌, ◌++◌, append_assoc,
  length, take, take-take,
}
use libmobile_atmega.Wire.{byte, reply, word_bytes, checksum_loop}
use libmobile_atmega.Wire.Cmd
use libmobile_atmega.Wire.Checksum.{checksum, checksum-lt, checksum_loop_lem, word-word_bytes}
use libmobile_atmega.Host.Port.{SerialPort, IsLine}
use libmobile_atmega.Host.State.{Host}
use libmobile_atmega.Host.Receive.{write, send_ack}
use libmobile_atmega.Host.Loop.{
  host_stream_verify, host_stream_checksum, host_stream_bytes, host_stream_size, host_recv_stream,
}
use libmobile_atmega.Host.Line.{overlay_fits, recv_data_lem}

-- A stream packet with the checksum that both programs compute: that of as many bytes as the low
-- byte of the length says
abbrev pub short_sum_frame : ℕ → List ℕ → List ℕ
short_sum_frame cmd payload =
    cmd
    ∷ (word_bytes (length payload)
        ++ (payload ++ word_bytes (checksum (take (byte (length payload)) payload))))

module _ {P : Type 0} (port : SerialPort P) (line : IsLine port) where
  -- The stream is in the caller's buffer `b`, and has been acknowledged once.
  pub record IsStreamed (payload sent rest b : List ℕ) (waits : ℕ) (s : Host P) : Type 0 where
    pub held : take (length payload) b ≡ payload
    pub acknowledged : line.written s.port ≡ sent ++ (reply Cmd.stream ∷ [])
    pub left : line.pending s.port ≡ rest
    pub connected : s.connected ≡ true
    pub waiting : s.waiting_cmd ≡ waits

  IsStreamed-sent :
      (payload sent sent' rest b : List ℕ) (waits : ℕ) (s : Host P)
      → sent ≡ sent'
      → IsStreamed payload sent rest b waits s
      → IsStreamed payload sent' rest b waits s
  IsStreamed-sent payload sent sent' rest b waits s e d = record {
    held = d.held;
    acknowledged = d.acknowledged ∙ ap (λ x. x ++ (reply Cmd.stream ∷ [])) e;
    left = d.left;
    connected = d.connected;
    waiting = d.waiting;
  }

  sum-IsStreamed :
      (n : ℕ) (payload rest b : List ℕ) (s : Host P)
      → line.pending s.port ≡ word_bytes (checksum (take (byte n) payload)) ++ rest
      → length payload ≡ n
      → take n b ≡ payload
      → n ≤ length b
      → s.connected ≡ true
      → (s' : Host P) × (host_stream_checksum port n b s ≡ some ((some n, b), s'))
        × IsStreamed payload (line.written s.port) rest b s.waiting_cmd s'
  unfolding host_stream_checksum host_stream_verify send_ack write
  sum-IsStreamed n payload rest b s e size held room c =
      let sum = checksum (take (byte n) payload) in
      let (p, reads, left, same) = recv_data_lem port line 2 (word_bytes sum) rest s refl e in
      let read = record s { port = p } in
      (
        send_ack port Cmd.stream read,
        rw (reads, host_stream_checksum)
            (ground (arith, sums, word-word_bytes sum (checksum-lt (take (byte n) payload)))),
        record {
          held = ap (λ k. take k b) size ∙ held;
          acknowledged =
              line.write_written (reply Cmd.stream ∷ []) 0 p
              ∙ ap (λ x. x ++ (reply Cmd.stream ∷ [])) same;
          left = line.write_pending (reply Cmd.stream ∷ []) 0 p ∙ left;
          connected = c;
          waiting = refl;
        },
      )
    where
      sums : checksum_loop (byte n) b 0 ≡ some (checksum (take (byte n) payload))
      sums =
          checksum_loop_lem (byte n) b (omega arith)
          ∙ ap (λ l. some (checksum l))
              (sym (take-take (byte n) n b (omega arith)) ∙ ap (λ l. take (byte n) l) held)

  bytes-IsStreamed :
      (n : ℕ) (payload rest buffer : List ℕ) (s : Host P)
      → line.pending s.port ≡ payload ++ (word_bytes (checksum (take (byte n) payload)) ++ rest)
      → length payload ≡ n
      → n ≤ length buffer
      → s.connected ≡ true
      → (b : List ℕ) × (s' : Host P) × (host_stream_bytes port n buffer s ≡ some ((some n, b), s'))
        × IsStreamed payload (line.written s.port) rest b s.waiting_cmd s'
  unfolding host_stream_bytes
  bytes-IsStreamed n payload rest buffer s e size room c =
      let sum = word_bytes (checksum (take (byte n) payload)) in
      let (p, reads, left, same) = recv_data_lem port line n payload (sum ++ rest) s size e in
      let (b, stores, held, len) = overlay_fits payload buffer (omega (arith, size, room)) in
      let (s', ends, d) =
        sum-IsStreamed n payload rest b (record s { port = p }) left size
          (ap (λ k. take k b) (sym size) ∙ held) (omega (arith, len, room)) c in
      (
        b,
        s',
        rw (reads, host_stream_bytes) (ground (arith, stores, ends)),
        IsStreamed-sent payload _ _ rest b _ s' same d,
      )

  -- `gbridge_recv_stream` receives a stream packet that fits the caller's buffer and arrives in
  -- time: it returns the length, the payload is in the buffer, and it has been acknowledged once.
  -- The checksum that it asks for is that of the first bytes only, as many as the length modulo 256.
  pub host_stream-IsStreamed :
      (payload rest buffer : List ℕ) (max_size : ℕ) (s : Host P)
      → s.connected ≡ true
      → length payload < 0x1_0000
      → length payload ≤ max_size
      → max_size ≤ length buffer
      → line.pending s.port ≡ short_sum_frame Cmd.stream payload ++ rest
      → (b : List ℕ) × (s' : Host P) × (host_recv_stream port buffer max_size s
          ≡ some ((some (length payload), b), s'))
        × IsStreamed payload (line.written s.port) rest b s.waiting_cmd s'
  unfolding host_recv_stream host_stream_size
  host_stream-IsStreamed payload rest buffer max_size s c small fits room e =
      let n = length payload in
      let sum = word_bytes (checksum (take (byte n) payload)) in
      let tail = payload ++ (sum ++ rest) in
      let at : line.pending s.port ≡ Cmd.stream ∷ (word_bytes n ++ tail) =
        e ∙ ap (λ x. Cmd.stream ∷ (word_bytes n ++ x)) (append_assoc payload sum rest) in
      let (p₁, first, left₁, same₁) =
        recv_data_lem port line 1 (Cmd.stream ∷ []) (word_bytes n ++ tail) s refl at in
      let s₁ = record s { port = p₁ } in
      let (p₂, second, left₂, same₂) =
        recv_data_lem port line 2 (word_bytes n) tail s₁ refl left₁ in
      let (b, s', ends, d) =
        bytes-IsStreamed n payload rest buffer (record s { port = p₂ }) left₂ refl
          (omega (arith, fits, room)) c in
      (
        b,
        s',
        rw (first, host_recv_stream)
            (ground (arith, second, ends, c, fits, word-word_bytes n small)),
        IsStreamed-sent payload _ _ rest b _ s' (same₂ ∙ same₁) d,
      )
