-- ===== src/Host/Sent.antt =====
-- What the computer sends: `gbridge_cmd_data` and `gbridge_cmd_stream` of bridge/source/gbridge.c.
use libmobile_atmega.Prelude.{
  ℕ, ◌≤◌, ◌<◌, ◌≡◌, ◌≢◌, ap, ap₂, sym, ◌∙◌, arith, true, some, List, [], ◌∷◌, ◌++◌, append_assoc,
  length, length-take, take, take-take, All,
}
use libmobile_atmega.Wire.{gbridge_max_data_size, byte, reply, word_bytes}
use libmobile_atmega.Wire.Cmd
use libmobile_atmega.Wire.Checksum.{checksum, checksum_loop_lem}
use libmobile_atmega.Wire.Frame.{data_frame}
use libmobile_atmega.Host.Port.{SerialPort, IsLine}
use libmobile_atmega.Host.State.{Host}
use libmobile_atmega.Host.Receive.{write}
use libmobile_atmega.Host.Send.{returned, write_packet, host_cmd_data, host_cmd_stream}
use libmobile_atmega.Host.Stream.{short_sum_frame}
use libmobile_atmega.Host.Wait.{IsAnswered, wait_cmd_reply}

module _ {P : Type 0} (port : SerialPort P) (line : IsLine port) where
  -- The writes of a packet, as one
  abbrev packet_bytes : List ℕ → ℕ → List ℕ → List ℕ
  packet_bytes head size buffer =
      head ++ (take size buffer ++ word_bytes (checksum (take (byte size) buffer)))

  write_packet_lem :
      (head : List ℕ) (size : ℕ) (buffer : List ℕ) (s : Host P)
      → size ≤ length buffer
      → (p : P) × (write_packet port head size buffer s ≡ some (record s { port = p }))
        × (line.written p ≡ line.written s.port ++ packet_bytes head size buffer)
        × (line.pending p ≡ line.pending s.port)
  unfolding write_packet write
  write_packet_lem head size buffer s h =
      let sum = word_bytes (checksum (take (byte size) buffer)) in
      let body = take size buffer in
      let p₁ = port.sp_blocking_write head 0 s.port in
      let p₂ = port.sp_blocking_write body 0 p₁ in
      let p₃ = port.sp_blocking_write sum 0 p₂ in
      (
        p₃,
        ground (arith, checksum_loop_lem (byte size) buffer (omega arith)),
        line.write_written sum 0 p₂
            ∙ ap (λ x. x ++ sum)
                (line.write_written body 0 p₁
                  ∙ ap (λ x. x ++ body) (line.write_written head 0 s.port))
            ∙ append_assoc (line.written s.port ++ head) body sum
            ∙ append_assoc (line.written s.port) head (body ++ sum),
        line.write_pending sum 0 p₂
            ∙ line.write_pending body 0 p₁
            ∙ line.write_pending head 0 s.port,
      )

  -- `gbridge_cmd_data` of a connected computer that waits for nothing writes the data packet and
  -- returns when the adapter's reply has come, whatever other bytes have come before the reply,
  -- within one round for each of those bytes and one for the reply.
  pub host_cmd_data-IsAnswered :
      (rounds size : ℕ) (buffer noise rest : List ℕ) (s : Host P)
      → s.connected ≡ true
      → s.waiting_cmd ≡ Cmd.none
      → size ≤ length buffer
      → size ≤ gbridge_max_data_size
      → All (λ c. c ≢ reply Cmd.data_pc) noise
      → length noise < rounds
      → line.pending s.port ≡ noise ++ (reply Cmd.data_pc ∷ rest)
      → (s' : Host P) × (host_cmd_data port rounds size buffer s ≡ returned s')
        × IsAnswered port line
            (line.written s.port ++ data_frame Cmd.data_pc (take size buffer))
            rest
            s
            s'
  unfolding host_cmd_data
  host_cmd_data-IsAnswered rounds size buffer noise rest s c w room fits quiet h e =
      let (p, writes, sent, same) =
        write_packet_lem (Cmd.data_pc ∷ byte size ∷ []) size buffer s room in
      let (s', ends, a) =
        wait_cmd_reply port line rounds Cmd.data_pc noise rest (record s { port = p }) (omega arith)
          c w quiet h (same ∙ e) in
      (
        s',
        ground (arith, writes, ends, c, fits),
        record {
          written = a.written ∙ sent ∙ ap (λ x. line.written s.port ++ x) framed;
          left = a.left;
          connected = a.connected;
          waiting = a.waiting;
          data_ready = a.data_ready;
          buffer = a.buffer;
        },
      )
    where
      low : byte size ≡ size
      low = omega arith

      framed :
          packet_bytes (Cmd.data_pc ∷ byte size ∷ []) size buffer
          ≡ data_frame Cmd.data_pc (take size buffer)
      framed =
          ap₂ (λ m k. Cmd.data_pc ∷ m ∷ (take size buffer ++ word_bytes (checksum (take k buffer))))
            (low ∙ omega (arith, length-take size buffer)) low

  -- `gbridge_cmd_stream` of a connected computer that waits for nothing writes the stream packet of
  -- up to 65535 bytes, whose checksum goes over the first bytes only, as many as the length modulo
  -- 256, and returns when the adapter's reply has come, whatever other bytes have come before it,
  -- within one round for each of those bytes and one for the reply.
  pub host_cmd_stream-IsAnswered :
      (rounds size : ℕ) (buffer noise rest : List ℕ) (s : Host P)
      → s.connected ≡ true
      → s.waiting_cmd ≡ Cmd.none
      → size ≤ length buffer
      → size < 0x1_0000
      → All (λ c. c ≢ reply Cmd.stream_pc) noise
      → length noise < rounds
      → line.pending s.port ≡ noise ++ (reply Cmd.stream_pc ∷ rest)
      → (s' : Host P) × (host_cmd_stream port rounds size buffer s ≡ returned s')
        × IsAnswered port line
            (line.written s.port ++ short_sum_frame Cmd.stream_pc (take size buffer))
            rest
            s
            s'
  unfolding host_cmd_stream
  host_cmd_stream-IsAnswered rounds size buffer noise rest s c w room small quiet h e =
      let (p, writes, sent, same) =
        write_packet_lem (Cmd.stream_pc ∷ word_bytes size) size buffer s room in
      let (s', ends, a) =
        wait_cmd_reply port line rounds Cmd.stream_pc noise rest (record s { port = p })
          (omega arith) c w quiet h (same ∙ e) in
      (
        s',
        ground (arith, writes, ends, c),
        record {
          written = a.written ∙ sent ∙ ap (λ x. line.written s.port ++ x) framed;
          left = a.left;
          connected = a.connected;
          waiting = a.waiting;
          data_ready = a.data_ready;
          buffer = a.buffer;
        },
      )
    where
      n : ℕ
      n = length (take size buffer)

      count : size ≡ n
      count = omega (arith, length-take size buffer)

      shorter : take (byte size) buffer ≡ take (byte n) (take size buffer)
      shorter =
          sym (take-take (byte size) size buffer (omega arith))
          ∙ ap (λ k. take (byte k) (take size buffer)) count

      framed :
          packet_bytes (Cmd.stream_pc ∷ word_bytes size) size buffer
          ≡ short_sum_frame Cmd.stream_pc (take size buffer)
      framed =
          ap₂
            (λ k l. Cmd.stream_pc ∷ (word_bytes k ++ (take size buffer ++ word_bytes (checksum l))))
            count shorter
