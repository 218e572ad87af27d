-- ===== src/Host/Packet.antt =====
-- Data packets at the computer: `gbridge_loop` and `recv_cmd_data` of bridge/source/gbridge.c.
use libmobile_atmega.Prelude.{
  ℕ, ◌≤◌, ◌<◌, ◌≡◌, refl, ap, sym, ◌∙◌, arith, true, false, none, some, List, [], ◌∷◌, ◌++◌,
  append_assoc, length, take,
}
use libmobile_atmega.Wire.{gbridge_max_data_size, reply, word_bytes, checksum_loop}
use libmobile_atmega.Wire.Cmd
use libmobile_atmega.Wire.Checksum.{checksum, checksum-lt, checksum_loop_lem, word-word_bytes}
use libmobile_atmega.Wire.Frame.{data_frame}
use libmobile_atmega.Host.Port.{SerialPort, IsLine}
use libmobile_atmega.Host.State.{Host}
use libmobile_atmega.Host.Receive.{
  write, send_ack, recv_data_verify, recv_data_checksum, recv_data_bytes, recv_data_size,
  recv_cmd_data,
}
use libmobile_atmega.Host.Loop.{host_accept, host_loop}
use libmobile_atmega.Host.Line.{overlay_fits, overlay_overflows, read_lem, recv_data_lem}

module _ {P : Type 0} (port : SerialPort P) (line : IsLine port) where
  -- The packet is there for `gbridge_recv_data`, and has been acknowledged once, behind the bytes
  -- `sent`; `rest` is left on the line.
  pub record IsDelivered (payload sent rest : List ℕ) (s : Host P) : Type 0 where
    pub ready : s.data_ready ≡ true
    pub size : s.data_size ≡ length payload
    pub held : take (length payload) s.data_buf ≡ payload
    pub acknowledged : line.written s.port ≡ sent ++ (reply Cmd.data_packet ∷ [])
    pub left : line.pending s.port ≡ rest
    pub connected : s.connected ≡ true
    pub waiting : s.waiting_cmd ≡ Cmd.none
    pub room : length s.data_buf ≡ gbridge_max_data_size

  -- At the checksum's bytes
  checksum-IsDelivered :
      (payload rest : List ℕ) (s : Host P)
      → line.pending s.port ≡ word_bytes (checksum payload) ++ rest
      → s.data_size ≡ length payload
      → take (length payload) s.data_buf ≡ payload
      → length payload ≤ length s.data_buf
      → length s.data_buf ≡ gbridge_max_data_size
      → s.connected ≡ true
      → s.waiting_cmd ≡ Cmd.none
      → (s' : Host P) × (recv_data_checksum port s ≡ some (tt, s'))
        × IsDelivered payload (line.written s.port) rest s'
  unfolding recv_data_checksum recv_data_verify send_ack write
  checksum-IsDelivered payload rest s e size held room whole c w =
      let (p, reads, left, same) =
        recv_data_lem port line 2 (word_bytes (checksum payload)) rest s refl e in
      let ready = record s { port = p; data_ready = true } in
      (
        send_ack port Cmd.data_packet ready,
        rw (reads, recv_data_checksum)
            (ground (arith, sums, word-word_bytes (checksum payload) (checksum-lt payload))),
        record {
          ready = refl;
          size = size;
          held = held;
          acknowledged =
              line.write_written (reply Cmd.data_packet ∷ []) 0 p
              ∙ ap (λ x. x ++ (reply Cmd.data_packet ∷ [])) same;
          left = line.write_pending (reply Cmd.data_packet ∷ []) 0 p ∙ left;
          connected = c;
          waiting = w;
          room = whole;
        },
      )
    where
      sums : checksum_loop s.data_size s.data_buf 0 ≡ some (checksum payload)
      sums =
          ap (λ n. checksum_loop n s.data_buf 0) size
          ∙ checksum_loop_lem (length payload) s.data_buf room
          ∙ ap (λ p. some (checksum p)) held

  bytes-IsDelivered :
      (payload rest : List ℕ) (s : Host P)
      → line.pending s.port ≡ payload ++ (word_bytes (checksum payload) ++ rest)
      → s.data_size ≡ length payload
      → length payload ≤ length s.data_buf
      → length s.data_buf ≡ gbridge_max_data_size
      → s.connected ≡ true
      → s.waiting_cmd ≡ Cmd.none
      → (s' : Host P) × (recv_data_bytes port s ≡ some (tt, s'))
        × IsDelivered payload (line.written s.port) rest s'
  unfolding recv_data_bytes
  bytes-IsDelivered payload rest s e size room whole c w =
      let (p, reads, left, same) =
        recv_data_lem port line s.data_size payload (word_bytes (checksum payload) ++ rest) s
          (sym size) e in
      let (b, stores, held, n) = overlay_fits payload s.data_buf room in
      let s₁ = record s { port = p; data_buf = b } in
      let (s', ends, d) =
        checksum-IsDelivered payload rest s₁ left size held (omega (arith, n))
          (omega (arith, n, whole)) c w in
      (
        s',
        rw (reads, recv_data_bytes) (ground (arith, stores, ends)),
        record {
          ready = d.ready;
          size = d.size;
          held = d.held;
          acknowledged = d.acknowledged ∙ ap (λ x. x ++ (reply Cmd.data_packet ∷ [])) same;
          left = d.left;
          connected = d.connected;
          waiting = d.waiting;
          room = d.room;
        },
      )

  -- A data packet of up to 128 bytes, no bytes among them, that arrives at the connected computer
  -- while it waits for nothing and the last packet has been taken, is received by one call of
  -- `gbridge_loop`: its payload is available, and it has been acknowledged once.
  pub host_packet-IsDelivered :
      (payload rest : List ℕ) (s : Host P)
      → s.connected ≡ true
      → s.waiting_cmd ≡ Cmd.none
      → s.data_ready ≡ false
      → length s.data_buf ≡ gbridge_max_data_size
      → length payload ≤ gbridge_max_data_size
      → line.pending s.port ≡ data_frame Cmd.data_packet payload ++ rest
      → (s' : Host P) × (host_loop port s ≡ some (tt, s'))
        × IsDelivered payload (line.written s.port) rest s'
  unfolding host_loop host_accept recv_cmd_data recv_data_size
  host_packet-IsDelivered payload rest s c w free room fits e =
      let tail = payload ++ (word_bytes (checksum payload) ++ rest) in
      let at : line.pending s.port ≡ Cmd.data_packet ∷ length payload ∷ tail =
        e
        ∙ ap (λ x. Cmd.data_packet ∷ length payload ∷ x)
            (append_assoc payload (word_bytes (checksum payload)) rest) in
      let (p₁, first, left₁, same₁) =
        read_lem port line 1 100 (Cmd.data_packet ∷ []) (length payload ∷ tail) s.port refl at in
      let s₁ = record s { port = p₁ } in
      let (p₂, second, left₂, same₂) =
        recv_data_lem port line 1 (length payload ∷ []) tail s₁ refl left₁ in
      let s₂ = record s { port = p₂; data_size = length payload } in
      let (s', ends, d) =
        bytes-IsDelivered payload rest s₂ left₂ refl (omega (arith, room, fits)) room c w in
      (
        s',
        rw (first, host_loop) (ground (arith, second, ends, c, w, free)),
        record {
          ready = d.ready;
          size = d.size;
          held = d.held;
          acknowledged =
              d.acknowledged ∙ ap (λ x. x ++ (reply Cmd.data_packet ∷ [])) (same₂ ∙ same₁);
          left = d.left;
          connected = d.connected;
          waiting = d.waiting;
          room = d.room;
        },
      )

  -- The computer does not test the size of a data packet: one that is larger than the 128 bytes of
  -- its buffer, and whose bytes arrive, is written past the end of that buffer, so the call of
  -- `gbridge_loop` has no defined result.
  pub host_packet_overflows :
      (size : ℕ) (payload rest : List ℕ) (s : Host P)
      → s.connected ≡ true
      → s.waiting_cmd ≡ Cmd.none
      → s.data_ready ≡ false
      → length s.data_buf ≡ gbridge_max_data_size
      → gbridge_max_data_size < size
      → length payload ≡ size
      → line.pending s.port ≡ Cmd.data_packet ∷ size ∷ (payload ++ rest)
      → host_loop port s ≡ none
  unfolding host_loop host_accept recv_cmd_data recv_data_size recv_data_bytes
  host_packet_overflows size payload rest s c w free room over len e =
      let (p₁, first, left₁, same₁) =
        read_lem port line 1 100 (Cmd.data_packet ∷ []) (size ∷ (payload ++ rest)) s.port refl e in
      let s₁ = record s { port = p₁ } in
      let (p₂, second, left₂, same₂) =
        recv_data_lem port line 1 (size ∷ []) (payload ++ rest) s₁ refl left₁ in
      let s₂ = record s { port = p₂; data_size = size } in
      let (p₃, third, left₃, same₃) = recv_data_lem port line size payload rest s₂ len left₂ in
      let stores = overlay_overflows payload s.data_buf (omega (arith, room, over, len)) in
      rw (first, host_loop) (ground (arith, second, third, stores, c, w, free))
