-- ===== src/Link.antt =====
-- The two programs together: the bytes that one end's gbridge.c writes are those that the other
-- end's gbridge.c reads.
pub mod Remote
use libmobile_atmega.Prelude.{
  ℕ, ◌+◌, ◌^◌, ◌≤◌, ◌<◌, ◌≡◌, refl, ap, sym, ◌∙◌, arith, true, false, some, List, [], ◌∷◌, ◌++◌,
  append-nil, length, length-take, take,
}
use libmobile_atmega.Wire.{gbridge_max_data_size, gbridge_timeout_us, reply}
use libmobile_atmega.Wire.Cmd
use libmobile_atmega.Wire.Frame.{data_frame}
use libmobile_atmega.Device.State.{Device, elapsed}
use libmobile_atmega.Device.Send.{Event, returned, gbridge_cmd_data}
use libmobile_atmega.Device.Packet.Pieces.{deliver, all_bytes, InTime, InRoom}
use libmobile_atmega.Device.Packet.Chunks.{IsIdle, Received, data_packet_in_pieces}
use libmobile_atmega.Device.Reply.Ends.{IsQuiet, reply_ends_wait}
use libmobile_atmega.Device.Write.{gbridge_cmd_data-data_frame}
use libmobile_atmega.Host.Port.{SerialPort, IsLine}
use libmobile_atmega.Host.State.{Host}
use libmobile_atmega.Host.Loop.{host_loop}
use libmobile_atmega.Host.Send.{host_cmd_data}
use libmobile_atmega.Host.Send
use libmobile_atmega.Host.Packet.{IsDelivered, host_packet-IsDelivered}
use libmobile_atmega.Host.Sent.{host_cmd_data-IsAnswered}

-- A line on which given bytes arrive: `arrives` is its port, for each sequence of bytes.
module _ {P : Type 0} (port : SerialPort P) (line : IsLine port) (arrives : List ℕ → P)
    (brings : (l : List ℕ) → line.pending (arrives l) ≡ l) where
  -- `gbridge_cmd_data` delivers up to 128 bytes from the adapter to the computer and returns, if
  -- both are connected, both wait for no reply, the adapter processes no command and its ring is
  -- empty, and the computer's program has taken the last packet. The bytes `sent` that it writes,
  -- read by one call of the computer's `gbridge_loop`, make the data available there, and the bytes
  -- `ack` that the computer writes in that call, read by the adapter within the timeout and after any
  -- number of rounds without a byte, end the adapter's wait: it is connected and waits for nothing.
  pub adapter_data-IsDelivered :
      (size : ℕ) (buffer : List ℕ) (d : Device) (s : Host P) (quiet : List Event) (time : ℕ)
      → size ≤ length buffer
      → size ≤ gbridge_max_data_size
      → d.connected ≡ true
      → d.waiting_cmd ≡ Cmd.none
      → d.processing_cmd ≡ Cmd.none
      → d.rx ≡ []
      → IsQuiet d.now quiet
      → elapsed time d.now ≤ gbridge_timeout_us
      → s.connected ≡ true
      → s.waiting_cmd ≡ Cmd.none
      → s.data_ready ≡ false
      → length s.data_buf ≡ gbridge_max_data_size
      → (sent ack : List ℕ) × (s' : Host P) × (d' : Device) × (host_loop port
            (record s { port = arrives sent })
          ≡ some (tt, s'))
        × IsDelivered port line (take size buffer) (line.written (arrives sent)) [] s'
        × (line.written s'.port ≡ line.written (arrives sent) ++ ack)
        × (gbridge_cmd_data size buffer (quiet ++ (record { bytes = ack; time = time } ∷ [])) d
            ≡ returned tt d' [])
        × (d'.tx ≡ d.tx ++ sent)
        × (d'.connected ≡ true)
        × (d'.waiting_cmd ≡ Cmd.none)
  adapter_data-IsDelivered size buffer d s quiet time room fits c w idle r silent soon sc sw free
        sroom =
      let payload = take size buffer in
      let sent = data_frame Cmd.data_packet payload in
      let ack = reply Cmd.data_packet ∷ [] in
      let e : Event = record { bytes = ack; time = time } in
      let (s', reads, delivered) =
        host_packet-IsDelivered port line payload [] (record s { port = arrives sent }) sc sw free
          sroom (omega (arith, length-take size buffer, fits))
          (brings sent ∙ sym (append-nil sent)) in
      let d₁ = record d { tx = d.tx ++ sent } in
      (
        sent,
        ack,
        s',
        _,
        reads,
        delivered,
        delivered.acknowledged,
        gbridge_cmd_data-data_frame size buffer (quiet ++ (e ∷ [])) d room
            ∙ ground (arith, c, fits)
            ∙ reply_ends_wait Cmd.data_packet (omega arith) (omega arith) e [] [] refl (omega arith)
                quiet d₁ c w idle r silent soon,
        refl,
        c,
        refl,
      )

  -- `gbridge_cmd_data` of a connected computer that waits for nothing delivers its data, of 1 to
  -- 128 bytes, to an idle adapter whose ring is empty, and returns. The adapter gets the bytes `sent`
  -- that the computer writes in the pieces `es`, each of which its ring has room for, with a call of
  -- its `gbridge_loop` after each, all within the timeout and without a wrap-around of the clock:
  -- these calls make the data available there, and the bytes `ack` that they write end the
  -- computer's wait: it is connected and waits for nothing.
  pub computer_data-Received :
      (rounds size : ℕ) (buffer : List ℕ) (s : Host P) (d : Device) (es : List Event)
      → 0 < rounds
      → 0 < size
      → size ≤ length buffer
      → size ≤ gbridge_max_data_size
      → s.connected ≡ true
      → s.waiting_cmd ≡ Cmd.none
      → IsIdle d
      → d.rx ≡ []
      → all_bytes es ≡ data_frame Cmd.data_pc (take size buffer)
      → d.now + gbridge_timeout_us < 2 ^ 32
      → InTime d.now (d.now + gbridge_timeout_us) es
      → InRoom 0 es
      → (ack : List ℕ) × (d' : Device) × (s' : Host P) × (deliver es d ≡ some d')
        × Received (take size buffer) d.tx d'
        × (d'.tx ≡ d.tx ++ ack)
        × (host_cmd_data port rounds size buffer (record s { port = arrives ack })
            ≡ Send.returned s')
        × (line.written s'.port ≡ line.written (arrives ack) ++ all_bytes es)
        × (s'.connected ≡ true)
        × (s'.waiting_cmd ≡ Cmd.none)
  computer_data-Received rounds size buffer s d es some_round some_size room fits c w idle r whole
        no_wrap times in_room =
      let payload = take size buffer in
      let ack = reply Cmd.data_pc ∷ [] in
      let (d', reads, received) =
        data_packet_in_pieces payload es d (omega (arith, length-take size buffer))
          (omega (arith, length-take size buffer)) idle r whole no_wrap times in_room in
      let (s', ends, a) =
        host_cmd_data-IsAnswered port line rounds size buffer [] []
          (record s { port = arrives ack }) c w room fits tt some_round (brings ack) in
      (
        ack,
        d',
        s',
        reads,
        received,
        received.2,
        ends,
        a.written ∙ ap (λ l. line.written (arrives ack) ++ l) (sym whole),
        a.connected,
        a.waiting,
      )
