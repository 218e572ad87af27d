-- ===== src/Tests/Host.antt =====
-- The computer's end, and both ends together, on a line held in two lists.
use libmobile_atmega.Prelude.{
  ℕ, ◌≡◌, refl, ap, arith, true, false, none, some, List, [], ◌∷◌, ◌++◌, take, take_all, drop,
  drop_all, replicate,
}
use libmobile_atmega.Wire.{handshake, reply}
use libmobile_atmega.Wire.Cmd
use libmobile_atmega.Wire.Search.{find_handshake}
use libmobile_atmega.Device.State.{Device}
use libmobile_atmega.Wire.Checksum.{checksum}
use libmobile_atmega.Device.Send
use libmobile_atmega.Device.Send.{Event}
use libmobile_atmega.Device.Packet.Pieces.{deliver, all_bytes}
use libmobile_atmega.Device.Packet.Chunks.{Received}
use libmobile_atmega.Host.Port.{SerialPort, IsLine, error, bytes}
use libmobile_atmega.Host.State.{Host}
use libmobile_atmega.Host.Loop.{host_loop, host_recv_stream, gbridge_handshake}
use libmobile_atmega.Host.Send.{host_wait_cmd, host_cmd_data, host_cmd_stream, returned, waiting}
use libmobile_atmega.Host.Packet.{IsDelivered, host_packet_overflows}
use libmobile_atmega.Host.Stream.{short_sum_frame, IsStreamed, host_stream-IsStreamed}
use libmobile_atmega.Host.Wait.{IsAnswered, wait_cmd_stuck}
use libmobile_atmega.Host.Sent.{host_cmd_stream-IsAnswered}
use libmobile_atmega.Host.Shake.{Heard, gbridge_handshake-Heard}
use libmobile_atmega.Link.{adapter_data-IsDelivered, computer_data-Received}
use libmobile_atmega.Tests.Device.{idle, idle-IsIdle}

-- What is still to be read, and what has been written
abbrev pub Lists : Type 0
Lists = List ℕ × List ℕ

abbrev pub list_port : SerialPort Lists
list_port = record {
  sp_blocking_read = λ count timeout p. (bytes (take count p.0), (drop count p.0, p.1));
  sp_blocking_write = λ l timeout p. (p.0, p.1 ++ l);
}

abbrev pub list_line : IsLine list_port
list_line = record {
  pending = λ p. p.0;
  written = λ p. p.1;
  read = λ count timeout p h. ((drop count p.0, p.1), refl, refl, refl);
  read_timeout = λ count timeout p h. (
    (drop count p.0, p.1),
    ap (λ l. (bytes l, (drop count p.0, p.1))) (take_all count p.0 (omega arith)),
    drop_all count p.0 (omega arith),
    refl,
  );
  write_pending = λ l timeout p. refl;
  write_written = λ l timeout p. refl;
}

abbrev pub host : List ℕ → Host Lists
host rx = record {
  handshake_progress = 0;
  connected = true;
  waiting_cmd = Cmd.none;
  data_buf = replicate 128 0;
  data_size = 0;
  data_ready = false;
  port = (rx, []);
  debug_lines = [];
}

host_packet_overflows_example :
    host_loop list_port (host (Cmd.data_packet ∷ 129 ∷ (replicate 129 7 ++ []))) ≡ none
host_packet_overflows_example =
    host_packet_overflows list_port list_line 129 (replicate 129 7) []
      (host (Cmd.data_packet ∷ 129 ∷ (replicate 129 7 ++ []))) refl refl refl refl (omega arith)
      refl refl

host_stream-IsStreamed_example :
    (b : List ℕ) × (s : Host Lists) × (host_recv_stream list_port
        (replicate 8 0)
        8
        (host (short_sum_frame Cmd.stream (5 ∷ 6 ∷ []) ++ []))
      ≡ some ((some 2, b), s))
    × IsStreamed list_port list_line (5 ∷ 6 ∷ []) [] [] b Cmd.none s
host_stream-IsStreamed_example =
    host_stream-IsStreamed list_port list_line (5 ∷ 6 ∷ []) [] (replicate 8 0) 8
      (host (short_sum_frame Cmd.stream (5 ∷ 6 ∷ []) ++ [])) refl (omega arith) (omega arith)
      (omega arith) refl

host_cmd_stream-IsAnswered_example :
    (s : Host Lists) × (host_cmd_stream list_port 1 2 (9 ∷ 8 ∷ []) (host (reply Cmd.stream_pc ∷ []))
      ≡ returned s)
    × IsAnswered list_port list_line
        (short_sum_frame Cmd.stream_pc (9 ∷ 8 ∷ []))
        []
        (host (reply Cmd.stream_pc ∷ []))
        s
host_cmd_stream-IsAnswered_example =
    host_cmd_stream-IsAnswered list_port list_line 1 2 (9 ∷ 8 ∷ []) [] []
      (host (reply Cmd.stream_pc ∷ [])) refl refl (omega arith) (omega arith) tt (omega arith) refl

-- A port that fails
abbrev broken_port : SerialPort (Unit {0})
broken_port = record {
  sp_blocking_read = λ count timeout p. (error, p);
  sp_blocking_write = λ l timeout p. p;
}

abbrev broken : Host (Unit {0})
broken = record {
  handshake_progress = 0;
  connected = true;
  waiting_cmd = Cmd.none;
  data_buf = replicate 128 0;
  data_size = 0;
  data_ready = false;
  port = tt;
  debug_lines = [];
}

wait_cmd_stuck_example :
    (s : Host (Unit {0})) × (host_wait_cmd broken_port 100 Cmd.data_pc broken ≡ waiting s)
wait_cmd_stuck_example =
    wait_cmd_stuck broken_port 100 Cmd.data_pc tt broken (omega arith) refl refl refl

abbrev unconnected : Host Lists
unconnected = record (host (1 ∷ 0x99 ∷ (handshake ++ (2 ∷ [])))) { connected = false }

gbridge_handshake-Heard_example :
    Heard list_port list_line handshake
      (gbridge_handshake list_port 8 unconnected)
      (find_handshake (1 ∷ 0x99 ∷ (handshake ++ (2 ∷ []))))
gbridge_handshake-Heard_example =
    gbridge_handshake-Heard list_port list_line 8 unconnected refl refl (omega arith)

adapter_data-IsDelivered_example :
    (sent ack : List ℕ) × (s : Host Lists) × (d : Device) × (host_loop list_port
        (record (host []) { port = (sent, []) })
      ≡ some (tt, s))
    × IsDelivered list_port list_line (4 ∷ 5 ∷ []) [] [] s
    × (s.port.1 ≡ ack)
    × (Send.gbridge_cmd_data 2
          (4 ∷ 5 ∷ 6 ∷ [])
          (record { bytes = []; time = 1000 } ∷ record { bytes = ack; time = 2000 } ∷ [])
          idle
        ≡ Send.returned tt d [])
    × (d.tx ≡ sent)
    × (d.connected ≡ true)
    × (d.waiting_cmd ≡ Cmd.none)
adapter_data-IsDelivered_example =
    adapter_data-IsDelivered list_port list_line (λ l. (l, [])) (λ l. refl) 2 (4 ∷ 5 ∷ 6 ∷ []) idle
      (host []) (record { bytes = []; time = 1000 } ∷ []) 2000 (omega arith) (omega arith) refl refl
      refl refl (refl, omega arith, tt) (omega arith) refl refl refl refl

-- The packet of one byte in two pieces
abbrev two_pieces : List Event
two_pieces =
    record { bytes = Cmd.data_pc ∷ 1 ∷ 4 ∷ []; time = 1000 }
    ∷ record { bytes = 0 ∷ 4 ∷ []; time = 2000 }
    ∷ []

computer_data-Received_example :
    (ack : List ℕ) × (d : Device) × (s : Host Lists) × (deliver two_pieces idle ≡ some d)
    × Received (4 ∷ []) [] d
    × (d.tx ≡ ack)
    × (host_cmd_data list_port 1 1 (4 ∷ []) (record (host []) { port = (ack, []) }) ≡ returned s)
    × (s.port.1 ≡ all_bytes two_pieces)
    × (s.connected ≡ true)
    × (s.waiting_cmd ≡ Cmd.none)
unfolding checksum
computer_data-Received_example =
    computer_data-Received list_port list_line (λ l. (l, [])) (λ l. refl) 1 1 (4 ∷ []) (host [])
      idle two_pieces (omega arith) (omega arith) (omega arith) (omega arith) refl refl idle-IsIdle
      refl refl (omega arith) (omega arith) (omega arith)
