-- ===== src/Tests/Packets.antt =====
-- The packets that the adapter refuses or misreads, and streams, at concrete inputs.
use libmobile_atmega.Prelude.{
  ℕ, ◌≡◌, refl, arith, true, false, some, List, [], ◌∷◌, ◌++◌, replicate, take,
}
use libmobile_atmega.Wire.{word, reply}
use libmobile_atmega.Wire.Cmd
use libmobile_atmega.Wire.Checksum.{checksum}
use libmobile_atmega.Wire.Frame.{data_frame, stream_frame}
use libmobile_atmega.Device.State.{Device}
use libmobile_atmega.Device.Loop.{gbridge_loop, gbridge_recv_stream_done}
use libmobile_atmega.Device.Malformed.{bad_checksum, refused_packet_resets}
use libmobile_atmega.Device.Empty.{empty_packet_missed}
use libmobile_atmega.Device.Stream.Packet.{stream_packet_received, stream_length_truncated}
use libmobile_atmega.Tests.Device.{idle}

-- The checksum of 5, 6 is 11.
abbrev damaged : Device
damaged = record idle { rx = Cmd.data_pc ∷ 2 ∷ 5 ∷ 6 ∷ 0 ∷ 12 ∷ [] }

refused_packet_resets_example :
    (s : Device) × (gbridge_loop damaged ≡ some (tt, s))
    × (s.connected ≡ false)
    × (s.data_ready ≡ false)
    × (s.tx ≡ [])
unfolding checksum word
refused_packet_resets_example =
    refused_packet_resets (2 ∷ 5 ∷ 6 ∷ 0 ∷ 12 ∷ []) damaged (omega arith) refl refl refl refl
      (bad_checksum (5 ∷ 6 ∷ []) [] 0 12 refl refl (omega arith) (omega arith) (omega arith))

abbrev empty_packet : Device
empty_packet = record idle { rx = data_frame Cmd.data_pc [] }

empty_packet_missed_example :
    (s : Device) × (gbridge_loop empty_packet ≡ some (tt, s))
    × (s.connected ≡ true)
    × (s.processing_cmd ≡ Cmd.data_pc)
    × (s.rx ≡ 0 ∷ [])
    × (s.data_ready ≡ false)
    × (s.tx ≡ [])
empty_packet_missed_example =
    empty_packet_missed empty_packet
      (record {
        valid = omega arith;
        connected = refl;
        waiting = refl;
        processing = refl;
        free = refl;
      })
      refl

-- A buffer of 512 bytes, and a stream of three
abbrev streaming : List ℕ → Device
streaming rx = record idle { stream_buf = replicate 512 0; stream_max_size = 512; rx = rx }

stream_packet_received_example :
    (s : Device) × (gbridge_loop
        (streaming (stream_frame Cmd.stream_pc (1 ∷ 2 ∷ 3 ∷ []) ++ (8 ∷ [])))
      ≡ some (tt, s))
    × (gbridge_recv_stream_done s ≡ true)
    × (take 3 s.stream_buf ≡ 1 ∷ 2 ∷ 3 ∷ [])
    × (s.tx ≡ reply Cmd.stream_pc ∷ [])
    × (s.rx ≡ 8 ∷ [])
    × (s.connected ≡ true)
stream_packet_received_example =
    stream_packet_received (1 ∷ 2 ∷ 3 ∷ []) (8 ∷ [])
      (streaming (stream_frame Cmd.stream_pc (1 ∷ 2 ∷ 3 ∷ []) ++ (8 ∷ [])))
      (record {
        valid = omega arith;
        connected = refl;
        waiting = refl;
        processing = refl;
        free = refl;
      })
      (omega arith) (omega arith) (omega arith) refl

-- A stream that announces 258 bytes: two of them are read as all, and the next two as checksum.
abbrev long : List ℕ
long = Cmd.stream_pc ∷ 1 ∷ 2 ∷ 10 ∷ 20 ∷ 30 ∷ 40 ∷ 50 ∷ []

stream_length_truncated_example :
    (s : Device) × (gbridge_loop (streaming long) ≡ some (tt, s))
    × (s.connected ≡ false)
    × (s.tx ≡ [])
    × (s.rx ≡ 50 ∷ [])
unfolding checksum word
stream_length_truncated_example =
    stream_length_truncated 258 30 40 (10 ∷ 20 ∷ []) (50 ∷ []) (streaming long)
      (record {
        valid = omega arith;
        connected = refl;
        waiting = refl;
        processing = refl;
        free = refl;
      })
      (omega arith) (omega arith) (omega arith) refl (omega arith)
