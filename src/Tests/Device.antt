-- ===== src/Tests/Device.antt =====
-- The adapter's protocol at concrete inputs.
use libmobile_atmega.Prelude.{
  ℕ, ◌≡◌, refl, arith, true, false, some, List, [], ◌∷◌, ◌++◌, replicate,
}
use libmobile_atmega.Wire.Cmd
use libmobile_atmega.Wire.Checksum.{checksum}
use libmobile_atmega.Wire.Frame.{data_frame}
use libmobile_atmega.Device.State.{Device}
use libmobile_atmega.Device.Loop.{gbridge_loop}
use libmobile_atmega.Device.Send.{Event}
use libmobile_atmega.Device.Inv.{IsValid}
use libmobile_atmega.Device.Safe.{gbridge_loop_total}
use libmobile_atmega.Device.Packet.Pieces.{deliver}
use libmobile_atmega.Device.Packet.Chunks.{
  IsIdle, Received, data_packet-Received, data_packet_in_pieces,
}

abbrev pub idle : Device
idle = record {
  connected = true;
  handshake_progress = 0;
  processing_cmd = Cmd.none;
  processing_cmd_state = 0;
  processing_cmd_time = 0;
  waiting_cmd = Cmd.none;
  waiting_cmd_time = 0;
  data_buf = replicate 128 0;
  data_size = 0;
  data_len = 0;
  data_cur = 0;
  data_ready = false;
  stream_buf = [];
  stream_size = 0;
  stream_max_size = 0;
  stream_cur = 0;
  stream_checksum = 0;
  rx = [];
  tx = [];
  now = 1000;
}

pub idle-IsValid : IsValid idle
idle-IsValid = omega arith

pub idle-IsIdle : IsIdle idle
idle-IsIdle = record {
  valid = idle-IsValid;
  connected = refl;
  waiting = refl;
  processing = refl;
  free = refl;
}

gbridge_loop_total_example : (s : Device) × (gbridge_loop idle ≡ some (tt, s)) × IsValid s
gbridge_loop_total_example = gbridge_loop_total idle idle-IsValid

abbrev payload : List ℕ
payload = 200 ∷ 100 ∷ 7 ∷ []

data_packet-Received_example :
    (s : Device) × (gbridge_loop (record idle { rx = data_frame Cmd.data_pc payload ++ (9 ∷ []) })
      ≡ some (tt, s))
    × Received payload [] s
    × (s.rx ≡ 9 ∷ [])
    × (s.connected ≡ true)
data_packet-Received_example =
    data_packet-Received payload (9 ∷ [])
      (record idle { rx = data_frame Cmd.data_pc payload ++ (9 ∷ []) }) (omega arith) (omega arith)
      (record {
        valid = omega arith;
        connected = refl;
        waiting = refl;
        processing = refl;
        free = refl;
      })
      refl

-- The packet in three pieces, with a call that finds nothing new
abbrev pieces : List Event
pieces =
    record { bytes = Cmd.data_pc ∷ 3 ∷ 200 ∷ []; time = 1000 }
    ∷ record { bytes = []; time = 1500 }
    ∷ record { bytes = 100 ∷ 7 ∷ 1 ∷ []; time = 2000 }
    ∷ record { bytes = 51 ∷ []; time = 900000 }
    ∷ []

data_packet_in_pieces_example :
    (s : Device) × (deliver pieces idle ≡ some s) × Received payload [] s
unfolding checksum
data_packet_in_pieces_example =
    data_packet_in_pieces payload pieces idle (omega arith) (omega arith) idle-IsIdle refl refl
      (omega arith) (omega arith) (omega arith)
