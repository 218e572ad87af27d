-- ===== src/Tests/Sending.antt =====
-- The adapter's handshake, what it sends and how it waits, at concrete inputs.
use libmobile_atmega.Prelude.{ℕ, ◌≡◌, refl, arith, some, List, [], ◌∷◌, ◌++◌}
use libmobile_atmega.Wire.{handshake}
use libmobile_atmega.Wire.Cmd
use libmobile_atmega.Wire.Frame.{data_frame, stream_frame}
use libmobile_atmega.Device.State.{Device, ◌>>◌}
use libmobile_atmega.Device.Send.{
  wait_cmd, gbridge_cmd_data, gbridge_cmd_stream_start, gbridge_cmd_stream_finish,
}
use libmobile_atmega.Wire.Search.{find_handshake}
use libmobile_atmega.Device.Handshake.{listen, listen-find_handshake}
use libmobile_atmega.Device.Reply.Wait.{Returns, wait_cmd-Returns}
use libmobile_atmega.Device.Write.{
  put_chunks, gbridge_cmd_data-data_frame, gbridge_cmd_stream-stream_frame,
}
use libmobile_atmega.Tests.Device.{idle, idle-IsValid}

-- A handshake behind the beginning of one
abbrev noise : List ℕ
noise = 7 ∷ 0x99 ∷ 0x66 ∷ (handshake ++ (5 ∷ []))

listen-find_handshake_example :
    (s : Device) × (listen noise idle ≡ some (some (5 ∷ []), s)) × (s.tx ≡ handshake)
unfolding find_handshake
listen-find_handshake_example = listen-find_handshake noise idle refl

wait_cmd-Returns_example : Returns (
    wait_cmd Cmd.data_packet
      (record { bytes = 3 ∷ []; time = 5000 } ∷ record { bytes = []; time = 1002000 } ∷ [])
      idle)
wait_cmd-Returns_example =
    wait_cmd-Returns Cmd.data_packet
      (record { bytes = 3 ∷ []; time = 5000 } ∷ record { bytes = []; time = 1002000 } ∷ []) idle
      (omega arith) idle-IsValid refl refl (omega arith)

gbridge_cmd_data-data_frame_example :
    gbridge_cmd_data 2 (4 ∷ 5 ∷ 6 ∷ []) [] idle
    ≡ wait_cmd Cmd.data_packet [] (record idle { tx = data_frame Cmd.data_packet (4 ∷ 5 ∷ []) })
gbridge_cmd_data-data_frame_example =
    gbridge_cmd_data-data_frame 2 (4 ∷ 5 ∷ 6 ∷ []) [] idle (omega arith)

gbridge_cmd_stream-stream_frame_example :
    (s : Device) × ((gbridge_cmd_stream_start 3 >> put_chunks ((4 ∷ 5 ∷ []) ∷ (6 ∷ []) ∷ [])) idle
      ≡ some (tt, s))
    × (gbridge_cmd_stream_finish [] s
        ≡ wait_cmd Cmd.stream [] (record s { tx = stream_frame Cmd.stream (4 ∷ 5 ∷ 6 ∷ []) }))
gbridge_cmd_stream-stream_frame_example =
    gbridge_cmd_stream-stream_frame ((4 ∷ 5 ∷ []) ∷ (6 ∷ []) ∷ []) [] idle refl (omega arith)
