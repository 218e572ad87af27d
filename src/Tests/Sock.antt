-- ===== src/Tests/Sock.antt =====
-- The adapter's socket functions at concrete inputs.
use libmobile_atmega.Prelude.{
  ℕ, ◌≤◌, ◌≡◌, inl, refl, ap, arith, true, false, none, some, List, [], ◌∷◌, ◌++◌, append-nil,
  length, length-append,
}
use libmobile_atmega.Wire.{handshake, reply, word_bytes}
use libmobile_atmega.Wire.Cmd
use libmobile_atmega.Wire.Checksum.{checksum}
use libmobile_atmega.Adapter.{Callback, debug_log, sock_open, sock_recv, adapter_main}
use libmobile_atmega.Adapter.Safe.{adapter_main-IsSafe}
use libmobile_atmega.Device.Sock.Waits.{IsSafe, Any}
use libmobile_atmega.Address.{MobileAddr, addr4, address_write}
use libmobile_atmega.Sockets.{negsuc}
use libmobile_atmega.ProtMa.MaCmd
use libmobile_atmega.Device.State.{Device}
use libmobile_atmega.Device.Loop.{gbridge_recv_data_done}
use libmobile_atmega.Device.Send.{Event, returned}
use libmobile_atmega.Device.Sock.{
  mobile_impl_sock_open, mobile_impl_sock_close, mobile_impl_sock_connect, mobile_impl_sock_listen,
  mobile_impl_sock_accept, mobile_impl_sock_send, mobile_impl_sock_recv,
}
use libmobile_atmega.Device.Sock.Offline.{offline_fails}
use libmobile_atmega.Device.Sock.Answered.{IsExchange, Answers}
use libmobile_atmega.Device.Sock.Calls.{socket_calls_answered}
use libmobile_atmega.Tests.Device.{idle, idle-IsIdle}

abbrev offline : Device
offline = record idle { connected = false }

abbrev server : MobileAddr
server = addr4 80 (10 ∷ 0 ∷ 0 ∷ 1 ∷ [])

offline_fails_example :
    (mobile_impl_sock_open 1 0 1 80 [] offline ≡ returned false (gbridge_recv_data_done offline) [])
    × (mobile_impl_sock_close 1 [] offline ≡ returned tt (gbridge_recv_data_done offline) [])
    × (mobile_impl_sock_connect 1 (some server) [] offline
        ≡ returned (negsuc 0) (gbridge_recv_data_done offline) [])
    × (mobile_impl_sock_listen 1 [] offline ≡ returned false (gbridge_recv_data_done offline) [])
    × (mobile_impl_sock_accept 1 [] offline ≡ returned false (gbridge_recv_data_done offline) [])
    × (mobile_impl_sock_send 1 (7 ∷ []) 1 (some server) [] offline
        ≡ returned (negsuc 0) (gbridge_recv_data_done offline) [])
    × (mobile_impl_sock_recv 1 (7 ∷ []) 1 [] offline
        ≡ returned (negsuc 0, none) (gbridge_recv_data_done offline) [])
offline_fails_example = offline_fails 1 0 1 80 1 (7 ∷ []) (some server) [] offline refl

-- A round without a byte, the acknowledgement, a long wait, and the answer in two pieces
abbrev pub exchange : List ℕ → List Event
exchange answer =
    record { bytes = []; time = 1500 }
    ∷ record { bytes = reply Cmd.data_packet ∷ []; time = 2000 }
    ∷ record { bytes = []; time = 5000000 }
    ∷ record { bytes = Cmd.data_pc ∷ length answer ∷ []; time = 5001000 }
    ∷ record { bytes = answer ++ word_bytes (checksum answer); time = 5002000 }
    ∷ []

pub exchange-IsExchange :
    (answer : List ℕ) → length answer ≤ 60 → IsExchange 1000 answer (exchange answer)
exchange-IsExchange answer short = record {
  quiet = record { bytes = []; time = 1500 } ∷ [];
  ack = record { bytes = reply Cmd.data_packet ∷ []; time = 2000 };
  silent = record { bytes = []; time = 5000000 } ∷ [];
  pieces =
      record { bytes = Cmd.data_pc ∷ length answer ∷ []; time = 5001000 }
      ∷ record { bytes = answer ++ word_bytes (checksum answer); time = 5002000 }
      ∷ [];
  first = [];
  start = 5001000;
  rounds = refl;
  no_byte = (refl, omega arith, tt);
  acknowledges = refl;
  ack_room = omega arith;
  soon = omega arith;
  none_yet = (refl, tt);
  apart = inl refl;
  answers =
      ap (λ l. Cmd.data_pc ∷ length answer ∷ l)
        (append-nil (answer ++ word_bytes (checksum answer)));
  some_piece = omega arith;
  in_time = omega arith;
  no_wrap = omega arith;
  in_room = (
    omega arith,
    (omega (arith, short, length-append answer (word_bytes (checksum answer))), tt),
  );
}

-- The byte 255 is the result -1 of connect, and true elsewhere.
socket_calls_answered_example :
    Answers
      (MaCmd.cmd_open ∷ 1 ∷ 0 ∷ 1 ∷ 0 ∷ 80 ∷ [])
      idle
      true
      (mobile_impl_sock_open 1 0 1 80 (exchange (MaCmd.cmd_open ∷ 255 ∷ [])) idle)
    × Answers
        (MaCmd.cmd_close ∷ 1 ∷ [])
        idle
        tt
        (mobile_impl_sock_close 1 (exchange (MaCmd.cmd_close ∷ [])) idle)
    × Answers
        (MaCmd.cmd_connect ∷ 1 ∷ address_write (some server))
        idle
        (negsuc 0)
        (mobile_impl_sock_connect 1 (some server) (exchange (MaCmd.cmd_connect ∷ 255 ∷ [])) idle)
    × Answers
        (MaCmd.cmd_listen ∷ 1 ∷ [])
        idle
        true
        (mobile_impl_sock_listen 1 (exchange (MaCmd.cmd_listen ∷ 255 ∷ [])) idle)
    × Answers
        (MaCmd.cmd_accept ∷ 1 ∷ [])
        idle
        true
        (mobile_impl_sock_accept 1 (exchange (MaCmd.cmd_accept ∷ 255 ∷ [])) idle)
socket_calls_answered_example =
    socket_calls_answered 1 0 1 80 255 (some server) idle (exchange (MaCmd.cmd_open ∷ 255 ∷ []))
      (exchange (MaCmd.cmd_close ∷ [])) (exchange (MaCmd.cmd_connect ∷ 255 ∷ []))
      (exchange (MaCmd.cmd_listen ∷ 255 ∷ [])) (exchange (MaCmd.cmd_accept ∷ 255 ∷ [])) idle-IsIdle
      refl (exchange-IsExchange (MaCmd.cmd_open ∷ 255 ∷ []) (omega arith))
      (exchange-IsExchange (MaCmd.cmd_close ∷ []) (omega arith))
      (exchange-IsExchange (MaCmd.cmd_connect ∷ 255 ∷ []) (omega arith))
      (exchange-IsExchange (MaCmd.cmd_listen ∷ 255 ∷ []) (omega arith))
      (exchange-IsExchange (MaCmd.cmd_accept ∷ 255 ∷ []) (omega arith))

-- Two rounds: a debug line that is answered, a socket call that never is
abbrev rounds : List (List Callback)
rounds = (debug_log (65 ∷ []) ∷ []) ∷ (sock_open 0 0 1 80 ∷ sock_recv 0 (0 ∷ 0 ∷ []) 2 ∷ []) ∷ []

abbrev arrivals : List Event
arrivals = record { bytes = handshake; time = 1000 } ∷ record { bytes = 7 ∷ []; time = 2000 } ∷ []

adapter_main-IsSafe_example : IsSafe Any (adapter_main rounds arrivals idle)
adapter_main-IsSafe_example =
    adapter_main-IsSafe rounds arrivals idle
      ((tt, tt), ((tt, ((omega arith, omega arith), tt)), tt)) idle-IsIdle.valid
