-- ===== src/Tests/ProtMa.antt =====
-- The computer's socket requests and the adapter's clock at concrete inputs.
use libmobile_atmega.Prelude.{
  ℕ, suc, ◌≡◌, refl, arith, Bool, true, false, some, List, [], ◌∷◌, ◌++◌, replicate,
}
use libmobile_atmega.Wire.{reply}
use libmobile_atmega.Wire.Cmd
use libmobile_atmega.Wire.Frame.{data_frame}
use libmobile_atmega.Address.{addr_none, addr4, address_write}
use libmobile_atmega.Sockets.{pos, negsuc, SocketImpl}
use libmobile_atmega.ProtMa.State.{Ma, handled}
use libmobile_atmega.ProtMa.Handlers.{prot_ma_loop}
use libmobile_atmega.ProtMa.Requests.{Request, connect_, request_bytes, answer}
use libmobile_atmega.ProtMa.Answers.{IsDone, prot_ma_loop-IsDone}
use libmobile_atmega.Host.Stream.{short_sum_frame}
use libmobile_atmega.ProtMa.Fetch.{prot_ma_loop_fetches}
use libmobile_atmega.ProtMa.Forward.{prot_ma_loop_forwards}
use libmobile_atmega.ProtMa.Ignored.{unknown, malformed_ignored}
use libmobile_atmega.Timer.{Clock, mobile_impl_time_latch, mobile_impl_time_check_ms}
use libmobile_atmega.Timer.Check.{ticks, time_check_ms-time_latch}
use libmobile_atmega.Tests.Host.{Lists, list_port, list_line, host}

-- Sockets that count the operations on them
abbrev counting : SocketImpl ℕ
counting = record {
  socket_impl_open = λ conn type addrtype bindport n. some (true, suc n);
  socket_impl_close = λ conn n. some (suc n);
  socket_impl_connect = λ conn addr n. some (negsuc 0, suc n);
  socket_impl_listen = λ conn n. some (true, suc n);
  socket_impl_accept = λ conn n. some (false, suc n);
  socket_impl_send = λ conn buffer size addr n. some (pos size, suc n);
  socket_impl_recv = λ conn size n. some (pos 0, [], addr_none, suc n);
}

abbrev request : Request
request = connect_ 1 (addr4 80 (10 ∷ 0 ∷ 0 ∷ 1 ∷ []))

abbrev asked : List ℕ → ℕ → Ma Lists ℕ
asked packet size = record {
  host = record (host (reply Cmd.data_pc ∷ [])) {
    data_ready = true;
    data_size = size;
    data_buf = packet;
  };
  reply_buf = replicate 128 0;
  reply_size = 0;
  socket = 5;
}

-- The result -1 is the byte 255.
prot_ma_loop-IsDone_example :
    (s : Ma Lists ℕ) × (prot_ma_loop list_port counting 1
        (asked (request_bytes request ++ replicate 119 0) 9)
      ≡ handled true s)
    × IsDone list_port list_line (data_frame Cmd.data_pc (2 ∷ 255 ∷ [])) [] 6 s
unfolding request_bytes answer address_write
prot_ma_loop-IsDone_example =
    prot_ma_loop-IsDone list_port list_line counting 1 request (replicate 119 0) (2 ∷ 255 ∷ []) []
      (asked (request_bytes request ++ replicate 119 0) 9) 6 (omega arith) refl refl refl refl refl
      refl (omega arith) refl refl

malformed_ignored_example :
    (ok : Bool) × (prot_ma_loop list_port counting 1 (asked (9 ∷ 0 ∷ []) 2)
      ≡ handled ok (record (asked (9 ∷ 0 ∷ []) 2) {
        host = record (asked (9 ∷ 0 ∷ []) 2).host { data_ready = false };
      }))
malformed_ignored_example =
    malformed_ignored list_port counting 1 (asked (9 ∷ 0 ∷ []) 2) refl (unknown (omega arith))

-- A clock just before its wrap-around
abbrev late : Clock
late = record { micros = 4294967000; micros_latch = 0 ∷ 0 ∷ [] }

time_check_ms-time_latch_example :
    (s : Clock) × (mobile_impl_time_latch 1 late ≡ some s)
    × (mobile_impl_time_check_ms 1 5 (ticks 6 s) ≡ some true)
time_check_ms-time_latch_example =
    time_check_ms-time_latch 1 5 6 late (omega arith) (omega arith) (omega arith) (omega arith)

abbrev fetching : SocketImpl ℕ
fetching = record counting {
  socket_impl_recv = λ conn size n. some (pos 2, 8 ∷ 9 ∷ 0 ∷ [], addr_none, suc n);
}

abbrev fetch : Ma Lists ℕ
fetch = record (asked (6 ∷ 1 ∷ 0 ∷ 3 ∷ []) 4) {
  host = record (host (reply Cmd.data_pc ∷ reply Cmd.stream_pc ∷ [])) {
    data_ready = true;
    data_size = 4;
    data_buf = 6 ∷ 1 ∷ 0 ∷ 3 ∷ [];
  };
}

prot_ma_loop_fetches_example :
    (s : Ma Lists ℕ) × (prot_ma_loop list_port fetching 1 fetch ≡ handled true s)
    × IsDone list_port list_line
        (data_frame Cmd.data_pc (6 ∷ 0 ∷ 2 ∷ 0 ∷ []) ++ short_sum_frame Cmd.stream_pc (8 ∷ 9 ∷ []))
        []
        6
        s
unfolding address_write
prot_ma_loop_fetches_example =
    prot_ma_loop_fetches list_port list_line fetching 1 1 3 2 (8 ∷ 9 ∷ 0 ∷ []) [] [] addr_none fetch
      6 (omega arith) (omega arith) (omega arith) (omega arith) (omega arith) refl refl refl refl
      refl refl (omega arith) refl refl

abbrev forwarding : Ma Lists ℕ
forwarding = record (asked (5 ∷ 1 ∷ 0 ∷ []) 3) {
  host = record (host (short_sum_frame Cmd.stream (8 ∷ 9 ∷ []) ++ (reply Cmd.data_pc ∷ []))) {
    data_ready = true;
    data_size = 3;
    data_buf = 5 ∷ 1 ∷ 0 ∷ [];
  };
}

prot_ma_loop_forwards_example :
    (s : Ma Lists ℕ) × (prot_ma_loop list_port counting 1 forwarding ≡ handled true s)
    × IsDone list_port list_line
        ((reply Cmd.stream ∷ []) ++ data_frame Cmd.data_pc (5 ∷ 0 ∷ 2 ∷ []))
        []
        6
        s
unfolding address_write
prot_ma_loop_forwards_example =
    prot_ma_loop_forwards list_port list_line counting 1 1 (8 ∷ 9 ∷ []) [] [] addr_none (pos 2)
      forwarding 6 tt (omega arith) refl refl refl refl refl refl (omega arith) refl (λ b e. refl)
