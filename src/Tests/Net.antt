-- ===== src/Tests/Net.antt =====
-- The computer's sockets at concrete inputs.
use libmobile_atmega.Prelude.{
  ℕ, ◌≡◌, ◌==◌, refl, arith, true, false, none, some, List, length, [], ◌∷◌, ◌++◌, replicate,
  if◌then◌else◌,
}
use libmobile_atmega.Wire.{reply}
use libmobile_atmega.Wire.Cmd
use libmobile_atmega.Wire.Frame.{data_frame}
use libmobile_atmega.ProtMa.State.{Ma, handled, fault}
use libmobile_atmega.ProtMa.Handlers.{prot_ma_loop}
use libmobile_atmega.ProtMa.Requests.{Request, open_, request_bytes, answer}
use libmobile_atmega.ProtMa.Answers.{IsDone}
use libmobile_atmega.Net.State.{Net}
use libmobile_atmega.Net.Impl.{
  sock_type, sock_addrtype, socket_of, bind_addr, open_bind, open_nodelay, open_reuseaddr,
  open_nonblocking, open_socket, socket_impl_open, socket_impl_close, socket_impl_listen,
  accept_nonblocking, accept_fd, socket_impl_accept, socket_impl_stop,
}
use libmobile_atmega.Net.Socket.{socket_hasdata, socket_setblocking, blocking_flags}
use libmobile_atmega.Net.Recv.{net_impl}
use libmobile_atmega.Net.Owned.{opened}
use libmobile_atmega.Net.Owned.Run.{
  Call, opens, closes, listens, accepts, occurs, carry_out, run, failed_accepts, IsOwned,
}
use libmobile_atmega.Net.Owned.Kept.{Keeps, run-IsOwned}
use libmobile_atmega.Net.Owned.Leak.{accept-IsOwned}
use libmobile_atmega.Net.Connect.{
  Candidate, try_candidates, socket_connect, socket_connect-OpensOnly,
}
use libmobile_atmega.Net.Requests.{unpermitted_request_aborts, permitted_request-IsDone}
use libmobile_atmega.Tests.Host.{Lists, list_port, list_line, host}
use libmobile_atmega.Net.Os.{sock_stream, af_inet, af_inet6, sockaddr_in, sockaddr_in6}
use libmobile_atmega.Tests.Os.{among, small_os, small_laws}

-- A server that takes three clients, the last of which has descriptor 4
abbrev serving : List Call
serving = opens 0 0 1 80 ∷ listens 0 ∷ accepts 0 ∷ accepts 0 ∷ accepts 0 ∷ closes 0 ∷ []

abbrev unopened : Net (List ℕ)
unopened = record { sockets = none ∷ none ∷ []; os = [] }

unopened-IsOwned : IsOwned small_os small_laws [] unopened
unopened-IsOwned k = refl

serving_runs :
    run small_os serving unopened ≡ some (record { sockets = none ∷ none ∷ []; os = 4 ∷ [] })
unfolding run carry_out socket_impl_open socket_impl_close socket_impl_listen socket_impl_accept
    sock_type sock_addrtype socket_of open_socket open_nonblocking open_reuseaddr open_nodelay
    open_bind bind_addr accept_fd accept_nonblocking socket_setblocking socket_hasdata
    blocking_flags
serving_runs = refl

serving_loses : failed_accepts small_os serving unopened ≡ 1
unfolding failed_accepts carry_out socket_impl_open socket_impl_close socket_impl_listen
    socket_impl_accept sock_type sock_addrtype socket_of open_socket open_nonblocking open_reuseaddr
    open_nodelay open_bind bind_addr accept_fd accept_nonblocking socket_setblocking socket_hasdata
    blocking_flags
serving_loses = refl

run-IsOwned_example :
    Keeps small_os small_laws
      (failed_accepts small_os serving unopened)
      []
      (record { sockets = none ∷ none ∷ []; os = 4 ∷ [] })
run-IsOwned_example =
    run-IsOwned small_os small_laws serving [] unopened
      (record { sockets = none ∷ none ∷ []; os = 4 ∷ [] }) unopened-IsOwned serving_runs

abbrev third : Net (List ℕ)
third = record { sockets = some 3 ∷ none ∷ []; os = 3 ∷ [] }

third-IsOwned : IsOwned small_os small_laws [] third
third-IsOwned k = ground arith

accept-IsOwned_example :
    (s : Net (List ℕ)) × (socket_impl_accept small_os 0 third ≡ some (false, s))
    × (s.sockets ≡ some 3 ∷ none ∷ [])
    × IsOwned small_os small_laws (4 ∷ []) s
    × ((k : ℕ) → opened small_laws (socket_impl_stop small_os s).os k ≡ occurs (4 ∷ []) k)
unfolding socket_hasdata socket_setblocking
accept-IsOwned_example =
    accept-IsOwned small_os small_laws 0 3 4 [] third third-IsOwned refl refl refl refl

-- Connection 0 has a socket already.
abbrev reopening : Request
reopening = open_ 0 0 1 80

abbrev asked : Request → Ma Lists (Net (List ℕ))
asked r = record {
  host = record (host (reply Cmd.data_pc ∷ [])) {
    data_ready = true;
    data_size = length (request_bytes r);
    data_buf = request_bytes r ++ [];
  };
  reply_buf = replicate 128 0;
  reply_size = 0;
  socket = third;
}

unpermitted_request_aborts_example :
    prot_ma_loop list_port (net_impl small_os) 1 (asked reopening) ≡ fault
unpermitted_request_aborts_example =
    unpermitted_request_aborts small_os list_port 1 reopening [] (asked reopening) (omega arith)
      refl refl refl refl

abbrev another : Request
another = open_ 1 1 2 80

permitted_request-IsDone_example :
    (s' : Ma Lists (Net (List ℕ))) × (l : List ℕ) × (prot_ma_loop list_port
        (net_impl small_os)
        1
        (asked another)
      ≡ handled true s')
    × (answer (net_impl small_os) another third ≡ some (l, s'.socket))
    × IsDone list_port list_line (data_frame Cmd.data_pc l) [] s'.socket s'
    × Keeps small_os small_laws 0 [] s'.socket
permitted_request-IsDone_example =
    permitted_request-IsDone small_os list_port list_line small_laws 1 another [] [] []
      (asked another) (omega arith) refl refl refl refl refl refl (omega arith) refl refl
      third-IsOwned

abbrev localhost : List Candidate
localhost =
    record { ai_family = af_inet6; ai_socktype = sock_stream; ai_addr = sockaddr_in6 (0, 80) [] }
    ∷ record { ai_family = af_inet; ai_socktype = sock_stream; ai_addr = sockaddr_in (0, 80) [] }
    ∷ []

socket_connect-OpensOnly_example :
    (among (3 ∷ []) 4 ≡ false)
    × ((k : ℕ) → among (4 ∷ 3 ∷ []) k ≡ (if k == 4 then true else among (3 ∷ []) k))
unfolding socket_connect try_candidates
socket_connect-OpensOnly_example =
    socket_connect-OpensOnly small_os small_laws (λ w. (some localhost, w)) (3 ∷ []) (λ k. refl)
