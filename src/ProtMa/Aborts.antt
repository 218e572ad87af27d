-- ===== src/ProtMa/Aborts.antt =====
-- Requests whose operation on the sockets fails an assertion.
use libmobile_atmega.Prelude.{ℕ, suc, ◌<◌, ◌≡◌, arith, true, none, some, List, ◌∷◌, ◌++◌, length}
use libmobile_atmega.Wire.{word_bytes}
use libmobile_atmega.Wire.Checksum.{word-word_bytes}
use libmobile_atmega.Address.{MobileAddr, address_write}
use libmobile_atmega.Address.RoundTrip.{IsAddress, address_read-address_write}
use libmobile_atmega.Sockets.{SocketImpl}
use libmobile_atmega.Host.Port.{SerialPort}
use libmobile_atmega.Host.State.{host_recv_data}
use libmobile_atmega.ProtMa.MaCmd
use libmobile_atmega.ProtMa.State.{Ma, fault}
use libmobile_atmega.ProtMa.Handlers.{
  recv_cmd_sock_open, recv_cmd_sock_close, connect_to, recv_cmd_sock_connect, recv_cmd_sock_listen,
  recv_cmd_sock_accept, run_request, give_back, prot_ma_loop,
}
use libmobile_atmega.ProtMa.Requests.{
  Request, open_, close_, connect_, listen_, accept_, request_bytes, IsRequest, answer_bool,
  answer_int, answer, request_bytes_some,
}

module _ {P S : Type 0} (port : SerialPort P) (impl : SocketImpl S) (rounds : ℕ) where
  open-fault :
      (conn type addrtype bindport : ℕ) (tail : List ℕ) (s : Ma P S)
      → bindport < 0x1_0000
      → answer_bool impl MaCmd.cmd_open (impl.socket_impl_open conn type addrtype bindport s.socket)
        ≡ none
      → run_request port impl rounds 6
          (MaCmd.cmd_open ∷ conn ∷ type ∷ addrtype ∷ (word_bytes bindport ++ tail))
          s
        ≡ fault
  unfolding run_request recv_cmd_sock_open
  open-fault conn type addrtype bindport tail s small e =
      rw (word-word_bytes bindport small, run_request, recv_cmd_sock_open) (ground (arith, e))

  connect-fault :
      (conn : ℕ) (addr : MobileAddr) (tail : List ℕ) (s : Ma P S)
      → IsAddress addr
      → 1 < length (address_write (some addr))
      → answer_int impl MaCmd.cmd_connect (impl.socket_impl_connect conn addr s.socket) ≡ none
      → run_request port impl rounds
          (suc (suc (length (address_write (some addr)))))
          (MaCmd.cmd_connect ∷ conn ∷ (address_write (some addr) ++ tail))
          s
        ≡ fault
  unfolding run_request recv_cmd_sock_connect connect_to
  connect-fault conn addr tail s v typed e =
      let (reads, null) =
        address_read-address_write addr tail (length (address_write (some addr))) v (omega arith) in
      ground (arith, reads, e, typed)

  run_request-fault :
      (r : Request) (tail : List ℕ) (s : Ma P S)
      → IsRequest r
      → answer impl r s.socket ≡ none
      → run_request port impl rounds (length (request_bytes r)) (request_bytes r ++ tail) s ≡ fault
  unfolding request_bytes answer run_request recv_cmd_sock_close recv_cmd_sock_listen
      recv_cmd_sock_accept
  run_request-fault (open_ conn type addrtype bindport) tail s v e =
      open-fault conn type addrtype bindport tail s v e
  run_request-fault (close_ conn) tail s v e = ground (arith, e)
  run_request-fault (connect_ conn addr) tail s v e = connect-fault conn addr tail s v.0 v.1 e
  run_request-fault (listen_ conn) tail s v e = ground (arith, e)
  run_request-fault (accept_ conn) tail s v e = ground (arith, e)

  -- The operation on the sockets is the first thing that a request comes to.
  pub prot_ma_loop-fault :
      (r : Request) (tail : List ℕ) (s : Ma P S)
      → IsRequest r
      → s.host.data_ready ≡ true
      → s.host.data_size ≡ length (request_bytes r)
      → s.host.data_buf ≡ request_bytes r ++ tail
      → answer impl r s.socket ≡ none
      → prot_ma_loop port impl rounds s ≡ fault
  unfolding prot_ma_loop host_recv_data give_back
  prot_ma_loop-fault r tail s v ready size held e =
      let runs = run_request-fault r tail s v e in
      ground (arith, ready, size, held, request_bytes_some r, runs)
