-- ===== src/ProtMa/Forward.antt =====
-- The request to send on a socket, which a stream with the data follows.
use libmobile_atmega.Prelude.{
  ℕ, suc, ◌≤◌, ◌<◌, ◌≡◌, refl, ap, ◌∙◌, arith, true, some, List, [], ◌∷◌, ◌++◌, length, take,
  length-replicate, replicate,
}
use libmobile_atmega.Wire.{gbridge_max_data_size, reply}
use libmobile_atmega.Wire.Cmd
use libmobile_atmega.Wire.Frame.{data_frame}
use libmobile_atmega.Address.{MobileAddr, addr_none, addr4, addr6, address_write}
use libmobile_atmega.Address.RoundTrip.{IsAddress, address_read-address_write}
use libmobile_atmega.Sockets.{ℤ, int_low, int_high, SocketImpl}
use libmobile_atmega.Host.Port.{SerialPort, IsLine}
use libmobile_atmega.Host.State.{Host, host_recv_data, host_recv_data_done}
use libmobile_atmega.Host.Loop.{host_recv_stream}
use libmobile_atmega.Host.Stream.{short_sum_frame, host_stream-IsStreamed}
use libmobile_atmega.ProtMa.MaCmd
use libmobile_atmega.ProtMa.State.{Ma, handled, send_reply}
use libmobile_atmega.ProtMa.Handlers.{
  send_to, recv_stream_for, recv_cmd_sock_send, run_request, give_back, prot_ma_loop,
}
use libmobile_atmega.ProtMa.Answers.{send_reply_lem, IsDone}

-- The bytes of the request, and of the reply with the operation's result
abbrev pub forward_request : ℕ → MobileAddr → List ℕ
forward_request conn addr = MaCmd.cmd_send ∷ conn ∷ address_write (some addr)

abbrev pub forward_reply : ℤ → List ℕ
forward_reply res = MaCmd.cmd_send ∷ int_high res ∷ int_low res ∷ []

module _ {P S : Type 0} (port : SerialPort P) (impl : SocketImpl S) (rounds : ℕ) where
  forward_handler :
      (conn : ℕ) (addr : MobileAddr) (tail : List ℕ) (s : Ma P S)
      → IsAddress addr
      → 0 < length (address_write (some addr))
      → run_request port impl rounds
          (suc (suc (length (address_write (some addr)))))
          (MaCmd.cmd_send ∷ conn ∷ (address_write (some addr) ++ tail))
          s
        ≡ recv_stream_for port impl rounds conn addr s
  unfolding run_request recv_cmd_sock_send
  forward_handler conn addr tail s v some_bytes =
      let (reads, null) =
        address_read-address_write addr tail (length (address_write (some addr))) v (omega arith) in
      ground (arith, reads)

  forward_stream :
      (conn size : ℕ) (addr : MobileAddr) (b : List ℕ) (h : Host P) (res : ℤ) (s : Ma P S)
      (socket : S)
      → host_recv_stream port (replicate 0x200 0) 0x200 s.host ≡ some ((some size, b), h)
      → impl.socket_impl_send conn b size addr s.socket ≡ some (res, socket)
      → recv_stream_for port impl rounds conn addr s
        ≡ send_reply port rounds
            (forward_reply res)
            (record s { host = h; socket = socket })
            (λ r. handled true r)
  unfolding recv_stream_for send_to
  forward_stream conn size addr b h res s socket streams sends = ground (arith, streams, sends)

address_write_nonempty : (addr : MobileAddr) → 0 < length (address_write (some addr))
unfolding address_write
address_write_nonempty addr_none = omega arith
address_write_nonempty (addr4 port host) = omega arith
address_write_nonempty (addr6 port host) = omega arith

-- `gbridge_prot_ma_loop` carries out a request to send that is followed on the line by the stream of
-- up to 512 bytes to send and by the acknowledgement of the reply: it receives and acknowledges the
-- stream, hands its bytes to the socket operation, whose result is taken to depend on no others, sends
-- that result as the reply, and gives the packet back.
pub prot_ma_loop_forwards :
    {P S : Type 0} (port : SerialPort P) (line : IsLine port) (impl : SocketImpl S)
    (rounds conn : ℕ) (payload tail rest : List ℕ) (addr : MobileAddr) (res : ℤ) (s : Ma P S)
    (socket : S)
    → IsAddress addr
    → length payload ≤ 0x200
    → s.host.connected ≡ true
    → s.host.waiting_cmd ≡ Cmd.none
    → s.host.data_ready ≡ true
    → s.host.data_size ≡ length (forward_request conn addr)
    → s.host.data_buf ≡ forward_request conn addr ++ tail
    → length s.reply_buf ≡ gbridge_max_data_size
    → 0 < rounds
    → line.pending s.host.port ≡ short_sum_frame Cmd.stream payload ++ (reply Cmd.data_pc ∷ rest)
    → ((b : List ℕ)
        → take (length payload) b ≡ payload
        → impl.socket_impl_send conn b (length payload) addr s.socket ≡ some (res, socket))
    → (s' : Ma P S) × (prot_ma_loop port impl rounds s ≡ handled true s')
      × IsDone port line
          ((line.written s.host.port ++ (reply Cmd.stream ∷ []))
            ++ data_frame Cmd.data_pc (forward_reply res))
          rest
          socket
          s'
unfolding prot_ma_loop host_recv_data host_recv_data_done give_back
prot_ma_loop_forwards port line impl rounds conn payload tail rest addr res s socket v fits c w
      ready size held room some_round e sends =
    let some_bytes = address_write_nonempty addr in
    let runs = forward_handler port impl rounds conn addr tail s v some_bytes in
    let (b, h, streams, d) =
      host_stream-IsStreamed port line payload (reply Cmd.data_pc ∷ rest) (replicate 0x200 0) 0x200
        s.host c (omega arith) fits (omega (arith, length-replicate {A = ℕ} 0x200 0)) e in
    let goes =
      forward_stream port impl rounds conn (length payload) addr b h res s socket streams
        (sends b d.held) in
    let (buf, h', replies, a, stays) =
      send_reply_lem port line rounds (forward_reply res) rest
        (record s { host = h; socket = socket }) (λ r. handled true r) d.connected (d.waiting ∙ w)
        (omega arith) room some_round d.left in
    (
      record s { socket = socket; reply_buf = buf; reply_size = 3; host = host_recv_data_done h' },
      ground (arith, ready, size, held, runs, goes, replies, some_bytes),
      record {
        socket_is = refl;
        written =
            a.written ∙ ap (λ x. x ++ data_frame Cmd.data_pc (forward_reply res)) d.acknowledged;
        left = a.left;
        connected = a.connected;
        free = refl;
      },
    )
