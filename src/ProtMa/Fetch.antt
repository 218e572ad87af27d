-- ===== src/ProtMa/Fetch.antt =====
-- The request to receive from a socket, whose reply is followed by the data as a stream.
use libmobile_atmega.Prelude.{
  ℕ, ◌/◌, ◌≤◌, ◌<◌, ◌≡◌, refl, ap, ◌∙◌, arith, true, some, List, [], ◌∷◌, ◌++◌, length, take,
}
use libmobile_atmega.Wire.{gbridge_max_data_size, reply, word_bytes, byte}
use libmobile_atmega.Wire.Cmd
use libmobile_atmega.Wire.Checksum.{word-word_bytes}
use libmobile_atmega.Wire.Frame.{data_frame}
use libmobile_atmega.Address.{MobileAddr, address_write}
use libmobile_atmega.Address.RoundTrip.{address_write_short}
use libmobile_atmega.Sockets.{pos, SocketImpl}
use libmobile_atmega.Host.Port.{SerialPort, IsLine}
use libmobile_atmega.Host.State.{host_connected, host_recv_data, host_recv_data_done}
use libmobile_atmega.Host.Stream.{short_sum_frame}
use libmobile_atmega.Host.Sent.{host_cmd_stream-IsAnswered}
use libmobile_atmega.ProtMa.MaCmd
use libmobile_atmega.ProtMa.State.{Ma, handled, send_reply}
use libmobile_atmega.ProtMa.Handlers.{
  recv_stream_back, recv_cmd_sock_recv, run_request, give_back, prot_ma_loop,
}
use libmobile_atmega.ProtMa.Answers.{send_reply_lem, IsDone}

-- The reply: the number of bytes, and the address that they come from
abbrev pub fetch_reply : ℕ → MobileAddr → List ℕ
fetch_reply n addr = MaCmd.cmd_recv ∷ byte (n / 256) ∷ byte n ∷ address_write (some addr)

module _ {P S : Type 0} (port : SerialPort P) (line : IsLine port) (impl : SocketImpl S)
    (rounds : ℕ) where
  fetch_handler :
      (conn size n : ℕ) (bytes tail : List ℕ) (addr : MobileAddr) (s : Ma P S) (socket : S)
      → 0 < size
      → size < 0x1_0000
      → impl.socket_impl_recv conn size s.socket ≡ some (pos n, bytes, addr, socket)
      → run_request port impl rounds 4 (MaCmd.cmd_recv ∷ conn ∷ (word_bytes size ++ tail)) s
        ≡ send_reply port rounds
            (fetch_reply n addr)
            (record s { socket = socket })
            (recv_stream_back port impl rounds (pos n) bytes)
  unfolding run_request recv_cmd_sock_recv
  fetch_handler conn size n bytes tail addr s socket some_size small e =
      rw (word-word_bytes size small, run_request, recv_cmd_sock_recv) (ground (arith, e))

  -- `gbridge_prot_ma_loop` carries out a request to receive one byte or more, for which the sockets have
  -- data: it sends
  -- the reply with the number of bytes and the address that they come from, waits for its
  -- acknowledgement, sends the bytes as a stream, waits for the acknowledgement of that, and gives
  -- the packet back.
  pub prot_ma_loop_fetches :
      (conn size n : ℕ) (bytes tail rest : List ℕ) (addr : MobileAddr) (s : Ma P S) (socket : S)
      → 0 < size
      → size < 0x1_0000
      → 0 < n
      → n < 0x1_0000
      → n ≤ length bytes
      → s.host.connected ≡ true
      → s.host.waiting_cmd ≡ Cmd.none
      → s.host.data_ready ≡ true
      → s.host.data_size ≡ 4
      → s.host.data_buf ≡ MaCmd.cmd_recv ∷ conn ∷ (word_bytes size ++ tail)
      → length s.reply_buf ≡ gbridge_max_data_size
      → 0 < rounds
      → line.pending s.host.port ≡ reply Cmd.data_pc ∷ reply Cmd.stream_pc ∷ rest
      → impl.socket_impl_recv conn size s.socket ≡ some (pos n, bytes, addr, socket)
      → (s' : Ma P S) × (prot_ma_loop port impl rounds s ≡ handled true s')
        × IsDone port line
            ((line.written s.host.port ++ data_frame Cmd.data_pc (fetch_reply n addr))
              ++ short_sum_frame Cmd.stream_pc (take n bytes))
            rest
            socket
            s'
  unfolding prot_ma_loop host_recv_data host_recv_data_done give_back recv_stream_back
      host_connected
  prot_ma_loop_fetches conn size n bytes tail rest addr s socket some_size small some_data n_small
        enough c w ready four held room some_round e fetched =
      let runs = fetch_handler conn size n bytes tail addr s socket some_size small fetched in
      let (buf, h, replies, a, stays) =
        send_reply_lem port line rounds (fetch_reply n addr) (reply Cmd.stream_pc ∷ rest)
          (record s { socket = socket }) (recv_stream_back port impl rounds (pos n) bytes) c w
          (omega (arith, address_write_short (some addr))) room some_round e in
      let (h', streams, b) =
        host_cmd_stream-IsAnswered port line rounds n bytes [] rest h a.connected a.waiting enough
          n_small tt some_round a.left in
      (
        record s {
          socket = socket;
          reply_buf = buf;
          reply_size = length (fetch_reply n addr);
          host = host_recv_data_done h';
        },
        ground (arith, ready, four, held, runs, replies, streams, a.connected, some_data),
        record {
          socket_is = refl;
          written =
              b.written ∙ ap (λ x. x ++ short_sum_frame Cmd.stream_pc (take n bytes)) a.written;
          left = b.left;
          connected = b.connected;
          free = refl;
        },
      )
