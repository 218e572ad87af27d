-- ===== src/ProtMa/Answers.antt =====
-- What the computer makes of a request, against a specification: the bytes of a request, the effect
-- on the sockets, and the bytes of the reply.
use libmobile_atmega.Prelude.{
  ℕ, suc, ◌≤◌, ◌<◌, ◌≡◌, refl, ap, ◌∙◌, arith, true, false, some, List, [], ◌∷◌, ◌++◌, length,
}
use libmobile_atmega.Wire.{gbridge_max_data_size, reply, word_bytes}
use libmobile_atmega.Wire.Cmd
use libmobile_atmega.Wire.Checksum.{word-word_bytes}
use libmobile_atmega.Wire.Frame.{data_frame}
use libmobile_atmega.Address.{MobileAddr, address_write}
use libmobile_atmega.Address.RoundTrip.{IsAddress, address_read-address_write}
use libmobile_atmega.Sockets.{SocketImpl}
use libmobile_atmega.Host.Port.{SerialPort, IsLine}
use libmobile_atmega.Host.State.{Host, host_recv_data, host_recv_data_done}
use libmobile_atmega.Host.Line.{overlay_fits}
use libmobile_atmega.Host.Wait.{IsAnswered}
use libmobile_atmega.Host.Sent.{host_cmd_data-IsAnswered}
use libmobile_atmega.ProtMa.MaCmd
use libmobile_atmega.ProtMa.State.{Ma, Handled, handled, send_reply}
use libmobile_atmega.ProtMa.Handlers.{
  recv_cmd_sock_open, recv_cmd_sock_close, connect_to, recv_cmd_sock_connect, recv_cmd_sock_listen,
  recv_cmd_sock_accept, run_request, give_back, prot_ma_loop,
}
use libmobile_atmega.ProtMa.Requests.{
  Request, open_, close_, connect_, listen_, accept_, request_bytes, IsRequest, answer_bool,
  answer_int, answer, answer_short, request_bytes_some,
}

module _ {P S : Type 0} (port : SerialPort P) (impl : SocketImpl S) (rounds : ℕ) where
  -- The handler of a request, up to its reply
  abbrev HandledAs : List ℕ → ℕ → List ℕ → S → Ma P S → Type 0
  HandledAs l size buffer socket s =
      run_request port impl rounds size buffer s
      ≡ send_reply port rounds l (record s { socket = socket }) (λ r. handled true r)

  open_lem :
      (conn type addrtype bindport : ℕ) (tail l : List ℕ) (s : Ma P S) (socket : S)
      → bindport < 0x1_0000
      → answer_bool impl MaCmd.cmd_open (impl.socket_impl_open conn type addrtype bindport s.socket)
        ≡ some (l, socket)
      → HandledAs l 6
          (MaCmd.cmd_open ∷ conn ∷ type ∷ addrtype ∷ (word_bytes bindport ++ tail))
          socket
          s
  unfolding run_request recv_cmd_sock_open
  open_lem conn type addrtype bindport tail l s socket small e =
      rw (word-word_bytes bindport small, run_request, recv_cmd_sock_open) (ground (arith, e))

  connect_lem :
      (conn : ℕ) (addr : MobileAddr) (tail l : List ℕ) (s : Ma P S) (socket : S)
      → IsAddress addr
      → 1 < length (address_write (some addr))
      → answer_int impl MaCmd.cmd_connect (impl.socket_impl_connect conn addr s.socket)
        ≡ some (l, socket)
      → HandledAs l
          (suc (suc (length (address_write (some addr)))))
          (MaCmd.cmd_connect ∷ conn ∷ (address_write (some addr) ++ tail))
          socket
          s
  unfolding run_request recv_cmd_sock_connect connect_to
  connect_lem conn addr tail l s socket v typed e =
      let (reads, null) =
        address_read-address_write addr tail (length (address_write (some addr))) v (omega arith) in
      ground (arith, reads, e, typed)

  answered-HandledAs :
      (r : Request) (tail l : List ℕ) (s : Ma P S) (socket : S)
      → IsRequest r
      → answer impl r s.socket ≡ some (l, socket)
      → HandledAs l (length (request_bytes r)) (request_bytes r ++ tail) socket s
  unfolding request_bytes answer run_request recv_cmd_sock_close recv_cmd_sock_listen
      recv_cmd_sock_accept
  answered-HandledAs (open_ conn type addrtype bindport) tail l s socket v e =
      open_lem conn type addrtype bindport tail l s socket v e
  answered-HandledAs (close_ conn) tail l s socket v e = ground (arith, e)
  answered-HandledAs (connect_ conn addr) tail l s socket v e =
      connect_lem conn addr tail l s socket v.0 v.1 e
  answered-HandledAs (listen_ conn) tail l s socket v e = ground (arith, e)
  answered-HandledAs (accept_ conn) tail l s socket v e = ground (arith, e)

module _ {P S : Type 0} (port : SerialPort P) (line : IsLine port) (rounds : ℕ) where
  -- A reply that the adapter acknowledges
  pub send_reply_lem :
      (l rest : List ℕ) (s : Ma P S) (f : Ma P S → Handled P S)
      → s.host.connected ≡ true
      → s.host.waiting_cmd ≡ Cmd.none
      → length l ≤ gbridge_max_data_size
      → length s.reply_buf ≡ gbridge_max_data_size
      → 0 < rounds
      → line.pending s.host.port ≡ reply Cmd.data_pc ∷ rest
      → (buf : List ℕ) × (h : Host P) × (send_reply port rounds l s f
          ≡ f (record s { reply_buf = buf; reply_size = length l; host = h }))
        × IsAnswered port line (line.written s.host.port ++ data_frame Cmd.data_pc l) rest s.host h
        × (length buf ≡ length s.reply_buf)
  unfolding send_reply
  send_reply_lem l rest s f c w short room some_round e =
      let (buf, stores, held, n) = overlay_fits l s.reply_buf (omega arith) in
      let (h, ends, a) =
        host_cmd_data-IsAnswered port line rounds (length l) buf [] rest s.host c w
          (omega (arith, n)) short tt some_round e in
      (
        buf,
        h,
        ground (arith, stores, ends),
        record {
          written = a.written ∙ ap (λ x. line.written s.host.port ++ data_frame Cmd.data_pc x) held;
          left = a.left;
          connected = a.connected;
          waiting = a.waiting;
          data_ready = a.data_ready;
          buffer = a.buffer;
        },
        n,
      )

-- A call that has carried out a request: the sockets are those of the specification, its reply has
-- been sent as one data packet, and the request has been given back.
pub record IsDone {P S : Type 0} (port : SerialPort P) (line : IsLine port) (sent rest : List ℕ)
    (socket : S) (s : Ma P S) : Type 0 where
  pub socket_is : s.socket ≡ socket
  pub written : line.written s.host.port ≡ sent
  pub left : line.pending s.host.port ≡ rest
  pub connected : s.host.connected ≡ true
  pub free : s.host.data_ready ≡ false

-- What the next request will need is as it was.
pub record IsKept {P S : Type 0} (s s' : Ma P S) : Type 0 where
  pub waiting : s'.host.waiting_cmd ≡ Cmd.none
  pub buffer : s'.host.data_buf ≡ s.host.data_buf
  pub reply_room : length s'.reply_buf ≡ length s.reply_buf

pub prot_ma_loop-IsKept :
    {P S : Type 0} (port : SerialPort P) (line : IsLine port) (impl : SocketImpl S) (rounds : ℕ)
    (r : Request) (tail l rest : List ℕ) (s : Ma P S) (socket : S)
    → IsRequest r
    → s.host.connected ≡ true
    → s.host.waiting_cmd ≡ Cmd.none
    → s.host.data_ready ≡ true
    → s.host.data_size ≡ length (request_bytes r)
    → s.host.data_buf ≡ request_bytes r ++ tail
    → length s.reply_buf ≡ gbridge_max_data_size
    → 0 < rounds
    → line.pending s.host.port ≡ reply Cmd.data_pc ∷ rest
    → answer impl r s.socket ≡ some (l, socket)
    → (s' : Ma P S) × (prot_ma_loop port impl rounds s ≡ handled true s')
      × IsDone port line (line.written s.host.port ++ data_frame Cmd.data_pc l) rest socket s'
      × IsKept s s'
unfolding prot_ma_loop host_recv_data host_recv_data_done give_back
prot_ma_loop-IsKept port line impl rounds r tail l rest s socket v c w ready size held room
      some_round e answers =
    let runs = answered-HandledAs port impl rounds r tail l s socket v answers in
    let (buf, h, replies, a, n) =
      send_reply_lem port line rounds l rest (record s { socket = socket }) (λ q. handled true q) c
        w (omega (arith, answer_short impl r l s.socket socket answers)) room some_round e in
    (
      record s {
        socket = socket;
        reply_buf = buf;
        reply_size = length l;
        host = host_recv_data_done h;
      },
      ground (arith, ready, size, held, request_bytes_some r, runs, replies),
      record {
        socket_is = refl;
        written = a.written;
        left = a.left;
        connected = a.connected;
        free = refl;
      },
      record { waiting = a.waiting; buffer = a.buffer; reply_room = n },
    )

-- `gbridge_prot_ma_loop` carries out a request to open, close, connect, listen or accept that is in
-- the packet received: where the operation on the sockets has a defined result, it is done with the
-- arguments of the request, exactly its reply is sent, the adapter's acknowledgement is awaited and
-- taken off the line, and the packet is given back.
pub prot_ma_loop-IsDone :
    {P S : Type 0} (port : SerialPort P) (line : IsLine port) (impl : SocketImpl S) (rounds : ℕ)
    (r : Request) (tail l rest : List ℕ) (s : Ma P S) (socket : S)
    → IsRequest r
    → s.host.connected ≡ true
    → s.host.waiting_cmd ≡ Cmd.none
    → s.host.data_ready ≡ true
    → s.host.data_size ≡ length (request_bytes r)
    → s.host.data_buf ≡ request_bytes r ++ tail
    → length s.reply_buf ≡ gbridge_max_data_size
    → 0 < rounds
    → line.pending s.host.port ≡ reply Cmd.data_pc ∷ rest
    → answer impl r s.socket ≡ some (l, socket)
    → (s' : Ma P S) × (prot_ma_loop port impl rounds s ≡ handled true s')
      × IsDone port line (line.written s.host.port ++ data_frame Cmd.data_pc l) rest socket s'
prot_ma_loop-IsDone port line impl rounds r tail l rest s socket v c w ready size held room
      some_round e answers =
    let (s', runs, done, kept) =
      prot_ma_loop-IsKept port line impl rounds r tail l rest s socket v c w ready size held room
        some_round e answers in
    (s', runs, done)
