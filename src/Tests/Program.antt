-- ===== src/Tests/Program.antt =====
-- The computer's program at concrete inputs.
use libmobile_atmega.Prelude.{
  ℕ, suc, ◌≡◌, refl, arith, true, false, none, some, List, [], ◌∷◌, ◌++◌, replicate,
}
use libmobile_atmega.Wire.{handshake}
use libmobile_atmega.Wire.Search.{find_handshake}
use libmobile_atmega.Address.{addr_none, addr4, address_write}
use libmobile_atmega.Sockets.{pos, negsuc, SocketImpl}
use libmobile_atmega.ProtMa.State.{Ma, handled}
use libmobile_atmega.ProtMa.Requests.{Request, open_, connect_, listen_, request_bytes, answer}
use libmobile_atmega.Bridge.{PortSetup, serial_open, main_loop, main_turn, shut_down, main_program}
use libmobile_atmega.Bridge.Serve.{answer_all, asked, replied, IsListening, IsServed}
use libmobile_atmega.Net.State.{Net}
use libmobile_atmega.Net.Socket.{socket_setblocking, blocking_flags}
use libmobile_atmega.Net.Impl.{
  sock_type, sock_addrtype, socket_of, bind_addr, open_bind, open_nodelay, open_reuseaddr,
  open_nonblocking, open_socket, socket_impl_init, socket_impl_open, socket_impl_listen,
}
use libmobile_atmega.Net.Recv.{net_impl}
use libmobile_atmega.Net.Owned.Kept.{Keeps}
use libmobile_atmega.Tests.Os.{small_os, small_laws}
use libmobile_atmega.Bridge.Descriptors.{main_program-IsOwned}
use libmobile_atmega.Bridge.Whole.{main_program-IsServed}
use libmobile_atmega.Device.State.{Device}
use libmobile_atmega.Device.Send.{Event, returned}
use libmobile_atmega.Device.Sock.{mobile_impl_sock_connect}
use libmobile_atmega.Link.Remote.{call-IsServed}
use libmobile_atmega.Device.Packet.Pieces.{all_bytes}
use libmobile_atmega.ProtMa.MaCmd
use libmobile_atmega.Tests.Sock.{exchange, exchange-IsExchange}
use libmobile_atmega.Tests.Device.{idle, idle-IsIdle}
use libmobile_atmega.Tests.Host.{Lists, list_port, list_line, host}

-- Sockets that count the operations on them
abbrev tally : SocketImpl ℕ
tally = record {
  socket_impl_open = λ conn type addrtype bindport n. some (true, suc n);
  socket_impl_close = λ conn n. some (suc n);
  socket_impl_connect = λ conn addr n. some (negsuc 0, suc n);
  socket_impl_listen = λ conn n. some (false, suc n);
  socket_impl_accept = λ conn n. some (false, suc n);
  socket_impl_send = λ conn buffer size addr n. some (pos size, suc n);
  socket_impl_recv = λ conn size n. some (pos 0, [], addr_none, suc n);
}

abbrev list_setup : PortSetup Lists
list_setup = record {
  sp_open = λ p. (true, p);
  sp_set_baudrate = λ n p. (true, p);
  sp_set_bits = λ n p. (true, p);
  sp_set_parity_none = λ p. (true, p);
  sp_set_stopbits = λ n p. (true, p);
  sp_set_flowcontrol_none = λ p. (true, p);
  sp_close = λ p. ([], p.1);
  sp_free_port = λ p. p;
}

abbrev requests : List Request
requests = open_ 0 0 1 80 ∷ listen_ 0 ∷ []

-- A byte and the start of a handshake come before the handshake.
abbrev arriving : List ℕ
arriving = 1 ∷ 0x99 ∷ (handshake ++ asked requests)

abbrev beginning : List ℕ → Ma Lists ℕ
beginning rx = record { host = host rx; reply_buf = replicate 128 0; reply_size = 3; socket = 7 }

arriving_found : find_handshake arriving ≡ some (asked requests ++ [])
unfolding find_handshake request_bytes
arriving_found = refl

requests_answered : answer_all tally requests 0 ≡ some ((0 ∷ 1 ∷ []) ∷ (3 ∷ 0 ∷ []) ∷ [], 2)
unfolding answer_all answer
requests_answered = refl

main_program-IsServed_example :
    (s : Ma Lists ℕ) × (main_program list_port tally 1 list_setup (λ n. 0) 1 40 (beginning arriving)
      ≡ shut_down list_port tally 1 list_setup (main_loop list_port tally 1 38 s))
    × IsServed list_port list_line tally 1
        (handshake ++ replied ((0 ∷ 1 ∷ []) ∷ (3 ∷ 0 ∷ []) ∷ []))
        []
        2
        s
unfolding serial_open request_bytes
main_program-IsServed_example =
    main_program-IsServed list_port list_line tally 1 list_setup (λ n. 0) 0 38 requests
      ((0 ∷ 1 ∷ []) ∷ (3 ∷ 0 ∷ []) ∷ []) [] (arriving, []) 2 (beginning arriving) refl
      arriving_found (omega arith) (omega arith, (tt, tt)) (omega arith, omega arith) (omega arith)
      requests_answered

-- The result of the connection is -1.
abbrev connecting : Request
connecting = connect_ 1 (addr4 80 (10 ∷ 0 ∷ 0 ∷ 1 ∷ []))

beginning-IsListening : IsListening (beginning [])
beginning-IsListening = record {
  connected = refl;
  waiting = refl;
  free = refl;
  room = omega arith;
  reply_room = omega arith;
}

call-IsServed_example :
    (sent : List ℕ) × (left : List Event) × (d : Device) × (s : Ma Lists ℕ)
    × (mobile_impl_sock_connect 1
          (some (addr4 80 (10 ∷ 0 ∷ 0 ∷ 1 ∷ [])))
          (exchange (MaCmd.cmd_connect ∷ 255 ∷ []))
          idle
        ≡ returned (negsuc 0) d left)
    × (d.tx ≡ sent)
    × (d.connected ≡ true)
    × (d.rx ++ all_bytes left ≡ [])
    × (main_turn list_port tally 1
          (record (beginning []) { host = record (beginning []).host { port = (sent, []) } })
        ≡ handled true s)
    × IsServed list_port list_line tally 1
        (all_bytes (exchange (MaCmd.cmd_connect ∷ 255 ∷ [])))
        []
        8
        s
unfolding address_write
call-IsServed_example =
    call-IsServed list_port list_line tally 1 (λ l. (l, [])) (λ l. refl) connecting (negsuc 0) 8
      idle (beginning []) (exchange (MaCmd.cmd_connect ∷ 255 ∷ [])) idle-IsIdle refl
      beginning-IsListening (omega arith) (omega arith, (omega arith, refl), omega arith)
      (omega arith) refl (exchange-IsExchange (MaCmd.cmd_connect ∷ 255 ∷ []) (omega arith))

-- The same requests, on the sockets of a system
abbrev sockets_unused : Net (List ℕ)
sockets_unused = record { sockets = []; os = [] }

abbrev sockets_used : Net (List ℕ)
sockets_used = record { sockets = some 1 ∷ none ∷ []; os = 1 ∷ [] }

abbrev beginning_on : Net (List ℕ) → Ma Lists (Net (List ℕ))
beginning_on net = record {
  host = host arriving;
  reply_buf = replicate 128 0;
  reply_size = 3;
  socket = net;
}

requests_carried_out :
    answer_all (net_impl small_os) requests (socket_impl_init small_os sockets_unused)
    ≡ some ((0 ∷ 1 ∷ []) ∷ (3 ∷ 1 ∷ []) ∷ [], sockets_used)
unfolding answer_all answer socket_impl_init socket_impl_open socket_impl_listen sock_type
    sock_addrtype socket_of open_socket open_nonblocking open_reuseaddr open_nodelay open_bind
    bind_addr socket_setblocking blocking_flags
requests_carried_out = refl

main_program-IsOwned_example :
    (s : Ma Lists (Net (List ℕ))) × (main_program list_port
        (net_impl small_os)
        1
        list_setup
        (socket_impl_init small_os)
        1
        40
        (beginning_on sockets_unused)
      ≡ shut_down list_port
          (net_impl small_os)
          1
          list_setup
          (main_loop list_port (net_impl small_os) 1 38 s))
    × IsServed list_port list_line
        (net_impl small_os)
        1
        (handshake ++ replied ((0 ∷ 1 ∷ []) ∷ (3 ∷ 1 ∷ []) ∷ []))
        []
        sockets_used
        s
    × Keeps small_os small_laws 0 [] sockets_used
unfolding serial_open request_bytes
main_program-IsOwned_example =
    main_program-IsOwned small_os small_laws list_port list_line 1 list_setup 0 38 requests
      ((0 ∷ 1 ∷ []) ∷ (3 ∷ 1 ∷ []) ∷ []) [] (arriving, []) sockets_used
      (beginning_on sockets_unused) refl arriving_found (omega arith) (omega arith, (tt, tt))
      (omega arith, omega arith) (omega arith) (λ k. refl) requests_carried_out
