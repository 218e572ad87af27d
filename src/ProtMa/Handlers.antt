-- ===== src/ProtMa/Handlers.antt =====
-- The handlers of bridge/source/gbridge_prot_ma.c and `gbridge_prot_ma_loop`.
use libmobile_atmega.Prelude.{
  ℕ, ◌+◌, ◌-◌, ◌==◌, ltb, leb, not, Bool, true, false, none, some, List, [], ◌∷◌, get_or, drop,
  replicate, if◌then◌else◌,
}
use libmobile_atmega.Wire.{word}
use libmobile_atmega.Address.{MobileAddr, address_read, address_write}
use libmobile_atmega.Sockets.{ℤ, pos, negsuc, int_low, int_high, SocketImpl}
use libmobile_atmega.Host.Port.{SerialPort}
use libmobile_atmega.Host.State.{host_recv_data, host_recv_data_done, host_connected}
use libmobile_atmega.Host.Loop.{host_recv_stream}
use libmobile_atmega.Host.Send.{host_cmd_stream}
use libmobile_atmega.ProtMa.MaCmd
use libmobile_atmega.ProtMa.State.{Ma, Handled, handled, unfinished, fault, after, send_reply}

abbrev pub bool_byte : Bool → ℕ
bool_byte b = if b then 1 else 0

-- `res > 0`
abbrev pub positive : ℤ → ℕ
positive (pos n) = n
positive (negsuc n) = 0

-- `buffer` is that of the packet received, of 128 bytes: every index below is one of the first six.
module _ {P S : Type 0} (port : SerialPort P) (impl : SocketImpl S) (rounds : ℕ) where
  abbrev pub reply_true : List ℕ → Ma P S → Handled P S
  reply_true l s = send_reply port rounds l s (λ r. handled true r)

  unfoldable pub recv_cmd_sock_open : ℕ → List ℕ → Ma P S → Handled P S
  recv_cmd_sock_open size buffer s =
      let conn = get_or buffer 1 0 in
      let bindport = word (get_or buffer 4 0) (get_or buffer 5 0) in
      if not (size == 6)
      then handled false s
      else elim (impl.socket_impl_open conn (get_or buffer 2 0) (get_or buffer 3 0) bindport
          s.socket) [
            | none ↦ fault
            | some (res, socket) ↦
                reply_true (MaCmd.cmd_open ∷ bool_byte res ∷ []) (record s { socket = socket })
          ]

  unfoldable pub recv_cmd_sock_close : ℕ → List ℕ → Ma P S → Handled P S
  recv_cmd_sock_close size buffer s =
      if not (size == 2)
      then handled false s
      else elim (impl.socket_impl_close (get_or buffer 1 0) s.socket) [
        | none ↦ fault
        | some socket ↦ reply_true (MaCmd.cmd_close ∷ []) (record s { socket = socket })
      ]

  -- The connection itself, once the address has been read
  unfoldable pub connect_to : ℕ → MobileAddr → Ma P S → Handled P S
  connect_to conn addr s = elim (impl.socket_impl_connect conn addr s.socket) [
    | none ↦ fault
    | some (res, socket) ↦
        reply_true (MaCmd.cmd_connect ∷ int_low res ∷ []) (record s { socket = socket })
  ]

  unfoldable pub recv_cmd_sock_connect : ℕ → List ℕ → Ma P S → Handled P S
  recv_cmd_sock_connect size buffer s =
      if ltb size 2 then handled false s else elim (address_read (drop 2 buffer) (size - 2)) [
        | none ↦ fault
        | some (n, none) ↦ handled false s
        | some (n, some addr) ↦
            if leb n 1
            then handled false s
            else if not (size == 2 + n)
            then handled false s
            else connect_to (get_or buffer 1 0) addr s
      ]

  unfoldable pub recv_cmd_sock_listen : ℕ → List ℕ → Ma P S → Handled P S
  recv_cmd_sock_listen size buffer s =
      if not (size == 2)
      then handled false s
      else elim (impl.socket_impl_listen (get_or buffer 1 0) s.socket) [
        | none ↦ fault
        | some (res, socket) ↦
            reply_true (MaCmd.cmd_listen ∷ bool_byte res ∷ []) (record s { socket = socket })
      ]

  unfoldable pub recv_cmd_sock_accept : ℕ → List ℕ → Ma P S → Handled P S
  recv_cmd_sock_accept size buffer s =
      if not (size == 2)
      then handled false s
      else elim (impl.socket_impl_accept (get_or buffer 1 0) s.socket) [
        | none ↦ fault
        | some (res, socket) ↦
            reply_true (MaCmd.cmd_accept ∷ bool_byte res ∷ []) (record s { socket = socket })
      ]

  -- What follows a stream of `size` bytes received in `recv_buffer`
  unfoldable pub send_to : ℕ → List ℕ → ℕ → MobileAddr → Ma P S → Handled P S
  send_to conn recv_buffer size addr s =
      elim (impl.socket_impl_send conn recv_buffer size addr s.socket) [
        | none ↦ fault
        | some (res, socket) ↦
            reply_true (MaCmd.cmd_send ∷ int_high res ∷ int_low res ∷ [])
              (record s { socket = socket })
      ]

  -- The bytes of `recv_buffer` before the stream are not determined; nothing reads them.
  unfoldable pub recv_stream_for : ℕ → MobileAddr → Ma P S → Handled P S
  recv_stream_for conn addr s = elim (host_recv_stream port (replicate 0x200 0) 0x200 s.host) [
    | none ↦ fault
    | some ((none, recv_buffer), h) ↦ handled false (record s { host = h })
    | some ((some size, recv_buffer), h) ↦
        send_to conn recv_buffer size addr (record s { host = h })
  ]

  unfoldable pub recv_cmd_sock_send : ℕ → List ℕ → Ma P S → Handled P S
  recv_cmd_sock_send size buffer s =
      if ltb size 2 then handled false s else elim (address_read (drop 2 buffer) (size - 2)) [
        | none ↦ fault
        | some (n, none) ↦ handled false s
        | some (n, some addr) ↦ recv_stream_for (get_or buffer 1 0) addr s
      ]

  -- What follows the reply: a stream, if there is data
  unfoldable pub recv_stream_back : ℤ → List ℕ → Ma P S → Handled P S
  recv_stream_back res received s =
      if not (host_connected s.host)
      then handled false s
      else if positive res == 0
      then handled true s
      else after s (host_cmd_stream port rounds (positive res) received s.host)
          (λ r. handled true r)

  -- Its `buffer` is an array of variable length, which is undefined where it has no elements.
  unfoldable pub recv_cmd_sock_recv : ℕ → List ℕ → Ma P S → Handled P S
  recv_cmd_sock_recv size buffer s =
      let conn = get_or buffer 1 0 in
      let wanted = word (get_or buffer 2 0) (get_or buffer 3 0) in
      if not (size == 4)
      then handled false s
      else if wanted == 0
      then fault
      else elim (impl.socket_impl_recv conn wanted s.socket) [
        | none ↦ fault
        | some (res, received, addr, socket) ↦
            send_reply port rounds
              (MaCmd.cmd_recv ∷ int_high res ∷ int_low res ∷ address_write (some addr))
              (record s { socket = socket }) (recv_stream_back res received)
      ]

  -- The `switch` on the command
  unfoldable pub run_request : ℕ → List ℕ → Ma P S → Handled P S
  run_request size buffer s =
      let cmd = get_or buffer 0 0 in
      if cmd == MaCmd.cmd_open
      then recv_cmd_sock_open size buffer s
      else if cmd == MaCmd.cmd_close
      then recv_cmd_sock_close size buffer s
      else if cmd == MaCmd.cmd_connect
      then recv_cmd_sock_connect size buffer s
      else if cmd == MaCmd.cmd_listen
      then recv_cmd_sock_listen size buffer s
      else if cmd == MaCmd.cmd_accept
      then recv_cmd_sock_accept size buffer s
      else if cmd == MaCmd.cmd_send
      then recv_cmd_sock_send size buffer s
      else if cmd == MaCmd.cmd_recv
      then recv_cmd_sock_recv size buffer s
      else handled true s

  -- The packet is given back whatever the handler has returned.
  unfoldable pub give_back : Handled P S → Handled P S
  give_back (handled ok s) = handled ok (record s { host = host_recv_data_done s.host })
  give_back (unfinished s) = unfinished s
  give_back fault = fault

  -- `gbridge_prot_ma_loop`
  unfoldable pub prot_ma_loop : Ma P S → Handled P S
  prot_ma_loop s = elim (host_recv_data s.host) [
    | none ↦ handled true s
    | some (size, buffer) ↦
        if ltb size 1 then give_back (handled true s) else give_back (run_request size buffer s)
  ]
