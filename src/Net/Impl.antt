-- ===== src/Net/Impl.antt =====
-- bridge/source/socket_impl.c. Its messages are left out.
use libmobile_atmega.Prelude.{
  ℕ, ◌==◌, not, Bool, true, false, Option, none, some, List, [], ◌∷◌, get_elem?, set, replicate,
  if◌then◌else◌,
}
use libmobile_atmega.Address.{MobileAddr, addrtype_ipv4, addrtype_ipv6, hostlen_ipv4, hostlen_ipv6}
use libmobile_atmega.Sockets.{ℤ, pos, negsuc}
use libmobile_atmega.Net.Os.{
  Os, Domain, af_inet, af_inet6, SockType, sock_stream, sock_dgram, so_reuseaddr, tcp_nodelay,
  Sockaddr, sockaddr_in, sockaddr_in6, Errno, ewouldblock, einprogress, ealready, other, Sent, sent,
  send_error,
}
use libmobile_atmega.Net.Sockaddr.{htons, convert_sockaddr}
use libmobile_atmega.Net.Socket.{
  is_positive, socket_hasdata, socket_isconnected, socket_setblocking,
}
use libmobile_atmega.Net.State.{Net, mobile_max_connections}

-- MOBILE_SOCKTYPE_TCP and MOBILE_SOCKTYPE_UDP
abbrev pub socktype_tcp : ℕ
socktype_tcp = 0

abbrev pub socktype_udp : ℕ
socktype_udp = 1

-- The two `switch` statements of `socket_impl_open`: `none` is the failed assertion.
unfoldable pub sock_type : ℕ → Option SockType
sock_type type =
    if type == socktype_tcp
    then some sock_stream
    else if type == socktype_udp
    then some sock_dgram
    else none

unfoldable pub sock_addrtype : ℕ → Option Domain
sock_addrtype addrtype =
    if addrtype == addrtype_ipv4
    then some af_inet
    else if addrtype == addrtype_ipv6
    then some af_inet6
    else none

-- Whether an error of `connect` says that the connection is in progress
unfoldable pub in_progress : Errno → Bool
in_progress ewouldblock = true
in_progress einprogress = true
in_progress ealready = true
in_progress other = false

-- The descriptor of a connection: `none` is a failed assertion or an index outside the array.
unfoldable pub socket_of : List (Option ℕ) → ℕ → Option ℕ
socket_of sockets conn = elim (get_elem? sockets conn) [
  | none ↦ none
  | some none ↦ none
  | some (some fd) ↦ some fd
]

-- What a failed `sendto` or `recvfrom` comes to: nothing was ready, or -1
unfoldable pub error_value : Errno → ℤ
error_value ewouldblock = pos 0
error_value einprogress = negsuc 0
error_value ealready = negsuc 0
error_value other = negsuc 0

unfoldable pub send_value : Sent → ℤ
unfolding error_value
send_value (sent len) = pos len
send_value (send_error e) = error_value e

-- The address that a socket is bound to
unfoldable pub bind_addr : ℕ → ℕ → Sockaddr
bind_addr addrtype bindport =
    if addrtype == addrtype_ipv4
    then sockaddr_in (htons bindport) (replicate hostlen_ipv4 0)
    else sockaddr_in6 (htons bindport) (replicate hostlen_ipv6 0)

module _ {W : Type 0} (os : Os W) where
  unfoldable pub socket_impl_init : Net W → Net W
  socket_impl_init s = record s { sockets = replicate mobile_max_connections none }

  -- The loop of `socket_impl_stop`
  unfoldable pub close_all : List (Option ℕ) → W → W
  close_all [] w = w
  close_all (none ∷ l) w = close_all l w
  close_all (some fd ∷ l) w = close_all l (os.close fd w)

  unfoldable pub socket_impl_stop : Net W → Net W
  socket_impl_stop s = record s { os = close_all s.sockets s.os }

  -- `socket_close(sock); return false;`
  unfoldable pub give_up : ℕ → Net W → Bool × Net W
  give_up fd s = (false, record s { os = os.close fd s.os })

  -- `socket_impl_open` from `bind` on
  unfoldable pub open_bind : ℕ → ℕ → ℕ → ℕ → Net W → Bool × Net W
  open_bind conn addrtype bindport fd s =
      let (ok, w) = os.bind fd (bind_addr addrtype bindport) s.os in
      if not ok
      then give_up fd (record s { os = w })
      else (true, record s { os = w; sockets = set s.sockets conn (some fd) })

  -- From TCP_NODELAY on
  unfoldable pub open_nodelay : ℕ → ℕ → ℕ → ℕ → ℕ → Net W → Bool × Net W
  open_nodelay conn type addrtype bindport fd s =
      if not (type == socktype_tcp)
      then open_bind conn addrtype bindport fd s
      else let (ok, w) = os.setsockopt fd tcp_nodelay s.os in
        if not ok
        then give_up fd (record s { os = w })
        else open_bind conn addrtype bindport fd (record s { os = w })

  -- From SO_REUSEADDR on
  unfoldable pub open_reuseaddr : ℕ → ℕ → ℕ → ℕ → ℕ → Net W → Bool × Net W
  open_reuseaddr conn type addrtype bindport fd s =
      let (ok, w) = os.setsockopt fd so_reuseaddr s.os in
      if not ok
      then give_up fd (record s { os = w })
      else open_nodelay conn type addrtype bindport fd (record s { os = w })

  -- From `socket_setblocking` on
  unfoldable pub open_nonblocking : ℕ → ℕ → ℕ → ℕ → ℕ → Net W → Bool × Net W
  open_nonblocking conn type addrtype bindport fd s =
      let (ok, w) = socket_setblocking os fd false s.os in
      if not ok
      then give_up fd (record s { os = w })
      else open_reuseaddr conn type addrtype bindport fd (record s { os = w })

  -- From `socket` on
  unfoldable pub open_socket : ℕ → ℕ → ℕ → ℕ → Domain → SockType → Net W → Bool × Net W
  open_socket conn type addrtype bindport domain kind s =
      let (sock, w) = os.socket domain kind s.os in
      elim sock [
        | none ↦ (false, record s { os = w })
        | some fd ↦ open_nonblocking conn type addrtype bindport fd (record s { os = w })
      ]

  unfoldable pub socket_impl_open : ℕ → ℕ → ℕ → ℕ → Net W → Option (Bool × Net W)
  socket_impl_open conn type addrtype bindport s = elim (get_elem? s.sockets conn) [
    | none ↦ none
    | some (some fd) ↦ none
    | some none ↦ elim (sock_type type) [
      | none ↦ none
      | some kind ↦ elim (sock_addrtype addrtype) [
        | none ↦ none
        | some domain ↦ some (open_socket conn type addrtype bindport domain kind s)
      ]
    ]
  ]

  unfoldable pub socket_impl_close : ℕ → Net W → Option (Net W)
  socket_impl_close conn s = elim (socket_of s.sockets conn) [
    | none ↦ none
    | some fd ↦ some (record s { os = os.close fd s.os; sockets = set s.sockets conn none })
  ]

  -- The message of a failed connection reads the address, so NULL is undefined there.
  unfoldable pub connect_failed : Option Sockaddr → Net W → Option (ℤ × Net W)
  connect_failed none s = none
  connect_failed (some addr) s = some (negsuc 0, s)

  -- The wait for a connection that is in progress
  unfoldable pub connect_wait : ℕ → Option Sockaddr → Net W → Option (ℤ × Net W)
  connect_wait fd addr s =
      let (rc, w) = socket_isconnected os fd 100 s.os in
      elim rc [
        | pos n ↦ some ((if n == 0 then pos 0 else pos 1), record s { os = w })
        | negsuc n ↦ connect_failed addr (record s { os = w })
      ]

  unfoldable pub connect_fd : ℕ → Option Sockaddr → Net W → Option (ℤ × Net W)
  connect_fd fd addr s =
      let (err, w) = os.connect fd addr s.os in
      elim err [
        | none ↦ some (pos 1, record s { os = w })
        | some e ↦
            if in_progress e
            then connect_wait fd addr (record s { os = w })
            else connect_failed addr (record s { os = w })
      ]

  unfoldable pub socket_impl_connect : ℕ → MobileAddr → Net W → Option (ℤ × Net W)
  socket_impl_connect conn addr s = elim (socket_of s.sockets conn) [
    | none ↦ none
    | some fd ↦ connect_fd fd (convert_sockaddr (some addr)) s
  ]

  unfoldable pub socket_impl_listen : ℕ → Net W → Option (Bool × Net W)
  socket_impl_listen conn s = elim (socket_of s.sockets conn) [
    | none ↦ none
    | some fd ↦ let (ok, w) = os.listen fd 1 s.os in some (ok, record s { os = w })
  ]

  -- `socket_impl_accept` from `socket_setblocking` on
  unfoldable pub accept_nonblocking : ℕ → ℕ → ℕ → Net W → Bool × Net W
  accept_nonblocking conn fd newsock s =
      let (ok, w) = socket_setblocking os newsock false s.os in
      if not ok
      then (false, record s { os = w })
      else (true, record s { os = os.close fd w; sockets = set s.sockets conn (some newsock) })

  -- From the test for data on
  unfoldable pub accept_fd : ℕ → ℕ → Net W → Bool × Net W
  accept_fd conn fd s =
      let (rc, w) = socket_hasdata os fd 0 s.os in
      if not (is_positive rc)
      then (false, record s { os = w })
      else let (sock, w₁) = os.accept fd w in
        elim sock [
          | none ↦ (false, record s { os = w₁ })
          | some newsock ↦ accept_nonblocking conn fd newsock (record s { os = w₁ })
        ]

  unfoldable pub socket_impl_accept : ℕ → Net W → Option (Bool × Net W)
  socket_impl_accept conn s = elim (socket_of s.sockets conn) [
    | none ↦ none
    | some fd ↦ some (accept_fd conn fd s)
  ]

  unfoldable pub send_fd : ℕ → List ℕ → ℕ → Option Sockaddr → Net W → ℤ × Net W
  send_fd fd bytes size addr s =
      let (result, w) = os.sendto fd bytes size addr s.os in
      (send_value result, record s { os = w })

  unfoldable pub socket_impl_send : ℕ → List ℕ → ℕ → MobileAddr → Net W → Option (ℤ × Net W)
  socket_impl_send conn bytes size addr s = elim (socket_of s.sockets conn) [
    | none ↦ none
    | some fd ↦ some (send_fd fd bytes size (convert_sockaddr (some addr)) s)
  ]
