-- ===== src/Net/Recv.antt =====
-- `socket_impl_recv` of bridge/source/socket_impl.c, and the file's functions as the interface that
-- bridge/source/gbridge_prot_ma.c uses.
use libmobile_atmega.Prelude.{
  ℕ, ◌==◌, not, Bool, true, false, Option, none, some, List, [], length, if◌then◌else◌,
}
use libmobile_atmega.Address.{MobileAddr, addr_none}
use libmobile_atmega.Sockets.{ℤ, pos, negsuc, SocketImpl}
use libmobile_atmega.Net.Os.{Os, sock_stream, Sockaddr, received, recv_error}
use libmobile_atmega.Net.Sockaddr.{read_sockaddr}
use libmobile_atmega.Net.Socket.{is_positive, socket_hasdata}
use libmobile_atmega.Net.State.{Net}
use libmobile_atmega.Net.Impl.{
  error_value, socket_of, socket_impl_open, socket_impl_close, socket_impl_connect,
  socket_impl_listen, socket_impl_accept, socket_impl_send,
}

-- What the function returns, the bytes in the caller's buffer, and the caller's address
abbrev pub Fetched : Type 0 → Type 0
Fetched W = ℤ × List ℕ × MobileAddr × Net W

-- Whether there is a buffer, and the length given to `recvfrom`
abbrev pub has_buffer : Option ℕ → Bool
has_buffer none = false
has_buffer (some size) = true

abbrev pub read_size : Option ℕ → ℕ
read_size none = 1
read_size (some size) = size

module _ {W : Type 0} (os : Os W) where
  -- The end: with a buffer the bytes and their address, without one 0
  unfoldable pub recv_value : Bool → List ℕ → Option Sockaddr → MobileAddr → Net W → Fetched W
  recv_value buffered bytes from addr s =
      if not buffered
      then (pos 0, [], addr, s)
      else (pos (length bytes), bytes, read_sockaddr addr from, s)

  -- The test of a length of 0
  unfoldable pub recv_length : Bool → ℕ → List ℕ → Option Sockaddr → MobileAddr → Net W → Fetched W
  recv_length buffered fd bytes from addr s =
      if not (length bytes == 0)
      then recv_value buffered bytes from addr s
      else let (kind, w) = os.getsockopt_type fd s.os in
        elim kind [
          | none ↦ (negsuc 0, [], addr, record s { os = w })
          | some sock_stream ↦ (negsuc 1, [], addr, record s { os = w })
          | some k ↦ recv_value buffered bytes from addr (record s { os = w })
        ]

  -- From `recvfrom` on, into a buffer of so many bytes, or with MSG_PEEK where there is none
  unfoldable pub recv_fd : ℕ → Option ℕ → MobileAddr → Net W → Fetched W
  recv_fd fd buffer addr s =
      let (result, w) = os.recvfrom fd (read_size buffer) (not (has_buffer buffer)) s.os in
      elim result [
        | received bytes from ↦
            recv_length (has_buffer buffer) fd bytes from addr (record s { os = w })
        | recv_error e ↦ (error_value e, [], addr, record s { os = w })
      ]

  -- A buffer that is NULL is `none`.
  unfoldable pub socket_impl_recv :
      ℕ → Option ℕ → MobileAddr → Net W → Option (ℤ × List ℕ × MobileAddr × Net W)
  socket_impl_recv conn buffer addr s = elim (socket_of s.sockets conn) [
    | none ↦ none
    | some fd ↦
        let (rc, w) = socket_hasdata os fd 0 s.os in
        if not (is_positive rc)
        then some (pos 0, [], addr, record s { os = w })
        else some (recv_fd fd buffer addr (record s { os = w }))
  ]

  -- The caller always has a buffer, and an address without a type.
  abbrev pub net_impl : SocketImpl (Net W)
  net_impl = record {
    socket_impl_open = socket_impl_open os;
    socket_impl_close = socket_impl_close os;
    socket_impl_connect = socket_impl_connect os;
    socket_impl_listen = socket_impl_listen os;
    socket_impl_accept = socket_impl_accept os;
    socket_impl_send = socket_impl_send os;
    socket_impl_recv = λ conn size s. socket_impl_recv conn (some size) addr_none s;
  }
