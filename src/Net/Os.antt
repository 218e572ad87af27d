-- ===== src/Net/Os.antt =====
-- The calls of the operating system that bridge/source/socket.c and bridge/source/socket_impl.c
-- make, on a system with POSIX sockets.
use libmobile_atmega.Prelude.{ℕ, Bool, Option, List}
use libmobile_atmega.Sockets.{ℤ}

-- AF_INET and AF_INET6
pub data Domain : Type 0 where
  af_inet af_inet6 : Domain

-- SOCK_STREAM, SOCK_DGRAM, and the types that the program does not ask for
pub data SockType : Type 0 where
  sock_stream sock_dgram sock_other : SockType

-- The options that are set to 1: SO_REUSEADDR and TCP_NODELAY
pub data SockOpt : Type 0 where
  so_reuseaddr tcp_nodelay : SockOpt

-- POLLIN | POLLPRI, and POLLOUT
pub data PollEvents : Type 0 where
  readable writable : PollEvents

-- `struct sockaddr_in`, `struct sockaddr_in6` and those of other families. A port is its two bytes
-- in memory, in network order.
pub data Sockaddr : Type 0 where
  sockaddr_in sockaddr_in6 : ℕ × ℕ → List ℕ → Sockaddr
  sockaddr_other : Sockaddr

-- The values of `errno` that the program looks for
pub data Errno : Type 0 where
  ewouldblock einprogress ealready other : Errno

-- What `sendto` returns, with -1 as its error
pub data Sent : Type 0 where
  sent : ℕ → Sent
  send_error : Errno → Sent

-- What `recvfrom` returns: the bytes, whose number is its value, and the address, where it gives one
pub data Received : Type 0 where
  received : List ℕ → Option Sockaddr → Received
  recv_error : Errno → Received

-- Each call is a function of the state `W` of the system. A descriptor is a number; where a call
-- returns -1 or a descriptor, -1 is `none`; where it returns 0 or -1, 0 is `true`. `connect` returns
-- its error, and `getsockopt` the pending error of a socket, with `none` for none.
pub record Os (W : Type 0) : Type 0 where
  pub socket : Domain → SockType → W → Option ℕ × W
  pub close : ℕ → W → W
  pub setsockopt : ℕ → SockOpt → W → Bool × W
  pub bind : ℕ → Sockaddr → W → Bool × W
  pub listen : ℕ → ℕ → W → Bool × W
  pub accept : ℕ → W → Option ℕ × W
  pub connect : ℕ → Option Sockaddr → W → Option Errno × W
  pub sendto : ℕ → List ℕ → ℕ → Option Sockaddr → W → Sent × W
  pub recvfrom : ℕ → ℕ → Bool → W → Received × W
  pub getsockopt_type : ℕ → W → Option SockType × W
  pub getsockopt_error : ℕ → W → Option Errno × W
  pub poll : ℕ → PollEvents → ℕ → W → ℤ × W
  pub fcntl_getfl : ℕ → W → Option ℕ × W
  pub fcntl_setfl : ℕ → ℕ → W → Bool × W
  pub o_nonblock : ℕ
