-- ===== src/Net.antt =====
-- The sockets of the computer: bridge/source/socket_impl.c and bridge/source/socket.c, over the
-- calls of the operating system.
pub mod Os
pub mod Sockaddr
pub mod Socket
pub mod State
pub mod Impl
pub mod Recv
pub mod Owned
pub mod Serve
pub mod Requests
pub mod Connect
