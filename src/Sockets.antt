-- ===== src/Sockets.antt =====
-- The operations of bridge/source/socket_impl.h as an interface, and the `int` that some of them
-- return.
use libmobile_atmega.Prelude.{ℕ, ◌-◌, ◌/◌, Bool, Option, List}
use libmobile_atmega.Wire.{byte}
use libmobile_atmega.Address.{MobileAddr}

-- An `int`: `negsuc n` is -(n + 1).
pub data ℤ : Type 0 where
  pos negsuc : ℕ → ℤ

-- `res >> 0` and `res >> 8` in an `unsigned char`
abbrev pub int_low : ℤ → ℕ
int_low (pos n) = byte n
int_low (negsuc n) = 255 - byte n

abbrev pub int_high : ℤ → ℕ
int_high (pos n) = byte (n / 256)
int_high (negsuc n) = 255 - byte (n / 256)

-- The functions on `struct socket_impl`, whose state is `S`. `none` is a failed assertion or an index
-- outside the sockets. The last one returns the bytes in the caller's buffer and the address, too.
pub record SocketImpl (S : Type 0) : Type 0 where
  pub socket_impl_open : ℕ → ℕ → ℕ → ℕ → S → Option (Bool × S)
  pub socket_impl_close : ℕ → S → Option S
  pub socket_impl_connect : ℕ → MobileAddr → S → Option (ℤ × S)
  pub socket_impl_listen : ℕ → S → Option (Bool × S)
  pub socket_impl_accept : ℕ → S → Option (Bool × S)
  pub socket_impl_send : ℕ → List ℕ → ℕ → MobileAddr → S → Option (ℤ × S)
  pub socket_impl_recv : ℕ → ℕ → S → Option (ℤ × List ℕ × MobileAddr × S)
