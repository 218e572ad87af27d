-- ===== src/Net/Sockaddr.antt =====
-- The conversions of addresses in bridge/source/socket_impl.c.
use libmobile_atmega.Prelude.{ℕ, ◌+◌, ◌*◌, ◌/◌, ◌<◌, ◌≡◌, arith, Option, none, some, take}
use libmobile_atmega.Wire.{byte}
use libmobile_atmega.Address.{MobileAddr, addr_none, addr4, addr6, hostlen_ipv4, hostlen_ipv6}
use libmobile_atmega.Net.Os.{Sockaddr, sockaddr_in, sockaddr_in6, sockaddr_other}

-- `htons` of the low 16 bits, as the bytes in memory, and `ntohs`
abbrev pub htons : ℕ → ℕ × ℕ
htons x = (byte (x / 256), byte x)

abbrev pub ntohs : ℕ × ℕ → ℕ
ntohs (hi, lo) = hi * 256 + lo

-- NULL is `none`.
unfoldable pub convert_sockaddr : Option MobileAddr → Option Sockaddr
convert_sockaddr none = none
convert_sockaddr (some addr_none) = none
convert_sockaddr (some (addr4 port host)) = some (sockaddr_in (htons port) (take hostlen_ipv4 host))
convert_sockaddr (some (addr6 port host)) =
    some (sockaddr_in6 (htons port) (take hostlen_ipv6 host))

-- The address that `socket_impl_recv` stores, over the one that was there
unfoldable pub read_sockaddr : MobileAddr → Option Sockaddr → MobileAddr
read_sockaddr addr none = addr
read_sockaddr addr (some (sockaddr_in port host)) = addr4 (ntohs port) (take hostlen_ipv4 host)
read_sockaddr addr (some (sockaddr_in6 port host)) = addr6 (ntohs port) (take hostlen_ipv6 host)
read_sockaddr addr (some sockaddr_other) = addr

pub ntohs-htons : (port : ℕ) → port < 0x1_0000 → ntohs (htons port) ≡ port
ntohs-htons port h = omega arith
