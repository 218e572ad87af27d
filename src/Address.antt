-- ===== src/Address.antt =====
-- `address_write` and `address_read`, of which atmega328p/source/gbridge_prot_ma.c and
-- bridge/source/gbridge_prot_ma.c have the same copy each.
pub mod RoundTrip
use libmobile_atmega.Prelude.{
  ℕ, ◌+◌, ◌/◌, ◌==◌, ltb, bit_and, Option, none, some, List, [], ◌∷◌, ◌++◌, length, get_elem?, take,
  drop, if◌then◌else◌,
}
use libmobile_atmega.Wire.{word, word_bytes, byte}

-- MOBILE_ADDRTYPE_NONE, MOBILE_ADDRTYPE_IPV4 and MOBILE_ADDRTYPE_IPV6
abbrev pub addrtype_none : ℕ
addrtype_none = 0

abbrev pub addrtype_ipv4 : ℕ
addrtype_ipv4 = 1

abbrev pub addrtype_ipv6 : ℕ
addrtype_ipv6 = 2

-- MOBILE_HOSTLEN_IPV4 and MOBILE_HOSTLEN_IPV6
abbrev pub hostlen_ipv4 : ℕ
hostlen_ipv4 = 4

abbrev pub hostlen_ipv6 : ℕ
hostlen_ipv6 = 16

-- `struct mobile_addr`, by its type: a port and a host in the last two cases
pub data MobileAddr : Type 0 where
  addr_none : MobileAddr
  addr4 addr6 : ℕ → List ℕ → MobileAddr

-- The bytes written into the buffer: the function returns their number. A null pointer is `none`.
unfoldable pub address_write : Option MobileAddr → List ℕ
address_write none = addrtype_none ∷ []
address_write (some addr_none) = addrtype_none ∷ []
address_write (some (addr4 port host)) = addrtype_ipv4 ∷ (word_bytes port ++ take hostlen_ipv4 host)
address_write (some (addr6 port host)) = addrtype_ipv6 ∷ (word_bytes port ++ take hostlen_ipv6 host)

-- The part for one type of address: the length of its host, and the bytes from the buffer. The
-- outer `none` is a read behind the buffer.
unfoldable pub read_host :
    (ℕ → List ℕ → MobileAddr) → ℕ → List ℕ → ℕ → Option (ℕ × Option MobileAddr)
read_host addr hostlen buffer size =
    if ltb size (3 + hostlen)
    then some (0, none)
    else if ltb (length buffer) (3 + hostlen)
    then none
    else elim (get_elem? buffer 1) [
      | none ↦ none
      | some hi ↦ elim (get_elem? buffer 2) [
        | none ↦ none
        | some lo ↦ some (3 + hostlen, some (addr (word hi lo) (take hostlen (drop 3 buffer))))
      ]
    ]

-- What the function returns, and what it stores at `addr`, where that is not null
unfoldable pub address_read : List ℕ → ℕ → Option (ℕ × Option MobileAddr)
address_read buffer size = if ltb size 1 then some (0, none) else elim (get_elem? buffer 0) [
  | none ↦ none
  | some type ↦
      if type == addrtype_none
      then some (1, some addr_none)
      else if type == addrtype_ipv4
      then read_host addr4 hostlen_ipv4 buffer size
      else if type == addrtype_ipv6
      then read_host addr6 hostlen_ipv6 buffer size
      else some (0, none)
]
