-- ===== src/Address/RoundTrip.antt =====
-- Addresses survive being written and read, and a read stays inside the bytes that it is given.
use native.Mathlib.Decide.{ℕ_discrete, dec_lt}
use libmobile_atmega.Prelude.{
  ℕ, zero, suc, ◌+◌, ◌≤◌, ◌<◌, ◌≡◌, ap, sym, ◌∙◌, arith, Option, none, some, List, [], ◌∷◌, ◌++◌,
  length, length-append, length-take, take, take_all, take-length-append, drop, get_or,
  get_elem?-eq-get_or,
}
use libmobile_atmega.Wire.{word, word_bytes}
use libmobile_atmega.Wire.Checksum.{word-word_bytes}
use libmobile_atmega.Address.{
  addrtype_none, addrtype_ipv4, addrtype_ipv6, hostlen_ipv4, hostlen_ipv6, MobileAddr, addr_none,
  addr4, addr6, address_write, read_host, address_read,
}

-- A port of 16 bits, and a host as long as the type has it
abbrev pub IsAddress : MobileAddr → Type 0
IsAddress addr_none = Unit
IsAddress (addr4 port host) = (port < 0x1_0000) × (length host ≡ hostlen_ipv4)
IsAddress (addr6 port host) = (port < 0x1_0000) × (length host ≡ hostlen_ipv6)

pub address_write_short : (addr : Option MobileAddr) → length (address_write addr) ≤ 19
unfolding address_write
address_write_short none = omega arith
address_write_short (some addr_none) = omega arith
address_write_short (some (addr4 port host)) = omega (arith, length-take 4 host)
address_write_short (some (addr6 port host)) = omega (arith, length-take 16 host)

-- With any host length `k` that the host has
read_host_lem :
    (addr : ℕ → List ℕ → MobileAddr) (type port size k : ℕ) (host rest : List ℕ)
    → port < 0x1_0000
    → length host ≡ k
    → 3 + k ≤ size
    → read_host addr k (type ∷ (word_bytes port ++ (host ++ rest))) size
      ≡ some (3 + k, some (addr port host))
unfolding read_host
read_host_lem addr type port size k host rest small len fits = ground (
  arith,
  length-append host rest,
  word-word_bytes port small,
  ap (λ n. take n (host ++ rest)) (sym len) ∙ take-length-append host rest,
)

read_host_bounds :
    (addr : ℕ → List ℕ → MobileAddr) (k size : ℕ) (buffer : List ℕ)
    → size ≤ length buffer
    → (n : ℕ) × (a : Option MobileAddr) × (read_host addr k buffer size ≡ some (n, a)) × (n ≤ size)
unfolding read_host
read_host_bounds addr k size buffer h = elim (dec_lt size (3 + k)) [
  | yes short ↦ (0, none, ground arith, omega arith)
  | no enough ↦ (
    3 + k,
    some (addr (word (get_or buffer 1 0) (get_or buffer 2 0)) (take k (drop 3 buffer))),
    ground (
      arith,
      get_elem?-eq-get_or buffer 1 0 (omega arith),
      get_elem?-eq-get_or buffer 2 0 (omega arith),
    ),
    omega arith,
  )
]

-- An address that was written is read back: from the bytes of `address_write` and whatever follows
-- them, given a size that covers them, `address_read` stores the same address and returns the number
-- of bytes that were written. A null pointer is read back as the address of no type.
pub address_read-address_write :
    (a : MobileAddr) (rest : List ℕ) (size : ℕ)
    → IsAddress a
    → length (address_write (some a)) ≤ size
    → (address_read (address_write (some a) ++ rest) size
        ≡ some (length (address_write (some a)), some a))
      × (address_read (address_write none ++ rest) size ≡ some (1, some addr_none))
unfolding address_read address_write
address_read-address_write addr_none rest size v fits = (ground arith, ground arith)
address_read-address_write (addr4 port host) rest size v fits =
    let whole : take 4 host ≡ host = take_all 4 host (omega (arith, v)) in
    (
      rw whole (
          ground (
            arith,
            read_host_lem addr4 addrtype_ipv4 port size 4 host rest v.0 v.1
                (omega (arith, v, fits, ap length whole)),
            v,
            fits,
            ap length whole,
          )),
      ground (arith, fits),
    )
address_read-address_write (addr6 port host) rest size v fits =
    let whole : take 16 host ≡ host = take_all 16 host (omega (arith, v)) in
    (
      rw whole (
          ground (
            arith,
            read_host_lem addr6 addrtype_ipv6 port size 16 host rest v.0 v.1
                (omega (arith, v, fits, ap length whole)),
            v,
            fits,
            ap length whole,
          )),
      ground (arith, fits),
    )

-- What `address_read` returns is never more than the size that it is given, and with that size
-- inside the buffer it reads nothing outside.
pub address_read_bounds :
    (buffer : List ℕ) (size : ℕ)
    → size ≤ length buffer
    → (n : ℕ) × (a : Option MobileAddr) × (address_read buffer size ≡ some (n, a)) × (n ≤ size)
unfolding address_read
address_read_bounds [] size h = (0, none, ground arith, omega arith)
address_read_bounds (t ∷ buffer) zero h = (0, none, ground arith, omega arith)
address_read_bounds (t ∷ buffer) (suc m) h =
    let four = read_host_bounds addr4 hostlen_ipv4 (suc m) (t ∷ buffer) h in
    let six = read_host_bounds addr6 hostlen_ipv6 (suc m) (t ∷ buffer) h in
    elim (ℕ_discrete t addrtype_none) [
      | yes e ↦ (1, some addr_none, ground arith, omega arith)
      | no n₀ ↦ elim (ℕ_discrete t addrtype_ipv4) [
        | yes e ↦ (four.0, four.1, ground (arith, four.2), four.3)
        | no n₁ ↦ elim (ℕ_discrete t addrtype_ipv6) [
          | yes e ↦ (six.0, six.1, ground (arith, six.2), six.3)
          | no n₂ ↦ (0, none, ground arith, omega arith)
        ]
      ]
    ]
