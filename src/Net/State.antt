-- ===== src/Net/State.antt =====
-- `struct socket_impl` of bridge/source/socket_impl.h, with the state of the system below it.
use libmobile_atmega.Prelude.{
  ℕ, zero, suc, ◌+◌, ◌≡◌, ◌==◌, arith, Option, none, some, List, [], ◌∷◌, get_elem?, set,
  if◌then◌else◌,
}

-- MOBILE_MAX_CONNECTIONS
abbrev pub mobile_max_connections : ℕ
mobile_max_connections = 2

-- A slot without a descriptor, -1 in the source, is `none`.
pub record Net (W : Type 0) : Type 0 where
  pub sockets : List (Option ℕ)
  pub os : W

-- How often a descriptor is in a slot, and in the slots
abbrev pub slot_count : Option ℕ → ℕ → ℕ
slot_count none fd = 0
slot_count (some k) fd = if k == fd then 1 else 0

abbrev pub holders : List (Option ℕ) → ℕ → ℕ
holders [] fd = 0
holders (slot ∷ l) fd = slot_count slot fd + holders l fd

pub holders-set :
    (l : List (Option ℕ)) (i : ℕ) (old new : Option ℕ) (fd : ℕ)
    → get_elem? l i ≡ some old
    → holders (set l i new) fd + slot_count old fd ≡ holders l fd + slot_count new fd
holders-set [] i old new fd e = absurd (ground (arith, e))
holders-set (slot ∷ l) zero old new fd e = ground (arith, e)
holders-set (slot ∷ l) (suc i) old new fd e = omega (arith, holders-set l i old new fd e)
