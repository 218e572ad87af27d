-- ===== src/Net/Owned/Run.antt =====
-- Any sequence of calls of bridge/source/socket_impl.c, and the descriptors.
use libmobile_atmega.Prelude.{
  ℕ, suc, ◌+◌, ◌≡◌, ◌⊎◌, ◌==◌, inl, arith, Bool, true, Option, none, some, List, [], ◌∷◌, get_elem?,
  if◌then◌else◌,
}
use libmobile_atmega.Address.{MobileAddr}
use libmobile_atmega.Net.Os.{Os}
use libmobile_atmega.Net.State.{Net, holders}
use libmobile_atmega.Net.Impl.{
  socket_impl_open, socket_impl_close, socket_impl_connect, socket_impl_listen, socket_impl_accept,
  socket_impl_send,
}
use libmobile_atmega.Net.Recv.{socket_impl_recv}
use libmobile_atmega.Net.Owned.{IsOs, opened, Settles}
use libmobile_atmega.Net.Owned.Calls.{holders-get_elem?, Untouched, Untouched-Settles}

-- The functions that the handlers call, with their arguments
pub data Call : Type 0 where
  opens : (conn type addrtype bindport : ℕ) → Call
  closes : (conn : ℕ) → Call
  connects : (conn : ℕ) → MobileAddr → Call
  listens : (conn : ℕ) → Call
  accepts : (conn : ℕ) → Call
  sends : (conn : ℕ) → List ℕ → ℕ → MobileAddr → Call
  receives : (conn : ℕ) → Option ℕ → MobileAddr → Call

abbrev pub occurs : List ℕ → ℕ → ℕ
occurs [] k = 0
occurs (x ∷ l) k = (if x == k then 1 else 0) + occurs l k

-- The number of calls of `socket_impl_accept`
abbrev pub accept_calls : List Call → ℕ
accept_calls [] = 0
accept_calls (accepts conn ∷ cs) = suc (accept_calls cs)
accept_calls (c ∷ cs) = accept_calls cs

module _ {W : Type 0} (os : Os W) where
  abbrev pub last_of : {A : Type 0} → Option (A × Net W) → Option (Net W)
  last_of none = none
  last_of (some (a, s)) = some s

  abbrev pub last_fetched : {A B C : Type 0} → Option (A × B × C × Net W) → Option (Net W)
  last_fetched none = none
  last_fetched (some (a, b, c, s)) = some s

  -- The state that a call leaves, where it returns
  unfoldable pub carry_out : Call → Net W → Option (Net W)
  carry_out (opens conn type addrtype bindport) s =
      last_of (socket_impl_open os conn type addrtype bindport s)
  carry_out (closes conn) s = socket_impl_close os conn s
  carry_out (connects conn addr) s = last_of (socket_impl_connect os conn addr s)
  carry_out (listens conn) s = last_of (socket_impl_listen os conn s)
  carry_out (accepts conn) s = last_of (socket_impl_accept os conn s)
  carry_out (sends conn bytes size addr) s = last_of (socket_impl_send os conn bytes size addr s)
  carry_out (receives conn buffer addr) s = last_fetched (socket_impl_recv os conn buffer addr s)

  unfoldable pub run : List Call → Net W → Option (Net W)
  run [] s = some s
  run (c ∷ cs) s = elim (carry_out c s) [ none ↦ none | some s' ↦ run cs s' ]

  -- Whether a call of `socket_impl_accept` has returned false
  abbrev pub refusals : Option (Bool × Net W) → ℕ
  refusals none = 0
  refusals (some (ok, s)) = if ok then 0 else 1

  abbrev pub refused : Call → Net W → ℕ
  refused (opens conn type addrtype bindport) s = 0
  refused (closes conn) s = 0
  refused (connects conn addr) s = 0
  refused (listens conn) s = 0
  refused (accepts conn) s = refusals (socket_impl_accept os conn s)
  refused (sends conn bytes size addr) s = 0
  refused (receives conn buffer addr) s = 0

  -- The number of calls of `socket_impl_accept` in a run that return false
  unfoldable pub failed_accepts : List Call → Net W → ℕ
  failed_accepts [] s = 0
  failed_accepts (c ∷ cs) s =
      refused c s + elim (carry_out c s) [ none ↦ 0 | some s' ↦ failed_accepts cs s' ]

module _ {W : Type 0} (os : Os W) (laws : IsOs os) where
  -- The descriptors that are open are those in the slots and those in `lost`, each in one place.
  abbrev pub IsOwned : List ℕ → Net W → Type 0
  IsOwned lost s = (k : ℕ) → opened laws s.os k ≡ holders s.sockets k + occurs lost k

  pub owner_open :
      (lost : List ℕ) (s : Net W) (conn fd : ℕ)
      → IsOwned lost s
      → get_elem? s.sockets conn ≡ some (some fd)
      → laws.is_open s.os fd ≡ true
  owner_open lost s conn fd owned slot =
      ground (arith, owned fd, holders-get_elem? s.sockets conn fd slot)

  -- What one call does to the descriptors: it may lose one only if it is a call of
  -- `socket_impl_accept` that returns false, which `n` counts.
  abbrev pub Owns : ℕ → List ℕ → Option (Net W) → Type 0
  Owns n lost none = Unit
  Owns n lost (some s') = IsOwned lost s' ⊎ ((fd : ℕ) × (n ≡ 1) × IsOwned (fd ∷ lost) s')

  pub settled :
      (n : ℕ) (lost : List ℕ) (s s' : Net W)
      → IsOwned lost s
      → Settles laws none s s'
      → Owns n lost (some s')
  settled n lost s s' owned h = inl (λ k. omega (arith, owned k, h k))

  pub untouched :
      (n : ℕ) (lost : List ℕ) (s s' : Net W)
      → IsOwned lost s
      → Untouched os laws s s'
      → Owns n lost (some s')
  untouched n lost s s' owned h = settled n lost s s' owned (Untouched-Settles os laws s s' h)
