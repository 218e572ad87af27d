-- ===== src/Net/Owned/Accept.antt =====
-- `socket_impl_accept` replaces the descriptor of a slot, and the old one is closed.
use libmobile_atmega.Prelude.{
  ℕ, ◌+◌, ◌≡◌, ◌⊎◌, ◌==◌, refl, arith, Bool, true, false, Bool-cases, Option-cases, inl, inr, none,
  some, get_elem?, if◌then◌else◌,
}
use libmobile_atmega.Net.Os.{Os, readable}
use libmobile_atmega.Net.Socket.{is_positive, socket_hasdata, socket_setblocking}
use libmobile_atmega.Net.State.{Net, slot_count, holders-set}
use libmobile_atmega.Net.Impl.{accept_nonblocking, accept_fd}
use libmobile_atmega.Net.Owned.{IsOs, opened, Settles}
use libmobile_atmega.Net.Owned.Opening.{setblocking-Same}

module _ {W : Type 0} (os : Os W) (laws : IsOs os) where
  -- What `accept` may leave: a descriptor that is in no slot, where the call has returned false
  abbrev pub Accepts : ℕ → Net W → Bool × Net W → Type 0
  Accepts fd s r =
      Settles laws none s r.1
      ⊎ ((new : ℕ) × (r.0 ≡ false)
          × (r.1.sockets ≡ s.sockets)
          × ((k : ℕ) → opened laws r.1.os k ≡ opened laws s.os k + slot_count (some new) k))

  accept_nonblocking-Accepts :
      (conn fd new : ℕ) (s r : Net W)
      → get_elem? s.sockets conn ≡ some (some fd)
      → laws.is_open s.os fd ≡ true
      → laws.is_open s.os new ≡ false
      → r.sockets ≡ s.sockets
      → ((k : ℕ) → laws.is_open r.os k ≡ (if k == new then true else laws.is_open s.os k))
      → Accepts fd s (accept_nonblocking os conn fd new r)
  unfolding accept_nonblocking
  accept_nonblocking-Accepts conn fd new s r slot h fresh slots opens =
      let w = (socket_setblocking os new false r.os).1 in
      let same = setblocking-Same os laws new false r.os in
      elim (Bool-cases (socket_setblocking os new false r.os).0) [
        | inl ok ↦ inl (λ k. ground (
          arith,
          ok,
          slots,
          same k,
          opens k,
          same fd,
          opens fd,
          fresh,
          h,
          laws.close fd w k,
          holders-set s.sockets conn (some fd) (some new) k slot,
        ))
        | inr bad ↦ inr (
          new,
          ground (arith, bad),
          ground (arith, bad, slots),
          λ k. ground (arith, bad, same k, opens k, fresh),
        )
      ]

  pub accept_fd-Accepts :
      (conn fd : ℕ) (s : Net W)
      → get_elem? s.sockets conn ≡ some (some fd)
      → laws.is_open s.os fd ≡ true
      → Accepts fd s (accept_fd os conn fd s)
  unfolding accept_fd socket_hasdata
  accept_fd-Accepts conn fd s slot h =
      let w = (os.poll fd readable 0 s.os).1 in
      let same = laws.poll fd readable 0 s.os in
      elim (Bool-cases (is_positive (os.poll fd readable 0 s.os).0)) [
        | inr idle ↦ inl (λ k. ground (arith, idle, same k))
        | inl ready ↦ elim (Option-cases (os.accept fd w).0) [
          | inl e ↦ inl (λ k. ground (arith, ready, e, same k, laws.accept_failed fd w e k))
          | inr (new, e) ↦
              let (fresh, opens) = laws.accept_new fd w new e in
              let rest =
                accept_nonblocking-Accepts conn fd new s (record s { os = (os.accept fd w).1 }) slot
                  h (ground (arith, same new, fresh)) refl (λ k. ground (arith, same k, opens k)) in
              rw (ready, e, accept_fd) rest
        ]
      ]
