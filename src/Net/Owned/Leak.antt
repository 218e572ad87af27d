-- ===== src/Net/Owned/Leak.antt =====
-- The path of `socket_impl_accept` that loses a descriptor.
use libmobile_atmega.Prelude.{ℕ, ◌≡◌, refl, arith, true, false, some, List, ◌∷◌, get_elem?}
use libmobile_atmega.Net.Os.{Os, readable}
use libmobile_atmega.Net.Socket.{is_positive, socket_hasdata, socket_setblocking}
use libmobile_atmega.Net.State.{Net}
use libmobile_atmega.Net.Impl.{
  socket_of, accept_nonblocking, accept_fd, socket_impl_accept, socket_impl_stop,
}
use libmobile_atmega.Net.Owned.{IsOs, opened}
use libmobile_atmega.Net.Owned.Opening.{setblocking-Same}
use libmobile_atmega.Net.Owned.Run.{occurs, IsOwned}
use libmobile_atmega.Net.Owned.Kept.{stop-opened}

module _ {W : Type 0} (os : Os W) (laws : IsOs os) where
  -- If a client is waiting, `accept` returns its descriptor, and the descriptor cannot be made
  -- nonblocking, then `socket_impl_accept` returns false, and has lost the descriptor: it is open,
  -- no slot has it, and not even `socket_impl_stop` closes it.
  pub accept-IsOwned :
      (conn fd new : ℕ) (lost : List ℕ) (s : Net W)
      → IsOwned os laws lost s
      → get_elem? s.sockets conn ≡ some (some fd)
      → is_positive (socket_hasdata os fd 0 s.os).0 ≡ true
      → (os.accept fd (socket_hasdata os fd 0 s.os).1).0 ≡ some new
      → (socket_setblocking os new false (os.accept fd (socket_hasdata os fd 0 s.os).1).1).0 ≡ false
      → (s' : Net W) × (socket_impl_accept os conn s ≡ some (false, s'))
        × (s'.sockets ≡ s.sockets)
        × IsOwned os laws (new ∷ lost) s'
        × ((k : ℕ) → opened laws (socket_impl_stop os s').os k ≡ occurs (new ∷ lost) k)
  unfolding socket_impl_accept socket_of accept_fd accept_nonblocking socket_hasdata
  accept-IsOwned conn fd new lost s owned slot ready takes fails =
      let w = (os.poll fd readable 0 s.os).1 in
      let w₁ = (os.accept fd w).1 in
      let (fresh, more) = laws.accept_new fd w new takes in
      let s' : Net W = record s { os = (socket_setblocking os new false w₁).1 } in
      let owned' : IsOwned os laws (new ∷ lost) s' = λ k. ground (
        arith,
        setblocking-Same os laws new false w₁ k,
        more k,
        laws.poll fd readable 0 s.os k,
        fresh,
        owned k,
      ) in
      (
        s',
        ground (arith, slot, ready, takes, fails),
        refl,
        owned',
        λ k. stop-opened os laws (new ∷ lost) s' k owned',
      )
