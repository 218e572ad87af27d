-- ===== src/Net/Owned.antt =====
-- Who owns the descriptors: the slots of `struct socket_impl`.
pub mod Opening
pub mod Calls
pub mod Accept
pub mod Run
pub mod Each
pub mod Kept
pub mod Leak
use libmobile_atmega.Prelude.{
  ℕ, ◌+◌, ◌≡◌, ◌==◌, arith, Bool, true, false, Option, none, some, List, [], ◌∷◌, if◌then◌else◌,
}
use libmobile_atmega.Sockets.{ℤ}
use libmobile_atmega.Net.Os.{
  Os, Domain, SockType, SockOpt, Sockaddr, Errno, PollEvents, Sent, Received,
}
use libmobile_atmega.Net.State.{Net, slot_count, holders}

-- Two states of the system in which the same descriptors are open
abbrev pub Same : {W : Type 0} → (W → ℕ → Bool) → W → W → Type 0
Same is_open w w' = (k : ℕ) → is_open w' k ≡ is_open w k

-- What the calls do to the descriptors that the program has open: `socket` and `accept` return one
-- that was not, `close` closes one, and the other calls change nothing.
pub record IsOs {W : Type 0} (os : Os W) : Type 0 where
  pub is_open : W → ℕ → Bool
  pub socket_new :
      (domain : Domain) (kind : SockType) (w : W) (fd : ℕ)
      → (os.socket domain kind w).0 ≡ some fd
      → (is_open w fd ≡ false)
        × ((k : ℕ)
            → is_open (os.socket domain kind w).1 k ≡ (if k == fd then true else is_open w k))
  pub socket_failed :
      (domain : Domain) (kind : SockType) (w : W)
      → (os.socket domain kind w).0 ≡ none
      → Same is_open w (os.socket domain kind w).1
  pub accept_new :
      (fd : ℕ) (w : W) (new : ℕ)
      → (os.accept fd w).0 ≡ some new
      → (is_open w new ≡ false)
        × ((k : ℕ) → is_open (os.accept fd w).1 k ≡ (if k == new then true else is_open w k))
  pub accept_failed :
      (fd : ℕ) (w : W) → (os.accept fd w).0 ≡ none → Same is_open w (os.accept fd w).1
  pub close :
      (fd : ℕ) (w : W) (k : ℕ)
      → is_open (os.close fd w) k ≡ (if k == fd then false else is_open w k)
  pub setsockopt : (fd : ℕ) (o : SockOpt) (w : W) → Same is_open w (os.setsockopt fd o w).1
  pub bind : (fd : ℕ) (a : Sockaddr) (w : W) → Same is_open w (os.bind fd a w).1
  pub listen : (fd n : ℕ) (w : W) → Same is_open w (os.listen fd n w).1
  pub connect : (fd : ℕ) (a : Option Sockaddr) (w : W) → Same is_open w (os.connect fd a w).1
  pub sendto :
      (fd : ℕ) (bytes : List ℕ) (size : ℕ) (a : Option Sockaddr) (w : W)
      → Same is_open w (os.sendto fd bytes size a w).1
  pub recvfrom : (fd size : ℕ) (peek : Bool) (w : W) → Same is_open w (os.recvfrom fd size peek w).1
  pub getsockopt_type : (fd : ℕ) (w : W) → Same is_open w (os.getsockopt_type fd w).1
  pub getsockopt_error : (fd : ℕ) (w : W) → Same is_open w (os.getsockopt_error fd w).1
  pub poll : (fd : ℕ) (e : PollEvents) (n : ℕ) (w : W) → Same is_open w (os.poll fd e n w).1
  pub fcntl_getfl : (fd : ℕ) (w : W) → Same is_open w (os.fcntl_getfl fd w).1
  pub fcntl_setfl : (fd flags : ℕ) (w : W) → Same is_open w (os.fcntl_setfl fd flags w).1

module _ {W : Type 0} {os : Os W} (laws : IsOs os) where
  abbrev pub opened : W → ℕ → ℕ
  opened w fd = if laws.is_open w fd then 1 else 0

  -- From `s` to `s'`, a descriptor is opened exactly if it comes to be in a slot, and closed exactly
  -- if it leaves the slots, but for `extra`, which is open in `s` and owned in `s'` or closed.
  abbrev pub Settles : Option ℕ → Net W → Net W → Type 0
  Settles extra s s' =
      (k : ℕ)
      → opened s'.os k + holders s.sockets k + slot_count extra k
        ≡ opened s.os k + holders s'.sockets k
