-- ===== src/Tests/Os.antt =====
-- A small operating system, with its laws.
use libmobile_atmega.Prelude.{
  ℕ, suc, ◌+◌, ◌<◌, ◌≡◌, ◌==◌, refl, arith, Bool, true, false, ◌||◌, Option, none, some, List, [],
  ◌∷◌, if◌then◌else◌,
}
use libmobile_atmega.Sockets.{pos}
use libmobile_atmega.Tests.Host.{host}
use libmobile_atmega.Net.Os.{
  Os, sock_stream, Sockaddr, sockaddr_in, sockaddr_in6, sockaddr_other, Errno, other, sent,
  received,
}
use libmobile_atmega.Net.Owned.{Same, IsOs}

-- The system is the list of the open descriptors: a new one is larger than all of them.
abbrev pub total : List ℕ → ℕ
total [] = 0
total (x ∷ l) = x + total l

abbrev pub among : List ℕ → ℕ → Bool
among [] k = false
among (x ∷ l) k = (x == k) || among l k

abbrev pub without : ℕ → List ℕ → List ℕ
without fd [] = []
without fd (x ∷ l) = let rest = without fd l in if x == fd then rest else x ∷ rest

pub among-without :
    (fd : ℕ) (l : List ℕ) (k : ℕ) → among (without fd l) k ≡ (if k == fd then false else among l k)
among-without fd [] k = ground arith
among-without fd (x ∷ l) k = ground (arith, among-without fd l k)

pub among-total : (l : List ℕ) (k : ℕ) → total l < k → among l k ≡ false
among-total [] k h = refl
among-total (x ∷ l) k h = ground (arith, among-total l k)

abbrev pub opening : List ℕ → Option ℕ × List ℕ
opening l = (some (suc (total l)), suc (total l) ∷ l)

pub opening_new :
    (l : List ℕ) (fd : ℕ)
    → (opening l).0 ≡ some fd
    → (among l fd ≡ false)
      × ((k : ℕ) → among (opening l).1 k ≡ (if k == fd then true else among l k))
opening_new l fd e =
    let same : suc (total l) ≡ fd = cc e in
    (ground (arith, among-total l fd), λ k. ground (arith, same))

pub opening_failed : (l : List ℕ) → (opening l).0 ≡ none → Same among l (opening l).1
opening_failed l e = absurd (ground (arith, e))

-- Nothing can be reached by IPv6.
abbrev pub reaches : Option Sockaddr → Option Errno
reaches none = none
reaches (some (sockaddr_in port host)) = none
reaches (some (sockaddr_in6 port host)) = some other
reaches (some sockaddr_other) = none

-- Every other call succeeds, but the flags of descriptor 4 cannot be read.
abbrev pub small_os : Os (List ℕ)
small_os = record {
  socket = λ domain kind w. opening w;
  close = without;
  setsockopt = λ fd o w. (true, w);
  bind = λ fd a w. (true, w);
  listen = λ fd n w. (true, w);
  accept = λ fd w. opening w;
  connect = λ fd a w. (reaches a, w);
  sendto = λ fd bytes size a w. (sent size, w);
  recvfrom = λ fd size peek w. (received [] none, w);
  getsockopt_type = λ fd w. (some sock_stream, w);
  getsockopt_error = λ fd w. (none, w);
  poll = λ fd e n w. (pos 1, w);
  fcntl_getfl = λ fd w. ((if fd == 4 then none else some 0), w);
  fcntl_setfl = λ fd flags w. (true, w);
  o_nonblock = 2048;
}

abbrev pub small_laws : IsOs small_os
small_laws = record {
  is_open = among;
  socket_new = λ domain kind w fd e. opening_new w fd e;
  socket_failed = λ domain kind w e. opening_failed w e;
  accept_new = λ fd w new e. opening_new w new e;
  accept_failed = λ fd w e. opening_failed w e;
  close = λ fd w k. among-without fd w k;
  setsockopt = λ fd o w k. refl;
  bind = λ fd a w k. refl;
  listen = λ fd n w k. refl;
  connect = λ fd a w k. refl;
  sendto = λ fd bytes size a w k. refl;
  recvfrom = λ fd size peek w k. refl;
  getsockopt_type = λ fd w k. refl;
  getsockopt_error = λ fd w k. refl;
  poll = λ fd e n w k. refl;
  fcntl_getfl = λ fd w k. refl;
  fcntl_setfl = λ fd flags w k. refl;
}
