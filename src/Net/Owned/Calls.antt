-- ===== src/Net/Owned/Calls.antt =====
-- Each function of bridge/source/socket_impl.c, and the descriptors.
use libmobile_atmega.Prelude.{
  ℕ, ◌<◌, ◌≡◌, ◌==◌, refl, ap, ◌∙◌, arith, ne→==, suc, length, not, Bool, true, false, Bool-cases,
  Option, inl, inr, none, some, List, [], ◌∷◌, get_elem?, set, if◌then◌else◌,
}
use libmobile_atmega.Address.{MobileAddr}
use libmobile_atmega.Sockets.{ℤ, pos, negsuc}
use libmobile_atmega.Net.Os.{
  Os, Sockaddr, Errno, Received, received, recv_error, writable, sock_stream, sock_dgram,
  sock_other, SockType,
}
use libmobile_atmega.Net.Socket.{socket_isconnected}
use libmobile_atmega.Net.State.{Net, holders, holders-set}
use libmobile_atmega.Net.Impl.{
  socket_of, connect_failed, connect_wait, connect_fd, in_progress, error_value, send_fd,
}
use libmobile_atmega.Net.Recv.{Fetched, has_buffer, read_size, recv_value, recv_length, recv_fd}
use libmobile_atmega.Net.Owned.{Same, IsOs, Settles}

-- The slot of a connection with a descriptor
pub socket_of-slot :
    (l : List (Option ℕ)) (conn fd : ℕ)
    → socket_of l conn ≡ some fd
    → get_elem? l conn ≡ some (some fd)
unfolding socket_of
socket_of-slot l conn fd e = ground (arith, e)

pub holders-get_elem? :
    (l : List (Option ℕ)) (i fd : ℕ) → get_elem? l i ≡ some (some fd) → 0 < holders l fd
holders-get_elem? l i fd e = ground (arith, holders-set l i (some fd) none fd e)

module _ {W : Type 0} (os : Os W) (laws : IsOs os) where
  -- The slots are as they were, and so are the descriptors.
  abbrev pub Untouched : Net W → Net W → Type 0
  Untouched s s' = (s'.sockets ≡ s.sockets) × Same laws.is_open s.os s'.os

  pub Untouched-Settles : (s s' : Net W) → Untouched s s' → Settles laws none s s'
  Untouched-Settles s s' (slots, same) k = ground (arith, ap (λ l. holders l k) slots, same k)

  pub closing-Settles :
      (conn fd : ℕ) (s : Net W)
      → get_elem? s.sockets conn ≡ some (some fd)
      → laws.is_open s.os fd ≡ true
      → Settles laws none s (record s { os = os.close fd s.os; sockets = set s.sockets conn none })
  closing-Settles conn fd s slot h k =
      ground (arith, h, laws.close fd s.os k, holders-set s.sockets conn (some fd) none k slot)

  -- What a call leaves, where it returns
  abbrev pub Leaves : {A : Type 0} → (Net W → Type 0) → Option (A × Net W) → Type 0
  Leaves P none = Unit
  Leaves P (some (a, s')) = P s'

  -- One more call that leaves the descriptors alone
  onward :
      (s r : Net W) (w : W)
      → Untouched s r
      → Same laws.is_open r.os w
      → Untouched s (record r { os = w })
  onward s r w (slots, same) h = (slots, λ k. h k ∙ same k)

  connect_failed-Untouched :
      (addr : Option Sockaddr) (s r : Net W)
      → Untouched s r
      → Leaves (Untouched s) (connect_failed os addr r)
  unfolding connect_failed
  connect_failed-Untouched none s r h = tt
  connect_failed-Untouched (some addr) s r h = h

  isconnected-Same :
      (fd delay : ℕ) (w : W) → Same laws.is_open w (socket_isconnected os fd delay w).1
  unfolding socket_isconnected
  isconnected-Same fd delay w k = ground (
    arith,
    laws.poll fd writable delay w k,
    laws.getsockopt_error fd (os.poll fd writable delay w).1 k,
  )

  connect_wait-Untouched :
      (fd : ℕ) (addr : Option Sockaddr) (s r : Net W)
      → Untouched s r
      → Leaves (Untouched s) (connect_wait os fd addr r)
  unfolding connect_wait
  connect_wait-Untouched fd addr s r h =
      go (socket_isconnected os fd 100 r.os) (onward s r _ h (isconnected-Same fd 100 r.os))
    where
      go :
          (p : ℤ × W)
          → Untouched s (record r { os = p.1 })
          → Leaves {A = ℤ} (Untouched s) (elim p.0 [
            | pos n ↦ some ((if n == 0 then pos 0 else pos 1), record r { os = p.1 })
            | negsuc n ↦ connect_failed os addr (record r { os = p.1 })
          ])
      go (pos n, w) h₁ = h₁
      go (negsuc n, w) h₁ = connect_failed-Untouched addr s _ h₁

  pub connect_fd-Untouched :
      (fd : ℕ) (addr : Option Sockaddr) (s : Net W) → Leaves (Untouched s) (connect_fd os fd addr s)
  unfolding connect_fd
  connect_fd-Untouched fd addr s =
      go (os.connect fd addr s.os) (onward s s _ (refl, λ k. refl) (laws.connect fd addr s.os))
    where
      go :
          (p : Option Errno × W)
          → Untouched s (record s { os = p.1 })
          → Leaves {A = ℤ} (Untouched s) (elim p.0 [
            | none ↦ some (pos 1, record s { os = p.1 })
            | some e ↦
                if in_progress e
                then connect_wait os fd addr (record s { os = p.1 })
                else connect_failed os addr (record s { os = p.1 })
          ])
      go (none, w) h = h
      go (some e, w) h =
          let waits = connect_wait-Untouched fd addr s (record s { os = w }) h in
          let fails = connect_failed-Untouched addr s (record s { os = w }) h in
          elim (Bool-cases (in_progress e)) [ inl b ↦ rw b waits | inr b ↦ rw b fails ]

  pub listen-Untouched :
      (fd : ℕ) (s : Net W) → Untouched s (record s { os = (os.listen fd 1 s.os).1 })
  listen-Untouched fd s = onward s s _ (refl, λ k. refl) (laws.listen fd 1 s.os)

  pub send_fd-Untouched :
      (fd : ℕ) (bytes : List ℕ) (size : ℕ) (addr : Option Sockaddr) (s : Net W)
      → Untouched s (send_fd os fd bytes size addr s).1
  unfolding send_fd
  send_fd-Untouched fd bytes size addr s =
      onward s s _ (refl, λ k. refl) (laws.sendto fd bytes size addr s.os)

  -- The state that a receiving function leaves is the last of its four results.
  abbrev FetchedFrom : Net W → Fetched W → Type 0
  FetchedFrom s r = Untouched s r.3

  recv_value-Untouched :
      (buffered : Bool) (bytes : List ℕ) (from : Option Sockaddr) (addr : MobileAddr) (s r : Net W)
      → Untouched s r
      → FetchedFrom s (recv_value os buffered bytes from addr r)
  unfolding recv_value
  recv_value-Untouched true bytes from addr s r h = h
  recv_value-Untouched false bytes from addr s r h = h

  recv_length-Untouched :
      (buffered : Bool) (fd : ℕ) (bytes : List ℕ) (from : Option Sockaddr) (addr : MobileAddr)
      (s r : Net W)
      → Untouched s r
      → FetchedFrom s (recv_length os buffered fd bytes from addr r)
  unfolding recv_length
  recv_length-Untouched buffered fd (b ∷ bytes) from addr s r h =
      rw (ne→== (suc (length bytes)) 0 (omega arith), recv_length)
        (recv_value-Untouched buffered (b ∷ bytes) from addr s r h)
  recv_length-Untouched buffered fd [] from addr s r h =
      go (os.getsockopt_type fd r.os) (onward s r _ h (laws.getsockopt_type fd r.os))
    where
      go :
          (p : Option SockType × W)
          → Untouched s (record r { os = p.1 })
          → FetchedFrom s (elim p.0 [
            | none ↦ (negsuc 0, [], addr, record r { os = p.1 })
            | some sock_stream ↦ (negsuc 1, [], addr, record r { os = p.1 })
            | some k ↦ recv_value os buffered [] from addr (record r { os = p.1 })
          ])
      go (none, w) q = q
      go (some sock_stream, w) q = q
      go (some sock_dgram, w) q = recv_value-Untouched buffered [] from addr s _ q
      go (some sock_other, w) q = recv_value-Untouched buffered [] from addr s _ q

  pub recv_fd-Untouched :
      (fd : ℕ) (buffer : Option ℕ) (addr : MobileAddr) (s r : Net W)
      → Untouched s r
      → FetchedFrom s (recv_fd os fd buffer addr r)
  unfolding recv_fd
  recv_fd-Untouched fd buffer addr s r h =
      go (os.recvfrom fd (read_size buffer) (not (has_buffer buffer)) r.os)
        (onward s r _ h (laws.recvfrom fd (read_size buffer) (not (has_buffer buffer)) r.os))
    where
      go :
          (p : Received × W)
          → Untouched s (record r { os = p.1 })
          → FetchedFrom s (elim p.0 [
            | received bytes from ↦
                recv_length os (has_buffer buffer) fd bytes from addr (record r { os = p.1 })
            | recv_error e ↦ (error_value e, [], addr, record r { os = p.1 })
          ])
      go (received bytes from, w) q =
          recv_length-Untouched (has_buffer buffer) fd bytes from addr s _ q
      go (recv_error e, w) q = q
