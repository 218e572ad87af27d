-- ===== src/Net/Owned/Opening.antt =====
-- `socket_impl_open` opens a descriptor and puts it into its slot, or closes it again.
use libmobile_atmega.Prelude.{
  ℕ, ◌≡◌, ◌∙◌, arith, Bool, true, false, inl, inr, Option, Option-cases, none, some, get_elem?,
}
use libmobile_atmega.Net.Os.{Os, Domain, SockType, so_reuseaddr, tcp_nodelay}
use libmobile_atmega.Net.Socket.{blocking_flags, socket_setblocking}
use libmobile_atmega.Net.State.{Net, holders-set}
use libmobile_atmega.Net.Impl.{
  bind_addr, give_up, open_bind, open_nodelay, open_reuseaddr, open_nonblocking, open_socket,
}
use libmobile_atmega.Net.Owned.{Same, IsOs, Settles}

module _ {W : Type 0} (os : Os W) (laws : IsOs os) where
  pub setblocking-Same :
      (fd : ℕ) (flag : Bool) (w : W) → Same laws.is_open w (socket_setblocking os fd flag w).1
  unfolding socket_setblocking
  setblocking-Same fd flag w k = elim (Option-cases (os.fcntl_getfl fd w).0) [
    | inl e ↦ ground (arith, e, laws.fcntl_getfl fd w k)
    | inr (f, e) ↦ ground (
      arith,
      e,
      laws.fcntl_getfl fd w k,
      laws.fcntl_setfl fd (blocking_flags os flag f) (os.fcntl_getfl fd w).1 k,
    )
  ]

  give_up-Settles :
      (fd : ℕ) (s : Net W)
      → laws.is_open s.os fd ≡ true
      → Settles laws (some fd) s (give_up os fd s).1
  unfolding give_up
  give_up-Settles fd s h k = ground (arith, h, laws.close fd s.os k)

  -- A call in between that leaves the descriptors alone
  Settles-after :
      (extra : Option ℕ) (s r : Net W) (w : W)
      → Same laws.is_open s.os w
      → Settles laws extra (record s { os = w }) r
      → Settles laws extra s r
  Settles-after extra s r w same h k = ground (arith, same k, h k)

  open_bind-Settles :
      (conn addrtype bindport fd : ℕ) (s : Net W)
      → laws.is_open s.os fd ≡ true
      → get_elem? s.sockets conn ≡ some none
      → Settles laws (some fd) s (open_bind os conn addrtype bindport fd s).1
  unfolding open_bind
  open_bind-Settles conn addrtype bindport fd s h free k =
      let a = bind_addr addrtype bindport in
      ground (
        arith,
        h,
        laws.bind fd a s.os k,
        laws.bind fd a s.os fd,
        give_up-Settles fd (record s { os = (os.bind fd a s.os).1 }) (laws.bind fd a s.os fd ∙ h) k,
        holders-set s.sockets conn none (some fd) k free,
      )

  open_nodelay-Settles :
      (conn type addrtype bindport fd : ℕ) (s : Net W)
      → laws.is_open s.os fd ≡ true
      → get_elem? s.sockets conn ≡ some none
      → Settles laws (some fd) s (open_nodelay os conn type addrtype bindport fd s).1
  unfolding open_nodelay
  open_nodelay-Settles conn type addrtype bindport fd s h free k =
      let s₁ = record s { os = (os.setsockopt fd tcp_nodelay s.os).1 } in
      let h₁ = laws.setsockopt fd tcp_nodelay s.os fd ∙ h in
      ground (
        arith,
        laws.setsockopt fd tcp_nodelay s.os k,
        give_up-Settles fd s₁ h₁ k,
        open_bind-Settles conn addrtype bindport fd s₁ h₁ free k,
        open_bind-Settles conn addrtype bindport fd s h free k,
      )

  open_reuseaddr-Settles :
      (conn type addrtype bindport fd : ℕ) (s : Net W)
      → laws.is_open s.os fd ≡ true
      → get_elem? s.sockets conn ≡ some none
      → Settles laws (some fd) s (open_reuseaddr os conn type addrtype bindport fd s).1
  unfolding open_reuseaddr
  open_reuseaddr-Settles conn type addrtype bindport fd s h free k =
      let s₁ = record s { os = (os.setsockopt fd so_reuseaddr s.os).1 } in
      let h₁ = laws.setsockopt fd so_reuseaddr s.os fd ∙ h in
      ground (
        arith,
        laws.setsockopt fd so_reuseaddr s.os k,
        give_up-Settles fd s₁ h₁ k,
        open_nodelay-Settles conn type addrtype bindport fd s₁ h₁ free k,
      )

  open_nonblocking-Settles :
      (conn type addrtype bindport fd : ℕ) (s : Net W)
      → laws.is_open s.os fd ≡ true
      → get_elem? s.sockets conn ≡ some none
      → Settles laws (some fd) s (open_nonblocking os conn type addrtype bindport fd s).1
  unfolding open_nonblocking
  open_nonblocking-Settles conn type addrtype bindport fd s h free k =
      let s₁ = record s { os = (socket_setblocking os fd false s.os).1 } in
      let h₁ = setblocking-Same fd false s.os fd ∙ h in
      ground (
        arith,
        setblocking-Same fd false s.os k,
        give_up-Settles fd s₁ h₁ k,
        open_reuseaddr-Settles conn type addrtype bindport fd s₁ h₁ free k,
      )

  pub open_socket-Settles :
      (conn type addrtype bindport : ℕ) (domain : Domain) (kind : SockType) (s : Net W)
      → get_elem? s.sockets conn ≡ some none
      → Settles laws none s (open_socket os conn type addrtype bindport domain kind s).1
  unfolding open_socket
  open_socket-Settles conn type addrtype bindport domain kind s free k =
      let w = (os.socket domain kind s.os).1 in
      elim (Option-cases (os.socket domain kind s.os).0) [
        | inl e ↦ ground (arith, e, laws.socket_failed domain kind s.os e k)
        | inr (fd, e) ↦
            let (new, opens) = laws.socket_new domain kind s.os fd e in
            let rest =
              open_nonblocking-Settles conn type addrtype bindport fd (record s { os = w })
                (opens fd ∙ ground arith) free k in
            ground (arith, e, new, opens k, rest)
      ]
