-- ===== src/Net/Owned/Each.antt =====
-- What each call of bridge/source/socket_impl.c does to the descriptors.
use libmobile_atmega.Prelude.{
  ℕ, ◌≡◌, not, inl, inr, refl, arith, Bool, true, false, Option, Option-cases, none, some, List, [],
  get_elem?, set, if◌then◌else◌,
}
use libmobile_atmega.Address.{MobileAddr}
use libmobile_atmega.Sockets.{ℤ, pos}
use libmobile_atmega.Net.Os.{Os, SockType, Domain, readable}
use libmobile_atmega.Net.Sockaddr.{convert_sockaddr}
use libmobile_atmega.Net.Socket.{is_positive, socket_hasdata}
use libmobile_atmega.Net.State.{Net}
use libmobile_atmega.Net.Impl.{
  sock_type, sock_addrtype, socket_of, socket_impl_open, socket_impl_close, socket_impl_connect,
  socket_impl_listen, socket_impl_accept, accept_fd, connect_fd, send_fd, connect_fd, send_fd,
  socket_impl_send, open_socket,
}
use libmobile_atmega.Net.Recv.{socket_impl_recv, recv_fd}
use libmobile_atmega.Net.Owned.{IsOs}
use libmobile_atmega.Net.Owned.Opening.{open_socket-Settles}
use libmobile_atmega.Net.Owned.Calls.{
  socket_of-slot, Untouched, Leaves, closing-Settles, connect_fd-Untouched, listen-Untouched,
  send_fd-Untouched, recv_fd-Untouched,
}
use libmobile_atmega.Net.Owned.Accept.{Accepts, accept_fd-Accepts}
use libmobile_atmega.Net.Owned.Run.{
  Call, opens, closes, connects, listens, accepts, sends, receives, last_of, refusals, refused,
  last_fetched, carry_out, IsOwned, owner_open, Owns, settled, untouched,
}

module _ {W : Type 0} (os : Os W) (laws : IsOs os) where
  open-Owns :
      (conn type addrtype bindport : ℕ) (lost : List ℕ) (s : Net W)
      → IsOwned os laws lost s
      → Owns os laws 0 lost (carry_out os (opens conn type addrtype bindport) s)
  unfolding carry_out socket_impl_open
  open-Owns conn type addrtype bindport lost s owned =
      go (get_elem? s.sockets conn) refl (sock_type type) (sock_addrtype addrtype)
    where
      go :
          (slot : Option (Option ℕ))
          → get_elem? s.sockets conn ≡ slot
          → (kind : Option SockType) (domain : Option Domain)
          → Owns os laws 0 lost (
              last_of os {A = Bool} (elim slot [
                | none ↦ none
                | some (some fd) ↦ none
                | some none ↦ elim kind [
                  | none ↦ none
                  | some k ↦ elim domain [
                    | none ↦ none
                    | some d ↦ some (open_socket os conn type addrtype bindport d k s)
                  ]
                ]
              ]))
      go none e kind domain = tt
      go (some (some fd)) e kind domain = tt
      go (some none) e none domain = tt
      go (some none) e (some k) none = tt
      go (some none) e (some k) (some d) =
          settled os laws 0 lost s _ owned
            (open_socket-Settles os laws conn type addrtype bindport d k s e)

  -- A call on a socket: it fails an assertion, or the socket has a descriptor.
  on_socket :
      (n : ℕ) (lost : List ℕ) (conn : ℕ) (s : Net W) (r : Option ℕ → Option (Net W))
      → (r none ≡ none)
      → ((fd : ℕ) → get_elem? s.sockets conn ≡ some (some fd) → Owns os laws n lost (r (some fd)))
      → Owns os laws n lost (r (socket_of s.sockets conn))
  on_socket n lost conn s r fault h = elim (Option-cases (socket_of s.sockets conn)) [
    | inl e ↦ rw (e, fault) tt
    | inr (fd, e) ↦ rw e (h fd (socket_of-slot s.sockets conn fd e))
  ]

  close-Owns :
      (conn : ℕ) (lost : List ℕ) (s : Net W)
      → IsOwned os laws lost s
      → Owns os laws 0 lost (carry_out os (closes conn) s)
  unfolding carry_out socket_impl_close
  close-Owns conn lost s owned =
      on_socket 0 lost conn s
        (λ slot. elim slot [
          | none ↦ none
          | some fd ↦ some (record s { os = os.close fd s.os; sockets = set s.sockets conn none })
        ])
        refl
        (λ fd slot.
          settled os laws 0 lost s _ owned
            (closing-Settles os laws conn fd s slot (owner_open os laws lost s conn fd owned slot)))

  listen-Owns :
      (conn : ℕ) (lost : List ℕ) (s : Net W)
      → IsOwned os laws lost s
      → Owns os laws 0 lost (carry_out os (listens conn) s)
  unfolding carry_out socket_impl_listen
  listen-Owns conn lost s owned =
      on_socket 0 lost conn s
        (λ slot. last_of os {A = Bool} (elim slot [
          | none ↦ none
          | some fd ↦ some ((os.listen fd 1 s.os).0, record s { os = (os.listen fd 1 s.os).1 })
        ]))
        refl (λ fd slot. untouched os laws 0 lost s _ owned (listen-Untouched os laws fd s))

  send-Owns :
      (conn : ℕ) (bytes : List ℕ) (size : ℕ) (addr : MobileAddr) (lost : List ℕ) (s : Net W)
      → IsOwned os laws lost s
      → Owns os laws 0 lost (carry_out os (sends conn bytes size addr) s)
  unfolding carry_out socket_impl_send
  send-Owns conn bytes size addr lost s owned =
      on_socket 0 lost conn s
        (λ slot. last_of os {A = ℤ} (elim slot [
          | none ↦ none
          | some fd ↦ some (send_fd os fd bytes size (convert_sockaddr (some addr)) s)
        ]))
        refl
        (λ fd slot.
          untouched os laws 0 lost s _ owned
            (send_fd-Untouched os laws fd bytes size (convert_sockaddr (some addr)) s))

  connect-Owns :
      (conn : ℕ) (addr : MobileAddr) (lost : List ℕ) (s : Net W)
      → IsOwned os laws lost s
      → Owns os laws 0 lost (carry_out os (connects conn addr) s)
  unfolding carry_out socket_impl_connect
  connect-Owns conn addr lost s owned =
      on_socket 0 lost conn s
        (λ slot.
          last_of os {A = ℤ} (elim slot [
            | none ↦ none
            | some fd ↦ connect_fd os fd (convert_sockaddr (some addr)) s
          ]))
        refl (λ fd slot. go _ (connect_fd-Untouched os laws fd (convert_sockaddr (some addr)) s))
    where
      go :
          (r : Option (ℤ × Net W))
          → Leaves os laws (Untouched os laws s) r
          → Owns os laws 0 lost (last_of os r)
      go none h = tt
      go (some (z, s')) h = untouched os laws 0 lost s s' owned h

  accepted-Owns :
      (fd : ℕ) (lost : List ℕ) (s : Net W) (r : Bool × Net W)
      → IsOwned os laws lost s
      → Accepts os laws fd s r
      → Owns os laws (refusals os (some r)) lost (some r.1)
  accepted-Owns fd lost s r owned (inl h) =
      settled os laws (refusals os (some r)) lost s r.1 owned h
  accepted-Owns fd lost s r owned (inr (new, bad, slots, more)) =
      inr (new, ground (arith, bad), λ k. rw slots (ground (arith, more k, owned k)))

  accept-Owns :
      (conn : ℕ) (lost : List ℕ) (s : Net W)
      → IsOwned os laws lost s
      → Owns os laws (refused os (accepts conn) s) lost (carry_out os (accepts conn) s)
  unfolding carry_out socket_impl_accept
  accept-Owns conn lost s owned = go (socket_of s.sockets conn) refl
    where
      go :
          (slot : Option ℕ)
          → socket_of s.sockets conn ≡ slot
          → Owns os laws
              (refusals os (elim slot [ none ↦ none | some fd ↦ some (accept_fd os conn fd s) ]))
              lost
              (last_of os {A = Bool}
                (elim slot [ none ↦ none | some fd ↦ some (accept_fd os conn fd s) ]))
      go none e = tt
      go (some fd) e =
          let slot = socket_of-slot s.sockets conn fd e in
          accepted-Owns fd lost s (accept_fd os conn fd s) owned (
            accept_fd-Accepts os laws conn fd s slot (owner_open os laws lost s conn fd owned slot))

  receive-Owns :
      (conn : ℕ) (buffer : Option ℕ) (addr : MobileAddr) (lost : List ℕ) (s : Net W)
      → IsOwned os laws lost s
      → Owns os laws 0 lost (carry_out os (receives conn buffer addr) s)
  unfolding carry_out socket_impl_recv socket_hasdata
  receive-Owns conn buffer addr lost s owned =
      on_socket 0 lost conn s
        (λ slot. last_fetched os {A = ℤ} {B = List ℕ} {C = MobileAddr} (elim slot [
          | none ↦ none
          | some fd ↦
              if not (is_positive (os.poll fd readable 0 s.os).0)
              then some (pos 0, [], addr, record s { os = (os.poll fd readable 0 s.os).1 })
              else some
                  (recv_fd os fd buffer addr (record s { os = (os.poll fd readable 0 s.os).1 }))
        ]))
        refl
        (λ fd slot.
          go fd (is_positive (os.poll fd readable 0 s.os).0)
            (record s { os = (os.poll fd readable 0 s.os).1 }) (refl, laws.poll fd readable 0 s.os))
    where
      go :
          (fd : ℕ) (ready : Bool) (r : Net W)
          → Untouched os laws s r
          → Owns os laws 0 lost (
              last_fetched os {A = ℤ} {B = List ℕ} {C = MobileAddr} (
                if not ready
                then some (pos 0, [], addr, r)
                else some (recv_fd os fd buffer addr r)))
      go fd false r h = untouched os laws 0 lost s r owned h
      go fd true r h =
          untouched os laws 0 lost s _ owned (recv_fd-Untouched os laws fd buffer addr s r h)

  pub carry_out-Owns :
      (c : Call) (lost : List ℕ) (s : Net W)
      → IsOwned os laws lost s
      → Owns os laws (refused os c s) lost (carry_out os c s)
  carry_out-Owns (opens conn type addrtype bindport) lost s h =
      open-Owns conn type addrtype bindport lost s h
  carry_out-Owns (closes conn) lost s h = close-Owns conn lost s h
  carry_out-Owns (connects conn addr) lost s h = connect-Owns conn addr lost s h
  carry_out-Owns (listens conn) lost s h = listen-Owns conn lost s h
  carry_out-Owns (accepts conn) lost s h = accept-Owns conn lost s h
  carry_out-Owns (sends conn bytes size addr) lost s h = send-Owns conn bytes size addr lost s h
  carry_out-Owns (receives conn buffer addr) lost s h = receive-Owns conn buffer addr lost s h
