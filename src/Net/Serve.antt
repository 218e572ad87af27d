-- ===== src/Net/Serve.antt =====
-- What gbridge_prot_ma.c makes of a request with the sockets of bridge/source/socket_impl.c.
use libmobile_atmega.Prelude.{
  ℕ, ◌<◌, ◌≡◌, ◌≢◌, ◌==◌, ◌&&◌, ◌||◌, refl, arith, Bool, true, false, Option, none, some, List,
  length, get_elem?,
}
use libmobile_atmega.Address.{
  MobileAddr, addr_none, addr4, addr6, addrtype_ipv4, addrtype_ipv6, address_write,
}
use libmobile_atmega.ProtMa.Requests.{
  Request, open_, close_, connect_, listen_, accept_, IsRequest, answer,
}
use libmobile_atmega.Net.Os.{Os, Sockaddr}
use libmobile_atmega.Net.Sockaddr.{convert_sockaddr}
use libmobile_atmega.Net.State.{Net}
use libmobile_atmega.Net.Impl.{
  socktype_tcp, socktype_udp, sock_type, sock_addrtype, socket_of, connect_failed, connect_wait,
  connect_fd, socket_impl_open, socket_impl_close, socket_impl_connect, socket_impl_listen,
  socket_impl_accept,
}
use libmobile_atmega.Net.Recv.{net_impl}

abbrev pub is_vacant : Option (Option ℕ) → Bool
is_vacant none = false
is_vacant (some none) = true
is_vacant (some (some fd)) = false

abbrev pub is_occupied : Option (Option ℕ) → Bool
is_occupied none = false
is_occupied (some none) = false
is_occupied (some (some fd)) = true

-- Whether the sockets are as a request wants them: a connection to open is one of those that there
-- are, has no socket yet and is of a known type, and the other requests name one that has a socket.
abbrev pub permits : Request → List (Option ℕ) → Bool
permits (open_ conn type addrtype bindport) l =
    is_vacant (get_elem? l conn)
    && ((type == socktype_tcp) || (type == socktype_udp))
    && ((addrtype == addrtype_ipv4) || (addrtype == addrtype_ipv6))
permits (close_ conn) l = is_occupied (get_elem? l conn)
permits (connect_ conn addr) l = is_occupied (get_elem? l conn)
permits (listen_ conn) l = is_occupied (get_elem? l conn)
permits (accept_ conn) l = is_occupied (get_elem? l conn)

socket_of_lem :
    (l : List (Option ℕ)) (conn : ℕ)
    → is_occupied (get_elem? l conn) ≡ false
    → socket_of l conn ≡ none
unfolding socket_of
socket_of_lem l conn h = ground (arith, h)

socket_of-some :
    (l : List (Option ℕ)) (conn : ℕ)
    → is_occupied (get_elem? l conn) ≡ true
    → (fd : ℕ) × (socket_of l conn ≡ some fd)
unfolding socket_of
socket_of-some l conn h = go (get_elem? l conn) h
  where
    go :
        (slot : Option (Option ℕ))
        → is_occupied slot ≡ true
        → (fd : ℕ) × (elim slot [ none ↦ none | some none ↦ none | some (some k) ↦ some k ]
            ≡ some fd)
    go none e = absurd (ground (arith, e))
    go (some none) e = absurd (ground (arith, e))
    go (some (some fd)) e = (fd, refl)

module _ {W : Type 0} (os : Os W) where
  pub answer_refused :
      (r : Request) (s : Net W) → permits r s.sockets ≡ false → answer (net_impl os) r s ≡ none
  unfolding answer socket_impl_open socket_impl_close socket_impl_connect socket_impl_listen
      socket_impl_accept sock_type sock_addrtype
  answer_refused (open_ conn type addrtype bindport) s h = ground (arith, h)
  answer_refused (close_ conn) s h = ground (arith, socket_of_lem s.sockets conn h)
  answer_refused (connect_ conn addr) s h = ground (arith, socket_of_lem s.sockets conn h)
  answer_refused (listen_ conn) s h = ground (arith, socket_of_lem s.sockets conn h)
  answer_refused (accept_ conn) s h = ground (arith, socket_of_lem s.sockets conn h)

  connect_fd-returns :
      (fd : ℕ) (addr : Sockaddr) (s : Net W) → connect_fd os fd (some addr) s ≢ none
  unfolding connect_fd connect_wait connect_failed
  connect_fd-returns fd addr s e = ground (arith, e)

  connect-returns :
      (conn : ℕ) (addr : MobileAddr) (s : Net W)
      → 1 < length (address_write (some addr))
      → is_occupied (get_elem? s.sockets conn) ≡ true
      → socket_impl_connect os conn addr s ≢ none
  unfolding socket_impl_connect convert_sockaddr address_write
  connect-returns conn addr_none s v h e = absurd (ground (arith, v))
  connect-returns conn (addr4 port host) s v h e =
      let (fd, slot) = socket_of-some s.sockets conn h in
      connect_fd-returns fd _ s (rw (slot, socket_impl_connect) at e)
  connect-returns conn (addr6 port host) s v h e =
      let (fd, slot) = socket_of-some s.sockets conn h in
      connect_fd-returns fd _ s (rw (slot, socket_impl_connect) at e)

  pub answer_given :
      (r : Request) (s : Net W)
      → IsRequest r
      → permits r s.sockets ≡ true
      → answer (net_impl os) r s ≢ none
  unfolding answer socket_impl_open socket_impl_close socket_impl_listen socket_impl_accept
      sock_type sock_addrtype
  answer_given (open_ conn type addrtype bindport) s v h e = ground (arith, h, e)
  answer_given (close_ conn) s v h e = ground (arith, e, socket_of-some s.sockets conn h)
  answer_given (connect_ conn addr) s v h e = ground (arith, e, connect-returns conn addr s v.1 h)
  answer_given (listen_ conn) s v h e = ground (arith, e, socket_of-some s.sockets conn h)
  answer_given (accept_ conn) s v h e = ground (arith, e, socket_of-some s.sockets conn h)
