-- ===== src/ProtMa/Requests.antt =====
-- The requests that the adapter sends in data packets, as a specification: their bytes, their effect
-- on the sockets, and the bytes of the reply.
use libmobile_atmega.Prelude.{
  ℕ, ◌≤◌, ◌<◌, ◌≡◌, arith, Bool, Option, none, some, List, [], ◌∷◌, length,
}
use libmobile_atmega.Wire.{word_bytes}
use libmobile_atmega.Address.{MobileAddr, address_write}
use libmobile_atmega.Address.RoundTrip.{IsAddress}
use libmobile_atmega.Sockets.{ℤ, int_low, SocketImpl}
use libmobile_atmega.ProtMa.MaCmd
use libmobile_atmega.ProtMa.Handlers.{bool_byte}

-- The requests without a stream
pub data Request : Type 0 where
  open_ : (conn type addrtype bindport : ℕ) → Request
  close_ : (conn : ℕ) → Request
  connect_ : (conn : ℕ) → MobileAddr → Request
  listen_ : (conn : ℕ) → Request
  accept_ : (conn : ℕ) → Request

-- Their bytes
unfoldable pub request_bytes : Request → List ℕ
request_bytes (open_ conn type addrtype bindport) =
    MaCmd.cmd_open ∷ conn ∷ type ∷ addrtype ∷ word_bytes bindport
request_bytes (close_ conn) = MaCmd.cmd_close ∷ conn ∷ []
request_bytes (connect_ conn addr) = MaCmd.cmd_connect ∷ conn ∷ address_write (some addr)
request_bytes (listen_ conn) = MaCmd.cmd_listen ∷ conn ∷ []
request_bytes (accept_ conn) = MaCmd.cmd_accept ∷ conn ∷ []

-- A port of 16 bits, and an address that has a type
abbrev pub IsRequest : Request → Type 0
IsRequest (open_ conn type addrtype bindport) = bindport < 0x1_0000
IsRequest (close_ conn) = Unit
IsRequest (connect_ conn addr) = IsAddress addr × (1 < length (address_write (some addr)))
IsRequest (listen_ conn) = Unit
IsRequest (accept_ conn) = Unit

module _ {S : Type 0} (impl : SocketImpl S) where
  abbrev pub answer_bool : ℕ → Option (Bool × S) → Option (List ℕ × S)
  answer_bool cmd none = none
  answer_bool cmd (some (res, socket)) = some (cmd ∷ bool_byte res ∷ [], socket)

  abbrev pub answer_int : ℕ → Option (ℤ × S) → Option (List ℕ × S)
  answer_int cmd none = none
  answer_int cmd (some (res, socket)) = some (cmd ∷ int_low res ∷ [], socket)

  abbrev pub answer_only : ℕ → Option S → Option (List ℕ × S)
  answer_only cmd none = none
  answer_only cmd (some socket) = some (cmd ∷ [], socket)

  -- The reply to a request, and its effect on the sockets
  unfoldable pub answer : Request → S → Option (List ℕ × S)
  answer (open_ conn type addrtype bindport) socket =
      answer_bool MaCmd.cmd_open (impl.socket_impl_open conn type addrtype bindport socket)
  answer (close_ conn) socket = answer_only MaCmd.cmd_close (impl.socket_impl_close conn socket)
  answer (connect_ conn addr) socket =
      answer_int MaCmd.cmd_connect (impl.socket_impl_connect conn addr socket)
  answer (listen_ conn) socket = answer_bool MaCmd.cmd_listen (impl.socket_impl_listen conn socket)
  answer (accept_ conn) socket = answer_bool MaCmd.cmd_accept (impl.socket_impl_accept conn socket)

pub answer_short :
    {S : Type 0} (impl : SocketImpl S) (r : Request) (l : List ℕ) (socket socket' : S)
    → answer impl r socket ≡ some (l, socket')
    → length l ≤ 2
unfolding answer
answer_short impl (open_ conn type addrtype bindport) l socket socket' e = ground (arith, e)
answer_short impl (close_ conn) l socket socket' e = ground (arith, e)
answer_short impl (connect_ conn addr) l socket socket' e = ground (arith, e)
answer_short impl (listen_ conn) l socket socket' e = ground (arith, e)
answer_short impl (accept_ conn) l socket socket' e = ground (arith, e)

pub request_bytes_some : (r : Request) → 0 < length (request_bytes r)
unfolding request_bytes
request_bytes_some (open_ conn type addrtype bindport) = omega arith
request_bytes_some (close_ conn) = omega arith
request_bytes_some (connect_ conn addr) = omega arith
request_bytes_some (listen_ conn) = omega arith
request_bytes_some (accept_ conn) = omega arith
