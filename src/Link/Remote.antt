-- ===== src/Link/Remote.antt =====
-- A socket call from the adapter's function to the computer's and back: gbridge_prot_ma.c at both
-- ends of the line.
use libmobile_atmega.Prelude.{
  ℕ, ◌<◌, ◌≡◌, refl, sym, subst, ◌∙◌, arith, ◌==◌, not, Bool, true, false, Option, none, some, List,
  [], ◌∷◌, ◌++◌, append_assoc, length,
}
use libmobile_atmega.Wire.{reply, byte, word_bytes}
use libmobile_atmega.Wire.Cmd
use libmobile_atmega.Wire.Frame.{data_frame}
use libmobile_atmega.Address.{address_write}
use libmobile_atmega.Address.RoundTrip.{IsAddress}
use libmobile_atmega.Sockets.{ℤ, pos, negsuc, int_low, SocketImpl}
use libmobile_atmega.Device.State.{Device}
use libmobile_atmega.Device.Send.{Event, Outcome, returned}
use libmobile_atmega.Device.Packet.Pieces.{all_bytes}
use libmobile_atmega.Device.Packet.Chunks.{IsIdle}
use libmobile_atmega.Device.Sock.{
  signed_byte, mobile_impl_sock_open, mobile_impl_sock_close, mobile_impl_sock_connect,
  mobile_impl_sock_listen, mobile_impl_sock_accept,
}
use libmobile_atmega.Device.Sock.Answered.{IsExchange, IsExchange-bytes, Answers}
use libmobile_atmega.Device.Sock.Calls.{
  open_answered, close_answered, connect_answered, listen_answered, accept_answered,
}
use libmobile_atmega.Host.Port.{SerialPort, IsLine}
use libmobile_atmega.ProtMa.MaCmd
use libmobile_atmega.ProtMa.State.{Ma, handled}
use libmobile_atmega.ProtMa.Handlers.{bool_byte}
use libmobile_atmega.ProtMa.Requests.{
  Request, open_, close_, connect_, listen_, accept_, request_bytes, IsRequest, answer,
}
use libmobile_atmega.Bridge.{main_turn}
use libmobile_atmega.Bridge.Serve.{IsListening, IsServed, turn_serves}

-- What the function returns
abbrev pub Result : Request → Type 0
Result (open_ conn type addrtype bindport) = Bool
Result (close_ conn) = Unit {0}
Result (connect_ conn addr) = ℤ
Result (listen_ conn) = Bool
Result (accept_ conn) = Bool

-- The adapter's function
abbrev pub call : (r : Request) → List Event → Device → Outcome (Result r)
call (open_ conn type addrtype bindport) = mobile_impl_sock_open conn type addrtype bindport
call (close_ conn) = mobile_impl_sock_close conn
call (connect_ conn addr) = mobile_impl_sock_connect conn (some addr)
call (listen_ conn) = mobile_impl_sock_listen conn
call (accept_ conn) = mobile_impl_sock_accept conn

module _ {S : Type 0} (impl : SocketImpl S) where
  abbrev closed : Option S → Option (Unit {0} × S)
  closed none = none
  closed (some socket) = some (tt, socket)

  -- The computer's
  abbrev pub perform : (r : Request) → S → Option (Result r × S)
  perform (open_ conn type addrtype bindport) socket =
      impl.socket_impl_open conn type addrtype bindport socket
  perform (close_ conn) socket = closed (impl.socket_impl_close conn socket)
  perform (connect_ conn addr) socket = impl.socket_impl_connect conn addr socket
  perform (listen_ conn) socket = impl.socket_impl_listen conn socket
  perform (accept_ conn) socket = impl.socket_impl_accept conn socket

-- The arguments fit their bytes on the line, and an address has a type.
abbrev pub Fits : Request → Type 0
Fits (open_ conn type addrtype bindport) =
    (conn < 256) × (type < 256) × (addrtype < 256) × (bindport < 0x1_0000)
Fits (close_ conn) = conn < 256
Fits (connect_ conn addr) = (conn < 256) × IsAddress addr × (1 < length (address_write (some addr)))
Fits (listen_ conn) = conn < 256
Fits (accept_ conn) = conn < 256

-- So does the value.
abbrev pub IsSmall : ℤ → Type 0
IsSmall (pos n) = n < 128
IsSmall (negsuc n) = n < 128

abbrev pub FitsBack : (r : Request) → Result r → Type 0
FitsBack (open_ conn type addrtype bindport) v = Unit
FitsBack (close_ conn) v = Unit
FitsBack (connect_ conn addr) v = IsSmall v
FitsBack (listen_ conn) v = Unit
FitsBack (accept_ conn) v = Unit

-- The bytes of the answer
abbrev pub encode : (r : Request) → Result r → List ℕ
encode (open_ conn type addrtype bindport) v = MaCmd.cmd_open ∷ bool_byte v ∷ []
encode (close_ conn) v = MaCmd.cmd_close ∷ []
encode (connect_ conn addr) v = MaCmd.cmd_connect ∷ int_low v ∷ []
encode (listen_ conn) v = MaCmd.cmd_listen ∷ bool_byte v ∷ []
encode (accept_ conn) v = MaCmd.cmd_accept ∷ bool_byte v ∷ []

Fits-IsRequest : (r : Request) → Fits r → IsRequest r
Fits-IsRequest (open_ conn type addrtype bindport) h = h.3
Fits-IsRequest (close_ conn) h = tt
Fits-IsRequest (connect_ conn addr) h = (h.1, h.2)
Fits-IsRequest (listen_ conn) h = tt
Fits-IsRequest (accept_ conn) h = tt

bool_byte_lem : (b : Bool) → not (bool_byte b == 0) ≡ b
bool_byte_lem true = refl
bool_byte_lem false = refl

signed_byte-int_low : (z : ℤ) → IsSmall z → signed_byte (int_low z) ≡ z
signed_byte-int_low (pos n) h = ground arith
signed_byte-int_low (negsuc n) h = ground arith

-- The computer's side answers with the bytes of the value.
answer-encode :
    {S : Type 0} (impl : SocketImpl S) (r : Request) (v : Result r) (socket socket' : S)
    → perform impl r socket ≡ some (v, socket')
    → answer impl r socket ≡ some (encode r v, socket')
unfolding answer
answer-encode impl (open_ conn type addrtype bindport) v socket socket' e = ground (arith, e)
answer-encode impl (close_ conn) v socket socket' e = ground (arith, e)
answer-encode impl (connect_ conn addr) v socket socket' e = ground (arith, e)
answer-encode impl (listen_ conn) v socket socket' e = ground (arith, e)
answer-encode impl (accept_ conn) v socket socket' e = ground (arith, e)

byte_small : (x : ℕ) → x < 256 → byte x ≡ x
byte_small x h = omega arith

Answers-eq :
    {A : Type 0} (l l' : List ℕ) (d : Device) (v v' : A) (o : Outcome A)
    → l ≡ l'
    → v ≡ v'
    → Answers l d v o
    → Answers l' d v' o
Answers-eq l l' d v v' o p q h = subst (λ x. Answers l' d x o) q (subst (λ x. Answers x d v o) p h)

-- The adapter's side sends the request and returns the value.
call-Answers :
    (d : Device) (es : List Event) (r : Request) (v : Result r)
    → IsIdle d
    → d.rx ≡ []
    → Fits r
    → FitsBack r v
    → IsExchange d.now (encode r v) es
    → Answers (request_bytes r) d v (call r es d)
unfolding request_bytes
call-Answers d es (open_ conn type addrtype bindport) v idle empty h k x =
    Answers-eq (MaCmd.cmd_open ∷ byte conn ∷ byte type ∷ byte addrtype ∷ word_bytes bindport)
      (request_bytes (open_ conn type addrtype bindport)) d _ v _
      (cc (byte_small conn h.0, byte_small type h.1, byte_small addrtype h.2)) (bool_byte_lem v)
      (open_answered conn type addrtype bindport (bool_byte v) d es idle empty x)
call-Answers d es (close_ conn) v idle empty h k x =
    Answers-eq (MaCmd.cmd_close ∷ byte conn ∷ []) (request_bytes (close_ conn)) d tt v _
      (cc (byte_small conn h)) refl (close_answered conn d es idle empty x)
call-Answers d es (connect_ conn addr) v idle empty h k x =
    Answers-eq (MaCmd.cmd_connect ∷ byte conn ∷ address_write (some addr))
      (request_bytes (connect_ conn addr)) d _ v _ (cc (byte_small conn h.0))
      (signed_byte-int_low v k) (connect_answered conn (int_low v) (some addr) d es idle empty x)
call-Answers d es (listen_ conn) v idle empty h k x =
    Answers-eq (MaCmd.cmd_listen ∷ byte conn ∷ []) (request_bytes (listen_ conn)) d _ v _
      (cc (byte_small conn h)) (bool_byte_lem v)
      (listen_answered conn (bool_byte v) d es idle empty x)
call-Answers d es (accept_ conn) v idle empty h k x =
    Answers-eq (MaCmd.cmd_accept ∷ byte conn ∷ []) (request_bytes (accept_ conn)) d _ v _
      (cc (byte_small conn h)) (bool_byte_lem v)
      (accept_answered conn (bool_byte v) d es idle empty x)

module _ {P S : Type 0} (port : SerialPort P) (line : IsLine port) (impl : SocketImpl S)
    (rounds : ℕ) (arrives : List ℕ → P) (brings : (l : List ℕ) → line.pending (arrives l) ≡ l) where
  -- A socket call on the adapter is a call of the same function on the computer. Let the adapter be
  -- idle with an empty ring, the computer have nothing to do, the arguments of the call fit their
  -- bytes, and the function of socket_impl.c return for them a result that fits its byte. Then the
  -- adapter's function to open, close, connect, listen or accept returns that result, in whatever
  -- rounds the acknowledgement and the answer reach the adapter: any number of rounds without a byte
  -- before each of them, the acknowledgement within the timeout, and the answer in any pieces that
  -- the ring holds and that take no longer than the timeout from first to last, without a
  -- wrap-around of the clock. The bytes `sent` that the adapter writes are those that one turn of
  -- the computer's loop reads, with the whole of them on the line; in that turn it calls the
  -- function once, and writes exactly the bytes that the adapter's rounds bring.
  pub call-IsServed :
      (r : Request) (v : Result r) (socket : S) (d : Device) (s : Ma P S) (events : List Event)
      → IsIdle d
      → d.rx ≡ []
      → IsListening s
      → 0 < rounds
      → Fits r
      → FitsBack r v
      → perform impl r s.socket ≡ some (v, socket)
      → IsExchange d.now (encode r v) events
      → (sent : List ℕ) × (left : List Event) × (d' : Device) × (s' : Ma P S) × (call r events d
          ≡ returned v d' left)
        × (d'.tx ≡ d.tx ++ sent)
        × (d'.connected ≡ true)
        × (d'.rx ++ all_bytes left ≡ [])
        × (main_turn port impl rounds (record s { host = record s.host { port = arrives sent } })
            ≡ handled true s')
        × IsServed port line impl rounds
            (line.written (arrives sent) ++ all_bytes events)
            []
            socket
            s'
  call-IsServed r v socket d s events idle quiet free some_round fits back e x =
      let request = data_frame Cmd.data_packet (request_bytes r) in
      let sent = request ++ (reply Cmd.data_pc ∷ []) in
      let (d', left, returns, writes, taken, on, used) =
        call-Answers d events r v idle quiet fits back x in
      let (s', turns, served) =
        turn_serves port line impl rounds r (encode r v) [] socket
          (record s { host = record s.host { port = arrives sent } }) (Fits-IsRequest r fits)
          (record {
            connected = free.connected;
            waiting = free.waiting;
            free = free.free;
            room = free.room;
            reply_room = free.reply_room;
          })
          some_round (brings sent) (answer-encode impl r v s.socket socket e) in
      (
        sent,
        left,
        d',
        s',
        returns,
        writes ∙ append_assoc d.tx request (reply Cmd.data_pc ∷ []),
        on,
        used,
        turns,
        subst (λ y. IsServed port line impl rounds (line.written (arrives sent) ++ y) [] socket s')
            (sym (IsExchange-bytes d.now (encode r v) events x)) served,
      )
