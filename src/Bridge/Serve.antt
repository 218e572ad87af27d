-- ===== src/Bridge/Serve.antt =====
-- The computer's program as a server of requests.
use libmobile_atmega.Prelude.{
  ℕ, suc, ◌+◌, ◌≤◌, ◌<◌, ◌≡◌, refl, sym, ap, ◌∙◌, arith, true, false, Option, Option-cases, inl,
  inr, none, some, List, [], ◌∷◌, ◌++◌, append_assoc, append-nil, append-take-drop, length, drop,
  All,
}
use libmobile_atmega.Wire.{gbridge_max_data_size, reply}
use libmobile_atmega.Wire.Cmd
use libmobile_atmega.Wire.Frame.{data_frame}
use libmobile_atmega.Address.RoundTrip.{address_write_short}
use libmobile_atmega.Sockets.{SocketImpl}
use libmobile_atmega.Host.Port.{SerialPort, IsLine}
use libmobile_atmega.Host.State.{host_connected}
use libmobile_atmega.Host.Packet.{host_packet-IsDelivered}
use libmobile_atmega.ProtMa.State.{Ma, handled}
use libmobile_atmega.ProtMa.Requests.{
  Request, open_, close_, connect_, listen_, accept_, request_bytes, IsRequest, answer,
}
use libmobile_atmega.ProtMa.Answers.{prot_ma_loop-IsKept}
use libmobile_atmega.Bridge.{main_turn, main_loop}

request_bytes_short : (r : Request) → length (request_bytes r) ≤ gbridge_max_data_size
unfolding request_bytes
request_bytes_short (open_ conn type addrtype bindport) = omega arith
request_bytes_short (close_ conn) = omega arith
request_bytes_short (connect_ conn addr) = omega (arith, address_write_short (some addr))
request_bytes_short (listen_ conn) = omega arith
request_bytes_short (accept_ conn) = omega arith

-- What a server does with a sequence of requests: one after the other on the sockets, with the
-- replies in order
unfoldable pub answer_all :
    {S : Type 0} → SocketImpl S → List Request → S → Option (List (List ℕ) × S)
answer_all impl [] socket = some ([], socket)
answer_all impl (r ∷ rs) socket = elim (answer impl r socket) [
  | none ↦ none
  | some (l, socket₁) ↦ elim (answer_all impl rs socket₁) [
    | none ↦ none
    | some (ls, socket₂) ↦ some (l ∷ ls, socket₂)
  ]
]

pub answer_all-∷ :
    {S : Type 0} (impl : SocketImpl S) (r : Request) (rs : List Request) (ls : List (List ℕ))
    (socket socket' : S)
    → answer_all impl (r ∷ rs) socket ≡ some (ls, socket')
    → (l : List ℕ) × (ls₁ : List (List ℕ)) × (socket₁ : S) × (answer impl r socket
        ≡ some (l, socket₁))
      × (answer_all impl rs socket₁ ≡ some (ls₁, socket'))
      × (ls ≡ l ∷ ls₁)
unfolding answer_all
answer_all-∷ {S = S} impl r rs ls socket socket' e = elim (Option-cases (answer impl r socket)) [
  | inl a ↦ absurd (ground (arith, a, e))
  | inr ((l, socket₁), a) ↦ elim (Option-cases (answer_all impl rs socket₁)) [
    | inl b ↦ absurd (ground (arith, a, b, e))
    | inr ((ls₁, socket₂), b) ↦
        let same : some (l ∷ ls₁, socket₂) ≡ some (ls, socket') =
          sym (rw (a, b, answer_all) refl) ∙ e in
        (l, ls₁, socket₁, a, b ∙ ap (λ (x : S). some (ls₁, x)) (cc same), cc same)
  ]
]

-- The bytes of an adapter that sends the requests, and acknowledges each reply
abbrev pub asked : List Request → List ℕ
asked [] = []
asked (r ∷ rs) = data_frame Cmd.data_packet (request_bytes r) ++ (reply Cmd.data_pc ∷ asked rs)

-- The bytes of a computer that acknowledges each request, and sends the replies
abbrev pub replied : List (List ℕ) → List ℕ
replied [] = []
replied (l ∷ ls) = (reply Cmd.data_packet ∷ data_frame Cmd.data_pc l) ++ replied ls

-- A computer that is connected and has nothing to do
pub record IsListening {P S : Type 0} (s : Ma P S) : Type 0 where
  pub connected : s.host.connected ≡ true
  pub waiting : s.host.waiting_cmd ≡ Cmd.none
  pub free : s.host.data_ready ≡ false
  pub room : length s.host.data_buf ≡ gbridge_max_data_size
  pub reply_room : length s.reply_buf ≡ gbridge_max_data_size

module _ {P S : Type 0} (port : SerialPort P) (line : IsLine port) (impl : SocketImpl S)
    (rounds : ℕ) where
  -- What turns have come to: the sockets, what has been written, and what is left
  pub record IsServed (sent rest : List ℕ) (socket : S) (s : Ma P S) : Type 0 where
    pub listening : IsListening s
    pub socket_is : s.socket ≡ socket
    pub written : line.written s.host.port ≡ sent
    pub left : line.pending s.host.port ≡ rest

  pub turn_serves :
      (r : Request) (l rest : List ℕ) (socket : S) (s : Ma P S)
      → IsRequest r
      → IsListening s
      → 0 < rounds
      → line.pending s.host.port
        ≡ data_frame Cmd.data_packet (request_bytes r) ++ (reply Cmd.data_pc ∷ rest)
      → answer impl r s.socket ≡ some (l, socket)
      → (s' : Ma P S) × (main_turn port impl rounds s ≡ handled true s')
        × IsServed
            (line.written s.host.port ++ (reply Cmd.data_packet ∷ data_frame Cmd.data_pc l))
            rest
            socket
            s'
  unfolding main_turn
  turn_serves r l rest socket s v free some_round e answers =
      let (h, reads, d) =
        host_packet-IsDelivered port line (request_bytes r) (reply Cmd.data_pc ∷ rest) s.host
          free.connected free.waiting free.free free.room (request_bytes_short r) e in
      let n = length (request_bytes r) in
      let holds : h.data_buf ≡ request_bytes r ++ drop n h.data_buf =
        sym (append-take-drop n h.data_buf) ∙ ap (λ x. x ++ drop n h.data_buf) d.held in
      let (s', runs, done, kept) =
        prot_ma_loop-IsKept port line impl rounds r (drop n h.data_buf) l rest
          (record s { host = h }) socket v d.connected d.waiting d.ready d.size holds
          free.reply_room some_round d.left answers in
      (
        s',
        rw (reads, main_turn) runs,
        record {
          listening = record {
            connected = done.connected;
            waiting = kept.waiting;
            free = done.free;
            room = ap length kept.buffer ∙ d.room;
            reply_room = kept.reply_room ∙ free.reply_room;
          };
          socket_is = done.socket_is;
          written =
              done.written
              ∙ ap (λ x. x ++ data_frame Cmd.data_pc l) d.acknowledged
              ∙ append_assoc (line.written s.host.port) (reply Cmd.data_packet ∷ [])
                  (data_frame Cmd.data_pc l);
          left = done.left;
        },
      )

  main_loop-turn :
      (k : ℕ) (s s' : Ma P S)
      → s.host.connected ≡ true
      → main_turn port impl rounds s ≡ handled true s'
      → main_loop port impl rounds (suc k) s ≡ main_loop port impl rounds k s'
  unfolding main_loop host_connected
  main_loop-turn k s s' c e = ground (arith, c, e)

  -- The loop of `main` is a server. If what arrives at a connected computer that has nothing to do is
  -- a sequence of packets with requests to open, close, connect, listen and accept, each followed by
  -- the acknowledgement of the last reply, then it takes one turn for each: it carries the requests
  -- out on the sockets one after the other, as long as the operations have defined results, and
  -- writes one acknowledgement and one reply for each, in order, and nothing else. Then it has
  -- nothing to do again.
  pub main_loop-IsServed :
      (rs : List Request) (ls : List (List ℕ)) (rest : List ℕ) (socket : S) (s : Ma P S)
      → All IsRequest rs
      → IsListening s
      → 0 < rounds
      → line.pending s.host.port ≡ asked rs ++ rest
      → answer_all impl rs s.socket ≡ some (ls, socket)
      → (s' : Ma P S) × ((k : ℕ)
          → main_loop port impl rounds (length rs + k) s ≡ main_loop port impl rounds k s')
        × IsServed (line.written s.host.port ++ replied ls) rest socket s'
  unfolding answer_all
  main_loop-IsServed [] ls rest socket s free_ free some_round e answers =
      let none_left : ls ≡ [] = cc answers in
      let same : s.socket ≡ socket = cc answers in
      (
        s,
        λ k. ap (λ n. main_loop port impl rounds n s) (omega arith),
        record {
          listening = free;
          socket_is = same;
          written =
              sym (append-nil (line.written s.host.port))
              ∙ ap (λ x. line.written s.host.port ++ replied x) (sym none_left);
          left = e;
        },
      )
  main_loop-IsServed (r ∷ rs) ls rest socket s (v, vs) free some_round e answers =
      let (l, ls₁, socket₁, first, others, all) =
        answer_all-∷ impl r rs ls s.socket socket answers in
      let (s₁, turns, one) =
        turn_serves r l (asked rs ++ rest) socket₁ s v free some_round
          (e
            ∙ append_assoc (data_frame Cmd.data_packet (request_bytes r))
                (reply Cmd.data_pc ∷ asked rs) rest)
          first in
      let (s', loops, more) =
        main_loop-IsServed rs ls₁ rest socket s₁ vs one.listening some_round one.left
          (ap (λ x. answer_all impl rs x) one.socket_is ∙ others) in
      (
        s',
        λ k.
            ap (λ n. main_loop port impl rounds n s) (omega arith)
            ∙ main_loop-turn (length rs + k) s s₁ free.connected turns
            ∙ loops k,
        record {
          listening = more.listening;
          socket_is = more.socket_is;
          written =
              more.written
              ∙ ap (λ x. x ++ replied ls₁) one.written
              ∙ append_assoc (line.written s.host.port)
                  (reply Cmd.data_packet ∷ data_frame Cmd.data_pc l) (replied ls₁)
              ∙ ap (λ x. line.written s.host.port ++ replied x) (sym all);
          left = more.left;
        },
      )
