-- ===== src/Bridge/Whole.antt =====
-- The computer's program from its start.
use libmobile_atmega.Prelude.{
  ℕ, zero, suc, ◌+◌, ◌<◌, ◌≡◌, refl, ap, subst, ◌∙◌, arith, Bool, true, false, not, Option,
  Option-cases, none, some, inl, inr, List, [], ◌∷◌, ◌++◌, append_assoc, length, All, ◌==◌,
  get_elem?, if◌then◌else◌,
}
use libmobile_atmega.Wire.{gbridge_max_data_size, handshake, byte}
use libmobile_atmega.Wire.Cmd
use libmobile_atmega.Wire.Search.{find_handshake}
use libmobile_atmega.Sockets.{SocketImpl}
use libmobile_atmega.Host.Port.{SerialPort, IsLine, Read, error, bytes}
use libmobile_atmega.Host.State.{Host, host_init}
use libmobile_atmega.Host.Receive.{gbridge_timeout_ms, write}
use libmobile_atmega.Host.Loop.{handshake_byte, handshake_loop, gbridge_handshake}
use libmobile_atmega.Host.Shake.{Heard, unanswered, answered, gbridge_handshake-Heard}
use libmobile_atmega.ProtMa.State.{Ma}
use libmobile_atmega.ProtMa.Requests.{Request, IsRequest}
use libmobile_atmega.Bridge.{
  PortSetup, serial_open, main_loop, main_connect, prot_ma_init, shut_down, main_program,
}
use libmobile_atmega.Bridge.Serve.{
  answer_all, asked, replied, IsListening, IsServed, main_loop-IsServed,
}

-- What the handshake leaves alone
abbrev Apart : {P : Type 0} → Host P → Host P → Type 0
Apart s s' =
    (s'.waiting_cmd ≡ s.waiting_cmd) × (s'.data_ready ≡ s.data_ready) × (s'.data_buf ≡ s.data_buf)

abbrev Through : {P : Type 0} → Host P → Option (Bool × Host P) → Type 0
Through s none = Unit
Through s (some (b, s')) = Apart s s'

Apart-Through :
    {P : Type 0} (s r : Host P) (o : Option (Bool × Host P)) → Apart s r → Through r o → Through s o
Apart-Through s r none h k = tt
Apart-Through s r (some (b, s')) (w, d, e) (w', d', e') = (w' ∙ w, d' ∙ d, e' ∙ e)

module _ {P : Type 0} (port : SerialPort P) where
  byte-Through : (c : ℕ) (s : Host P) → Through s (handshake_byte c s)
  unfolding handshake_byte
  byte-Through c s = elim (Option-cases (get_elem? handshake s.handshake_progress)) [
    | inl e ↦ rw (e, handshake_byte) tt
    | inr (x, e) ↦
        let progress =
          if not (c == x) then (if c == 0x99 then 1 else 0) else byte (s.handshake_progress + 1) in
        rw (e, handshake_byte) (go (progress == length handshake) progress)
  ]
    where
      go :
          (full : Bool) (progress : ℕ)
          → Through s (
              if full
              then some (true, record s { handshake_progress = 0; connected = true })
              else some (false, record s { handshake_progress = progress }))
      go true progress = (refl, refl, refl)
      go false progress = (refl, refl, refl)

  loop-Through : (fuel : ℕ) (s : Host P) → Through s (handshake_loop port fuel s)
  unfolding handshake_loop
  loop-Through zero s = tt
  loop-Through (suc fuel) s =
      go (port.sp_blocking_read 1 gbridge_timeout_ms s.port) (λ r. loop-Through fuel r)
    where
      step :
          (p : P) (o : Option (Bool × Host P))
          → Through (record s { port = p }) o
          → ((r : Host P) → Through r (handshake_loop port fuel r))
          → Through s (elim o [
            | none ↦ none
            | some (true, s') ↦ some (true, s')
            | some (false, s') ↦ handshake_loop port fuel s'
          ])
      step p none h rest = tt
      step p (some (true, s')) h rest = h
      step p (some (false, s')) h rest =
          Apart-Through s s' (handshake_loop port fuel s') h (rest s')

      go :
          (r : Read × P)
          → ((r : Host P) → Through r (handshake_loop port fuel r))
          → Through s (elim r.0 [
            | error ↦ some (false, record s { port = r.1 })
            | bytes [] ↦ some (false, record s { port = r.1 })
            | bytes (c ∷ l) ↦ elim (handshake_byte c (record s { port = r.1 })) [
              | none ↦ none
              | some (true, s') ↦ some (true, s')
              | some (false, s') ↦ handshake_loop port fuel s'
            ]
          ])
      go (error, p) rest = (refl, refl, refl)
      go (bytes [], p) rest = (refl, refl, refl)
      go (bytes (c ∷ l), p) rest =
          step p (handshake_byte c (record s { port = p })) (byte-Through c (record s { port = p }))
            rest

  handshake-Through : (fuel : ℕ) (s : Host P) → Through s (gbridge_handshake port fuel s)
  unfolding gbridge_handshake write
  handshake-Through fuel s = go s.connected (
      Apart-Through s (write port handshake s) (handshake_loop port fuel (write port handshake s))
        (refl, refl, refl) (loop-Through fuel (write port handshake s)))
    where
      go :
          (c : Bool)
          → Through s (handshake_loop port fuel (write port handshake s))
          → Through s
              (if c then some (true, s) else handshake_loop port fuel (write port handshake s))
      go true h = (refl, refl, refl)
      go false h = h

heard_lem :
    {P : Type 0} {port : SerialPort P} {line : IsLine port} (sent : List ℕ)
    (o : Option (Bool × Host P)) (found : Option (List ℕ)) (rest : List ℕ)
    → Heard port line sent o found
    → found ≡ some rest
    → (h : Host P) × (o ≡ some (true, h))
      × (h.connected ≡ true)
      × (line.written h.port ≡ sent)
      × (line.pending h.port ≡ rest)
heard_lem sent o found rest (unanswered h e c n w) f = absurd (ground (arith, f))
heard_lem sent o found rest (answered rest' h e c n w left) f = (h, e, c, w, left ∙ cc f)

module _ {P S : Type 0} (port : SerialPort P) (line : IsLine port) (impl : SocketImpl S)
    (rounds : ℕ) where
  -- The state in which the handshake starts
  abbrev started : (S → S) → Ma P S → P → Ma P S
  started socket_impl_init s p =
      prot_ma_init port impl rounds socket_impl_init
        (record s { host = host_init (record s.host { port = p }) })

  -- Both buffers have their size.
  abbrev pub IsRoomy : Ma P S → Type 0
  IsRoomy s =
      (length s.host.data_buf ≡ gbridge_max_data_size)
      × (length s.reply_buf ≡ gbridge_max_data_size)

  connects :
      (tries turns : ℕ) (rest : List ℕ) (s : Ma P S)
      → s.host.connected ≡ false
      → s.host.handshake_progress ≡ 0
      → s.host.waiting_cmd ≡ Cmd.none
      → s.host.data_ready ≡ false
      → IsRoomy s
      → length (line.pending s.host.port) < turns
      → find_handshake (line.pending s.host.port) ≡ some rest
      → (s' : Ma P S) × (main_connect port impl rounds (suc tries) turns s
          ≡ main_loop port impl rounds turns s')
        × IsListening s'
        × (s'.socket ≡ s.socket)
        × (line.written s'.host.port ≡ line.written s.host.port ++ handshake)
        × (line.pending s'.host.port ≡ rest)
  unfolding main_connect
  connects tries turns rest s c progress w free (room, reply_room) enough found =
      let (h, ends, on, sent, left) =
        heard_lem _ (gbridge_handshake port turns s.host) _ rest
          (gbridge_handshake-Heard port line turns s.host c progress enough) found in
      let (w', free', same) = subst (Through s.host) ends (handshake-Through port turns s.host) in
      (
        record s { host = h },
        rw (ends, main_connect) refl,
        record {
          connected = on;
          waiting = w' ∙ w;
          free = free' ∙ free;
          room = ap length same ∙ room;
          reply_room = reply_room;
        },
        refl,
        sent,
        left,
      )

  -- The computer's program as a whole. Let its port open, and let what arrives hold the handshake,
  -- whatever comes before it, followed by packets with requests to open, close, connect, listen and
  -- accept, each with the acknowledgement of the last reply behind it. Then after one turn for each
  -- request the program has written the handshake, and one acknowledgement and one reply for each
  -- request, in order, and nothing else; the sockets are those that the requests leave, as long as
  -- their operations have defined results, from those that were initialised on; and the program has
  -- nothing to do. One turn for each byte that has arrived by then and one more are enough.
  pub main_program-IsServed :
      (setup : PortSetup P) (socket_impl_init : S → S) (tries k : ℕ) (rs : List Request)
      (ls : List (List ℕ)) (rest : List ℕ) (p : P) (socket : S) (s : Ma P S)
      → serial_open setup s.host.port ≡ (true, p)
      → find_handshake (line.pending p) ≡ some (asked rs ++ rest)
      → length (line.pending p) < length rs + k
      → All IsRequest rs
      → IsRoomy s
      → 0 < rounds
      → answer_all impl rs (socket_impl_init s.socket) ≡ some (ls, socket)
      → (s' : Ma P S) × (main_program port impl rounds setup socket_impl_init
            (suc tries)
            (length rs + k)
            s
          ≡ shut_down port impl rounds setup (main_loop port impl rounds k s'))
        × IsServed port line impl rounds
            (line.written p ++ (handshake ++ replied ls))
            rest
            socket
            s'
  unfolding main_program prot_ma_init host_init
  main_program-IsServed setup socket_impl_init tries k rs ls rest p socket s opens found enough v
        roomy some_round answers =
      let (s₁, connected, listens, same, sent, left) =
        connects tries (length rs + k) (asked rs ++ rest) (started socket_impl_init s p) refl refl
          refl refl roomy enough found in
      let (s₂, loops, served) =
        main_loop-IsServed port line impl rounds rs ls rest socket s₁ v listens some_round left
          (ap (λ x. answer_all impl rs x) same ∙ answers) in
      (
        s₂,
        rw (opens, main_program)
            (ap (λ o. shut_down port impl rounds setup o) (connected ∙ loops k)),
        record {
          listening = served.listening;
          socket_is = served.socket_is;
          written =
              served.written
              ∙ ap (λ x. x ++ replied ls) sent
              ∙ append_assoc (line.written p) handshake (replied ls);
          left = served.left;
        },
      )
