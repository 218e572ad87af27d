-- ===== src/Net/Requests.antt =====
-- Requests of the adapter on the line, carried out by bridge/source/gbridge_prot_ma.c with the sockets
-- of bridge/source/socket_impl.c.
use libmobile_atmega.Prelude.{
  ℕ, ◌<◌, ◌≡◌, sym, subst, arith, true, false, some, Option-cases, inl, inr, List, [], ◌∷◌, ◌++◌,
  length,
}
use libmobile_atmega.Wire.{gbridge_max_data_size, reply}
use libmobile_atmega.Wire.Cmd
use libmobile_atmega.Wire.Frame.{data_frame}
use libmobile_atmega.Host.Port.{SerialPort, IsLine}
use libmobile_atmega.ProtMa.State.{Ma, handled, fault}
use libmobile_atmega.ProtMa.Handlers.{prot_ma_loop}
use libmobile_atmega.ProtMa.Requests.{
  Request, open_, close_, connect_, listen_, accept_, request_bytes, IsRequest, answer,
}
use libmobile_atmega.ProtMa.Answers.{IsDone, prot_ma_loop-IsDone}
use libmobile_atmega.ProtMa.Aborts.{prot_ma_loop-fault}
use libmobile_atmega.Net.Os.{Os}
use libmobile_atmega.Net.State.{Net}
use libmobile_atmega.Net.Recv.{net_impl}
use libmobile_atmega.Net.Owned.{IsOs}
use libmobile_atmega.Net.Owned.Run.{
  Call, opens, closes, connects, listens, accepts, accept_calls, carry_out, run, IsOwned,
}
use libmobile_atmega.Net.Owned.Kept.{Keeps, run-Keeps}
use libmobile_atmega.Net.Serve.{permits, answer_refused, answer_given}

-- The function that the handler of a request calls
abbrev pub call_of : Request → Call
call_of (open_ conn type addrtype bindport) = opens conn type addrtype bindport
call_of (close_ conn) = closes conn
call_of (connect_ conn addr) = connects conn addr
call_of (listen_ conn) = listens conn
call_of (accept_ conn) = accepts conn

module _ {W : Type 0} (os : Os W) where
  pub carry_out-answer :
      (r : Request) (l : List ℕ) (s s' : Net W)
      → answer (net_impl os) r s ≡ some (l, s')
      → run os (call_of r ∷ []) s ≡ some s'
  unfolding answer carry_out run
  carry_out-answer (open_ conn type addrtype bindport) l s s' e = ground (arith, e)
  carry_out-answer (close_ conn) l s s' e = ground (arith, e)
  carry_out-answer (connect_ conn addr) l s s' e = ground (arith, e)
  carry_out-answer (listen_ conn) l s s' e = ground (arith, e)
  carry_out-answer (accept_ conn) l s s' e = ground (arith, e)

  -- A request to open, close, connect, listen or accept that the sockets are not ready for ends the
  -- computer's program in `gbridge_prot_ma_loop`, or leaves it without a defined result: one to open
  -- a connection that has a socket, or that is not one of the two, or that is of an unknown type,
  -- and any other for a connection without a socket. The bytes of the request are all it takes.
  pub unpermitted_request_aborts :
      {P : Type 0} (port : SerialPort P) (rounds : ℕ) (r : Request) (tail : List ℕ)
      (s : Ma P (Net W))
      → IsRequest r
      → s.host.data_ready ≡ true
      → s.host.data_size ≡ length (request_bytes r)
      → s.host.data_buf ≡ request_bytes r ++ tail
      → permits r s.socket.sockets ≡ false
      → prot_ma_loop port (net_impl os) rounds s ≡ fault
  unpermitted_request_aborts port rounds r tail s v ready size held h =
      prot_ma_loop-fault port (net_impl os) rounds r tail s v ready size held
        (answer_refused os r s.socket h)

  -- Any other request of these kinds is carried out: where the adapter acknowledges the reply,
  -- `gbridge_prot_ma_loop` returns, has sent exactly one packet, the reply, and has given the
  -- request back. The descriptors stay owned, but for one that a request to accept may lose.
  pub permitted_request-IsDone :
      {P : Type 0} (port : SerialPort P) (line : IsLine port) (laws : IsOs os) (rounds : ℕ)
      (r : Request) (tail rest lost : List ℕ) (s : Ma P (Net W))
      → IsRequest r
      → s.host.connected ≡ true
      → s.host.waiting_cmd ≡ Cmd.none
      → s.host.data_ready ≡ true
      → s.host.data_size ≡ length (request_bytes r)
      → s.host.data_buf ≡ request_bytes r ++ tail
      → length s.reply_buf ≡ gbridge_max_data_size
      → 0 < rounds
      → line.pending s.host.port ≡ reply Cmd.data_pc ∷ rest
      → permits r s.socket.sockets ≡ true
      → IsOwned os laws lost s.socket
      → (s' : Ma P (Net W)) × (l : List ℕ) × (prot_ma_loop port (net_impl os) rounds s
          ≡ handled true s')
        × (answer (net_impl os) r s.socket ≡ some (l, s'.socket))
        × IsDone port line (line.written s.host.port ++ data_frame Cmd.data_pc l) rest s'.socket s'
        × Keeps os laws (accept_calls (call_of r ∷ [])) lost s'.socket
  permitted_request-IsDone port line laws rounds r tail rest lost s v c w ready size held room
        some_round e h owned =
      elim (Option-cases (answer (net_impl os) r s.socket)) [
        | inl refused ↦ absurd (answer_given os r s.socket v h refused)
        | inr ((l, socket), gives) ↦
            let (s', runs, done) =
              prot_ma_loop-IsDone port line (net_impl os) rounds r tail l rest s socket v c w ready
                size held room some_round e gives in
            let kept =
              run-Keeps os laws (call_of r ∷ []) lost s.socket socket owned
                (carry_out-answer r l s.socket socket gives) in
            let (gives', done', kept') =
              subst
                (λ k.
                  (answer (net_impl os) r s.socket ≡ some (l, k))
                  × IsDone port line (line.written s.host.port ++ data_frame Cmd.data_pc l) rest k
                      s'
                  × Keeps os laws (accept_calls (call_of r ∷ [])) lost k)
                (sym done.socket_is) (gives, done, kept) in
            (s', l, runs, gives', done', kept')
      ]
