-- ===== src/Bridge/Descriptors.antt =====
-- The computer's program on the sockets of bridge/source/socket_impl.c, and the descriptors that it
-- leaves open.
use libmobile_atmega.Prelude.{
  ℕ, suc, ◌+◌, ◌<◌, ◌≡◌, ◌∙◌, arith, true, false, some, List, [], ◌∷◌, ◌++◌, length, All,
}
use libmobile_atmega.Wire.{handshake}
use libmobile_atmega.Wire.Search.{find_handshake}
use libmobile_atmega.Host.Port.{SerialPort, IsLine}
use libmobile_atmega.ProtMa.State.{Ma}
use libmobile_atmega.ProtMa.Requests.{Request, IsRequest}
use libmobile_atmega.Net.Os.{Os}
use libmobile_atmega.Net.State.{Net}
use libmobile_atmega.Net.Impl.{socket_impl_init}
use libmobile_atmega.Net.Recv.{net_impl}
use libmobile_atmega.Net.Owned.{IsOs}
use libmobile_atmega.Net.Owned.Run.{Call, run, accept_calls, IsOwned}
use libmobile_atmega.Net.Owned.Kept.{Keeps, run-Keeps}
use libmobile_atmega.Net.Requests.{call_of, carry_out-answer}
use libmobile_atmega.Bridge.{PortSetup, serial_open, main_loop, shut_down, main_program}
use libmobile_atmega.Bridge.Serve.{answer_all, answer_all-∷, asked, replied, IsServed}
use libmobile_atmega.Bridge.Whole.{IsRoomy, main_program-IsServed}

-- The functions that the handlers of the requests call
abbrev pub calls : List Request → List Call
calls [] = []
calls (r ∷ rs) = call_of r ∷ calls rs

module _ {W : Type 0} (os : Os W) where
  run-∷ :
      (c : Call) (cs : List Call) (s s₁ : Net W)
      → run os (c ∷ []) s ≡ some s₁
      → run os (c ∷ cs) s ≡ run os cs s₁
  unfolding run
  run-∷ c cs s s₁ e = ground (arith, e)

  run-answer_all :
      (rs : List Request) (ls : List (List ℕ)) (s s' : Net W)
      → answer_all (net_impl os) rs s ≡ some (ls, s')
      → run os (calls rs) s ≡ some s'
  unfolding answer_all run
  run-answer_all [] ls s s' e = cc e
  run-answer_all (r ∷ rs) ls s s' e =
      let (l, ls₁, s₁, first, others, all) = answer_all-∷ (net_impl os) r rs ls s s' e in
      run-∷ (call_of r) (calls rs) s s₁ (carry_out-answer os r l s s₁ first)
      ∙ run-answer_all rs ls₁ s₁ s' others

module _ {W : Type 0} (os : Os W) (laws : IsOs os) where
  init-IsOwned :
      (s : Net W)
      → ((k : ℕ) → laws.is_open s.os k ≡ false)
      → IsOwned os laws [] (socket_impl_init os s)
  unfolding socket_impl_init
  init-IsOwned s closed k = ground (arith, closed k)

  -- The computer's program on the sockets of the operating system, from a state in which it has no
  -- descriptor open. Where it serves a sequence of requests, as `main_program-IsServed` says, the
  -- descriptors open then are those in the slots, each in one slot, and at most one more for each
  -- request to accept.
  pub main_program-IsOwned :
      {P : Type 0} (port : SerialPort P) (line : IsLine port) (rounds : ℕ) (setup : PortSetup P)
      (tries k : ℕ) (rs : List Request) (ls : List (List ℕ)) (rest : List ℕ) (p : P)
      (socket : Net W) (s : Ma P (Net W))
      → serial_open setup s.host.port ≡ (true, p)
      → find_handshake (line.pending p) ≡ some (asked rs ++ rest)
      → length (line.pending p) < length rs + k
      → All IsRequest rs
      → IsRoomy port line (net_impl os) rounds s
      → 0 < rounds
      → ((fd : ℕ) → laws.is_open s.socket.os fd ≡ false)
      → answer_all (net_impl os) rs (socket_impl_init os s.socket) ≡ some (ls, socket)
      → (s' : Ma P (Net W)) × (main_program port
            (net_impl os)
            rounds
            setup
            (socket_impl_init os)
            (suc tries)
            (length rs + k)
            s
          ≡ shut_down port (net_impl os) rounds setup (main_loop port (net_impl os) rounds k s'))
        × IsServed port line
            (net_impl os)
            rounds
            (line.written p ++ (handshake ++ replied ls))
            rest
            socket
            s'
        × Keeps os laws (accept_calls (calls rs)) [] socket
  main_program-IsOwned port line rounds setup tries k rs ls rest p socket s opens found enough v
        roomy some_round closed answers =
      let (s', runs, served) =
        main_program-IsServed port line (net_impl os) rounds setup (socket_impl_init os) tries k rs
          ls rest p socket s opens found enough v roomy some_round answers in
      (
        s',
        runs,
        served,
        run-Keeps os laws (calls rs) [] (socket_impl_init os s.socket) socket
            (init-IsOwned s.socket closed)
            (run-answer_all os rs ls (socket_impl_init os s.socket) socket answers),
      )
