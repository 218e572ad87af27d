-- ===== src/Host/Wait.antt =====
-- The computer sends and waits for the reply: `gbridge_cmd_data`, `gbridge_cmd_stream` and
-- `wait_cmd` of bridge/source/gbridge.c.
use libmobile_atmega.Prelude.{
  ℕ, zero, suc, ◌<◌, ◌≡◌, ◌≢◌, refl, ◌∙◌, arith, ◌==◌, true, false, List, [], ◌∷◌, ◌++◌, length,
  All,
}
use libmobile_atmega.Wire.{reply}
use libmobile_atmega.Wire.Cmd
use libmobile_atmega.Host.Port.{SerialPort, IsLine, error}
use libmobile_atmega.Host.State.{Host}
use libmobile_atmega.Host.Loop.{host_accept, host_loop}
use libmobile_atmega.Host.Send.{returned, waiting, host_wait_while, host_wait_cmd}
use libmobile_atmega.Host.Line.{read_lem}

module _ {P : Type 0} (port : SerialPort P) where
  -- Once disconnected a waiting loop gets nowhere.
  waits_disconnected :
      (rounds cmd : ℕ) (s : Host P)
      → s.connected ≡ false
      → s.waiting_cmd ≡ cmd
      → host_wait_while port (λ r. r.waiting_cmd == cmd) rounds s ≡ waiting s
  unfolding host_wait_while host_loop
  waits_disconnected zero cmd s c w = ground arith
  waits_disconnected (suc n) cmd s c w = ground (arith, waits_disconnected n cmd s c w)

  -- A connected computer whose serial port fails when it waits for a reply waits forever: after
  -- however many rounds, `wait_cmd` has not returned.
  pub wait_cmd_stuck :
      (rounds cmd : ℕ) (p : P) (s : Host P)
      → cmd ≢ Cmd.none
      → s.connected ≡ true
      → s.waiting_cmd ≡ Cmd.none
      → port.sp_blocking_read 1 100 s.port ≡ (error, p)
      → (s' : Host P) × (host_wait_cmd port rounds cmd s ≡ waiting s')
  unfolding host_wait_cmd host_wait_while host_loop
  wait_cmd_stuck zero cmd p s ne c w e = (record s { waiting_cmd = cmd }, ground arith)
  wait_cmd_stuck (suc n) cmd p s ne c w e =
      let s' = record s { waiting_cmd = cmd; port = p; connected = false } in
      (s', ground (arith, e, waits_disconnected n cmd s' refl refl))

module _ {P : Type 0} (port : SerialPort P) (line : IsLine port) where
  -- The reply has been taken off the line, with what came before it.
  pub record IsAnswered (sent rest : List ℕ) (s s' : Host P) : Type 0 where
    pub written : line.written s'.port ≡ sent
    pub left : line.pending s'.port ≡ rest
    pub connected : s'.connected ≡ true
    pub waiting : s'.waiting_cmd ≡ Cmd.none
    pub data_ready : s'.data_ready ≡ s.data_ready
    pub buffer : s'.data_buf ≡ s.data_buf

  waits_reply :
      (rounds cmd : ℕ) (noise rest : List ℕ) (s : Host P)
      → cmd ≢ Cmd.none
      → s.connected ≡ true
      → s.waiting_cmd ≡ cmd
      → All (λ c. c ≢ reply cmd) noise
      → length noise < rounds
      → line.pending s.port ≡ noise ++ (reply cmd ∷ rest)
      → (s' : Host P) × (host_wait_while port (λ r. r.waiting_cmd == cmd) rounds s ≡ returned s')
        × IsAnswered (line.written s.port) rest s s'
  unfolding host_wait_while host_loop host_accept
  waits_reply zero cmd noise rest s ne c w quiet h e = absurd (omega arith)
  waits_reply (suc n) cmd [] rest s ne c w quiet h e =
      let (p, reads, left, same) = read_lem port line 1 100 (reply cmd ∷ []) rest s.port refl e in
      let s' = record s { port = p; waiting_cmd = Cmd.none } in
      (
        s',
        ground (arith, reads, stops n s' refl),
        record {
          written = same;
          left = left;
          connected = c;
          waiting = refl;
          data_ready = refl;
          buffer = refl;
        },
      )
    where
      stops :
          (k : ℕ) (r : Host P)
          → r.waiting_cmd ≡ Cmd.none
          → host_wait_while port (λ x. x.waiting_cmd == cmd) k r ≡ returned r
      stops zero r w' = ground arith
      stops (suc k) r w' = ground arith
  waits_reply (suc n) cmd (x ∷ noise) rest s ne c w (q, quiet) h e =
      let (p, reads, left, same) =
        read_lem port line 1 100 (x ∷ []) (noise ++ (reply cmd ∷ rest)) s.port refl e in
      let (s', ends, a) =
        waits_reply n cmd noise rest (record s { port = p }) ne c w quiet (omega arith) left in
      (
        s',
        ground (arith, reads, ends),
        record {
          written = a.written ∙ same;
          left = a.left;
          connected = a.connected;
          waiting = a.waiting;
          data_ready = a.data_ready;
          buffer = a.buffer;
        },
      )

  pub wait_cmd_reply :
      (rounds cmd : ℕ) (noise rest : List ℕ) (s : Host P)
      → cmd ≢ Cmd.none
      → s.connected ≡ true
      → s.waiting_cmd ≡ Cmd.none
      → All (λ c. c ≢ reply cmd) noise
      → length noise < rounds
      → line.pending s.port ≡ noise ++ (reply cmd ∷ rest)
      → (s' : Host P) × (host_wait_cmd port rounds cmd s ≡ returned s')
        × IsAnswered (line.written s.port) rest s s'
  unfolding host_wait_cmd host_wait_while
  wait_cmd_reply zero cmd noise rest s ne c w quiet h e = absurd (omega arith)
  wait_cmd_reply (suc n) cmd noise rest s ne c w quiet h e =
      let (s', ends, a) =
        waits_reply (suc n) cmd noise rest (record s { waiting_cmd = cmd }) ne c refl quiet h e in
      (
        s',
        ground (arith, ends, w, c),
        record {
          written = a.written;
          left = a.left;
          connected = a.connected;
          waiting = a.waiting;
          data_ready = a.data_ready;
          buffer = a.buffer;
        },
      )
