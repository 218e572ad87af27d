-- ===== src/Bridge.antt =====
-- bridge/source/main.c: the program on the computer, from the choice of the port on. Its messages are
-- left out.
pub mod Serve
pub mod Ends
pub mod Whole
pub mod Descriptors
use libmobile_atmega.Prelude.{
  ℕ, zero, suc, ◌==◌, not, Bool, true, false, Option, none, some, List, [], ◌∷◌, if◌then◌else◌,
}
use libmobile_atmega.Sockets.{SocketImpl}
use libmobile_atmega.Host.Port.{SerialPort}
use libmobile_atmega.Host.State.{Host, host_init, host_connected}
use libmobile_atmega.Host.Loop.{gbridge_handshake, host_loop}
use libmobile_atmega.ProtMa.State.{Ma, Handled, handled, unfinished, fault}
use libmobile_atmega.ProtMa.Handlers.{prot_ma_loop}

-- The calls of libserialport with which the program opens and closes a port. SP_OK is `true`.
pub record PortSetup (P : Type 0) : Type 0 where
  pub sp_open : P → Bool × P
  pub sp_set_baudrate : ℕ → P → Bool × P
  pub sp_set_bits : ℕ → P → Bool × P
  pub sp_set_parity_none : P → Bool × P
  pub sp_set_stopbits : ℕ → P → Bool × P
  pub sp_set_flowcontrol_none : P → Bool × P
  pub sp_close : P → P
  pub sp_free_port : P → P

-- `if (call != SP_OK) return -1;` before what follows
abbrev pub if_ok : {P : Type 0} → Bool × P → (P → Bool × P) → Bool × P
if_ok (true, p) f = f p
if_ok (false, p) f = (false, p)

-- 0 is `true`.
unfoldable pub serial_open : {P : Type 0} → PortSetup P → P → Bool × P
serial_open setup port = if_ok (setup.sp_open port) (λ p₁.
    if_ok (setup.sp_set_baudrate 500000 p₁) (λ p₂. if_ok (setup.sp_set_bits 8 p₂) (λ p₃.
      if_ok (setup.sp_set_parity_none p₃) (λ p₄.
        if_ok (setup.sp_set_stopbits 1 p₄)
          (λ p₅. if_ok (setup.sp_set_flowcontrol_none p₅) (λ p₆. (true, p₆)))))))

-- How the program ends: with EXIT_FAILURE before it runs, at its end, not within the rounds given, or
-- without a defined result
pub data Outcome (P S : Type 0) : Type 0 where
  failed : P → Outcome P S
  exited : Ma P S → Outcome P S
  running : Ma P S → Outcome P S
  aborted : Outcome P S

module _ {P S : Type 0} (port : SerialPort P) (impl : SocketImpl S) (rounds : ℕ) where
  -- The body of the last loop
  unfoldable pub main_turn : Ma P S → Handled P S
  main_turn s = elim (host_loop port s.host) [
    | none ↦ fault
    | some (done, h) ↦ prot_ma_loop port impl rounds (record s { host = h })
  ]

  -- That loop
  unfoldable pub main_loop : ℕ → Ma P S → Outcome P S
  main_loop zero s = running s
  main_loop (suc turns) s = if not (host_connected s.host) then exited s else elim (main_turn s) [
    | handled ok s' ↦ main_loop turns s'
    | unfinished s' ↦ running s'
    | fault ↦ aborted
  ]

  -- From the first loop on: each of its rounds has so many turns again for `gbridge_handshake`.
  unfoldable pub main_connect : ℕ → ℕ → Ma P S → Outcome P S
  main_connect zero turns s = running s
  main_connect (suc tries) turns s = elim (gbridge_handshake port turns s.host) [
    | none ↦ running s
    | some (true, h) ↦ main_loop turns (record s { host = h })
    | some (false, h) ↦ main_connect tries turns (record s { host = h })
  ]

  -- `gbridge_prot_ma_init`, with `socket_impl_init`
  unfoldable pub prot_ma_init : (S → S) → Ma P S → Ma P S
  prot_ma_init socket_impl_init s = record s { reply_size = 0; socket = socket_impl_init s.socket }

  -- The end of `main`
  unfoldable pub shut_down : PortSetup P → Outcome P S → Outcome P S
  shut_down setup (exited s) =
      exited (record s {
        host = record s.host { port = setup.sp_free_port (setup.sp_close s.host.port) };
      })
  shut_down setup (failed p) = failed p
  shut_down setup (running s) = running s
  shut_down setup aborted = aborted

  -- `main` with the port that is in the state
  unfoldable pub main_program : PortSetup P → (S → S) → ℕ → ℕ → Ma P S → Outcome P S
  main_program setup socket_impl_init tries turns s =
      let (ok, p) = serial_open setup s.host.port in
      if not ok
      then failed p
      else shut_down setup (
          main_connect tries turns (
            prot_ma_init socket_impl_init
              (record s { host = host_init (record s.host { port = p }) })))
