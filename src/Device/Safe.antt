-- ===== src/Device/Safe.antt =====
-- Every call of `gbridge_loop` returns and keeps the invariant, whatever bytes have arrived.
use libmobile_atmega.Prelude.{ℕ, ◌≡◌, refl, arith, true, Option, none, some}
use libmobile_atmega.Device.State.{Device, gbridge_init}
use libmobile_atmega.Device.Receive.{Rc, finished, pending, failed}
use libmobile_atmega.Device.Loop.{
  accept_cmd, fetch_cmd, run_cmd, settle, loop_connected, gbridge_loop,
}
use libmobile_atmega.Device.Inv.{
  Ends, IsValid, gbridge_init-IsValid, do_handshake-IsValid, recv_cmd_reset-IsValid,
  recv_cmd_data_pc-IsValid, recv_cmd_stream_pc-IsValid,
}

accept_cmd-IsValid : (c : ℕ) (s : Device) → IsValid s → Ends (λ _ s'. IsValid s') (accept_cmd c s)
unfolding accept_cmd
accept_cmd-IsValid c s v = ground arith

fetch_cmd-IsValid : (s : Device) → IsValid s → Ends (λ _ s'. IsValid s') (fetch_cmd s)
unfolding fetch_cmd
fetch_cmd-IsValid s v = grind (arith, accept_cmd-IsValid)

run_cmd-IsValid : (s : Device) → IsValid s → Ends (λ _ s'. IsValid s') (run_cmd s)
unfolding run_cmd
run_cmd-IsValid s v =
    ground
      (arith, recv_cmd_reset-IsValid s, recv_cmd_data_pc-IsValid s, recv_cmd_stream_pc-IsValid s)

settle-IsValid : (rc : Rc) (s : Device) → IsValid s → IsValid (settle rc s)
unfolding settle gbridge_init
settle-IsValid finished s v = ground arith
settle-IsValid pending s v = v
settle-IsValid failed s v = ground arith

loop_connected-IsValid : (s : Device) → IsValid s → Ends (λ _ s'. IsValid s') (loop_connected s)
unfolding loop_connected
loop_connected-IsValid s v =
    grind (arith, gbridge_init-IsValid v, fetch_cmd-IsValid s v, run_cmd-IsValid, settle-IsValid)

connect-IsValid : (s : Device) → IsValid s → IsValid (record s { connected = true })
connect-IsValid s v = ground arith

gbridge_loop-IsValid : (s : Device) → IsValid s → Ends (λ _ s'. IsValid s') (gbridge_loop s)
unfolding gbridge_loop
gbridge_loop-IsValid s v =
    grind (arith, do_handshake-IsValid s v, loop_connected-IsValid, connect-IsValid)

Ends-total :
    {A : Type 0} {P : A → Device → Type 0} (o : Option (A × Device))
    → Ends P o
    → (a : A) × (s : Device) × (o ≡ some (a, s)) × P a s
Ends-total (some (a, s)) h = (a, s, refl, h)
Ends-total none h = absurd h

-- From a valid state every call of `gbridge_loop` returns: no handler reads or writes outside a
-- buffer or waits for a byte that is not there, whatever bytes have arrived and whatever the time.
-- The state that it leaves is valid.
pub gbridge_loop_total :
    (s : Device) → IsValid s → (s' : Device) × (gbridge_loop s ≡ some (tt, s')) × IsValid s'
gbridge_loop_total s v =
    let (u, s', e, v') = Ends-total (gbridge_loop s) (gbridge_loop-IsValid s v) in (s', e, v')
