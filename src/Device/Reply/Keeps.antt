-- ===== src/Device/Reply/Keeps.antt =====
-- No handler touches the reply that is waited for, except that a reset ends the wait.
use libmobile_atmega.Prelude.{ℕ, ◌<◌, ◌≡◌, ◌≢◌, ◌⊎◌, arith, Bool, true, false, Option, none, some}
use libmobile_atmega.Wire.{gbridge_timeout_us}
use libmobile_atmega.Wire.Cmd
use libmobile_atmega.Device.State.{Device, gbridge_init, elapsed}
use libmobile_atmega.Device.Receive.{
  Rc, finished, pending, failed, data_verify, data_checksum, data_bytes, data_length,
  recv_cmd_data_pc, stream_verify, stream_checksum_bytes, stream_bytes, stream_fits, stream_length,
  recv_cmd_stream_pc, recv_cmd_reset,
}
use libmobile_atmega.Device.Loop.{
  accept_cmd, fetch_cmd, run_cmd, settle, settle_all, proceed, loop_connected, gbridge_loop,
}

-- After a call that returns: the adapter is disconnected and waits for nothing, or connection and
-- wait are as before.
abbrev pub Keeps : Device → Device → Type 0
Keeps s s' =
    ((s'.connected ≡ false) × (s'.waiting_cmd ≡ Cmd.none))
    ⊎ ((s'.connected ≡ s.connected)
        × (s'.waiting_cmd ≡ s.waiting_cmd)
        × (s'.waiting_cmd_time ≡ s.waiting_cmd_time))

abbrev pub KeepsAll : {A : Type 0} → Device → Option (A × Device) → Type 0
KeepsAll s none = Unit
KeepsAll s (some (a, s')) = Keeps s s'

data_verify-Keeps : (x : ℕ) (s : Device) → KeepsAll s (data_verify x s)
unfolding data_verify
data_verify-Keeps x s = ground arith

data_checksum-Keeps : (s : Device) → KeepsAll s (data_checksum s)
unfolding data_checksum data_verify
data_checksum-Keeps s = ground arith

data_bytes-Keeps : (s : Device) → KeepsAll s (data_bytes s)
unfolding data_bytes
data_bytes-Keeps s = grind (arith, data_checksum-Keeps)

data_length-Keeps : (s : Device) → KeepsAll s (data_length s)
unfolding data_length
data_length-Keeps s = grind (arith, data_bytes-Keeps)

recv_cmd_data_pc-Keeps : (s : Device) → KeepsAll s (recv_cmd_data_pc s)
unfolding recv_cmd_data_pc
recv_cmd_data_pc-Keeps s =
    ground (arith, data_length-Keeps s, data_bytes-Keeps s, data_checksum-Keeps s)

stream_checksum_bytes-Keeps : (s : Device) → KeepsAll s (stream_checksum_bytes s)
unfolding stream_checksum_bytes stream_verify
stream_checksum_bytes-Keeps s = ground arith

stream_bytes-Keeps : (s : Device) → KeepsAll s (stream_bytes s)
unfolding stream_bytes
stream_bytes-Keeps s = grind (arith, stream_checksum_bytes-Keeps)

stream_fits-Keeps : (s : Device) → KeepsAll s (stream_fits s)
unfolding stream_fits
stream_fits-Keeps s = grind (arith, stream_bytes-Keeps)

stream_length-Keeps : (s : Device) → KeepsAll s (stream_length s)
unfolding stream_length
stream_length-Keeps s = grind (arith, stream_fits-Keeps)

recv_cmd_stream_pc-Keeps : (s : Device) → KeepsAll s (recv_cmd_stream_pc s)
unfolding recv_cmd_stream_pc
recv_cmd_stream_pc-Keeps s =
    ground (arith, stream_length-Keeps s, stream_bytes-Keeps s, stream_checksum_bytes-Keeps s)

run_cmd-Keeps : (s : Device) → KeepsAll s (run_cmd s)
unfolding run_cmd recv_cmd_reset gbridge_init
run_cmd-Keeps s = ground (arith, recv_cmd_data_pc-Keeps s, recv_cmd_stream_pc-Keeps s)

settle-Keeps : (rc : Rc) (s s' : Device) → Keeps s s' → Keeps s (settle rc s')
unfolding settle gbridge_init
settle-Keeps finished s s' h = ground arith
settle-Keeps pending s s' h = h
settle-Keeps failed s s' h = ground arith

-- Connected and waiting for `cmd` since `t`
abbrev pub Awaits : ℕ → ℕ → Device → Type 0
Awaits cmd t s = (s.connected ≡ true) × (s.waiting_cmd ≡ cmd) × (s.waiting_cmd_time ≡ t)

-- Where a call leads that finds the adapter waiting
abbrev pub AwaitsStill : {A : Type 0} → ℕ → ℕ → Option (A × Device) → Type 0
AwaitsStill cmd t none = Unit
AwaitsStill cmd t (some (a, s')) = (s'.waiting_cmd ≡ Cmd.none) ⊎ Awaits cmd t s'

fetch_cmd-AwaitsStill : (cmd t : ℕ) (s : Device) → Awaits cmd t s → AwaitsStill cmd t (fetch_cmd s)
unfolding fetch_cmd accept_cmd
fetch_cmd-AwaitsStill cmd t s h = ground arith

-- Where the command in progress is run and settled
run_settle-AwaitsStill :
    (cmd t : ℕ) (rc : Rc) (s s' : Device)
    → (s.waiting_cmd ≡ Cmd.none) ⊎ Awaits cmd t s
    → Keeps s s'
    → ((settle rc s').waiting_cmd ≡ Cmd.none) ⊎ Awaits cmd t (settle rc s')
run_settle-AwaitsStill cmd t rc s s' h k = ground (arith, settle-Keeps rc s s' k)

settle_all-AwaitsStill :
    (cmd t : ℕ) (s : Device) (o : Option (Rc × Device))
    → (s.waiting_cmd ≡ Cmd.none) ⊎ Awaits cmd t s
    → KeepsAll s o
    → AwaitsStill cmd t (settle_all o)
settle_all-AwaitsStill cmd t s none h k = tt
settle_all-AwaitsStill cmd t s (some (rc, s')) h k = run_settle-AwaitsStill cmd t rc s s' h k

proceed-AwaitsStill :
    (cmd t : ℕ) (o : Option (Bool × Device)) → AwaitsStill cmd t o → AwaitsStill cmd t (proceed o)
proceed-AwaitsStill cmd t none h = tt
proceed-AwaitsStill cmd t (some (false, s)) h = h
proceed-AwaitsStill cmd t (some (true, s)) h =
    settle_all-AwaitsStill cmd t s (run_cmd s) h (run_cmd-Keeps s)

loop_connected-AwaitsStill :
    (cmd t : ℕ) (s : Device) → Awaits cmd t s → AwaitsStill cmd t (loop_connected s)
unfolding loop_connected gbridge_init
loop_connected-AwaitsStill cmd t s h =
    ground (arith, proceed-AwaitsStill cmd t (fetch_cmd s) (fetch_cmd-AwaitsStill cmd t s h))

-- A call of `gbridge_loop` ends the wait, or leaves it as it is.
pub gbridge_loop-AwaitsStill :
    (cmd t : ℕ) (s : Device) → Awaits cmd t s → AwaitsStill cmd t (gbridge_loop s)
unfolding gbridge_loop
gbridge_loop-AwaitsStill cmd t s h = ground (arith, loop_connected-AwaitsStill cmd t s h)

-- A call that comes later than the timeout ends it.
pub gbridge_loop_expired :
    (cmd t : ℕ) (s : Device)
    → Awaits cmd t s
    → cmd ≢ Cmd.none
    → gbridge_timeout_us < elapsed s.now t
    → gbridge_loop s ≡ some (tt, gbridge_init s)
unfolding gbridge_loop loop_connected
gbridge_loop_expired cmd t s h ne late = ground arith
