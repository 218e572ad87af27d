-- ===== src/Device/Loop.antt =====
-- `gbridge_loop` of atmega328p/source/gbridge.c, and the functions by which the rest of the program
-- looks at what was received.
use libmobile_atmega.Prelude.{
  ℕ, ◌==◌, ltb, not, Bool, true, false, ◌&&◌, Option, none, some, List, if◌then◌else◌,
}
use libmobile_atmega.Wire.{gbridge_timeout_us, reply}
use libmobile_atmega.Wire.Cmd
use libmobile_atmega.Device.State.{
  Device, M, pure, ◌>>=◌, available, getchar, elapsed, gbridge_init,
}
use libmobile_atmega.Device.Receive.{
  Rc, finished, pending, failed, do_handshake, recv_cmd_reset, recv_cmd_data_pc, recv_cmd_stream_pc,
}

-- `cmd != GBRIDGE_CMD_NONE && timer_get() - time > GBRIDGE_TIMEOUT_US`
abbrev pub is_expired : ℕ → ℕ → ℕ → Bool
is_expired cmd time now = not (cmd == Cmd.none) && ltb gbridge_timeout_us (elapsed now time)

-- A byte read where a command is expected: whether it starts a command to be processed
unfoldable pub accept_cmd : ℕ → M Bool
accept_cmd cmd s =
    if cmd == Cmd.none
    then some (false, s)
    else if not (s.waiting_cmd == Cmd.none)
    then some (false, if cmd == reply s.waiting_cmd then record s { waiting_cmd = Cmd.none } else s)
    else some (
      true,
      record s { processing_cmd = cmd; processing_cmd_state = 0; processing_cmd_time = s.now },
    )

-- The block below "Wait until we receive a command"
unfoldable pub fetch_cmd : M Bool
unfolding accept_cmd
fetch_cmd s =
    if not (s.processing_cmd == Cmd.none)
    then some (true, s)
    else (do n ← available; if n == 0 then pure false else getchar >>= accept_cmd) s

-- The `switch` on the command
unfoldable pub run_cmd : M Rc
run_cmd s =
    if s.processing_cmd == Cmd.reset
    then recv_cmd_reset s
    else if s.processing_cmd == Cmd.data_pc
    then recv_cmd_data_pc s
    else if s.processing_cmd == Cmd.stream_pc
    then recv_cmd_stream_pc s
    else some (finished, s)

-- The two tests of `rc` at the end
unfoldable pub settle : Rc → Device → Device
settle finished s = record s { processing_cmd = Cmd.none }
settle pending s = s
settle failed s = gbridge_init s

abbrev pub settle_all : Option (Rc × Device) → Option (Unit {0} × Device)
settle_all none = none
settle_all (some (rc, s)) = some (tt, settle rc s)

-- What follows the block above: an early return, or the command
abbrev pub proceed : Option (Bool × Device) → Option (Unit {0} × Device)
proceed none = none
proceed (some (false, s)) = some (tt, s)
proceed (some (true, s)) = settle_all (run_cmd s)

-- `gbridge_loop` from the handling of timeouts on
unfoldable pub loop_connected : M (Unit {0})
loop_connected s =
    if is_expired s.processing_cmd s.processing_cmd_time s.now
    then some (tt, gbridge_init s)
    else if is_expired s.waiting_cmd s.waiting_cmd_time s.now
    then some (tt, gbridge_init s)
    else proceed (fetch_cmd s)

unfoldable pub gbridge_loop : M (Unit {0})
gbridge_loop s = if s.connected then loop_connected s else elim (do_handshake s) [
  | none ↦ none
  | some (false, s') ↦ some (tt, s')
  | some (true, s') ↦ loop_connected (record s' { connected = true })
]

unfoldable pub gbridge_connected : Device → Bool
gbridge_connected s = s.connected

-- The size and buffer that the returned pointer shows, or NULL
unfoldable pub gbridge_recv_data : Device → Option (ℕ × List ℕ)
gbridge_recv_data s = if not s.data_ready then none else some (s.data_size, s.data_buf)

unfoldable pub gbridge_recv_data_done : Device → Device
gbridge_recv_data_done s = record s { data_ready = false }

-- The caller's buffer, and the size that the caller says it has
unfoldable pub gbridge_recv_stream : List ℕ → ℕ → Device → Device
gbridge_recv_stream buffer max_size s = record s {
  stream_buf = buffer;
  stream_size = 0;
  stream_max_size = max_size;
  stream_cur = 0;
  stream_checksum = 0;
}

unfoldable pub gbridge_recv_stream_done : Device → Bool
gbridge_recv_stream_done s = s.stream_max_size == 0
