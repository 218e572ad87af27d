-- ===== src/Host/State.antt =====
-- The static variables of bridge/source/gbridge.c, and the functions that only look at them.
use libmobile_atmega.Prelude.{ℕ, Bool, false, not, Option, none, some, List, [], ◌∷◌, if◌then◌else◌}
use libmobile_atmega.Wire.Cmd

-- `debug_lines` is what `recv_cmd_debug_line` has written to `stderr`.
pub record Host (P : Type 0) : Type 0 where
  pub handshake_progress : ℕ
  pub connected : Bool
  pub waiting_cmd : ℕ
  pub data_buf : List ℕ
  pub data_size : ℕ
  pub data_ready : Bool
  pub port : P
  pub debug_lines : List (List ℕ)

-- `none` is undefined behaviour.
abbrev pub M : Type 0 → Type 0 → Type 0
M P A = Host P → Option (A × Host P)

-- The first bytes of a buffer replaced by those of a list
abbrev pub overlay : List ℕ → List ℕ → Option (List ℕ)
overlay [] buffer = some buffer
overlay (c ∷ cs) [] = none
overlay (c ∷ cs) (b ∷ buffer) = elim (overlay cs buffer) [ none ↦ none | some l ↦ some (c ∷ l) ]

module _ {P : Type 0} where
  -- `gbridge_init`
  unfoldable pub host_init : Host P → Host P
  host_init s = record s {
    connected = false;
    handshake_progress = 0;
    waiting_cmd = Cmd.none;
    data_ready = false;
    data_size = 0;
  }

  unfoldable pub host_connected : Host P → Bool
  host_connected s = s.connected

  unfoldable pub host_recv_data : Host P → Option (ℕ × List ℕ)
  host_recv_data s = if not s.data_ready then none else some (s.data_size, s.data_buf)

  unfoldable pub host_recv_data_done : Host P → Host P
  host_recv_data_done s = record s { data_ready = false }
