-- ===== src/Host/Send.antt =====
-- The sending functions of bridge/source/gbridge.c, and its loop that waits for the adapter.
use libmobile_atmega.Prelude.{
  ℕ, zero, suc, ◌==◌, ltb, not, Bool, true, false, Option, none, some, List, [], ◌∷◌, length, take,
  if◌then◌else◌,
}
use libmobile_atmega.Wire.{gbridge_max_data_size, byte, word_bytes, checksum_loop}
use libmobile_atmega.Wire.Cmd
use libmobile_atmega.Host.Port.{SerialPort}
use libmobile_atmega.Host.State.{Host}
use libmobile_atmega.Host.Receive.{write}
use libmobile_atmega.Host.Loop.{host_loop}

-- How a loop that waits stands after a number of rounds: it has returned, it is still waiting, or a
-- call in it has no defined result.
pub data Waited (P : Type 0) : Type 0 where
  returned : Host P → Waited P
  waiting : Host P → Waited P
  fault : Waited P

module _ {P : Type 0} (port : SerialPort P) where
  abbrev pub and_then : Waited P → (Host P → Waited P) → Waited P
  and_then (returned s) f = f s
  and_then (waiting s) f = waiting s
  and_then fault f = fault

  -- `while (test) gbridge_loop(port);` for at most so many rounds
  unfoldable pub host_wait_while : (Host P → Bool) → ℕ → Host P → Waited P
  host_wait_while test zero s = if test s then waiting s else returned s
  host_wait_while test (suc rounds) s = elim (test s) [
    | false ↦ returned s
    | true ↦ elim (host_loop port s) [
      | none ↦ fault
      | some (u, s') ↦ host_wait_while test rounds s'
    ]
  ]

  -- `wait_cmd`, with up to so many rounds for each of its loops
  unfoldable pub host_wait_cmd : ℕ → ℕ → Host P → Waited P
  host_wait_cmd rounds cmd s =
      if not s.connected
      then returned s
      else and_then (host_wait_while (λ r. not (r.waiting_cmd == Cmd.none)) rounds s)
          λ s'. host_wait_while (λ r. r.waiting_cmd == cmd) rounds (record s' { waiting_cmd = cmd })

  -- The three writes of a packet. `none` is a read behind the buffer.
  unfoldable pub write_packet : List ℕ → ℕ → List ℕ → Host P → Option (Host P)
  write_packet head size buffer s = elim (checksum_loop (byte size) buffer 0) [
    | none ↦ none
    | some checksum ↦
        if ltb (length buffer) size
        then none
        else some
            (write port (word_bytes checksum) (write port (take size buffer) (write port head s)))
  ]

  -- `gbridge_cmd_data`
  unfoldable pub host_cmd_data : ℕ → ℕ → List ℕ → Host P → Waited P
  host_cmd_data rounds size buffer s =
      if not s.connected
      then returned s
      else if ltb gbridge_max_data_size size
      then returned s
      else elim (write_packet (Cmd.data_pc ∷ byte size ∷ []) size buffer s) [
        | none ↦ fault
        | some s' ↦ host_wait_cmd rounds Cmd.data_pc s'
      ]

  -- `gbridge_cmd_stream`
  unfoldable pub host_cmd_stream : ℕ → ℕ → List ℕ → Host P → Waited P
  host_cmd_stream rounds size buffer s =
      if not s.connected
      then returned s
      else elim (write_packet (Cmd.stream_pc ∷ word_bytes size) size buffer s) [
        | none ↦ fault
        | some s' ↦ host_wait_cmd rounds Cmd.stream_pc s'
      ]
