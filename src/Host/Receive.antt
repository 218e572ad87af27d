-- ===== src/Host/Receive.antt =====
-- The receiving functions of bridge/source/gbridge.c.
use libmobile_atmega.Prelude.{
  ℕ, ◌==◌, not, Bool, true, false, none, some, List, [], ◌∷◌, ◌++◌, length, get_or, if◌then◌else◌,
}
use libmobile_atmega.Wire.{reply, word, checksum_loop}
use libmobile_atmega.Wire.Cmd
use libmobile_atmega.Host.Port.{SerialPort, error, bytes}
use libmobile_atmega.Host.State.{Host, M, host_init, overlay}

-- GBRIDGE_TIMEOUT_MS
abbrev pub gbridge_timeout_ms : ℕ
gbridge_timeout_ms = 1000

module _ {P : Type 0} (port : SerialPort P) where
  -- `recv_data`: the bytes that it has put into the caller's buffer, and what it returns
  unfoldable pub recv_data : ℕ → Host P → Bool × List ℕ × Host P
  recv_data count s =
      let (result, p) = port.sp_blocking_read count gbridge_timeout_ms s.port in
      let read = record s { port = p } in
      elim result [
        | error ↦ (false, [], host_init read)
        | bytes l ↦ if not (length l == count) then (false, l, host_init read) else (true, l, read)
      ]

  unfoldable pub write : List ℕ → Host P → Host P
  write l s = record s { port = port.sp_blocking_write l 0 s.port }

  unfoldable pub send_ack : ℕ → Host P → Host P
  unfolding write
  send_ack cmd s = write (reply cmd ∷ []) s

  -- An array of variable length that has no elements is undefined.
  unfoldable pub recv_debug_string : ℕ → M P (Unit {0})
  recv_debug_string size s =
      let (ok, string, s₁) = recv_data size s in
      let acked = send_ack Cmd.debug_line s₁ in
      if size == 0
      then none
      else if not ok
      then some (tt, s₁)
      else some (tt, record acked { debug_lines = acked.debug_lines ++ (string ∷ []) })

  unfoldable pub recv_cmd_debug_line : M P (Unit {0})
  recv_cmd_debug_line s =
      let (ok, l, s₁) = recv_data 1 s in
      if not ok then some (tt, s₁) else recv_debug_string (get_or l 0 0) s₁

  -- `recv_cmd_data` behind the checksum's bytes
  unfoldable pub recv_data_verify : ℕ → M P (Unit {0})
  recv_data_verify checksum s = elim (checksum_loop s.data_size s.data_buf 0) [
    | none ↦ none
    | some expected ↦
        if not (checksum == expected)
        then some (tt, host_init s)
        else some (tt, send_ack Cmd.data_packet (record s { data_ready = true }))
  ]

  -- From the read of the checksum's bytes on
  unfoldable pub recv_data_checksum : M P (Unit {0})
  recv_data_checksum s =
      let (ok, l, s₁) = recv_data 2 s in
      if not ok then some (tt, s₁) else (recv_data_verify (word (get_or l 0 0) (get_or l 1 0)) s₁)

  -- From the read of the payload on. `none` is a write behind the buffer.
  unfoldable pub recv_data_bytes : M P (Unit {0})
  recv_data_bytes s =
      let (ok, l, s₁) = recv_data s.data_size s in
      (elim (overlay l s₁.data_buf) [
        | none ↦ none
        | some buf ↦
            let stored = record s₁ { data_buf = buf } in
            if not ok then some (tt, stored) else recv_data_checksum stored
      ])

  -- From the read of the size on
  unfoldable pub recv_data_size : M P (Unit {0})
  recv_data_size s =
      let (ok, l, s₁) = recv_data 1 s in
      if not ok then some (tt, s₁) else (recv_data_bytes (record s₁ { data_size = get_or l 0 0 }))

  unfoldable pub recv_cmd_data : M P (Unit {0})
  recv_cmd_data s = if s.data_ready then some (tt, host_init s) else recv_data_size s
