-- ===== src/Host/Loop.antt =====
-- `gbridge_handshake`, `gbridge_loop` and `gbridge_recv_stream` of bridge/source/gbridge.c.
use libmobile_atmega.Prelude.{
  ℕ, zero, suc, ◌+◌, ◌==◌, ltb, not, Bool, true, false, Option, none, some, List, [], ◌∷◌, length,
  get_or, get_elem?, if◌then◌else◌,
}
use libmobile_atmega.Wire.{handshake, reply, byte, word, checksum_loop}
use libmobile_atmega.Wire.Cmd
use libmobile_atmega.Host.Port.{SerialPort, error, bytes}
use libmobile_atmega.Host.State.{M, host_init, overlay}
use libmobile_atmega.Host.Receive.{
  gbridge_timeout_ms, recv_data, write, send_ack, recv_cmd_debug_line, recv_cmd_data,
}

module _ {P : Type 0} where
  -- One byte in the loop of `gbridge_handshake`, and whether the handshake is complete
  unfoldable pub handshake_byte : ℕ → M P Bool
  handshake_byte c s = elim (get_elem? handshake s.handshake_progress) [
    | none ↦ none
    | some expected ↦
        let next = byte (s.handshake_progress + 1) in
        let progress = if not (c == expected) then (if c == 0x99 then 1 else 0) else next in
        if progress == length handshake
        then some (true, record s { handshake_progress = 0; connected = true })
        else some (false, record s { handshake_progress = progress })
  ]

module _ {P : Type 0} (port : SerialPort P) where
  -- That loop. It ends when no byte comes for as long as the timeout; `none` is also the end of the
  -- fuel.
  unfoldable pub handshake_loop : ℕ → M P Bool
  handshake_loop zero s = none
  handshake_loop (suc fuel) s =
      let (result, p) = port.sp_blocking_read 1 gbridge_timeout_ms s.port in
      elim result [
        | error ↦ some (false, record s { port = p })
        | bytes [] ↦ some (false, record s { port = p })
        | bytes (c ∷ l) ↦ elim (handshake_byte c (record s { port = p })) [
          | none ↦ none
          | some (true, s') ↦ some (true, s')
          | some (false, s') ↦ handshake_loop fuel s'
        ]
      ]

  unfoldable pub gbridge_handshake : ℕ → M P Bool
  gbridge_handshake fuel s =
      if s.connected then some (true, s) else handshake_loop fuel (write port handshake s)

  -- A byte read by `gbridge_loop`
  unfoldable pub host_accept : ℕ → M P (Unit {0})
  host_accept cmd s =
      if not (s.waiting_cmd == Cmd.none)
      then some (tt, if cmd == reply s.waiting_cmd then record s { waiting_cmd = Cmd.none } else s)
      else if cmd == Cmd.debug_line
      then recv_cmd_debug_line port s
      else if cmd == Cmd.data_packet
      then recv_cmd_data port s
      else some (tt, s)

  -- `gbridge_loop`
  unfoldable pub host_loop : M P (Unit {0})
  host_loop s =
      if not s.connected
      then some (tt, s)
      else let (result, p) = port.sp_blocking_read 1 100 s.port in
        elim result [
          | error ↦ some (tt, record s { port = p; connected = false })
          | bytes [] ↦ some (tt, record s { port = p })
          | bytes (cmd ∷ l) ↦ host_accept cmd (record s { port = p })
        ]

  -- What `gbridge_recv_stream` returns, with -1 as `none`, and the caller's buffer
  abbrev pub Streamed : Type 0
  Streamed = Option ℕ × List ℕ

  -- The checksum goes over the low byte of the size.
  unfoldable pub host_stream_verify : ℕ → List ℕ → ℕ → M P Streamed
  host_stream_verify size buffer checksum s = elim (checksum_loop (byte size) buffer 0) [
    | none ↦ none
    | some expected ↦
        if not (checksum == expected)
        then some ((none, buffer), host_init s)
        else some ((some size, buffer), send_ack port Cmd.stream s)
  ]

  unfoldable pub host_stream_checksum : ℕ → List ℕ → M P Streamed
  host_stream_checksum size buffer s =
      let (ok, l, s₁) = recv_data port 2 s in
      if not ok
      then some ((none, buffer), s₁)
      else (host_stream_verify size buffer (word (get_or l 0 0) (get_or l 1 0)) s₁)

  unfoldable pub host_stream_bytes : ℕ → List ℕ → M P Streamed
  host_stream_bytes size buffer s =
      let (ok, l, s₁) = recv_data port size s in
      (elim (overlay l buffer) [
        | none ↦ none
        | some buf ↦ if not ok then some ((none, buf), s₁) else host_stream_checksum size buf s₁
      ])

  unfoldable pub host_stream_size : List ℕ → ℕ → M P Streamed
  host_stream_size buffer max_size s =
      let (ok, l, s₁) = recv_data port 2 s in
      if not ok
      then some ((none, buffer), s₁)
      else (let size = word (get_or l 0 0) (get_or l 1 0) in
          if ltb max_size size then some ((none, buffer), s₁) else host_stream_bytes size buffer s₁)

  unfoldable pub host_recv_stream : List ℕ → ℕ → M P Streamed
  host_recv_stream buffer max_size s =
      if not s.connected
      then some ((none, buffer), s)
      else let (ok, l, s₁) = recv_data port 1 s in
        if not ok
        then some ((none, buffer), s₁)
        else (if not (get_or l 0 0 == Cmd.stream)
            then some ((none, buffer), host_init s₁)
            else host_stream_size buffer max_size s₁)
