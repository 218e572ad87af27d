-- ===== src/Device/Send.antt =====
-- The sending half of atmega328p/source/gbridge.c, and its loops that wait for the bridge. Before
-- each round of such a loop bytes may arrive and time may pass: the rounds are an explicit list.
use libmobile_atmega.Prelude.{
  ℕ, zero, suc, ◌-◌, take, ◌==◌, ltb, not, Bool, true, false, Option, none, some, List, [], ◌∷◌,
  ◌++◌, length, if◌then◌else◌,
}
use libmobile_atmega.Wire.{gbridge_max_data_size, byte, word_bytes, checksum_loop}
use libmobile_atmega.Wire.Cmd
use libmobile_atmega.Serial.Ring.{serial_buffer_size}
use libmobile_atmega.Device.State.{Device, M, ◌>>◌, modify, put_all, putchar}
use libmobile_atmega.Device.Loop.{
  gbridge_loop, gbridge_recv_data, gbridge_recv_stream, gbridge_recv_stream_done,
}

-- What happens between two rounds: the bytes received without an error, and the time at the next
-- round
pub record Event : Type 0 where
  pub bytes : List ℕ
  pub time : ℕ

-- The receive ring keeps 63 bytes: `serial_receive` drops those that find it full.
abbrev pub serial_room : ℕ
serial_room = serial_buffer_size - 1

abbrev pub arrive : Event → Device → Device
arrive e s = record s { rx = take serial_room (s.rx ++ e.bytes); now = e.time }

-- How a waiting loop stands at the end of the list: it has returned, with the events still to come,
-- it is still waiting, or a call in it has no defined result.
pub data Outcome (A : Type 0) : Type 0 where
  returned : A → Device → List Event → Outcome A
  waiting : Device → Outcome A
  fault : Outcome A

-- What a function does when a loop in it has returned
abbrev pub and_then : {A B : Type 0} → Outcome A → (A → Device → List Event → Outcome B) → Outcome B
and_then (returned a s es) f = f a s es
and_then (waiting s) f = waiting s
and_then fault f = fault

-- `while (test) gbridge_loop();`
unfoldable pub wait_while : (Device → Bool) → List Event → Device → Outcome (Unit {0})
wait_while test [] s = if test s then waiting s else returned tt s []
wait_while test (e ∷ es) s = elim (test s) [
  | false ↦ returned tt s (e ∷ es)
  | true ↦ elim (gbridge_loop (arrive e s)) [ none ↦ fault | some (u, s') ↦ wait_while test es s' ]
]

-- The command `wait_cmd` waits for is set only if the adapter was connected at the call.
unfoldable pub wait_cmd : ℕ → List Event → Device → Outcome (Unit {0})
wait_cmd cmd es s =
    if not s.connected
    then returned tt s es
    else and_then (wait_while (λ r. not (r.waiting_cmd == Cmd.none)) es s) λ u s' es'.
      wait_while (λ r. r.waiting_cmd == cmd) es'
        (record s' { waiting_cmd = cmd; waiting_cmd_time = s'.now })

-- Runs a function that does not wait.
abbrev pub then_wait : M (Unit {0}) → ℕ → List Event → Device → Outcome (Unit {0})
then_wait m cmd es s = elim (m s) [ none ↦ fault | some (u, s') ↦ wait_cmd cmd es s' ]

-- The characters of a string up to its terminator
unfoldable pub gbridge_cmd_debug_line : List ℕ → List Event → Device → Outcome (Unit {0})
gbridge_cmd_debug_line line es s =
    if not s.connected
    then returned tt s es
    else if ltb 0xff (length line)
    then returned tt s es
    else then_wait (do putchar Cmd.debug_line; putchar (length line); put_all line) Cmd.debug_line
        es s

-- `serial_putchar` of the first `size` bytes of a buffer
unfoldable pub put_bytes : ℕ → List ℕ → M (Unit {0})
put_bytes zero buffer s = some (tt, s)
put_bytes (suc n) [] s = none
put_bytes (suc n) (c ∷ buffer) s = put_bytes n buffer (record s { tx = s.tx ++ (c ∷ []) })

-- `checksum_add` takes its size as an `unsigned char`.
unfoldable pub checksum_add : ℕ → List ℕ → ℕ → Option ℕ
checksum_add checksum buffer size = checksum_loop (byte size) buffer checksum

-- What `gbridge_cmd_data` writes
unfoldable pub put_data : ℕ → List ℕ → M (Unit {0})
put_data size buffer = do
  putchar Cmd.data_packet
  putchar size
  put_bytes size buffer
  (λ s. elim (checksum_add 0 buffer size) [ none ↦ none | some x ↦ put_all (word_bytes x) s ])

unfoldable pub gbridge_cmd_data : ℕ → List ℕ → List Event → Device → Outcome (Unit {0})
gbridge_cmd_data size buffer es s =
    if not s.connected
    then returned tt s es
    else if ltb gbridge_max_data_size size
    then returned tt s es
    else then_wait (put_data size buffer) Cmd.data_packet es s

unfoldable pub gbridge_cmd_stream_start : ℕ → M (Unit {0})
gbridge_cmd_stream_start length s =
    if not s.connected
    then some (tt, s)
    else (do
      putchar Cmd.stream
      put_all (word_bytes length)
      modify (λ r. record r { stream_checksum = 0 }))
        s

-- The checksum goes over the first `length % 256` bytes only, the bytes sent are all.
unfoldable pub gbridge_cmd_stream_data : List ℕ → ℕ → M (Unit {0})
gbridge_cmd_stream_data buffer length s =
    if not s.connected then some (tt, s) else elim (checksum_add s.stream_checksum buffer length) [
      | none ↦ none
      | some x ↦ put_bytes length buffer (record s { stream_checksum = x })
    ]

unfoldable pub gbridge_cmd_stream_finish : List Event → Device → Outcome (Unit {0})
gbridge_cmd_stream_finish es s =
    if not s.connected
    then returned tt s es
    else then_wait (put_all (word_bytes s.stream_checksum)) Cmd.stream es s

-- `while (connected) { if (gbridge_recv_data()) break; gbridge_loop(); }`
unfoldable pub gbridge_recv_data_wait : List Event → Device → Outcome (Option (ℕ × List ℕ))
gbridge_recv_data_wait es s =
    and_then (wait_while (λ r. elim r.connected [ true ↦ not r.data_ready | false ↦ false ]) es s)
      λ u s' es'. returned (if s'.connected then gbridge_recv_data s' else none) s' es'

unfoldable pub gbridge_recv_stream_wait : List ℕ → ℕ → List Event → Device → Outcome Bool
gbridge_recv_stream_wait buffer max_size es s =
    and_then
      (wait_while
        (λ r. elim r.connected [ true ↦ not (gbridge_recv_stream_done r) | false ↦ false ]) es
        (gbridge_recv_stream buffer max_size s))
      λ u s' es'. returned s'.connected s' es'
