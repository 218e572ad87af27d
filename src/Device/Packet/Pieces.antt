-- ===== src/Device/Packet/Pieces.antt =====
-- Bytes that reach the adapter in pieces, each before a call of `gbridge_loop`.
use libmobile_atmega.Prelude.{
  ℕ, ◌+◌, ◌≤◌, ◌≡◌, ◌⊎◌, arith, Option, none, some, List, [], ◌∷◌, ◌++◌, length, length-append,
  take_all,
}
use libmobile_atmega.Wire.Cmd
use libmobile_atmega.Device.State.{Device}
use libmobile_atmega.Device.Loop.{gbridge_loop}
use libmobile_atmega.Device.Send.{Event, arrive, serial_room}
use libmobile_atmega.Device.Packet.{Needs, command, size, bytes, sum, IsOpen}

-- Calls of `gbridge_loop`, each with what arrives before it
unfoldable pub deliver : List Event → Device → Option Device
deliver [] s = some s
deliver (e ∷ es) s = elim (gbridge_loop (arrive e s)) [ none ↦ none | some (u, s') ↦ deliver es s' ]

abbrev pub all_bytes : List Event → List ℕ
all_bytes [] = []
all_bytes (e ∷ es) = e.bytes ++ all_bytes es

-- The times do not go back, from `start` on, and end by `last`.
abbrev pub InTime : ℕ → ℕ → List Event → Type 0
InTime start last [] = Unit
InTime start last (e ∷ es) = (start ≤ e.time) × (e.time ≤ last) × InTime e.time last es

-- The bytes of each piece find room in the ring, which holds `held` bytes before the first of them
-- and one byte at most before the others.
abbrev pub InRoom : ℕ → List Event → Type 0
InRoom held [] = Unit
InRoom held (e ∷ es) = (held + length e.bytes ≤ serial_room) × InRoom 1 es

pub InRoom-le : (n m : ℕ) (es : List Event) → n ≤ m → InRoom m es → InRoom n es
InRoom-le n m [] h r = tt
InRoom-le n m (e ∷ es) h r = (omega (arith, r.0), r.1)

-- Then none is dropped.
pub arrive-rx :
    (e : Event) (s : Device)
    → length s.rx + length e.bytes ≤ serial_room
    → (arrive e s).rx ≡ s.rx ++ e.bytes
arrive-rx e s h = take_all serial_room (s.rx ++ e.bytes) (omega (arith, length-append s.rx e.bytes))

-- The bytes that come with an event do not change what the handler needs.
pub arrive-Needs :
    (payload : List ℕ) (e : Event) (s : Device) {w : List ℕ}
    → Needs payload s w
    → Needs payload (arrive e s) w
arrive-Needs payload e s (command i f) = command i f
arrive-Needs payload e s (size c at f) = size c at f
arrive-Needs payload e s (bytes p q c at l k h v m f) = bytes p q c at l k h v m f
arrive-Needs payload e s (sum c at l h f) = sum c at l h f

pub arrive-IsOpen :
    (sent : List ℕ) (e : Event) (s : Device) → IsOpen sent s → IsOpen sent (arrive e s)
arrive-IsOpen sent e s o = record {
  valid = ground (arith, o.valid);
  connected = o.connected;
  waiting = o.waiting;
  free = o.free;
  written = o.written;
}

-- The command in progress was started after `t` and before `now`.
abbrev pub StartedIn : ℕ → ℕ → Device → Type 0
StartedIn t now s =
    (s.processing_cmd ≡ Cmd.none) ⊎ ((t ≤ s.processing_cmd_time) × (s.processing_cmd_time ≤ now))
