-- ===== src/Tests/Serial.antt =====
-- The serial port at concrete inputs.
use libmobile_atmega.Prelude.{◌≡◌, refl, arith, false, none, some, List, [], ◌∷◌, ◌++◌, replicate}
use libmobile_atmega.Serial.Ring.{SerialBuffer, serial_buffer_isempty, serial_available}
use libmobile_atmega.Serial.Ring.Inv.{IsValid, contents}
use libmobile_atmega.Serial.Ring.Queue.{Operation, put, get, ring_run, ring_run-Simulates}
use libmobile_atmega.Serial.Uart.{Uart, is_ready, serial_putchar}
use libmobile_atmega.Serial.Uart.Fifo.{Line, Reach, here, next, Step, IsFifo, Reach-IsFifo}

-- Two bytes, round the end of the array
abbrev wrapped : SerialBuffer
wrapped = record { buffer = 8 ∷ replicate 62 0 ++ (7 ∷ []); head = 1; tail = 63 }

wrapped-IsValid : IsValid wrapped
wrapped-IsValid = omega arith

contents-wrapped : contents wrapped ≡ 7 ∷ 8 ∷ []
unfolding serial_available
contents-wrapped = refl

-- A byte in, three out of a ring of three, and one out of the empty ring
abbrev operations : List Operation
operations = put 9 ∷ get ∷ get ∷ get ∷ get ∷ []

ring_run-Simulates_example :
    (b : SerialBuffer) × (ring_run operations wrapped
      ≡ some (none ∷ some 7 ∷ some 8 ∷ some 9 ∷ none ∷ [], b))
    × IsValid b
    × (contents b ≡ [])
unfolding serial_available
ring_run-Simulates_example = ring_run-Simulates operations wrapped wrapped-IsValid

abbrev empty_ring : SerialBuffer
empty_ring = record { buffer = replicate 64 0; head = 0; tail = 0 }

abbrev quiet : Uart
quiet = record { serial_rx = empty_ring; serial_tx = empty_ring; udr = none; udrie = false }

abbrev start : Line
start = record { uart = quiet; given = []; wire = []; kept = []; taken = [] }

start-IsFifo : IsFifo start
unfolding serial_buffer_isempty serial_available
start-IsFifo = record {
  rx_valid = omega arith;
  sending = record { tx_valid = omega arith; enabled = refl };
  sent = refl;
  received = refl;
}

abbrev sent_once : Line
sent_once = record start { uart = record quiet { udr = some 5 }; given = 5 ∷ [] }

start_sends : Reach start sent_once
unfolding serial_putchar is_ready serial_buffer_isempty
start_sends = next here (Step.putchar 5 refl)

Reach-IsFifo_example : IsFifo sent_once
Reach-IsFifo_example = Reach-IsFifo start-IsFifo start_sends
