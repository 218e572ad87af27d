-- ===== src/Tests/Interrupts.antt =====
-- The serial port with interrupts between its statements, at concrete inputs.
use libmobile_atmega.Prelude.{refl, arith, true, false, none, some, [], ◌∷◌, replicate}
use libmobile_atmega.Serial.Ring.{
  SerialBuffer, serial_buffer_put, serial_buffer_get, serial_buffer_isempty, serial_buffer_isfull,
  serial_available,
}
use libmobile_atmega.Serial.Ring.Parts.{store_byte, advance_head, load_byte, advance_tail}
use libmobile_atmega.Serial.Uart.{Uart, is_ready, enable_udrie, serial_transmit, serial_receive}
use libmobile_atmega.Serial.Uart.Split.{Machine, Move, Moves, still, onward, outside, IsOrdered}
use libmobile_atmega.Serial.Uart.Split.Ordered.{Moves-IsOrdered}

abbrev empty_ring : SerialBuffer
empty_ring = record { buffer = replicate 64 0; head = 0; tail = 0 }

-- A byte is in the register, and the next one is being put into the ring.
abbrev busy : Machine
busy = record {
  line = record {
    uart = record { serial_rx = empty_ring; serial_tx = empty_ring; udr = some 5; udrie = false };
    given = 5 ∷ [];
    wire = [];
    kept = [];
    taken = [];
  };
  at = outside;
}

busy-IsOrdered : IsOrdered busy
unfolding serial_buffer_isempty serial_available
busy-IsOrdered = record {
  rx_valid = omega arith;
  tx_valid = omega arith;
  quiet = λ e. ground (arith, e);
  awake = λ e f. ground (arith, f);
  sent = refl;
  received = refl;
  relies = tt;
}

-- The register's byte goes out and another arrives between the statements of `serial_putchar`, and
-- then `serial_getchar` takes that one.
abbrev later : Machine
later = record {
  line = record {
    uart = record {
      serial_rx = record { buffer = 9 ∷ replicate 63 0; head = 1; tail = 1 };
      serial_tx = record { buffer = 6 ∷ replicate 63 0; head = 1; tail = 1 };
      udr = some 6;
      udrie = false;
    };
    given = 5 ∷ 6 ∷ [];
    wire = 5 ∷ [];
    kept = 9 ∷ [];
    taken = 9 ∷ [];
  };
  at = outside;
}

busy_later : Moves busy later
unfolding is_ready serial_buffer_isempty serial_buffer_isfull store_byte advance_head enable_udrie
    serial_transmit serial_receive load_byte advance_tail serial_buffer_put serial_buffer_get
busy_later =
    onward
      (onward
        (onward
          (onward
            (onward
              (onward
                (onward
                  (onward
                    (onward
                      (onward (onward still (Move.buffered 6 refl refl)) (Move.room refl refl))
                      (Move.shift refl))
                    (Move.store refl refl))
                  (Move.receive false false 9 refl))
                (Move.advance refl))
              (Move.enable refl refl))
            (Move.test refl refl))
          (Move.transmit refl refl refl))
        (Move.load refl refl))
      (Move.take refl)

Moves-IsOrdered_example : IsOrdered later
Moves-IsOrdered_example = Moves-IsOrdered busy_later busy-IsOrdered

-- One byte in the ring, just before its interrupt
abbrev pending : Uart
pending = record {
  serial_rx = empty_ring;
  serial_tx = record { buffer = 7 ∷ replicate 63 0; head = 1; tail = 0 };
  udr = none;
  udrie = true;
}
