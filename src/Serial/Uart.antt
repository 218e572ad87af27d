-- ===== src/Serial/Uart.antt =====
-- The routines of atmega328p/source/serial.c over both rings and the registers of the serial unit:
-- the two interrupt handlers, `serial_putchar` and `serial_getchar`.
pub mod Calls
pub mod Fifo
pub mod Split
pub mod Race
use libmobile_atmega.Prelude.{
  ℕ, Bool, true, false, ◌&&◌, ◌||◌, Option, none, some, List, if◌then◌else◌,
}
use libmobile_atmega.Serial.Ring.{
  SerialBuffer, serial_buffer_isempty, serial_buffer_isfull, serial_buffer_put, serial_buffer_get,
}

-- `udr` is the transmit data register: it is `none` while the bit UDRE0 is set. `udrie` is the bit
-- UDRIE0 of UCSR0B.
pub record Uart : Type 0 where
  pub serial_rx : SerialBuffer
  pub serial_tx : SerialBuffer
  pub udr : Option ℕ
  pub udrie : Bool

-- The bit UDRE0
unfoldable pub is_ready : Option ℕ → Bool
is_ready none = true
is_ready (some c) = false

-- The handler of USART_UDRE_vect
unfoldable pub serial_transmit : Uart → Option Uart
serial_transmit u = elim (serial_buffer_get u.serial_tx) [
  | none ↦ none
  | some (c, rest) ↦ some (record u {
    serial_tx = rest;
    udr = some c;
    udrie = if serial_buffer_isempty rest then false else u.udrie;
  })
]

-- The handler of USART_RX_vect, with the error bits UPE0 and FE0 and the byte received
unfoldable pub serial_receive : Bool → Bool → ℕ → Uart → Option Uart
serial_receive upe fe c u =
    if upe || fe || serial_buffer_isfull u.serial_rx
    then some u
    else elim (serial_buffer_put u.serial_rx c) [
      | none ↦ none
      | some rx ↦ some (record u { serial_rx = rx })
    ]

-- The part of `serial_putchar_inline` behind its test of the register: `none` while the ring is
-- full, where the code waits for the interrupt.
unfoldable pub put_buffered : ℕ → Uart → Option Uart
put_buffered c u =
    if serial_buffer_isfull u.serial_tx then none else elim (serial_buffer_put u.serial_tx c) [
      | none ↦ none
      | some tx ↦ some (record u { serial_tx = tx })
    ]

-- The bit that starts transmission from the ring
unfoldable pub enable_udrie : Uart → Uart
enable_udrie u = record u { udrie = true }

unfoldable pub serial_putchar : ℕ → Uart → Option Uart
unfolding is_ready put_buffered enable_udrie
serial_putchar c u =
    if is_ready u.udr && serial_buffer_isempty u.serial_tx
    then some (record u { udr = some c })
    else elim (put_buffered c u) [ none ↦ none | some v ↦ some (enable_udrie v) ]

-- `none` while nothing has arrived, where the code waits.
unfoldable pub serial_getchar : Uart → Option (ℕ × Uart)
serial_getchar u =
    if serial_buffer_isempty u.serial_rx then none else elim (serial_buffer_get u.serial_rx) [
      | none ↦ none
      | some (c, rest) ↦ some (c, record u { serial_rx = rest })
    ]
