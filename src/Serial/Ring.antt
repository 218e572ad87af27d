-- ===== src/Serial/Ring.antt =====
-- `struct serial_buffer` of atmega328p/source/serial.c: a ring of 64 bytes of which 63 are used.
-- An access outside the array is `none`.
pub mod Inv
pub mod Refine
pub mod Parts
pub mod Queue
use libmobile_atmega.Prelude.{
  ℕ, ◌+◌, ◌-◌, ◌%◌, ◌==◌, Bool, Option, none, some, List, store, get_elem?,
}

abbrev pub serial_buffer_size : ℕ
serial_buffer_size = 0x40

pub record SerialBuffer : Type 0 where
  pub buffer : List ℕ
  pub head : ℕ
  pub tail : ℕ

-- `(unsigned char)(i + 1) % SERIAL_BUFFER_SIZE`
abbrev pub next : ℕ → ℕ
next i = (i + 1) % 256 % serial_buffer_size

unfoldable pub serial_buffer_isempty : SerialBuffer → Bool
serial_buffer_isempty b = b.head == b.tail

unfoldable pub serial_buffer_isfull : SerialBuffer → Bool
serial_buffer_isfull b = next b.head == b.tail

unfoldable pub serial_buffer_put : SerialBuffer → ℕ → Option SerialBuffer
serial_buffer_put b c = elim (store b.buffer b.head c) [
  | none ↦ none
  | some written ↦ some (record b { buffer = written; head = next b.head })
]

unfoldable pub serial_buffer_get : SerialBuffer → Option (ℕ × SerialBuffer)
serial_buffer_get b = elim (get_elem? b.buffer b.tail) [
  | none ↦ none
  | some c ↦ some (c, record b { tail = next b.tail })
]

-- The conversion to a 16-bit `unsigned` comes before the remainder.
unfoldable pub serial_available : SerialBuffer → ℕ
serial_available b =
    (serial_buffer_size + b.head + 0x1_0000 - b.tail) % 0x1_0000 % serial_buffer_size
