-- ===== src/Serial/Uart/Split.antt =====
-- `serial_putchar_inline` and `serial_getchar_inline` statement by statement, with the interrupts
-- and the hardware between any two of them. A test of a ring reads one index that an interrupt
-- changes, so it is one step, and so is an interrupt handler, which runs with interrupts disabled.
pub mod Relies
pub mod Statements
pub mod Ordered
use libmobile_atmega.Prelude.{
  ℕ, ◌≡◌, Bool, true, false, ◌&&◌, Option, none, some, List, [], ◌∷◌, ◌++◌, get_or, if◌then◌else◌,
}
use libmobile_atmega.Serial.Ring.{SerialBuffer, serial_buffer_isempty, serial_buffer_isfull}
use libmobile_atmega.Serial.Ring.Inv.{IsValid, contents}
use libmobile_atmega.Serial.Ring.Parts.{store_byte, advance_head, load_byte, advance_tail}
use libmobile_atmega.Serial.Uart.{Uart, is_ready, enable_udrie, serial_transmit, serial_receive}
use libmobile_atmega.Serial.Uart.Calls.{waiting, keeps}
use libmobile_atmega.Serial.Uart.Fifo.{Line}

-- Where the main program stands: outside both functions; in `serial_getchar_inline` behind the
-- loop, or with the byte that it has read; and in `serial_putchar_inline` behind the first test,
-- which held or did not, behind the loop, with the byte in the array, and with the ring's head moved.
pub data Position : Type 0 where
  outside : Position
  tested : Position
  loaded : ℕ → Position
  sends_directly : ℕ → Position
  waits : ℕ → Position
  has_room : ℕ → Position
  stored : ℕ → Position
  unsent : Position

pub record Machine : Type 0 where
  pub line : Line
  pub at : Position

abbrev pub with_uart : Machine → Uart → Position → Machine
with_uart s u p = record { line = record s.line { uart = u }; at = p }

-- The first test of `serial_putchar_inline`
abbrev pub is_direct : Uart → Bool
is_direct u = is_ready u.udr && serial_buffer_isempty u.serial_tx

pub data Move (s : Machine) : Machine → Type 0 where
  -- `serial_getchar_inline`
  test :
      s.at ≡ outside
      → serial_buffer_isempty s.line.uart.serial_rx ≡ false
      → Move s (record s { at = tested })
  load :
      {c : ℕ}
      → s.at ≡ tested
      → load_byte s.line.uart.serial_rx ≡ some c
      → Move s (record s { at = loaded c })
  take :
      {c : ℕ}
      → s.at ≡ loaded c
      → Move s (record {
        line = record s.line {
          uart = record s.line.uart { serial_rx = advance_tail s.line.uart.serial_rx };
          taken = s.line.taken ++ (c ∷ []);
        };
        at = outside;
      })
  -- `serial_putchar_inline`: both branches of the test, and the statements of each
  direct :
      (c : ℕ)
      → s.at ≡ outside
      → is_direct s.line.uart ≡ true
      → Move s (record s { at = sends_directly c })
  write :
      {c : ℕ}
      → s.at ≡ sends_directly c
      → Move s (record {
        line = record s.line {
          uart = record s.line.uart { udr = some c };
          given = s.line.given ++ (c ∷ []);
        };
        at = outside;
      })
  buffered :
      (c : ℕ) → s.at ≡ outside → is_direct s.line.uart ≡ false → Move s (record s { at = waits c })
  room :
      {c : ℕ}
      → s.at ≡ waits c
      → serial_buffer_isfull s.line.uart.serial_tx ≡ false
      → Move s (record s { at = has_room c })
  store :
      {c : ℕ} {tx : SerialBuffer}
      → s.at ≡ has_room c
      → store_byte s.line.uart.serial_tx c ≡ some tx
      → Move s (with_uart s (record s.line.uart { serial_tx = tx }) (stored c))
  advance :
      {c : ℕ}
      → s.at ≡ stored c
      → Move s (record {
        line = record s.line {
          uart = record s.line.uart { serial_tx = advance_head s.line.uart.serial_tx };
          given = s.line.given ++ (c ∷ []);
        };
        at = unsent;
      })
  -- Only if the interrupt has not emptied the ring since then
  enable :
      s.at ≡ unsent
      → serial_buffer_isempty s.line.uart.serial_tx ≡ false
      → Move s (with_uart s (enable_udrie s.line.uart) outside)
  -- The interrupts and the hardware, wherever the program stands
  transmit :
      {u : Uart}
      → s.line.uart.udrie ≡ true
      → s.line.uart.udr ≡ none
      → serial_transmit s.line.uart ≡ some u
      → Move s (with_uart s u s.at)
  receive :
      (upe fe : Bool) (c : ℕ) {u : Uart}
      → serial_receive upe fe c s.line.uart ≡ some u
      → Move s (record s {
        line = record s.line {
          uart = u;
          kept = if keeps upe fe s.line.uart then s.line.kept ++ (c ∷ []) else s.line.kept;
        };
      })
  shift :
      {c : ℕ}
      → s.line.uart.udr ≡ some c
      → Move s (record s {
        line = record s.line {
          uart = record s.line.uart { udr = none };
          wire = s.line.wire ++ (c ∷ []);
        };
      })

pub data Moves (s : Machine) : Machine → Type 0 where
  still : Moves s s
  onward : {t r : Machine} → Moves s t → Move t r → Moves s r

-- What the program relies on where it stands
abbrev pub Relies : Position → Uart → Type 0
Relies outside u = Unit
Relies tested u = (c : ℕ) × (l : List ℕ) × (contents u.serial_rx ≡ c ∷ l)
Relies (loaded c) u = (l : List ℕ) × (contents u.serial_rx ≡ c ∷ l)
Relies (sends_directly c) u = (u.udr ≡ none) × (serial_buffer_isempty u.serial_tx ≡ true)
Relies (waits c) u = Unit
Relies (has_room c) u = serial_buffer_isfull u.serial_tx ≡ false
Relies (stored c) u =
    (serial_buffer_isfull u.serial_tx ≡ false) × (get_or u.serial_tx.buffer u.serial_tx.head 0 ≡ c)
Relies unsent u = Unit

abbrev pub is_unsent : Position → Bool
is_unsent outside = false
is_unsent tested = false
is_unsent (loaded c) = false
is_unsent (sends_directly c) = false
is_unsent (waits c) = false
is_unsent (has_room c) = false
is_unsent (stored c) = false
is_unsent unsent = true

-- No byte is lost, made up or moved before another; the transmit interrupt is enabled only while the
-- ring holds bytes, and, unless the program is just about to enable it, whenever it does.
pub record IsOrdered (s : Machine) : Type 0 where
  pub rx_valid : IsValid s.line.uart.serial_rx
  pub tx_valid : IsValid s.line.uart.serial_tx
  pub quiet : s.line.uart.udrie ≡ true → serial_buffer_isempty s.line.uart.serial_tx ≡ false
  pub awake :
      is_unsent s.at ≡ false
      → serial_buffer_isempty s.line.uart.serial_tx ≡ false
      → s.line.uart.udrie ≡ true
  pub sent : s.line.wire ++ waiting s.line.uart ≡ s.line.given
  pub received : s.line.taken ++ contents s.line.uart.serial_rx ≡ s.line.kept
  pub relies : Relies s.at s.line.uart
