-- ===== src/Serial/Uart/Race.antt =====
-- Where the transmit interrupt comes between two statements of `serial_putchar_inline` that do not
-- allow for it.
use libmobile_atmega.Prelude.{◌≡◌, true, none, some}
use libmobile_atmega.Serial.Ring.{serial_buffer_isempty, serial_available}
use libmobile_atmega.Serial.Uart.{Uart, serial_transmit}

-- The hardware moves the byte of the register into the shift register.
abbrev pub shifted : Uart → Uart
shifted u = record u { udr = none }

-- A ring with no byte, from which a byte is taken all the same
abbrev pub Overrun : Uart → Type 0
Overrun u =
    (serial_buffer_isempty u.serial_tx ≡ true)
    × (u.udrie ≡ true)
    × ((u' : Uart) × (serial_transmit (shifted u) ≡ some u') × (serial_available u'.serial_tx ≡ 63))
