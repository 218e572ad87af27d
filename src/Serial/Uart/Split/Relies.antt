-- ===== src/Serial/Uart/Split/Relies.antt =====
-- What the interrupts and the hardware leave of what the program relies on.
use libmobile_atmega.Prelude.{
  ℕ, ◌≡◌, refl, Bool, true, false, none, some, [], ◌∷◌, ◌++◌, ap, ◌∙◌, sym, arith, if◌then◌else◌,
  length,
}
use libmobile_atmega.Serial.Ring.{SerialBuffer, serial_buffer_isempty, serial_buffer_isfull}
use libmobile_atmega.Serial.Ring.Inv.{IsValid, contents}
use libmobile_atmega.Serial.Ring.Refine.{available-length}
use libmobile_atmega.Serial.Ring.Parts.{advance_tail, advance_tail_lem}
use libmobile_atmega.Serial.Uart.{Uart, serial_transmit}
use libmobile_atmega.Serial.Uart.Split.{
  Position, outside, tested, loaded, sends_directly, waits, has_room, stored, unsent, Relies,
}

-- What the interrupt leaves
pub transmit_lem :
    (u u' : Uart)
    → IsValid u.serial_tx
    → serial_buffer_isempty u.serial_tx ≡ false
    → serial_transmit u ≡ some u'
    → (c : ℕ) × IsValid (advance_tail u.serial_tx)
      × (contents u.serial_tx ≡ c ∷ contents (advance_tail u.serial_tx))
      × (u' ≡ record u {
        serial_tx = advance_tail u.serial_tx;
        udr = some c;
        udrie = if serial_buffer_isempty (advance_tail u.serial_tx) then false else u.udrie;
      })
unfolding serial_transmit
transmit_lem u u' v held e =
    let (c, loads, gets, valid, k) = advance_tail_lem u.serial_tx v held in
    (c, valid, k, sym (cc (rw (gets, serial_transmit) at e)))

-- The receive interrupt leaves what the program relies on.
pub receive-Relies :
    (p : Position) (kept : Bool) (c : ℕ) (u : Uart) (rx : SerialBuffer)
    → contents rx ≡ (if kept then contents u.serial_rx ++ (c ∷ []) else contents u.serial_rx)
    → Relies p u
    → Relies p (record u { serial_rx = rx })
receive-Relies outside kept c u rx e h = tt
receive-Relies tested true c u rx e (x, l, k) = (x, l ++ (c ∷ []), e ∙ ap (λ y. y ++ (c ∷ [])) k)
receive-Relies tested false c u rx e (x, l, k) = (x, l, e ∙ k)
receive-Relies (loaded x) true c u rx e (l, k) = (l ++ (c ∷ []), e ∙ ap (λ y. y ++ (c ∷ [])) k)
receive-Relies (loaded x) false c u rx e (l, k) = (l, e ∙ k)
receive-Relies (sends_directly x) kept c u rx e h = h
receive-Relies (waits x) kept c u rx e h = tt
receive-Relies (has_room x) kept c u rx e h = h
receive-Relies (stored x) kept c u rx e h = h
receive-Relies unsent kept c u rx e h = tt

-- The hardware does, too.
pub shift-Relies : (p : Position) (u : Uart) → Relies p u → Relies p (record u { udr = none })
shift-Relies outside u h = tt
shift-Relies tested u h = h
shift-Relies (loaded x) u h = h
shift-Relies (sends_directly x) u h = (refl, h.1)
shift-Relies (waits x) u h = tt
shift-Relies (has_room x) u h = h
shift-Relies (stored x) u h = h
shift-Relies unsent u h = tt

-- A ring that was taken from has room.
pub advance_tail-isfull :
    (b : SerialBuffer) (c : ℕ)
    → IsValid b
    → IsValid (advance_tail b)
    → contents b ≡ c ∷ contents (advance_tail b)
    → serial_buffer_isfull (advance_tail b) ≡ false
advance_tail-isfull b c v v' k =
    ground (arith, available-length b v, available-length (advance_tail b) v', ap length k)

pub transmit-Relies :
    (p : Position) (c : ℕ) (on : Bool) (u : Uart)
    → serial_buffer_isempty u.serial_tx ≡ false
    → serial_buffer_isfull (advance_tail u.serial_tx) ≡ false
    → Relies p u
    → Relies p (record u { serial_tx = advance_tail u.serial_tx; udr = some c; udrie = on })
unfolding advance_tail
transmit-Relies outside c on u held room h = tt
transmit-Relies tested c on u held room h = h
transmit-Relies (loaded x) c on u held room h = h
transmit-Relies (sends_directly x) c on u held room h = absurd (ground (arith, h.1, held))
transmit-Relies (waits x) c on u held room h = tt
transmit-Relies (has_room x) c on u held room h = room
transmit-Relies (stored x) c on u held room h = (room, h.1)
transmit-Relies unsent c on u held room h = tt
