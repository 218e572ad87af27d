-- ===== src/Serial/Uart/Split/Ordered.antt =====
-- The order of the bytes, with the interrupts between any two statements.
use libmobile_atmega.Prelude.{
  ℕ, ◌≡◌, refl, Bool, true, none, some, [], ◌∷◌, ◌++◌, append_assoc, ap, subst, ◌∙◌, sym, arith,
  if◌then◌else◌,
}
use libmobile_atmega.Serial.Ring.Inv.{contents}
use libmobile_atmega.Serial.Uart.{Uart, serial_transmit, serial_receive}
use libmobile_atmega.Serial.Uart.Calls.{register, keeps, serial_receive_lem}
use libmobile_atmega.Serial.Uart.Fifo.{received_after}
use libmobile_atmega.Serial.Uart.Split.{
  waits, has_room, Machine, with_uart, Move, Moves, still, onward, IsOrdered,
}
use libmobile_atmega.Serial.Uart.Split.Relies.{
  transmit_lem, receive-Relies, shift-Relies, advance_tail-isfull, transmit-Relies,
}
use libmobile_atmega.Serial.Uart.Split.Statements.{
  onward-IsOrdered, test-IsOrdered, load-IsOrdered, take-IsOrdered, direct-IsOrdered,
  write-IsOrdered, store-IsOrdered, advance-IsOrdered, enable-IsOrdered,
}

-- The interrupts and the hardware
transmit-IsOrdered :
    (s : Machine) (u : Uart)
    → IsOrdered s
    → s.line.uart.udrie ≡ true
    → s.line.uart.udr ≡ none
    → serial_transmit s.line.uart ≡ some u
    → IsOrdered (with_uart s u s.at)
transmit-IsOrdered s u v on free e =
    let tx = s.line.uart.serial_tx in
    let (c, valid, k, same) = transmit_lem s.line.uart u v.tx_valid (v.quiet on) e in
    let room = advance_tail-isfull tx c v.tx_valid valid k in
    subst (λ (x : Uart). IsOrdered (with_uart s x s.at)) (sym same)
      (record {
        rx_valid = v.rx_valid;
        tx_valid = valid;
        quiet = λ e. ground (arith, e);
        awake = λ settled held. rw held on;
        sent =
            ap (λ l. s.line.wire ++ l) (sym k ∙ sym (ap (λ r. register r ++ contents tx) free))
            ∙ v.sent;
        received = v.received;
        relies = transmit-Relies s.at c _ s.line.uart (v.quiet on) room v.relies;
      })

receive-IsOrdered :
    (s : Machine) (upe fe : Bool) (c : ℕ) (u : Uart)
    → IsOrdered s
    → serial_receive upe fe c s.line.uart ≡ some u
    → IsOrdered (record s {
      line = record s.line {
        uart = u;
        kept = if keeps upe fe s.line.uart then s.line.kept ++ (c ∷ []) else s.line.kept;
      };
    })
receive-IsOrdered s upe fe c u v e =
    let (valid, k, same) = serial_receive_lem upe fe c s.line.uart v.rx_valid e in
    let on = keeps upe fe s.line.uart in
    subst
      (λ (x : Uart). IsOrdered (record s {
        line = record s.line {
          uart = x;
          kept = if on then s.line.kept ++ (c ∷ []) else s.line.kept;
        };
      }))
      (sym same)
      (record {
        rx_valid = valid;
        tx_valid = v.tx_valid;
        quiet = v.quiet;
        awake = v.awake;
        sent = v.sent;
        received =
            received_after on s.line.taken (contents s.line.uart.serial_rx) (contents u.serial_rx)
              s.line.kept c k v.received;
        relies = receive-Relies s.at on c s.line.uart u.serial_rx k v.relies;
      })

shift-IsOrdered :
    (s : Machine) (c : ℕ)
    → IsOrdered s
    → s.line.uart.udr ≡ some c
    → IsOrdered (record s {
      line = record s.line {
        uart = record s.line.uart { udr = none };
        wire = s.line.wire ++ (c ∷ []);
      };
    })
shift-IsOrdered s c v full = record {
  rx_valid = v.rx_valid;
  tx_valid = v.tx_valid;
  quiet = v.quiet;
  awake = v.awake;
  sent =
      append_assoc s.line.wire (c ∷ []) (contents s.line.uart.serial_tx)
      ∙ ap (λ r. s.line.wire ++ (register r ++ contents s.line.uart.serial_tx)) (sym full)
      ∙ v.sent;
  received = v.received;
  relies = shift-Relies s.at s.line.uart v.relies;
}

pub Move-IsOrdered : {s t : Machine} → Move s t → IsOrdered s → IsOrdered t
Move-IsOrdered {s} (Move.test h held) v = test-IsOrdered s v h held
Move-IsOrdered {s} (Move.load {c} h e) v = load-IsOrdered s c v h e
Move-IsOrdered {s} (Move.take {c} h) v = take-IsOrdered s c v h
Move-IsOrdered {s} (Move.direct c h e) v = direct-IsOrdered s c v h e
Move-IsOrdered {s} (Move.write {c} h) v = write-IsOrdered s c v h
Move-IsOrdered {s} (Move.buffered c h e) v = onward-IsOrdered s (waits c) v (rw h refl) tt
Move-IsOrdered {s} (Move.room {c} h e) v = onward-IsOrdered s (has_room c) v (rw h refl) e
Move-IsOrdered {s} (Move.store {c} {tx} h e) v = store-IsOrdered s c tx v h e
Move-IsOrdered {s} (Move.advance {c} h) v = advance-IsOrdered s c v h
Move-IsOrdered {s} (Move.enable h held) v = enable-IsOrdered s v held
Move-IsOrdered {s} (Move.transmit {u} on free e) v = transmit-IsOrdered s u v on free e
Move-IsOrdered {s} (Move.receive upe fe c {u} e) v = receive-IsOrdered s upe fe c u v e
Move-IsOrdered {s} (Move.shift {c} full) v = shift-IsOrdered s c v full

-- The queues stay in order with the interrupts and the hardware between any two statements of
-- `serial_putchar_inline` and `serial_getchar_inline`, if its first test is not divided and if the
-- interrupt never empties the ring between the last two statements of the former: the bytes on the
-- wire and those that wait are those given, in order; those returned and those in the ring are those
-- that the receive interrupt kept; and the transmit interrupt is enabled exactly while the ring
-- holds bytes, but for the moment before it is enabled.
pub Moves-IsOrdered : {s t : Machine} → Moves s t → IsOrdered s → IsOrdered t
Moves-IsOrdered still v = v
Moves-IsOrdered (onward r m) v = Move-IsOrdered m (Moves-IsOrdered r v)
