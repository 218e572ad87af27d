-- ===== src/Serial/Uart/Fifo.antt =====
-- The serial unit as a transition system: calls of `serial_putchar` and `serial_getchar`, the two
-- interrupts, and the hardware that shifts a byte out. Each call is one step here.
use libmobile_atmega.Prelude.{
  ℕ, ◌≡◌, Bool, true, false, none, some, List, [], ◌∷◌, ◌++◌, append_assoc, ap, subst, ◌∙◌, sym,
  if◌then◌else◌,
}
use libmobile_atmega.Serial.Ring.{SerialBuffer}
use libmobile_atmega.Serial.Ring.Inv.{IsValid, contents}
use libmobile_atmega.Serial.Uart.Calls.{
  waiting, keeps, IsSending, serial_putchar_lem, serial_getchar_lem, serial_transmit_lem,
  serial_receive_lem,
}
use libmobile_atmega.Serial.Uart.{
  Uart, serial_transmit, serial_receive, serial_putchar, serial_getchar,
}

-- The serial unit with what has gone through it: the bytes handed to `serial_putchar`, those shifted
-- out on the wire, those that `serial_receive` kept, and those that `serial_getchar` returned.
pub record Line : Type 0 where
  pub uart : Uart
  pub given : List ℕ
  pub wire : List ℕ
  pub kept : List ℕ
  pub taken : List ℕ

pub data Step (l : Line) : Line → Type 0 where
  putchar :
      (c : ℕ) {u : Uart}
      → serial_putchar c l.uart ≡ some u
      → Step l (record l { uart = u; given = l.given ++ (c ∷ []) })
  getchar :
      {c : ℕ} {u : Uart}
      → serial_getchar l.uart ≡ some (c, u)
      → Step l (record l { uart = u; taken = l.taken ++ (c ∷ []) })
  -- The interrupt is enabled and the register is empty.
  transmit :
      {u : Uart}
      → l.uart.udrie ≡ true
      → l.uart.udr ≡ none
      → serial_transmit l.uart ≡ some u
      → Step l (record l { uart = u })
  receive :
      (upe fe : Bool) (c : ℕ) {u : Uart}
      → serial_receive upe fe c l.uart ≡ some u
      → Step l
          (record l { uart = u; kept = if keeps upe fe l.uart then l.kept ++ (c ∷ []) else l.kept })
  -- The hardware takes the byte from the register.
  shift :
      {c : ℕ}
      → l.uart.udr ≡ some c
      → Step l (record l { uart = record l.uart { udr = none }; wire = l.wire ++ (c ∷ []) })

pub data Reach (l : Line) : Line → Type 0 where
  here : Reach l l
  next : {m n : Line} → Reach l m → Step m n → Reach l n

-- The queues are in order, and no byte is lost, made up or moved before another.
pub record IsFifo (l : Line) : Type 0 where
  pub rx_valid : IsValid l.uart.serial_rx
  pub sending : IsSending l.uart
  pub sent : l.wire ++ waiting l.uart ≡ l.given
  pub received : l.taken ++ contents l.uart.serial_rx ≡ l.kept

IsSending-rx :
    (u : Uart) (rx : SerialBuffer) → IsSending u → IsSending (record u { serial_rx = rx })
IsSending-rx u rx s = record { tx_valid = s.tx_valid; enabled = s.enabled }

-- The two cases of a received byte
pub received_after :
    (kept : Bool) (taken old new log : List ℕ) (c : ℕ)
    → new ≡ (if kept then old ++ (c ∷ []) else old)
    → taken ++ old ≡ log
    → taken ++ new ≡ (if kept then log ++ (c ∷ []) else log)
received_after true taken old new log c e h = rw (e, ← h) (sym (append_assoc taken old (c ∷ [])))
received_after false taken old new log c e h = rw e h

-- Every step of the program, of an interrupt or of the hardware keeps the order.
pub Step-IsFifo : {l m : Line} → Step l m → IsFifo l → IsFifo m
Step-IsFifo {l} (putchar c h) v =
    let (s, q, same) = serial_putchar_lem c l.uart v.sending h in
    record {
      rx_valid = rw same v.rx_valid;
      sending = s;
      sent =
          rw q
            (sym (append_assoc l.wire (waiting l.uart) (c ∷ [])) ∙ ap (λ x. x ++ (c ∷ [])) v.sent);
      received = rw same v.received;
    }
Step-IsFifo {l} (getchar {c} {u} h) v =
    let (valid, k, same) = serial_getchar_lem l.uart v.rx_valid h in
    record {
      rx_valid = valid;
      sending = subst IsSending (sym same) (IsSending-rx l.uart u.serial_rx v.sending);
      sent = subst (λ x. l.wire ++ waiting x ≡ l.given) (sym same) v.sent;
      received =
          append_assoc l.taken (c ∷ []) (contents u.serial_rx)
          ∙ ap (λ x. l.taken ++ x) (sym k)
          ∙ v.received;
    }
Step-IsFifo {l} (transmit on empty h) v =
    let (s, q, same) = serial_transmit_lem l.uart v.sending on empty h in
    record {
      rx_valid = rw same v.rx_valid;
      sending = s;
      sent = ap (λ x. l.wire ++ x) q ∙ v.sent;
      received = rw same v.received;
    }
Step-IsFifo {l} (receive upe fe c {u} h) v =
    let (valid, k, same) = serial_receive_lem upe fe c l.uart v.rx_valid h in
    record {
      rx_valid = valid;
      sending = subst IsSending (sym same) (IsSending-rx l.uart u.serial_rx v.sending);
      sent = subst (λ x. l.wire ++ waiting x ≡ l.given) (sym same) v.sent;
      received =
          received_after (keeps upe fe l.uart) l.taken (contents l.uart.serial_rx)
            (contents u.serial_rx) l.kept c k v.received;
    }
Step-IsFifo {l} (shift {c} full) v = record {
  rx_valid = v.rx_valid;
  sending = record { tx_valid = v.sending.tx_valid; enabled = v.sending.enabled };
  sent = shifted;
  received = v.received;
}
  where
    shifted : (l.wire ++ (c ∷ [])) ++ contents l.uart.serial_tx ≡ l.given
    shifted = append_assoc l.wire (c ∷ []) (contents l.uart.serial_tx) ∙ rw (← v.sent, full)

-- With each call of `serial_putchar` and `serial_getchar`, each interrupt and each hardware step
-- taken as one step, so that no interrupt runs inside a call, the queues stay in order, whatever
-- the order of the steps. From a state in which both rings are valid, the interrupt that sends is
-- enabled exactly while its ring holds bytes, the bytes on the wire followed by those that still
-- wait are exactly those given to `serial_putchar`, in order, and the bytes returned by
-- `serial_getchar` followed by those in the ring are exactly those that the receive interrupt
-- kept, the same holds of every state reached.
pub Reach-IsFifo : {l m : Line} → IsFifo l → Reach l m → IsFifo m
Reach-IsFifo v here = v
Reach-IsFifo v (next r s) = Step-IsFifo s (Reach-IsFifo v r)
