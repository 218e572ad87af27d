-- ===== src/Serial/Uart/Split/Statements.antt =====
-- The statements of `serial_getchar_inline` and `serial_putchar_inline` keep the order of the bytes.
use libmobile_atmega.Prelude.{
  ℕ, ◌≡◌, refl, true, false, none, some, [], ◌∷◌, ◌++◌, append_assoc, append-nil, ap, subst, ◌∙◌,
  sym, arith,
}
use libmobile_atmega.Serial.Ring.{SerialBuffer, serial_buffer_isempty, serial_buffer_isfull}
use libmobile_atmega.Serial.Ring.Inv.{contents}
use libmobile_atmega.Serial.Ring.Parts.{
  store_byte, advance_head, load_byte, advance_tail, store_byte-IsStored, advance_head_lem,
  advance_tail_lem,
}
use libmobile_atmega.Serial.Uart.{is_ready, enable_udrie}
use libmobile_atmega.Serial.Uart.Calls.{
  waiting, register, contents_of_isempty, isempty-append, isempty_of_cons,
}
use libmobile_atmega.Serial.Uart.Split.{
  Position, outside, tested, loaded, sends_directly, has_room, stored, unsent, Machine, with_uart,
  is_direct, Relies, is_unsent, IsOrdered,
}

-- A position that the ring and the register do not matter to, reached from one like it
pub onward-IsOrdered :
    (s : Machine) (p : Position)
    → IsOrdered s
    → is_unsent s.at ≡ false
    → Relies p s.line.uart
    → IsOrdered (record s { at = p })
onward-IsOrdered s p v settled h = record {
  rx_valid = v.rx_valid;
  tx_valid = v.tx_valid;
  quiet = v.quiet;
  awake = λ e. v.awake settled;
  sent = v.sent;
  received = v.received;
  relies = h;
}

-- The statements of `serial_getchar_inline`
pub test-IsOrdered :
    (s : Machine)
    → IsOrdered s
    → s.at ≡ outside
    → serial_buffer_isempty s.line.uart.serial_rx ≡ false
    → IsOrdered (record s { at = tested })
test-IsOrdered s v h held =
    let (c, loads, gets, valid, k) = advance_tail_lem s.line.uart.serial_rx v.rx_valid held in
    onward-IsOrdered s tested v (rw h refl) (c, contents (advance_tail s.line.uart.serial_rx), k)

pub load-IsOrdered :
    (s : Machine) (c : ℕ)
    → IsOrdered s
    → s.at ≡ tested
    → load_byte s.line.uart.serial_rx ≡ some c
    → IsOrdered (record s { at = loaded c })
load-IsOrdered s c v h loads =
    let rx = s.line.uart.serial_rx in
    let (x, l, k) = subst (λ p. Relies p s.line.uart) h v.relies in
    let (c', loads', gets, valid, k') =
      advance_tail_lem rx v.rx_valid (isempty_of_cons rx x l v.rx_valid k) in
    let same : c' ≡ c = cc (loads, loads') in
    onward-IsOrdered s (loaded c) v (rw h refl)
      (contents (advance_tail rx), k' ∙ ap (λ y. y ∷ contents (advance_tail rx)) same)

pub take-IsOrdered :
    (s : Machine) (c : ℕ)
    → IsOrdered s
    → s.at ≡ loaded c
    → IsOrdered (record {
      line = record s.line {
        uart = record s.line.uart { serial_rx = advance_tail s.line.uart.serial_rx };
        taken = s.line.taken ++ (c ∷ []);
      };
      at = outside;
    })
take-IsOrdered s c v h =
    let rx = s.line.uart.serial_rx in
    let (l, k) = subst (λ p. Relies p s.line.uart) h v.relies in
    let (c', loads', gets, valid, k') =
      advance_tail_lem rx v.rx_valid (isempty_of_cons rx c l v.rx_valid k) in
    let same : c' ≡ c = cc (k, k') in
    record {
      rx_valid = valid;
      tx_valid = v.tx_valid;
      quiet = v.quiet;
      awake = λ e. v.awake (rw h refl);
      sent = v.sent;
      received =
          append_assoc s.line.taken (c ∷ []) (contents (advance_tail rx))
          ∙ ap (λ x. s.line.taken ++ x)
              (ap (λ y. y ∷ contents (advance_tail rx)) (sym same) ∙ sym k')
          ∙ v.received;
      relies = tt;
    }

-- The statements of `serial_putchar_inline`
pub direct-IsOrdered :
    (s : Machine) (c : ℕ)
    → IsOrdered s
    → s.at ≡ outside
    → is_direct s.line.uart ≡ true
    → IsOrdered (record s { at = sends_directly c })
unfolding is_ready
direct-IsOrdered s c v h e =
    onward-IsOrdered s (sends_directly c) v (rw h refl) (ground (arith, e), ground (arith, e))

pub write-IsOrdered :
    (s : Machine) (c : ℕ)
    → IsOrdered s
    → s.at ≡ sends_directly c
    → IsOrdered (record {
      line = record s.line {
        uart = record s.line.uart { udr = some c };
        given = s.line.given ++ (c ∷ []);
      };
      at = outside;
    })
write-IsOrdered s c v h =
    let (free, empty) = subst (λ p. Relies p s.line.uart) h v.relies in
    let nothing = contents_of_isempty s.line.uart.serial_tx v.tx_valid empty in
    record {
      rx_valid = v.rx_valid;
      tx_valid = v.tx_valid;
      quiet = v.quiet;
      awake = λ e. v.awake (rw h refl);
      sent = written free nothing;
      received = v.received;
      relies = tt;
    }
  where
    written :
        s.line.uart.udr ≡ none
        → contents s.line.uart.serial_tx ≡ []
        → s.line.wire ++ (c ∷ contents s.line.uart.serial_tx) ≡ s.line.given ++ (c ∷ [])
    written free nothing =
        ap (λ l. s.line.wire ++ (c ∷ l)) nothing
        ∙ ap (λ l. l ++ (c ∷ []))
            (sym (append-nil s.line.wire)
              ∙ ap (λ l. s.line.wire ++ l)
                  (sym (ap (λ r. register r ++ contents s.line.uart.serial_tx) free ∙ nothing))
              ∙ v.sent)

pub store-IsOrdered :
    (s : Machine) (c : ℕ) (tx : SerialBuffer)
    → IsOrdered s
    → s.at ≡ has_room c
    → store_byte s.line.uart.serial_tx c ≡ some tx
    → IsOrdered (with_uart s (record s.line.uart { serial_tx = tx }) (stored c))
unfolding serial_buffer_isempty serial_buffer_isfull
store-IsOrdered s c tx v h e =
    let room = subst (λ p. Relies p s.line.uart) h v.relies in
    let stores = store_byte-IsStored s.line.uart.serial_tx tx c v.tx_valid e in
    record {
      rx_valid = v.rx_valid;
      tx_valid = stores.valid;
      quiet = rw (stores.head_is, stores.tail_is) v.quiet;
      awake = λ e. rw (stores.head_is, stores.tail_is) (v.awake (rw h refl));
      sent = ap (λ l. s.line.wire ++ (register s.line.uart.udr ++ l)) stores.same ∙ v.sent;
      received = v.received;
      relies = (rw (stores.head_is, stores.tail_is) room, stores.written);
    }

pub advance-IsOrdered :
    (s : Machine) (c : ℕ)
    → IsOrdered s
    → s.at ≡ stored c
    → IsOrdered (record {
      line = record s.line {
        uart = record s.line.uart { serial_tx = advance_head s.line.uart.serial_tx };
        given = s.line.given ++ (c ∷ []);
      };
      at = unsent;
    })
advance-IsOrdered s c v h =
    let tx = s.line.uart.serial_tx in
    let (room, written) = subst (λ p. Relies p s.line.uart) h v.relies in
    let (valid, longer) = advance_head_lem tx c v.tx_valid room written in
    record {
      rx_valid = v.rx_valid;
      tx_valid = valid;
      quiet = λ e. isempty-append (advance_head tx) (contents tx) c valid longer;
      awake = λ e. absurd (ground (arith, e));
      sent =
          ap (λ l. s.line.wire ++ (register s.line.uart.udr ++ l)) longer
          ∙ ap (λ l. s.line.wire ++ l)
              (sym (append_assoc (register s.line.uart.udr) (contents tx) (c ∷ [])))
          ∙ sym (append_assoc s.line.wire (waiting s.line.uart) (c ∷ []))
          ∙ ap (λ l. l ++ (c ∷ [])) v.sent;
      received = v.received;
      relies = tt;
    }

pub enable-IsOrdered :
    (s : Machine)
    → IsOrdered s
    → serial_buffer_isempty s.line.uart.serial_tx ≡ false
    → IsOrdered (with_uart s (enable_udrie s.line.uart) outside)
unfolding enable_udrie
enable-IsOrdered s v held = record {
  rx_valid = v.rx_valid;
  tx_valid = v.tx_valid;
  quiet = λ e. held;
  awake = λ e held'. refl;
  sent = v.sent;
  received = v.received;
  relies = tt;
}
