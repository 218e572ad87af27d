-- ===== src/Serial/Ring/Refine.antt =====
-- The ring routines of serial.c against a plain queue of bytes.
use libmobile_atmega.Prelude.{
  ℕ, suc, ◌+◌, ◌-◌, ◌<◌, ◌≡◌, false, ◌==◌, arith, some, [], ◌∷◌, ◌++◌, length, get_or, set,
  store-set, length-set, get_elem?-eq-get_or, ap, ◌∙◌, ◌%◌,
}
use libmobile_atmega.Serial.Ring.{
  SerialBuffer, serial_buffer_size, next, serial_buffer_isempty, serial_buffer_isfull,
  serial_buffer_put, serial_buffer_get, serial_available,
}
use libmobile_atmega.Serial.Ring.Inv.{
  IsValid, contents, stretch, length-stretch, stretch_of_ne_zero, stretch-set,
}

-- `serial_available` is the number of bytes held, and the tests of the ring read it off: empty at
-- 0, full at 63.
pub available-length :
    (b : SerialBuffer)
    → IsValid b
    → (serial_available b ≡ length (contents b))
      × (serial_available b < serial_buffer_size)
      × (serial_buffer_isempty b ≡ (length (contents b) == 0))
      × (serial_buffer_isfull b ≡ (length (contents b) == serial_buffer_size - 1))
unfolding serial_available serial_buffer_isempty serial_buffer_isfull
available-length b v = ground (arith, length-stretch b.buffer b.tail (serial_available b))

pub put-set :
    (b : SerialBuffer) (c : ℕ)
    → IsValid b
    → serial_buffer_put b c ≡ some (record b { buffer = set b.buffer b.head c; head = next b.head })
unfolding serial_buffer_put
put-set b c v = rw (store-set b.buffer b.head c (omega arith), serial_buffer_put)

pub set-IsValid :
    (b : SerialBuffer) (c : ℕ)
    → IsValid b
    → IsValid (record b { buffer = set b.buffer b.head c; head = next b.head })
set-IsValid b c v = omega (arith, length-set b.buffer b.head c)

-- Putting a byte into a ring that is not full succeeds, keeps the invariant, and appends the byte
-- to the queue.
pub put_refines :
    (b : SerialBuffer) (c : ℕ)
    → IsValid b
    → serial_buffer_isfull b ≡ false
    → (b' : SerialBuffer) × (serial_buffer_put b c ≡ some b')
      × IsValid b'
      × (contents b' ≡ contents b ++ (c ∷ []))
unfolding serial_buffer_isfull serial_available
put_refines b c v room = (
  record b { buffer = set b.buffer b.head c; head = next b.head },
  put-set b c v,
  set-IsValid b c v,
  longer
      ∙ stretch-set b.buffer c (serial_available b) b.tail b.head v.size v.tail_in (ground arith)
          (omega arith),
)
  where
    more : (64 + next b.head + 0x1_0000 - b.tail) % 0x1_0000 % 64 ≡ suc (serial_available b)
    more = ground arith

    longer :
        contents (record b { buffer = set b.buffer b.head c; head = next b.head })
        ≡ stretch (set b.buffer b.head c) b.tail (suc (serial_available b))
    longer = ap (λ n. stretch (set b.buffer b.head c) b.tail n) more

-- Getting a byte from a ring that is not empty succeeds, keeps the invariant, and takes the oldest
-- byte off the queue.
pub get_refines :
    (b : SerialBuffer)
    → IsValid b
    → serial_buffer_isempty b ≡ false
    → (c : ℕ) × (b' : SerialBuffer) × (serial_buffer_get b ≡ some (c, b'))
      × IsValid b'
      × (contents b ≡ c ∷ contents b')
unfolding serial_buffer_get serial_buffer_isempty serial_available
get_refines b v some_held = (
  get_or b.buffer b.tail 0,
  record b { tail = next b.tail },
  rw (get_elem?-eq-get_or b.buffer b.tail 0 (omega arith), serial_buffer_get),
  omega arith,
  stretch_of_ne_zero b.buffer b.tail (serial_available b) (ground arith)
      ∙ ap (λ n. get_or b.buffer b.tail 0 ∷ stretch b.buffer (next b.tail) n) less,
)
  where
    less : serial_available b - 1 ≡ (64 + b.head + 0x1_0000 - next b.tail) % 0x1_0000 % 64
    less = ground arith
