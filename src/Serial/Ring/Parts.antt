-- ===== src/Serial/Ring/Parts.antt =====
-- The statements of `serial_buffer_put` and `serial_buffer_get` one by one, for the interrupts that
-- come between them.
use libmobile_atmega.Prelude.{
  ℕ, zero, suc, ◌+◌, ◌-◌, ◌≤◌, ◌<◌, ◌≡◌, refl, ap, ap₂, ◌∙◌, sym, subst, ◌%◌, false, arith, Option,
  none, some, List, [], ◌∷◌, ◌++◌, length, get_or, get_elem?, set, store, store-set, length-set,
  get_or-set_ne, get_elem?-eq-get_or, get_or-set_self,
}
use libmobile_atmega.Serial.Ring.{
  SerialBuffer, serial_buffer_size, next, serial_buffer_isempty, serial_buffer_isfull,
  serial_buffer_get, serial_available,
}
use libmobile_atmega.Serial.Ring.Inv.{IsValid, contents, stretch}
use libmobile_atmega.Serial.Ring.Refine.{put-set, put_refines, get_refines}

-- `buffer->buffer[buffer->head] = c`
unfoldable pub store_byte : SerialBuffer → ℕ → Option SerialBuffer
store_byte b c = elim (store b.buffer b.head c) [
  | none ↦ none
  | some written ↦ some (record b { buffer = written })
]

-- `buffer->head = (unsigned char)(buffer->head + 1) % SERIAL_BUFFER_SIZE`
unfoldable pub advance_head : SerialBuffer → SerialBuffer
advance_head b = record b { head = next b.head }

-- `char c = buffer->buffer[buffer->tail]`
unfoldable pub load_byte : SerialBuffer → Option ℕ
load_byte b = get_elem? b.buffer b.tail

-- `buffer->tail = (unsigned char)(buffer->tail + 1) % SERIAL_BUFFER_SIZE`
unfoldable pub advance_tail : SerialBuffer → SerialBuffer
advance_tail b = record b { tail = next b.tail }

-- A byte written outside a stretch does not show in it.
stretch-set_outside :
    (a : List ℕ) (c n m i j : ℕ)
    → i < serial_buffer_size
    → n ≤ m
    → m < serial_buffer_size
    → j ≡ (i + m) % serial_buffer_size
    → stretch (set a j c) i n ≡ stretch a i n
stretch-set_outside a c zero m i j hi hn hm e = refl
stretch-set_outside a c (suc n) m i j hi hn hm e =
    ap₂ ◌∷◌ (get_or-set_ne a {i = j} {j = i} c 0 (omega arith)) (
      stretch-set_outside a c n (m - 1) (next i) j (omega arith) (omega arith) (omega arith)
        (omega arith))

-- What the first half of a `put` leaves: the byte stands behind the queue, which is as it was.
pub record IsStored (c : ℕ) (b b' : SerialBuffer) : Type 0 where
  pub valid : IsValid b'
  pub same : contents b' ≡ contents b
  pub written : get_or b'.buffer b'.head 0 ≡ c
  pub head_is : b'.head ≡ b.head
  pub tail_is : b'.tail ≡ b.tail

pub store_byte-IsStored :
    (b b' : SerialBuffer) (c : ℕ) → IsValid b → store_byte b c ≡ some b' → IsStored c b b'
unfolding store_byte serial_available
store_byte-IsStored b b' c v e = subst (IsStored c b) same (record {
  valid = omega (arith, length-set b.buffer b.head c, v);
  same =
      stretch-set_outside b.buffer c (serial_available b) (serial_available b) b.tail b.head
        v.tail_in (omega arith) (omega arith) (omega (arith, v));
  written = get_or-set_self b.buffer b.head c 0 (omega (arith, v));
  head_is = refl;
  tail_is = refl;
})
  where
    same : record b { buffer = set b.buffer b.head c } ≡ b'
    same = cc (rw (store-set b.buffer b.head c (omega (arith, v)), store_byte) at e)

set-get_or : (xs : List ℕ) (i v : ℕ) → i < length xs → get_or xs i 0 ≡ v → set xs i v ≡ xs
set-get_or [] i v h e = elim h [ ]
set-get_or (x ∷ xs) zero v h e = ap (λ y. y ∷ xs) (sym e)
set-get_or (x ∷ xs) (suc i) v h e = ap (λ l. x ∷ l) (set-get_or xs i v (omega arith) e)

-- The second half of a `put`
pub advance_head_lem :
    (b : SerialBuffer) (c : ℕ)
    → IsValid b
    → serial_buffer_isfull b ≡ false
    → get_or b.buffer b.head 0 ≡ c
    → IsValid (advance_head b) × (contents (advance_head b) ≡ contents b ++ (c ∷ []))
unfolding advance_head
advance_head_lem b c v room e =
    let there : set b.buffer b.head c ≡ b.buffer =
      set-get_or b.buffer b.head c (omega (arith, v)) e in
    let (b', puts, valid, longer) = put_refines b c v room in
    let is : record b { buffer = set b.buffer b.head c; head = next b.head } ≡ b' =
      cc (put-set b c v, puts) in
    let is' : b' ≡ record b { head = next b.head } =
      sym is ∙ ap (λ l. record b { buffer = l; head = next b.head }) there in
    (subst IsValid is' valid, subst (λ x. contents x ≡ contents b ++ (c ∷ [])) is' longer)

-- Both halves of a `get`
pub advance_tail_lem :
    (b : SerialBuffer)
    → IsValid b
    → serial_buffer_isempty b ≡ false
    → (c : ℕ) × (load_byte b ≡ some c)
      × (serial_buffer_get b ≡ some (c, advance_tail b))
      × IsValid (advance_tail b)
      × (contents b ≡ c ∷ contents (advance_tail b))
unfolding load_byte advance_tail serial_buffer_get
advance_tail_lem b v held =
    let c = get_or b.buffer b.tail 0 in
    let loads : get_elem? b.buffer b.tail ≡ some c =
      get_elem?-eq-get_or b.buffer b.tail 0 (omega (arith, v)) in
    let gets : serial_buffer_get b ≡ some (c, record b { tail = next b.tail }) =
      rw (loads, serial_buffer_get) refl in
    let (c', b', gets', valid, k) = get_refines b v held in
    let same : (c', b') ≡ (c, record b { tail = next b.tail }) = cc (gets, gets') in
    (
      c,
      loads,
      gets,
      subst (λ (r : ℕ × SerialBuffer). IsValid r.1) same valid,
      subst (λ (r : ℕ × SerialBuffer). contents b ≡ r.0 ∷ contents r.1) same k,
    )
