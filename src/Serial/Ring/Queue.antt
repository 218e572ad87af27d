-- ===== src/Serial/Ring/Queue.antt =====
-- Any sequence of the ring's operations, with the tests that serial.c makes before them, against a
-- queue of at most 63 bytes.
use libmobile_atmega.Prelude.{
  ℕ, ◌-◌, ◌≡◌, refl, sym, subst, ◌∙◌, arith, ◌==◌, true, Bool-cases, inl, inr, Option, none, some,
  List, [], ◌∷◌, ◌++◌, length, if◌then◌else◌,
}
use libmobile_atmega.Serial.Ring.{
  SerialBuffer, serial_buffer_size, serial_buffer_isempty, serial_buffer_isfull, serial_buffer_put,
  serial_buffer_get,
}
use libmobile_atmega.Serial.Ring.Inv.{IsValid, contents}
use libmobile_atmega.Serial.Ring.Refine.{available-length, put_refines, get_refines}

pub data Operation : Type 0 where
  put : ℕ → Operation
  get : Operation

-- An operation on the ring, and the byte that it gives: `serial_receive` puts only into a ring that
-- is not full, and `serial_getchar` gets only from one that is not empty.
unfoldable pub ring_step : Operation → SerialBuffer → Option (Option ℕ × SerialBuffer)
ring_step (put c) b =
    if serial_buffer_isfull b
    then some (none, b)
    else elim (serial_buffer_put b c) [ none ↦ none | some b' ↦ some (none, b') ]
ring_step get b =
    if serial_buffer_isempty b
    then some (none, b)
    else elim (serial_buffer_get b) [ none ↦ none | some (c, b') ↦ some (some c, b') ]

-- The same on a queue
abbrev pub queue_step : Operation → List ℕ → Option ℕ × List ℕ
queue_step (put c) q =
    if length q == serial_buffer_size - 1 then (none, q) else (none, q ++ (c ∷ []))
queue_step get [] = (none, [])
queue_step get (c ∷ q) = (some c, q)

unfoldable pub ring_run : List Operation → SerialBuffer → Option (List (Option ℕ) × SerialBuffer)
ring_run [] b = some ([], b)
ring_run (op ∷ ops) b = elim (ring_step op b) [
  | none ↦ none
  | some (c, b₁) ↦ elim (ring_run ops b₁) [ none ↦ none | some (cs, b₂) ↦ some (c ∷ cs, b₂) ]
]

abbrev pub queue_run : List Operation → List ℕ → List (Option ℕ) × List ℕ
queue_run [] q = ([], q)
queue_run (op ∷ ops) q =
    let (c, q₁) = queue_step op q in let (cs, q₂) = queue_run ops q₁ in (c ∷ cs, q₂)

-- The ring gives what the queue gives, and holds what it holds.
abbrev pub Simulates : {A : Type 0} → Option (A × SerialBuffer) → A × List ℕ → Type 0
Simulates {A} o (a, q) = (b : SerialBuffer) × (o ≡ some (a, b)) × IsValid b × (contents b ≡ q)

put-Simulates :
    (c : ℕ) (b : SerialBuffer)
    → IsValid b
    → Simulates (ring_step (put c) b) (queue_step (put c) (contents b))
unfolding ring_step
put-Simulates c b v =
    let (held, few, empty, full) = available-length b v in
    elim (Bool-cases (serial_buffer_isfull b)) [
      | inl e ↦ rw (sym full ∙ e) (b, rw (e, ring_step) refl, v, refl)
      | inr e ↦
          let (b', puts, v', longer) = put_refines b c v e in
          rw (sym full ∙ e) (b', rw (e, puts, ring_step) refl, v', longer)
    ]

get-Simulates :
    (b : SerialBuffer) → IsValid b → Simulates (ring_step get b) (queue_step get (contents b))
unfolding ring_step
get-Simulates b v =
    let (held, few, empty, full) = available-length b v in
    elim (Bool-cases (serial_buffer_isempty b)) [
      | inl e ↦ go_empty (contents b) refl (sym empty ∙ e) e
      | inr e ↦
          let (c, b', gets, v', k) = get_refines b v e in
          rw k (b', rw (e, gets, ring_step) refl, v', refl)
    ]
  where
    go_empty :
        (q : List ℕ)
        → contents b ≡ q
        → (length q == 0) ≡ true
        → serial_buffer_isempty b ≡ true
        → Simulates (ring_step get b) (queue_step get q)
    go_empty [] k none_held e = (b, rw (e, ring_step) refl, v, k)
    go_empty (x ∷ q) k none_held e = absurd (ground (arith, none_held))

step-Simulates :
    (op : Operation) (b : SerialBuffer)
    → IsValid b
    → Simulates (ring_step op b) (queue_step op (contents b))
step-Simulates (put c) b v = put-Simulates c b v
step-Simulates get b v = get-Simulates b v

-- The ring behaves as a queue of at most 63 bytes under every sequence of operations: from a valid
-- ring each put and each get has a defined result, the bytes that come out are those that come out
-- of the queue, in order, with none where the queue is empty, and a byte is dropped exactly when the
-- queue holds 63. The ring that is left is valid and holds what the queue holds.
pub ring_run-Simulates :
    (ops : List Operation) (b : SerialBuffer)
    → IsValid b
    → Simulates (ring_run ops b) (queue_run ops (contents b))
unfolding ring_run
ring_run-Simulates [] b v = (b, refl, v, refl)
ring_run-Simulates (op ∷ ops) b v =
    let (b₁, e₁, v₁, k₁) = step-Simulates op b v in
    let (b₂, e₂, v₂, k₂) =
      subst (λ q. Simulates (ring_run ops b₁) (queue_run ops q)) k₁
        (ring_run-Simulates ops b₁ v₁) in
    (b₂, rw (e₁, e₂, ring_run) refl, v₂, k₂)
