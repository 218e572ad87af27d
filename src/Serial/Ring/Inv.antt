-- ===== src/Serial/Ring/Inv.antt =====
-- The invariant of the byte rings, and what they hold, oldest byte first.
use libmobile_atmega.Prelude.{
  ℕ, zero, suc, ◌+◌, ◌%◌, ◌<◌, ◌≡◌, refl, ap, ap₂, subst, ◌≢◌, ◌-◌, arith, List, [], ◌∷◌, ◌++◌,
  length, get_or, set, get_or-set_self, get_or-set_ne,
}
use libmobile_atmega.Serial.Ring.{SerialBuffer, serial_buffer_size, next, serial_available}

-- Both indices stand in the array.
pub record IsValid (b : SerialBuffer) : Type 0 where
  pub size : length b.buffer ≡ serial_buffer_size
  pub head_in : b.head < serial_buffer_size
  pub tail_in : b.tail < serial_buffer_size

-- `n` bytes of the array from index `i` on, going round at its end
abbrev pub stretch : List ℕ → ℕ → ℕ → List ℕ
stretch a i zero = []
stretch a i (suc n) = get_or a i 0 ∷ stretch a (next i) n

abbrev pub contents : SerialBuffer → List ℕ
contents b = stretch b.buffer b.tail (serial_available b)

pub length-stretch : (a : List ℕ) (i n : ℕ) → length (stretch a i n) ≡ n
length-stretch a i zero = refl
length-stretch a i (suc n) = ap suc (length-stretch a (next i) n)

pub stretch_of_ne_zero :
    (a : List ℕ) (i n : ℕ) → n ≢ 0 → stretch a i n ≡ get_or a i 0 ∷ stretch a (next i) (n - 1)
stretch_of_ne_zero a i zero p = absurd (p refl)
stretch_of_ne_zero a i (suc n) p = ap (λ k. stretch a i (suc k)) (omega arith)

-- A byte written just behind a stretch is the stretch's new last byte.
pub stretch-set :
    (a : List ℕ) (c n i j : ℕ)
    → length a ≡ serial_buffer_size
    → i < serial_buffer_size
    → suc n < serial_buffer_size
    → j ≡ (i + n) % serial_buffer_size
    → stretch (set a j c) i (suc n) ≡ stretch a i n ++ (c ∷ [])
stretch-set a c zero i j size hi hn e =
    ap (λ x. x ∷ [])
      (subst (λ k. get_or (set a k c) i 0 ≡ c) here (get_or-set_self a i c 0 (omega arith)))
  where
    here : i ≡ j
    here = omega arith
stretch-set a c (suc n) i j size hi hn e =
    ap₂ ◌∷◌ (get_or-set_ne a {i = j} {j = i} c 0 (omega arith))
      (stretch-set a c n (next i) j size (omega arith) (omega arith) (omega arith))
