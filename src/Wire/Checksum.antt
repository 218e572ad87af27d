-- ===== src/Wire/Checksum.antt =====
-- The checksum loops against the sum that they compute, and words against their two bytes.
use libmobile_atmega.Prelude.{
  ℕ, zero, suc, ◌+◌, ◌*◌, ◌/◌, ◌%◌, ◌≤◌, ◌<◌, ◌≡◌, refl, arith, some, List, [], ◌∷◌, ◌++◌, length,
  take, bit_or, bit_or-shift, ◌∙◌, ap,
}
use libmobile_atmega.Wire.{word, byte, checksum_loop}

abbrev pub sum : List ℕ → ℕ
sum [] = 0
sum (x ∷ xs) = x + sum xs

-- The checksum that a packet with this payload carries
unfoldable pub checksum : List ℕ → ℕ
checksum xs = sum xs % 0x1_0000

pub checksum_nil : 0 ≡ checksum []
unfolding checksum
checksum_nil = refl

pub checksum-lt : (xs : List ℕ) → checksum xs < 0x1_0000
unfolding checksum
checksum-lt xs = omega arith

checksum_loop-sum :
    (n : ℕ) (xs : List ℕ) (acc : ℕ)
    → n ≤ length xs
    → acc < 0x1_0000
    → checksum_loop n xs acc ≡ some ((acc + sum (take n xs)) % 0x1_0000)
unfolding checksum_loop
checksum_loop-sum zero xs acc h a = ap some (omega arith)
checksum_loop-sum (suc n) [] acc h a = absurd (omega arith)
checksum_loop-sum (suc n) (x ∷ xs) acc h a =
    checksum_loop-sum n xs ((acc + x) % 0x1_0000) (omega arith) (omega arith)
    ∙ ap some (omega arith)

-- The loop reads inside the array, and its value is the checksum of what it has read.
pub checksum_loop_lem :
    (n : ℕ) (xs : List ℕ) → n ≤ length xs → checksum_loop n xs 0 ≡ some (checksum (take n xs))
unfolding checksum
checksum_loop_lem n xs h = checksum_loop-sum n xs 0 h (omega arith) ∙ ap some (omega arith)

sum-append : (xs ys : List ℕ) → sum (xs ++ ys) ≡ sum xs + sum ys
sum-append [] ys = omega arith
sum-append (x ∷ xs) ys = omega (arith, sum-append xs ys)

-- Continuing from the checksum of a first part gives that of both parts.
pub checksum_loop-append :
    (n : ℕ) (xs ys : List ℕ)
    → n ≤ length ys
    → checksum_loop n ys (checksum xs) ≡ some (checksum (xs ++ take n ys))
unfolding checksum
checksum_loop-append n xs ys h =
    checksum_loop-sum n ys (sum xs % 0x1_0000) h (omega arith)
    ∙ ap some (omega (arith, sum-append xs (take n ys)))

pub word-eq : (hi lo : ℕ) → hi < 256 → lo < 256 → word hi lo ≡ hi * 256 + lo
unfolding word
word-eq hi lo h l = ap (λ (x : ℕ). bit_or x lo) (omega arith) ∙ bit_or-shift hi lo l

-- A word survives being sent as two bytes.
pub word-word_bytes : (x : ℕ) → x < 0x1_0000 → word (byte (x / 256)) (byte x) ≡ x
word-word_bytes x h = word-eq (byte (x / 256)) (byte x) (omega arith) (omega arith) ∙ omega arith
