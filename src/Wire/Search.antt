-- ===== src/Wire/Search.antt =====
-- The search for the handshake in a sequence of bytes, at every position: what both programs are
-- to find as the bytes come in.
use libmobile_atmega.Prelude.{
  ℕ, zero, suc, ◌+◌, ◌<◌, ◌≡◌, ◌≢◌, refl, arith, ◌==◌, Option, none, some, List, [], ◌∷◌, ◌++◌,
  take, get_elem?, if◌then◌else◌,
}
use libmobile_atmega.Wire.{handshake}

-- The handshake anywhere in the bytes: what follows its first occurrence
abbrev pub strip : List ℕ → List ℕ → Option (List ℕ)
strip [] xs = some xs
strip (h ∷ hs) [] = none
strip (h ∷ hs) (x ∷ xs) = if h == x then strip hs xs else none

unfoldable pub find_handshake : List ℕ → Option (List ℕ)
find_handshake [] = none
find_handshake (x ∷ xs) = elim (strip handshake (x ∷ xs)) [
  | some rest ↦ some rest
  | none ↦ find_handshake xs
]

-- What is left to find after a byte that does not go on from the progress `p`
pub find_mismatch :
    (p c e : ℕ) (xs : List ℕ)
    → p < 4
    → get_elem? handshake p ≡ some e
    → e ≢ c
    → find_handshake (take p handshake ++ (c ∷ xs))
      ≡ find_handshake (take (if c == 0x99 then 1 else 0) handshake ++ xs)
unfolding find_handshake
find_mismatch zero c e xs h g ne = ground arith
find_mismatch (suc zero) c e xs h g ne = ground arith
find_mismatch (suc (suc zero)) c e xs h g ne = ground arith
find_mismatch (suc (suc (suc zero))) c e xs h g ne = ground arith
find_mismatch (suc (suc (suc (suc p)))) c e xs h g ne = absurd (omega arith)

pub find_prefix : (p : ℕ) → p < 4 → find_handshake (take p handshake ++ []) ≡ none
unfolding find_handshake
find_prefix zero h = refl
find_prefix (suc zero) h = refl
find_prefix (suc (suc zero)) h = refl
find_prefix (suc (suc (suc zero))) h = refl
find_prefix (suc (suc (suc (suc p)))) h = absurd (omega arith)

pub take_next :
    (p e : ℕ) (xs : List ℕ)
    → p < 4
    → get_elem? handshake p ≡ some e
    → take p handshake ++ (e ∷ xs) ≡ take (p + 1) handshake ++ xs
take_next zero e xs h g = ground arith
take_next (suc zero) e xs h g = ground arith
take_next (suc (suc zero)) e xs h g = ground arith
take_next (suc (suc (suc zero))) e xs h g = ground arith
take_next (suc (suc (suc (suc p)))) e xs h g = absurd (omega arith)

pub find_found : (xs : List ℕ) → find_handshake (handshake ++ xs) ≡ some xs
unfolding find_handshake
find_found xs = refl
