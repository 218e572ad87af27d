-- ===== src/Device/Fill.antt =====
-- The loops of gbridge.c that copy received bytes into a buffer, against the list operations that
-- they amount to.
use native.Mathlib.Nat.{mod-eq_of_lt}
use libmobile_atmega.Prelude.{
  ℕ, zero, suc, ◌+◌, ◌%◌, ◌≤◌, ◌<◌, min, max, ◌≡◌, refl, sym, ◌∙◌, arith, leb, true, false, some,
  List, [], ◌∷◌, ◌++◌, append_assoc, append-nil, length, take, drop, set, store-set, length-set,
  take-set, le→leb, lt→leb,
}
use libmobile_atmega.Device.Receive.{Filled, fill}

-- The bytes that the loop wants: a length of 0 asks for one all the same, since the test stands
-- behind the write.
abbrev pub wanted : ℕ → ℕ
wanted len = max len 1

-- What the loop leaves where `n` bytes are missing: it has taken those, or all there are.
pub record IsFilled (n : ℕ) (buffer : List ℕ) (cur : ℕ) (rx : List ℕ) (f : Filled) : Type 0 where
  pub size : length f.buffer ≡ length buffer
  pub count : f.cur ≡ cur + min n (length rx)
  pub bytes : take f.cur f.buffer ≡ take cur buffer ++ take n rx
  pub rest : f.rest ≡ drop n rx
  pub full : f.full ≡ leb n (length rx)

-- The last byte
fill_last :
    (modulus len : ℕ) (buffer : List ℕ) (cur c : ℕ) (rx : List ℕ)
    → wanted len ≡ cur + 1
    → wanted len ≤ length buffer
    → wanted len < modulus
    → (f : Filled) × (fill modulus len buffer cur (c ∷ rx) ≡ some f)
      × IsFilled 1 buffer cur (c ∷ rx) f
unfolding fill
fill_last modulus len buffer cur c rx hk hb hm = (
  record { buffer = set buffer cur c; cur = (cur + 1) % modulus; rest = rx; full = true },
  rw (
    store-set buffer cur c (omega arith),
    le→leb len ((cur + 1) % modulus) (omega (arith, step)),
    fill,
  ),
  record {
    size = length-set buffer cur c;
    count = omega (arith, step);
    bytes = rw step (take-set buffer cur c (omega arith));
    rest = refl;
    full = ground arith;
  },
)
  where
    step : (cur + 1) % modulus ≡ suc cur
    step = mod-eq_of_lt (omega arith) ∙ omega arith

-- A byte that is not the last
fill_next :
    (modulus len : ℕ) (buffer : List ℕ) (cur c : ℕ) (rx : List ℕ) (n : ℕ)
    → wanted len ≡ cur + suc (suc n)
    → wanted len ≤ length buffer
    → wanted len < modulus
    → (f : Filled) × (fill modulus len (set buffer cur c) (suc cur) rx ≡ some f)
      × IsFilled (suc n) (set buffer cur c) (suc cur) rx f
    → (f : Filled) × (fill modulus len buffer cur (c ∷ rx) ≡ some f)
      × IsFilled (suc (suc n)) buffer cur (c ∷ rx) f
unfolding fill
fill_next modulus len buffer cur c rx n hk hb hm (f, e, v) = (
  f,
  rw (store-set buffer cur c (omega arith), step, lt→leb len (suc cur) (omega arith), fill) e,
  record {
    size = v.size ∙ length-set buffer cur c;
    count = omega (arith, v.count);
    bytes =
        v.bytes
        ∙ rw (take-set buffer cur c (omega arith))
            (append_assoc (take cur buffer) (c ∷ []) (take (suc n) rx));
    rest = v.rest;
    full = ground (arith, v.full);
  },
)
  where
    step : (cur + 1) % modulus ≡ suc cur
    step = mod-eq_of_lt (omega arith) ∙ omega arith

-- From below the wanted number of bytes the loop stays inside a buffer that has room for them.
pub fill_lem :
    (modulus len : ℕ) (buffer : List ℕ) (cur : ℕ) (rx : List ℕ) (n : ℕ)
    → wanted len ≡ cur + suc n
    → wanted len ≤ length buffer
    → wanted len < modulus
    → (f : Filled) × (fill modulus len buffer cur rx ≡ some f) × IsFilled (suc n) buffer cur rx f
fill_lem modulus len buffer cur [] n hk hb hm = (
  record { buffer = buffer; cur = cur; rest = []; full = false },
  unfold fill in refl,
  record {
    size = refl;
    count = omega arith;
    bytes = sym (append-nil (take cur buffer));
    rest = refl;
    full = ground arith;
  },
)
fill_lem modulus len buffer cur (c ∷ rx) zero hk hb hm =
    fill_last modulus len buffer cur c rx (omega arith) hb hm
fill_lem modulus len buffer cur (c ∷ rx) (suc n) hk hb hm =
    fill_next modulus len buffer cur c rx n hk hb hm (
      fill_lem modulus len (set buffer cur c) (suc cur) rx n (omega arith)
        (omega (arith, length-set buffer cur c)) hm)
