-- ===== src/Device/Handshake.antt =====
-- `do_handshake` of atmega328p/source/gbridge.c on a whole sequence of bytes, against a search for
-- the handshake at every position.
use native.Mathlib.Decide.{ℕ_discrete, dec_lt}
use libmobile_atmega.Prelude.{
  ℕ, ◌+◌, ◌<◌, ◌≡◌, ◌≢◌, refl, ap, ap₂, subst, get_or, get_elem?-eq-get_or, sym, ◌∙◌, arith, ◌==◌,
  true, false, Option, none, some, List, [], ◌∷◌, ◌++◌, take, get_elem?, if◌then◌else◌,
}
use libmobile_atmega.Wire.{handshake}
use libmobile_atmega.Wire.Search.{find_handshake, find_mismatch, find_prefix, take_next, find_found}
use libmobile_atmega.Device.State.{Device}
use libmobile_atmega.Device.Receive.{match_byte, do_handshake}

-- `do_handshake` called after each byte, until it reports a handshake: the bytes behind it, and the
-- state
pub listen : List ℕ → Device → Option (Option (List ℕ) × Device)
listen [] s = some (none, s)
listen (c ∷ xs) s = elim (do_handshake (record s { rx = c ∷ [] })) [
  | none ↦ none
  | some (true, s') ↦ some (some xs, s')
  | some (false, s') ↦ listen xs s'
]

module _ (c : ℕ) (s : Device) (in_range : s.handshake_progress < 4) where
  match_ne :
      (e : ℕ)
      → get_elem? handshake s.handshake_progress ≡ some e
      → e ≢ c
      → do_handshake (record s { rx = c ∷ [] })
        ≡ some (false, record s { rx = []; handshake_progress = if c == 0x99 then 1 else 0 })
  unfolding do_handshake match_byte
  match_ne e g ne = rw (g, do_handshake, match_byte) (ground arith)

  match_more :
      get_elem? handshake s.handshake_progress ≡ some c
      → s.handshake_progress < 3
      → do_handshake (record s { rx = c ∷ [] })
        ≡ some (false, record s { rx = []; handshake_progress = s.handshake_progress + 1 })
  unfolding do_handshake match_byte
  match_more g more = rw (g, do_handshake, match_byte) (ground arith)

  match_last :
      get_elem? handshake s.handshake_progress ≡ some c
      → s.handshake_progress ≡ 3
      → do_handshake (record s { rx = c ∷ [] })
        ≡ some (true, record s { rx = []; handshake_progress = 0; tx = s.tx ++ handshake })
  unfolding do_handshake match_byte
  match_last g last = ground arith

-- The bytes written once the search has ended
abbrev pub answered : Option (List ℕ) → List ℕ → List ℕ
answered none tx = tx
answered (some rest) tx = tx ++ handshake

abbrev Finds : List ℕ → ℕ → Device → Type 0
Finds xs p s =
    (s' : Device) × (listen xs s ≡ some (find_handshake (take p handshake ++ xs), s'))
    × (s'.tx ≡ answered (find_handshake (take p handshake ++ xs)) s.tx)

-- From one byte to the rest of the sequence
Finds-step :
    (c : ℕ) (xs : List ℕ) (s s₁ : Device)
    → do_handshake (record s { rx = c ∷ [] }) ≡ some (false, s₁)
    → s₁.tx ≡ s.tx
    → find_handshake (take s.handshake_progress handshake ++ (c ∷ xs))
      ≡ find_handshake (take s₁.handshake_progress handshake ++ xs)
    → Finds xs s₁.handshake_progress s₁
    → Finds (c ∷ xs) s.handshake_progress s
unfolding listen
Finds-step c xs s s₁ e same found (s', ran, tx) = (
  s',
  rw (e, listen) (ran ∙ ap (λ r. some (r, s')) (sym found)),
  tx ∙ ap₂ answered (sym found) same,
)

Finds-last :
    (c : ℕ) (xs : List ℕ) (s : Device)
    → s.handshake_progress < 4
    → get_elem? handshake s.handshake_progress ≡ some c
    → s.handshake_progress ≡ 3
    → Finds (c ∷ xs) s.handshake_progress s
unfolding listen
Finds-last c xs s h g last = (
  record s { rx = []; handshake_progress = 0; tx = s.tx ++ handshake },
  rw (match_last c s h g last, listen)
      (ap (λ r. some (r, record s { rx = []; handshake_progress = 0; tx = s.tx ++ handshake }))
        (sym found)),
  ap (λ r. answered r s.tx) (sym found),
)
  where
    four : s.handshake_progress + 1 ≡ 4
    four = omega arith

    found : find_handshake (take s.handshake_progress handshake ++ (c ∷ xs)) ≡ some xs
    found =
        ap find_handshake (take_next s.handshake_progress c xs h g)
        ∙ ap (λ n. find_handshake (take n handshake ++ xs)) four
        ∙ find_found xs

listen_lem : (xs : List ℕ) (s : Device) → s.handshake_progress < 4 → Finds xs s.handshake_progress s
listen_lem [] s h =
    let nothing = find_prefix s.handshake_progress h in (s, unfold listen in rw nothing, rw nothing)
listen_lem (c ∷ xs) s h =
    let e = get_or handshake s.handshake_progress 0 in
    let g : get_elem? handshake s.handshake_progress ≡ some e =
      get_elem?-eq-get_or handshake s.handshake_progress 0 h in
    elim (ℕ_discrete e c) [
      | no ne ↦
          Finds-step c xs s _ (match_ne c s h e g ne) refl
            (find_mismatch s.handshake_progress c e xs h g ne)
            (listen_lem xs (record s { rx = []; handshake_progress = if c == 0x99 then 1 else 0 })
              (ground arith))
      | yes same ↦
          let g' = g ∙ ap some same in
          elim (dec_lt s.handshake_progress 3) [
            | yes more ↦
                Finds-step c xs s _ (match_more c s h g' more) refl
                  (ap find_handshake (take_next s.handshake_progress c xs h g'))
                  (listen_lem xs
                    (record s { rx = []; handshake_progress = s.handshake_progress + 1 })
                    (omega arith))
            | no last ↦ Finds-last c xs s h g' (omega arith)
          ]
    ]

-- However the bytes before it look, and partial handshakes among them, `do_handshake` finds the
-- first occurrence of the handshake in a sequence of bytes and no other, from the start of the
-- connection on: it reports it after its last byte, and exactly then it has answered with the
-- handshake, once. It reports nothing where the sequence holds no handshake.
pub listen-find_handshake :
    (xs : List ℕ) (s : Device)
    → s.handshake_progress ≡ 0
    → (s' : Device) × (listen xs s ≡ some (find_handshake xs, s'))
      × (s'.tx ≡ answered (find_handshake xs) s.tx)
listen-find_handshake xs s start = subst (λ p. Finds xs p s) start (listen_lem xs s (omega arith))
