-- ===== src/Host/Shake.antt =====
-- The computer's side of the handshake: `gbridge_handshake` of bridge/source/gbridge.c, against the
-- search for the handshake at every position.
use native.Mathlib.Decide.{ℕ_discrete, dec_lt}
use libmobile_atmega.Prelude.{
  ℕ, zero, suc, ◌+◌, ◌<◌, ◌≡◌, ◌≢◌, refl, ap, sym, ◌∙◌, arith, ◌==◌, Bool, true, false, Option,
  none, some, List, [], ◌∷◌, ◌++◌, length, take, get_elem?, get_or, get_elem?-eq-get_or,
  if◌then◌else◌,
}
use libmobile_atmega.Wire.{handshake}
use libmobile_atmega.Wire.Search.{find_handshake, find_mismatch, find_prefix, take_next, find_found}
use libmobile_atmega.Host.Port.{SerialPort, IsLine, bytes}
use libmobile_atmega.Host.State.{Host}
use libmobile_atmega.Host.Receive.{gbridge_timeout_ms, write}
use libmobile_atmega.Host.Loop.{handshake_byte, handshake_loop, gbridge_handshake}
use libmobile_atmega.Host.Line.{read_lem}

module _ {P : Type 0} where
  module _ (c : ℕ) (s : Host P) (in_range : s.handshake_progress < 4) where
    byte_ne :
        (e : ℕ)
        → get_elem? handshake s.handshake_progress ≡ some e
        → e ≢ c
        → handshake_byte c s
          ≡ some (false, record s { handshake_progress = if c == 0x99 then 1 else 0 })
    unfolding handshake_byte
    byte_ne e g ne = rw (g, handshake_byte) (ground arith)

    byte_more :
        get_elem? handshake s.handshake_progress ≡ some c
        → s.handshake_progress < 3
        → handshake_byte c s
          ≡ some (false, record s { handshake_progress = s.handshake_progress + 1 })
    unfolding handshake_byte
    byte_more g more = rw (g, handshake_byte) (ground arith)

    byte_last :
        get_elem? handshake s.handshake_progress ≡ some c
        → s.handshake_progress ≡ 3
        → handshake_byte c s ≡ some (true, record s { handshake_progress = 0; connected = true })
    unfolding handshake_byte
    byte_last g last = rw (g, handshake_byte) (ground arith)

module _ {P : Type 0} (port : SerialPort P) (line : IsLine port) where
  -- How the loop has ended, by what there was to find. Nothing is written in it.
  pub data Heard (sent : List ℕ) (o : Option (Bool × Host P)) : Option (List ℕ) → Type 0 where
    unanswered :
        (s : Host P)
        → o ≡ some (false, s)
        → s.connected ≡ false
        → s.handshake_progress < 4
        → line.written s.port ≡ sent
        → Heard sent o none
    answered :
        (rest : List ℕ) (s : Host P)
        → o ≡ some (true, s)
        → s.connected ≡ true
        → s.handshake_progress ≡ 0
        → line.written s.port ≡ sent
        → line.pending s.port ≡ rest
        → Heard sent o (some rest)

  -- A byte that does not complete the handshake
  loop_goes_on :
      (fuel c : ℕ) (s s₁ : Host P) (p : P)
      → port.sp_blocking_read 1 gbridge_timeout_ms s.port ≡ (bytes (c ∷ []), p)
      → handshake_byte c (record s { port = p }) ≡ some (false, s₁)
      → handshake_loop port (suc fuel) s ≡ handshake_loop port fuel s₁
  unfolding handshake_loop
  loop_goes_on fuel c s s₁ p reads e = ground (arith, reads, e)

  loop_ends :
      (fuel c : ℕ) (s s₁ : Host P) (p : P)
      → port.sp_blocking_read 1 gbridge_timeout_ms s.port ≡ (bytes (c ∷ []), p)
      → handshake_byte c (record s { port = p }) ≡ some (true, s₁)
      → handshake_loop port (suc fuel) s ≡ some (true, s₁)
  unfolding handshake_loop
  loop_ends fuel c s s₁ p reads e = ground (arith, reads, e)

  loop_times_out :
      (fuel : ℕ) (s : Host P) (p : P)
      → port.sp_blocking_read 1 gbridge_timeout_ms s.port ≡ (bytes [], p)
      → handshake_loop port (suc fuel) s ≡ some (false, record s { port = p })
  unfolding handshake_loop
  loop_times_out fuel s p reads = ground (arith, reads)

  Heard-eq :
      (sent sent' : List ℕ) (o o' : Option (Bool × Host P)) (found found' : Option (List ℕ))
      → sent ≡ sent'
      → o ≡ o'
      → found ≡ found'
      → Heard sent o found
      → Heard sent' o' found'
  Heard-eq sent sent' o o' found found' e g f h = rw (sym e, sym g, sym f) h

  loop-Heard :
      (fuel : ℕ) (xs : List ℕ) (s : Host P)
      → s.handshake_progress < 4
      → s.connected ≡ false
      → length xs < fuel
      → line.pending s.port ≡ xs
      → Heard
          (line.written s.port)
          (handshake_loop port fuel s)
          (find_handshake (take s.handshake_progress handshake ++ xs))
  loop-Heard zero xs s h c n e = absurd (omega arith)
  loop-Heard (suc fuel) [] s h c n e =
      let (p, reads, left, same) =
        line.read_timeout 1 gbridge_timeout_ms s.port (omega (arith, ap length e)) in
      let reads' = reads ∙ ap (λ l. (bytes l, p)) e in
      rw (find_prefix s.handshake_progress h)
        (unanswered (record s { port = p }) (loop_times_out fuel s p reads') c h same)
  loop-Heard (suc fuel) (x ∷ xs) s h c n e =
      let (p, reads, left, same) =
        read_lem port line 1 gbridge_timeout_ms (x ∷ []) xs s.port refl e in
      let sₚ = record s { port = p } in
      let k = get_or handshake s.handshake_progress 0 in
      let g : get_elem? handshake s.handshake_progress ≡ some k =
        get_elem?-eq-get_or handshake s.handshake_progress 0 h in
      elim (ℕ_discrete k x) [
        | no ne ↦
            let s₁ = record sₚ { handshake_progress = if x == 0x99 then 1 else 0 } in
            Heard-eq _ _ _ _ _ _ same
              (sym (loop_goes_on fuel x s s₁ p reads (byte_ne x sₚ h k g ne)))
              (sym (find_mismatch s.handshake_progress x k xs h g ne))
              (loop-Heard fuel xs s₁ (ground arith) c (omega arith) left)
        | yes eq ↦
            let g' = g ∙ ap some eq in
            elim (dec_lt s.handshake_progress 3) [
              | yes more ↦
                  let s₁ = record sₚ { handshake_progress = s.handshake_progress + 1 } in
                  Heard-eq _ _ _ _ _ _ same
                    (sym (loop_goes_on fuel x s s₁ p reads (byte_more x sₚ h g' more)))
                    (ap find_handshake (sym (take_next s.handshake_progress x xs h g')))
                    (loop-Heard fuel xs s₁ (omega arith) c (omega arith) left)
              | no last ↦
                  let s₁ = record sₚ { handshake_progress = 0; connected = true } in
                  let found : some xs
                      ≡ find_handshake (take s.handshake_progress handshake ++ (x ∷ xs)) =
                    sym (
                      ap find_handshake (take_next s.handshake_progress x xs h g')
                      ∙ ap (λ m. find_handshake (take m handshake ++ xs)) (four (omega arith))
                      ∙ find_found xs) in
                  Heard-eq _ _ _ _ _ _ refl refl found (
                    answered xs s₁
                      (loop_ends fuel x s s₁ p reads (byte_last x sₚ h g' (omega arith))) refl refl
                      same left)
            ]
      ]
    where
      four : s.handshake_progress ≡ 3 → s.handshake_progress + 1 ≡ 4
      four q = omega arith

  -- `gbridge_handshake` of a computer that is not connected and has seen no part of a handshake
  -- writes the handshake, and finds the first occurrence of the handshake in what arrives, whatever
  -- comes before it: it returns true and is connected exactly then, and has left what follows on
  -- the line. If there is none it returns false, once no more bytes come. One round for each byte
  -- and one more are enough.
  pub gbridge_handshake-Heard :
      (fuel : ℕ) (s : Host P)
      → s.connected ≡ false
      → s.handshake_progress ≡ 0
      → length (line.pending s.port) < fuel
      → Heard
          (line.written s.port ++ handshake)
          (gbridge_handshake port fuel s)
          (find_handshake (line.pending s.port))
  unfolding gbridge_handshake write
  gbridge_handshake-Heard fuel s c zero_progress n =
      let p = port.sp_blocking_write handshake 0 s.port in
      let same = line.write_pending handshake 0 s.port in
      let s₁ = record s { port = p } in
      Heard-eq _ _ _ _ _ _ (line.write_written handshake 0 s.port) (ground (arith, c))
        (ap (λ k. find_handshake (take k handshake ++ line.pending s.port)) zero_progress)
        (loop-Heard fuel (line.pending s.port) s₁ (omega arith) c n same)
