-- ===== src/Device/Reply/Wait.antt =====
-- `wait_cmd` returns, whatever arrives.
use libmobile_atmega.Prelude.{
  ℕ, ◌<◌, ◌≡◌, ◌≢◌, ◌⊎◌, inl, inr, refl, subst, ◌∙◌, arith, ◌==◌, not, Bool, true, false, some,
  List, [], ◌∷◌,
}
use libmobile_atmega.Wire.{gbridge_timeout_us}
use libmobile_atmega.Wire.Cmd
use libmobile_atmega.Device.State.{Device, gbridge_init, elapsed}
use libmobile_atmega.Device.Loop.{gbridge_loop}
use libmobile_atmega.Device.Send.{Event, arrive, Outcome, returned, wait_while, wait_cmd}
use libmobile_atmega.Device.Inv.{IsValid, gbridge_init-IsValid}
use libmobile_atmega.Device.Safe.{gbridge_loop_total}
use libmobile_atmega.Device.Reply.Keeps.{
  Awaits, AwaitsStill, gbridge_loop-AwaitsStill, gbridge_loop_expired,
}

-- At some round more than the timeout has passed since `t`.
abbrev pub PassesTimeout : ℕ → List Event → Type 0
PassesTimeout t [] = ⊥
PassesTimeout t (e ∷ es) = (gbridge_timeout_us < elapsed e.time t) ⊎ PassesTimeout t es

-- The loop has returned to a valid state that waits for nothing.
abbrev pub Returns : Outcome (Unit {0}) → Type 0
Returns o =
    (s : Device) × (es : List Event) × (o ≡ returned tt s es)
    × IsValid s
    × (s.waiting_cmd ≡ Cmd.none)

arrive-IsValid : (e : Event) (s : Device) → IsValid s → IsValid (arrive e s)
arrive-IsValid e s v = ground arith

module _ (cmd t : ℕ) (ne : cmd ≢ Cmd.none) where
  abbrev still : Device → Bool
  still r = r.waiting_cmd == cmd

  -- Once nothing is waited for the loop returns.
  stops :
      (es : List Event) (s : Device)
      → IsValid s
      → s.waiting_cmd ≡ Cmd.none
      → Returns (wait_while still es s)
  unfolding wait_while
  stops [] s v w = (s, [], ground arith, v, w)
  stops (e ∷ es) s v w = (s, e ∷ es, ground arith, v, w)

  wait_step :
      (e : Event) (es : List Event) (s s' : Device)
      → s.waiting_cmd ≡ cmd
      → gbridge_loop (arrive e s) ≡ some (tt, s')
      → Returns (wait_while still es s')
      → Returns (wait_while still (e ∷ es) s)
  unfolding wait_while
  wait_step e es s s' w ran (r, left, eq, v, n) = (r, left, ground arith, v, n)

  wait_while-Returns :
      (es : List Event) (s : Device)
      → IsValid s
      → Awaits cmd t s
      → PassesTimeout t es
      → Returns (wait_while still es s)
  wait_while-Returns [] s v h late = absurd late
  wait_while-Returns (e ∷ es) s v h (inl late) =
      let s' = gbridge_init (arrive e s) in
      wait_step e es s s' h.1 (gbridge_loop_expired cmd t (arrive e s) h ne late)
        (stops es s' (gbridge_init-IsValid (arrive-IsValid e s v)) (unfold gbridge_init in refl))
  wait_while-Returns (e ∷ es) s v h (inr late) =
      let (s', ran, v') = gbridge_loop_total (arrive e s) (arrive-IsValid e s v) in
      let led : AwaitsStill cmd t (some (tt {0}, s')) =
        subst (AwaitsStill cmd t) ran (gbridge_loop-AwaitsStill cmd t (arrive e s) h) in
      wait_step e es s s' h.1 ran (elim led [
        | inl ended ↦ stops es s' v' ended
        | inr on ↦ wait_while-Returns es s' v' on late
      ])

-- A loop whose test fails at once returns at once.
pub wait_while_done :
    (test : Device → Bool) (es : List Event) (s : Device)
    → test s ≡ false
    → wait_while test es s ≡ returned tt s es
unfolding wait_while
wait_while_done test [] s h = ground arith
wait_while_done test (e ∷ es) s h = ground arith

pub wait_cmd-wait_while :
    (cmd : ℕ) (es : List Event) (s : Device)
    → s.connected ≡ true
    → s.waiting_cmd ≡ Cmd.none
    → wait_cmd cmd es s
      ≡ wait_while
          (λ r. r.waiting_cmd == cmd)
          es
          (record s { waiting_cmd = cmd; waiting_cmd_time = s.now })
unfolding wait_cmd
wait_cmd-wait_while cmd es s c w =
    let first : wait_while (λ r. not (r.waiting_cmd == Cmd.none)) es s ≡ returned tt s es =
      wait_while_done (λ r. not (r.waiting_cmd == Cmd.none)) es s (ground arith) in
    ground (arith, first)

-- In a connected adapter that waits for nothing, `wait_cmd` returns once a round comes later than
-- the timeout, or before: whatever bytes arrive, no call in it fails, and it leaves a valid state
-- that waits for nothing.
pub wait_cmd-Returns :
    (cmd : ℕ) (es : List Event) (s : Device)
    → cmd ≢ Cmd.none
    → IsValid s
    → s.connected ≡ true
    → s.waiting_cmd ≡ Cmd.none
    → PassesTimeout s.now es
    → Returns (wait_cmd cmd es s)
wait_cmd-Returns cmd es s ne v c w late =
    let s₁ = record s { waiting_cmd = cmd; waiting_cmd_time = s.now } in
    let (s', left, eq, v', n) =
      wait_while-Returns cmd s.now ne es s₁ (ground (arith, v)) (c, refl, refl) late in
    (s', left, wait_cmd-wait_while cmd es s c w ∙ eq, v', n)
