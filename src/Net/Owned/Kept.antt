-- ===== src/Net/Owned/Kept.antt =====
-- Any sequence of calls of bridge/source/socket_impl.c keeps the descriptors in their slots.
use libmobile_atmega.Prelude.{
  ℕ, ◌+◌, ◌≤◌, ◌≡◌, ◌==◌, inl, inr, refl, arith, Bool, false, Option, none, some, List, [], ◌∷◌,
  length, if◌then◌else◌,
}
use libmobile_atmega.Net.Os.{Os}
use libmobile_atmega.Net.State.{Net, holders}
use libmobile_atmega.Net.Impl.{close_all, socket_impl_stop, socket_impl_accept}
use libmobile_atmega.Net.Owned.{IsOs, opened}
use libmobile_atmega.Net.Owned.Each.{carry_out-Owns}
use libmobile_atmega.Net.Owned.Run.{
  Call, opens, closes, connects, listens, accepts, sends, receives, occurs, accept_calls, refusals,
  refused, failed_accepts, carry_out, run, IsOwned, Owns,
}

module _ {W : Type 0} (os : Os W) (laws : IsOs os) where
  -- `socket_impl_stop` closes what the slots have, and nothing else.
  close_all-is_open :
      (l : List (Option ℕ)) (w : W) (k : ℕ)
      → laws.is_open (close_all os l w) k ≡ (if holders l k == 0 then laws.is_open w k else false)
  unfolding close_all
  close_all-is_open [] w k = refl
  close_all-is_open (none ∷ l) w k = ground (arith, close_all-is_open l w k)
  close_all-is_open (some fd ∷ l) w k =
      ground (arith, close_all-is_open l (os.close fd w) k, laws.close fd w k)

  pub stop-opened :
      (lost : List ℕ) (s : Net W) (k : ℕ)
      → IsOwned os laws lost s
      → opened laws (socket_impl_stop os s).os k ≡ occurs lost k
  unfolding socket_impl_stop
  stop-opened lost s k owned = ground (arith, close_all-is_open s.sockets s.os k, owned k)

  -- What holds after calls that have all returned: the descriptors are owned but for `more` that
  -- are lost at most, and `socket_impl_stop` closes all but the lost ones.
  abbrev pub Keeps : ℕ → List ℕ → Net W → Type 0
  Keeps more lost s =
      (lost' : List ℕ) × IsOwned os laws lost' s
      × (length lost' ≤ length lost + more)
      × ((k : ℕ) → opened laws (socket_impl_stop os s).os k ≡ occurs lost' k)

  -- If the open descriptors are those in the slots and those in `lost`, each in one place, then
  -- after any sequence of calls that all return, on a system that keeps the laws of its calls on
  -- descriptors, they are those in the slots and those in a list
  -- `lost'`, which is longer than `lost` by at most the number of calls of `socket_impl_accept` in it
  -- that returned false; and `socket_impl_stop` then leaves exactly those of `lost'` open. So no
  -- call of another function loses a descriptor, on any path, nor does a call of
  -- `socket_impl_accept` that returns true, and none closes one that a slot still has.
  pub run-IsOwned :
      (cs : List Call) (lost : List ℕ) (s s' : Net W)
      → IsOwned os laws lost s
      → run os cs s ≡ some s'
      → Keeps (failed_accepts os cs s) lost s'
  unfolding run failed_accepts
  run-IsOwned [] lost s s' owned e =
      let same : s ≡ s' = cc e in
      let owned' : IsOwned os laws lost s' = λ k. rw same at owned k in
      (lost, owned', omega arith, λ k. stop-opened lost s' k owned')
  run-IsOwned (c ∷ cs) lost s s' owned e =
      go (carry_out os c s) (carry_out-Owns os laws c lost s owned) e
        (λ lost₁ s₁. run-IsOwned cs lost₁ s₁ s')
    where
      go :
          (r : Option (Net W))
          → Owns os laws (refused os c s) lost r
          → elim r [ none ↦ none | some s₁ ↦ run os cs s₁ ] ≡ some s'
          → ((lost₁ : List ℕ) (s₁ : Net W)
              → IsOwned os laws lost₁ s₁
              → run os cs s₁ ≡ some s'
              → Keeps (failed_accepts os cs s₁) lost₁ s')
          → Keeps (refused os c s + elim r [ none ↦ 0 | some s₁ ↦ failed_accepts os cs s₁ ]) lost s'
      go none h e rest = absurd (ground (arith, e))
      go (some s₁) (inl h) e rest =
          let (lost', owned', few, stopped) = rest lost s₁ h e in
          (lost', owned', omega (arith, few), stopped)
      go (some s₁) (inr (fd, one, h)) e rest =
          let (lost', owned', few, stopped) = rest (fd ∷ lost) s₁ h e in
          (lost', owned', omega (arith, few, one), stopped)

  failed_le_calls : (cs : List Call) (s : Net W) → failed_accepts os cs s ≤ accept_calls cs
  unfolding failed_accepts
  failed_le_calls [] s = omega arith
  failed_le_calls (c ∷ cs) s = go (carry_out os c s) (λ s₁. failed_le_calls cs s₁)
    where
      one : (r : Option (Bool × Net W)) → refusals os r ≤ 1
      one r = ground arith

      here : (c : Call) (n : ℕ) → n ≤ accept_calls cs → refused os c s + n ≤ accept_calls (c ∷ cs)
      here (accepts conn) n h = omega (arith, h, one (socket_impl_accept os conn s))
      here (opens conn type addrtype bindport) n h = omega arith
      here (closes conn) n h = omega arith
      here (connects conn addr) n h = omega arith
      here (listens conn) n h = omega arith
      here (sends conn bytes size addr) n h = omega arith
      here (receives conn buffer addr) n h = omega arith

      go :
          (r : Option (Net W))
          → ((s₁ : Net W) → failed_accepts os cs s₁ ≤ accept_calls cs)
          → refused os c s + elim r [ none ↦ 0 | some s₁ ↦ failed_accepts os cs s₁ ]
            ≤ accept_calls (c ∷ cs)
      go none h = here c 0 (omega arith)
      go (some s₁) h = here c (failed_accepts os cs s₁) (h s₁)

  -- The same, with all calls of `socket_impl_accept` counted
  pub run-Keeps :
      (cs : List Call) (lost : List ℕ) (s s' : Net W)
      → IsOwned os laws lost s
      → run os cs s ≡ some s'
      → Keeps (accept_calls cs) lost s'
  run-Keeps cs lost s s' owned e =
      let (lost', owned', few, stopped) = run-IsOwned cs lost s s' owned e in
      (lost', owned', omega (arith, few, failed_le_calls cs s), stopped)
