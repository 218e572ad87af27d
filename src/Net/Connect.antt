-- ===== src/Net/Connect.antt =====
-- `socket_connect` of bridge/source/socket.c: the candidates that `getaddrinfo` finds, one by one.
-- Each descriptor that cannot be connected is closed.
use libmobile_atmega.Prelude.{
  ℕ, ◌≡◌, refl, ◌∙◌, arith, ◌==◌, true, false, Option, none, some, List, [], ◌∷◌, if◌then◌else◌,
}
use libmobile_atmega.Net.Os.{Os, Domain, SockType, Sockaddr, Errno}
use libmobile_atmega.Net.Owned.{Same, IsOs}

-- `struct addrinfo`
pub record Candidate : Type 0 where
  pub ai_family : Domain
  pub ai_socktype : SockType
  pub ai_addr : Sockaddr

module _ {W : Type 0} (os : Os W) where
  -- The loop: the descriptor of the first candidate that can be connected
  unfoldable pub try_candidates : List Candidate → W → Option ℕ × W
  try_candidates [] w = (none, w)
  try_candidates (info ∷ rest) w =
      let (sock, w₁) = os.socket info.ai_family info.ai_socktype w in
      elim sock [
        | none ↦ try_candidates rest w₁
        | some fd ↦
            let (err, w₂) = os.connect fd (some info.ai_addr) w₁ in
            elim err [ none ↦ (some fd, w₂) | some e ↦ try_candidates rest (os.close fd w₂) ]
      ]

  -- `getaddrinfo` is a parameter; where it fails, there are no candidates.
  unfoldable pub socket_connect : (W → Option (List Candidate) × W) → W → Option ℕ × W
  socket_connect getaddrinfo w =
      let (result, w₁) = getaddrinfo w in
      elim result [ none ↦ (none, w₁) | some infos ↦ try_candidates infos w₁ ]

module _ {W : Type 0} (os : Os W) (laws : IsOs os) where
  -- No descriptor is left open but the one that is returned, which is new.
  abbrev pub OpensOnly : W → Option ℕ × W → Type 0
  OpensOnly w (none, w') = Same laws.is_open w w'
  OpensOnly w (some fd, w') =
      (laws.is_open w fd ≡ false)
      × ((k : ℕ) → laws.is_open w' k ≡ (if k == fd then true else laws.is_open w k))

  Same-OpensOnly :
      (w w₁ : W) (r : Option ℕ × W) → Same laws.is_open w w₁ → OpensOnly w₁ r → OpensOnly w r
  Same-OpensOnly w w₁ (none, w') same h = λ k. h k ∙ same k
  Same-OpensOnly w w₁ (some fd, w') same (fresh, opens) =
      (ground (arith, fresh, same fd), λ k. ground (arith, opens k, same k))

  try_candidates-OpensOnly :
      (infos : List Candidate) (w : W) → OpensOnly w (try_candidates os infos w)
  unfolding try_candidates
  try_candidates-OpensOnly [] w = λ k. refl
  try_candidates-OpensOnly (info ∷ rest) w =
      go (os.socket info.ai_family info.ai_socktype w)
        (λ e. laws.socket_failed info.ai_family info.ai_socktype w e)
        (λ fd e. laws.socket_new info.ai_family info.ai_socktype w fd e)
        (λ w'. try_candidates-OpensOnly rest w')
    where
      tried :
          (fd : ℕ) (r : Option Errno × W)
          → (laws.is_open w fd ≡ false)
          → ((k : ℕ) → laws.is_open r.1 k ≡ (if k == fd then true else laws.is_open w k))
          → ((w' : W) → OpensOnly w' (try_candidates os rest w'))
          → OpensOnly w (elim r.0 [
            | none ↦ (some fd, r.1)
            | some e ↦ try_candidates os rest (os.close fd r.1)
          ])
      tried fd (none, w₂) fresh opens others = (fresh, opens)
      tried fd (some e, w₂) fresh opens others =
          Same-OpensOnly w (os.close fd w₂) _
            (λ k. ground (arith, laws.close fd w₂ k, opens k, fresh)) (others (os.close fd w₂))

      go :
          (r : Option ℕ × W)
          → (r.0 ≡ none → Same laws.is_open w r.1)
          → ((fd : ℕ)
              → r.0 ≡ some fd
              → (laws.is_open w fd ≡ false)
                × ((k : ℕ) → laws.is_open r.1 k ≡ (if k == fd then true else laws.is_open w k)))
          → ((w' : W) → OpensOnly w' (try_candidates os rest w'))
          → OpensOnly w (elim r.0 [
            | none ↦ try_candidates os rest r.1
            | some fd ↦ elim (os.connect fd (some info.ai_addr) r.1).0 [
              | none ↦ (some fd, (os.connect fd (some info.ai_addr) r.1).1)
              | some e ↦
                  try_candidates os rest (os.close fd (os.connect fd (some info.ai_addr) r.1).1)
            ]
          ])
      go (none, w₁) failed new others = Same-OpensOnly w w₁ _ (failed refl) (others w₁)
      go (some fd, w₁) failed new others =
          let (fresh, opens) = new fd refl in
          tried fd (os.connect fd (some info.ai_addr) w₁) fresh
            (λ k. laws.connect fd (some info.ai_addr) w₁ k ∙ opens k) others

  -- If looking up the name opens nothing, then `socket_connect` leaves no descriptor open but the
  -- one that it returns, which was not open before, and none if it returns -1: every candidate that
  -- could not be connected has been closed.
  pub socket_connect-OpensOnly :
      (getaddrinfo : W → Option (List Candidate) × W) (w : W)
      → Same laws.is_open w (getaddrinfo w).1
      → OpensOnly w (socket_connect os getaddrinfo w)
  unfolding socket_connect
  socket_connect-OpensOnly getaddrinfo w same = go (getaddrinfo w) same
    where
      go :
          (r : Option (List Candidate) × W)
          → Same laws.is_open w r.1
          → OpensOnly w (elim r.0 [ none ↦ (none, r.1) | some infos ↦ try_candidates os infos r.1 ])
      go (none, w₁) h = h
      go (some infos, w₁) h = Same-OpensOnly w w₁ _ h (try_candidates-OpensOnly infos w₁)
