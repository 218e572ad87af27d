-- ===== src/Serial/Uart/Calls.antt =====
-- What each routine of serial.c does to the queues that the two rings hold.
use libmobile_atmega.Prelude.{
  ℕ, ◌≡◌, refl, Bool, true, false, ◌||◌, ◌&&◌, not, arith, Option, none, some, List, [], ◌∷◌, ◌++◌,
  length, sym, subst, Bool-cases, inl, inr, if◌then◌else◌, append_assoc,
}
use libmobile_atmega.Serial.Ring.{
  SerialBuffer, serial_buffer_isempty, serial_buffer_isfull, serial_buffer_put, serial_available,
}
use libmobile_atmega.Serial.Ring.Inv.{IsValid, contents}
use libmobile_atmega.Serial.Ring.Refine.{put_refines, get_refines, available-length}
use libmobile_atmega.Serial.Uart.{
  Uart, is_ready, serial_transmit, serial_receive, serial_putchar, serial_getchar,
}

pub contents_of_isempty :
    (b : SerialBuffer) → IsValid b → serial_buffer_isempty b ≡ true → contents b ≡ []
unfolding serial_buffer_isempty serial_available
contents_of_isempty b v e = go (contents b) (available-length b v).0
  where
    go : (l : List ℕ) → serial_available b ≡ length l → l ≡ []
    go [] h = refl
    go (x ∷ l) h = absurd (ground arith)

pub isempty_of_cons :
    (b : SerialBuffer) (c : ℕ) (l : List ℕ)
    → IsValid b
    → contents b ≡ c ∷ l
    → serial_buffer_isempty b ≡ false
isempty_of_cons b c l v e = elim (Bool-cases (serial_buffer_isempty b)) [
  | inl h ↦ cc (contents_of_isempty b v h)
  | inr h ↦ h
]

pub isempty-append :
    (b : SerialBuffer) (l : List ℕ) (c : ℕ)
    → IsValid b
    → contents b ≡ l ++ (c ∷ [])
    → serial_buffer_isempty b ≡ false
isempty-append b [] c v e = isempty_of_cons b c [] v e
isempty-append b (x ∷ l) c v e = isempty_of_cons b x (l ++ (c ∷ [])) v e

-- The record of a successful `put`, in its two parts
pub put_inv :
    (b b' : SerialBuffer) (c : ℕ)
    → IsValid b
    → serial_buffer_isfull b ≡ false
    → serial_buffer_put b c ≡ some b'
    → IsValid b' × (contents b' ≡ contents b ++ (c ∷ []))
put_inv b b' c v room e =
    let (b₁, e₁, v₁, c₁) = put_refines b c v room in
    let same : b₁ ≡ b' = cc (e₁, e) in
    (subst (λ x. IsValid x) same v₁, subst (λ x. contents x ≡ contents b ++ (c ∷ [])) same c₁)

-- A property of the value that a computation returned, from one of the value that it returns
transfer {ℓ} :
    {A : Type ℓ} (P : A → Type 0) {o : Option A} {a b : A} → o ≡ some a → o ≡ some b → P a → P b
transfer P p q x = subst P (cc (p, q)) x

not_none {ℓ} : {A : Type ℓ} {o : Option A} {a : A} → o ≡ none → o ≡ some a → ⊥
not_none p q = cc (p, q)

-- A call of `serial_getchar` that returns takes the oldest byte, and touches nothing else.
abbrev pub Taken : Uart → ℕ × Uart → Type 0
Taken u r =
    IsValid r.1.serial_rx
    × (contents u.serial_rx ≡ r.0 ∷ contents r.1.serial_rx)
    × (r.1 ≡ record u { serial_rx = r.1.serial_rx })

pub serial_getchar_lem :
    (u : Uart) {r : ℕ × Uart} → IsValid u.serial_rx → serial_getchar u ≡ some r → Taken u r
unfolding serial_getchar
serial_getchar_lem u v h = elim (Bool-cases (serial_buffer_isempty u.serial_rx)) [
  | inl e ↦ absurd (not_none {o = serial_getchar u} (rw (e, serial_getchar)) h)
  | inr e ↦
      let (c₁, b₁, e₁, v₁, k₁) = get_refines u.serial_rx v e in
      transfer (Taken u) {o = serial_getchar u} {a = (c₁, record u { serial_rx = b₁ })}
        (rw (e, e₁, serial_getchar)) h (v₁, k₁, refl)
]

-- What waits to be sent: the byte in the data register, then the ring
abbrev pub register : Option ℕ → List ℕ
register none = []
register (some c) = c ∷ []

abbrev pub waiting : Uart → List ℕ
waiting u = register u.udr ++ contents u.serial_tx

abbrev pub IsEnabled : Uart → Type 0
IsEnabled u = u.udrie ≡ not (serial_buffer_isempty u.serial_tx)

-- The transmit side is in order: its ring is valid, and its interrupt is enabled exactly while the
-- ring holds bytes.
pub record IsSending (u : Uart) : Type 0 where
  pub tx_valid : IsValid u.serial_tx
  pub enabled : IsEnabled u

-- The interrupt moves the oldest byte of the ring into the register, and switches itself off with
-- the last one.
abbrev pub Moved : Uart → Uart → Type 0
Moved u u' = IsSending u' × (waiting u' ≡ waiting u) × (u'.serial_rx ≡ u.serial_rx)

pub serial_transmit_lem :
    (u : Uart) {u' : Uart}
    → IsSending u
    → u.udrie ≡ true
    → u.udr ≡ none
    → serial_transmit u ≡ some u'
    → Moved u u'
unfolding serial_transmit
serial_transmit_lem u s on empty h =
    let held : serial_buffer_isempty u.serial_tx ≡ false = ground (arith, s.enabled) in
    let (c₁, b₁, e₁, v₁, k₁) = get_refines u.serial_tx s.tx_valid held in
    let off = if serial_buffer_isempty b₁ then false else u.udrie in
    transfer (Moved u) {o = serial_transmit u}
      {a = record u { serial_tx = b₁; udr = some c₁; udrie = off }} (rw (e₁, serial_transmit)) h
      (record { tx_valid = v₁; enabled = ground arith }, rw empty (sym k₁), refl)

-- A call of `serial_putchar` that returns has queued its byte behind all that waits.
abbrev pub Queued : ℕ → Uart → Uart → Type 0
Queued c u u' = IsSending u' × (waiting u' ≡ waiting u ++ (c ∷ [])) × (u'.serial_rx ≡ u.serial_rx)

put_direct :
    (c : ℕ) (u : Uart)
    → IsSending u
    → is_ready u.udr ≡ true
    → serial_buffer_isempty u.serial_tx ≡ true
    → Queued c u (record u { udr = some c })
unfolding is_ready
put_direct c u s ready e =
    let nothing = contents_of_isempty u.serial_tx s.tx_valid e in
    let free : u.udr ≡ none = ground arith in
    (record { tx_valid = s.tx_valid; enabled = s.enabled }, rw (nothing, free), refl)

-- The buffered way
abbrev direct : Uart → Bool
direct u = is_ready u.udr && serial_buffer_isempty u.serial_tx

serial_putchar_buffered :
    (c : ℕ) (u : Uart) {u' : Uart}
    → IsSending u
    → direct u ≡ false
    → serial_putchar c u ≡ some u'
    → Queued c u u'
unfolding serial_putchar
serial_putchar_buffered c u s indirect h = elim (Bool-cases (serial_buffer_isfull u.serial_tx)) [
  | inl e ↦ absurd (not_none {o = serial_putchar c u} (rw (indirect, e, serial_putchar)) h)
  | inr e ↦
      let (b₁, e₁, v₁, k₁) = put_refines u.serial_tx c s.tx_valid e in
      let held = isempty-append b₁ (contents u.serial_tx) c v₁ k₁ in
      transfer (Queued c u) {o = serial_putchar c u} {a = record u { serial_tx = b₁; udrie = true }}
        (rw (indirect, e, e₁, serial_putchar)) h
        (
          record { tx_valid = v₁; enabled = rw held },
          rw k₁ (sym (append_assoc (register u.udr) (contents u.serial_tx) (c ∷ []))),
          refl,
        )
]

pub serial_putchar_lem :
    (c : ℕ) (u : Uart) {u' : Uart} → IsSending u → serial_putchar c u ≡ some u' → Queued c u u'
serial_putchar_lem c u s h = elim (Bool-cases (direct u)) [
  | inl e ↦
      transfer (Queued c u) {o = serial_putchar c u} {a = record u { udr = some c }}
        (unfold serial_putchar in rw e) h (put_direct c u s (ground arith) (ground arith))
  | inr e ↦ serial_putchar_buffered c u s e h
]

-- Whether `serial_receive` keeps the byte
abbrev pub keeps : Bool → Bool → Uart → Bool
keeps upe fe u = not (upe || fe || serial_buffer_isfull u.serial_rx)

-- A byte received without error into a ring with room is kept behind the others; any other byte is
-- dropped, and nothing else changes.
abbrev pub Received : Bool → ℕ → Uart → Uart → Type 0
Received kept c u u' =
    IsValid u'.serial_rx
    × (contents u'.serial_rx
        ≡ (if kept then contents u.serial_rx ++ (c ∷ []) else contents u.serial_rx))
    × (u' ≡ record u { serial_rx = u'.serial_rx })

pub serial_receive_lem :
    (upe fe : Bool) (c : ℕ) (u : Uart) {u' : Uart}
    → IsValid u.serial_rx
    → serial_receive upe fe c u ≡ some u'
    → Received (keeps upe fe u) c u u'
unfolding serial_receive
serial_receive_lem upe fe c u v h =
    elim (Bool-cases (upe || fe || serial_buffer_isfull u.serial_rx)) [
      | inl e ↦
          transfer (Received (keeps upe fe u) c u) {o = serial_receive upe fe c u} {a = u}
            (rw (e, serial_receive)) h (v, rw e, refl)
      | inr e ↦
          let (b₁, e₁, v₁, k₁) = put_refines u.serial_rx c v (ground arith) in
          transfer (Received (keeps upe fe u) c u) {o = serial_receive upe fe c u}
            {a = record u { serial_rx = b₁ }} (rw (e, e₁, serial_receive)) h (v₁, rw e k₁, refl)
    ]
