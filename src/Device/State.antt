-- ===== src/Device/State.antt =====
-- The static variables of atmega328p/source/gbridge.c, what the functions there see of the serial
-- port and the timer, and `gbridge_init`.
use libmobile_atmega.Prelude.{
  ◌≡◌, ap, ℕ, Bool, false, Option, none, some, List, [], ◌∷◌, ◌++◌, length, ◌+◌, ◌-◌, ◌%◌, ◌^◌,
}
use libmobile_atmega.Wire.{byte}
use libmobile_atmega.Wire.Cmd

-- `rx` is the content of the receive ring and `tx` the sequence of bytes passed to
-- `serial_putchar`; `now` is what `timer_get` returns.
pub record Device : Type 0 where
  pub connected : Bool
  pub handshake_progress : ℕ
  pub processing_cmd : ℕ
  pub processing_cmd_state : ℕ
  pub processing_cmd_time : ℕ
  pub waiting_cmd : ℕ
  pub waiting_cmd_time : ℕ
  pub data_buf : List ℕ
  pub data_size : ℕ
  pub data_len : ℕ
  pub data_cur : ℕ
  pub data_ready : Bool
  pub stream_buf : List ℕ
  pub stream_size : ℕ
  pub stream_max_size : ℕ
  pub stream_cur : ℕ
  pub stream_checksum : ℕ
  pub rx : List ℕ
  pub tx : List ℕ
  pub now : ℕ

-- `none` is undefined behaviour, or a wait for a byte that no test has announced.
abbrev pub M : Type 0 → Type 0
M A = Device → Option (A × Device)

abbrev pub pure : {A : Type 0} → A → M A
pure a s = some (a, s)

infixl 5 ◌>>=◌ ◌>>◌
abbrev pub ◌>>=◌ : {A B : Type 0} → M A → (A → M B) → M B
◌>>=◌ m f s = elim (m s) [ none ↦ none | some (a, s') ↦ f a s' ]

abbrev pub ◌>>◌ : {B : Type 0} → M (Unit {0}) → M B → M B
m >> k = m >>= λ _. k

abbrev pub modify : (Device → Device) → M (Unit {0})
modify f s = some (tt, f s)

-- `serial_available`
abbrev pub available : M ℕ
available s = some (length s.rx, s)

-- The first byte, where there is one
abbrev pub uncons : List ℕ → Option (ℕ × List ℕ)
uncons [] = none
uncons (c ∷ l) = some (c, l)

-- `serial_getchar`
abbrev pub getchar : M ℕ
getchar s = elim (uncons s.rx) [ none ↦ none | some (c, l) ↦ some (c, record s { rx = l }) ]

-- `serial_putchar`, once for each byte
abbrev pub put_all : List ℕ → M (Unit {0})
put_all cs s = some (tt, record s { tx = s.tx ++ cs })

abbrev pub putchar : ℕ → M (Unit {0})
putchar c = put_all (byte c ∷ [])

-- `timer_get() - time` on `uint32_t`
abbrev pub elapsed : ℕ → ℕ → ℕ
elapsed now time = (now + 2 ^ 32 - time) % 2 ^ 32

unfoldable pub gbridge_init : Device → Device
gbridge_init s = record s {
  connected = false;
  handshake_progress = 0;
  waiting_cmd = Cmd.none;
  processing_cmd = Cmd.none;
  data_ready = false;
  data_size = 0;
  stream_max_size = 0;
}

pub >>-some :
    {B : Type 0} (m : M (Unit {0})) (k : M B) {s s' : Device}
    → m s ≡ some (tt, s')
    → (m >> k) s ≡ k s'
>>-some {B} m k e =
    ap {B = Option (B × Device)} (λ o. elim o [ none ↦ none | some (a, s₁) ↦ k s₁ ]) e
