-- ===== src/Net/Socket.antt =====
-- bridge/source/socket.c, in its variant for POSIX systems. Its messages are left out.
use libmobile_atmega.Prelude.{
  ℕ, ◌-◌, ◌==◌, not, Bool, false, none, some, bit_and, bit_or, if◌then◌else◌,
}
use libmobile_atmega.Sockets.{ℤ, pos, negsuc}
use libmobile_atmega.Net.Os.{Os, readable, writable}

-- `rc <= 0`
abbrev pub is_positive : ℤ → Bool
is_positive (pos n) = not (n == 0)
is_positive (negsuc n) = false

module _ {W : Type 0} (os : Os W) where
  unfoldable pub socket_hasdata : ℕ → ℕ → W → ℤ × W
  socket_hasdata fd delay w = os.poll fd readable delay w

  unfoldable pub socket_isconnected : ℕ → ℕ → W → ℤ × W
  socket_isconnected fd delay w =
      let (rc, w₁) = os.poll fd writable delay w in
      if not (is_positive rc)
      then (rc, w₁)
      else let (err, w₂) = os.getsockopt_error fd w₁ in
        elim err [ none ↦ (pos 1, w₂) | some e ↦ (negsuc 0, w₂) ]

  -- `flags &= ~O_NONBLOCK; if (!flag) flags |= O_NONBLOCK;`
  unfoldable pub blocking_flags : Bool → ℕ → ℕ
  blocking_flags flag flags =
      let cleared = flags - bit_and flags os.o_nonblock in
      if not flag then bit_or cleared os.o_nonblock else cleared

  -- 0 is `true`.
  unfoldable pub socket_setblocking : ℕ → Bool → W → Bool × W
  socket_setblocking fd flag w =
      let (flags, w₁) = os.fcntl_getfl fd w in
      elim flags [ none ↦ (false, w₁) | some f ↦ os.fcntl_setfl fd (blocking_flags flag f) w₁ ]
