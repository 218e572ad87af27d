-- ===== src/Wire.antt =====
-- What the two ends of the serial line share: the bytes of atmega328p/source/gbridge_cmd.h, words
-- of two bytes, and the checksum. Both gbridge.c files include that header.
pub mod Cmd
pub mod Checksum
pub mod Frame
pub mod Search
use libmobile_atmega.Prelude.{
  ℕ, zero, suc, ◌+◌, ◌*◌, ◌/◌, ◌%◌, bit_or, Option, none, some, List, [], ◌∷◌,
}

-- GBRIDGE_HANDSHAKE
abbrev pub handshake : List ℕ
handshake = 0x99 ∷ 0x66 ∷ b'G' ∷ b'B' ∷ []

abbrev pub gbridge_timeout_us : ℕ
gbridge_timeout_us = 1000000

abbrev pub gbridge_max_data_size : ℕ
gbridge_max_data_size = 0x80

abbrev pub gbridge_cmd_reply_f : ℕ
gbridge_cmd_reply_f = 0x80

-- `cmd | GBRIDGE_CMD_REPLY_F`
abbrev pub reply : ℕ → ℕ
reply cmd = bit_or cmd gbridge_cmd_reply_f

-- Conversion to `unsigned char`
abbrev pub byte : ℕ → ℕ
byte x = x % 256

-- `hi << 8 | lo` in a `uint16_t`
unfoldable pub word : ℕ → ℕ → ℕ
word hi lo = bit_or (hi * 256 % 0x1_0000) lo

-- The bytes `x >> 8` and `x >> 0` of a word
abbrev pub word_bytes : ℕ → List ℕ
word_bytes x = byte (x / 256) ∷ byte x ∷ []

-- The loop `for (i = 0; i < size; i++) checksum += data[i]` on a `uint16_t`, from `acc` on. `none`
-- is a read outside the array.
unfoldable pub checksum_loop : ℕ → List ℕ → ℕ → Option ℕ
checksum_loop zero xs acc = some acc
checksum_loop (suc n) [] acc = none
checksum_loop (suc n) (x ∷ xs) acc = checksum_loop n xs ((acc + x) % 0x1_0000)
