-- ===== src/Wire/Cmd.antt =====
-- The values of `enum gbridge_cmd` of atmega328p/source/gbridge_cmd.h that the code uses. A byte from
-- the line is converted to the type with no check, so a command is any byte.
use libmobile_atmega.Prelude.{ℕ}

abbrev pub none : ℕ
none = 0

abbrev pub debug_line : ℕ
debug_line = 0x02

abbrev pub data_packet : ℕ
data_packet = 0x0A

abbrev pub stream : ℕ
stream = 0x0C

abbrev pub data_pc : ℕ
data_pc = 0x4A

abbrev pub stream_pc : ℕ
stream_pc = 0x4C

abbrev pub reset : ℕ
reset = 0x4F
