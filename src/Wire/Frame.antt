-- ===== src/Wire/Frame.antt =====
-- The packets of the line, as a reader of the protocol would write them down.
use libmobile_atmega.Prelude.{ℕ, ◌∷◌, ◌++◌, List, length}
use libmobile_atmega.Wire.{word_bytes}
use libmobile_atmega.Wire.Checksum.{checksum}

-- A data packet: the command, a length of one byte, the payload and its checksum
abbrev pub data_frame : ℕ → List ℕ → List ℕ
data_frame cmd payload = cmd ∷ length payload ∷ (payload ++ word_bytes (checksum payload))

-- A stream packet has a length of two bytes.
abbrev pub stream_frame : ℕ → List ℕ → List ℕ
stream_frame cmd payload =
    cmd ∷ (word_bytes (length payload) ++ (payload ++ word_bytes (checksum payload)))
