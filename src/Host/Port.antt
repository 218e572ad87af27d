-- ===== src/Host/Port.antt =====
-- The two calls of libserialport that bridge/source/gbridge.c makes, and what is documented of them.
use libmobile_atmega.Prelude.{ℕ, ◌≤◌, ◌<◌, ◌≡◌, List, [], ◌++◌, length, take, drop}

-- What `sp_blocking_read` returns: a negative code, or as many bytes as it has read
pub data Read : Type 0 where
  error : Read
  bytes : List ℕ → Read

-- The calls, as functions of the state `P` of a port. Both take the timeout last, and the number
-- that a write returns is not used.
pub record SerialPort (P : Type 0) : Type 0 where
  pub sp_blocking_read : ℕ → ℕ → P → Read × P
  pub sp_blocking_write : List ℕ → ℕ → P → P

-- A line that works. `pending` are the bytes that arrive before a read times out: a read returns as
-- many of them as it asks for, or all there are. A write is sent in full.
pub record IsLine {P : Type 0} (port : SerialPort P) : Type 0 where
  pub pending : P → List ℕ
  pub written : P → List ℕ
  pub read :
      (count timeout : ℕ) (p : P)
      → count ≤ length (pending p)
      → (p' : P) × (port.sp_blocking_read count timeout p ≡ (bytes (take count (pending p)), p'))
        × (pending p' ≡ drop count (pending p))
        × (written p' ≡ written p)
  pub read_timeout :
      (count timeout : ℕ) (p : P)
      → length (pending p) < count
      → (p' : P) × (port.sp_blocking_read count timeout p ≡ (bytes (pending p), p'))
        × (pending p' ≡ [])
        × (written p' ≡ written p)
  pub write_pending :
      (l : List ℕ) (timeout : ℕ) (p : P) → pending (port.sp_blocking_write l timeout p) ≡ pending p
  pub write_written :
      (l : List ℕ) (timeout : ℕ) (p : P)
      → written (port.sp_blocking_write l timeout p) ≡ written p ++ l
