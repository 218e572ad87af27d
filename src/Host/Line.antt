-- ===== src/Host/Line.antt =====
-- What the calls of libserialport come to on a line that works.
use libmobile_atmega.Prelude.{
  ℕ, suc, ◌≤◌, ◌<◌, ◌≡◌, refl, ap, ap₂, sym, ◌∙◌, arith, true, none, some, List, [], ◌∷◌, ◌++◌,
  length, length-append, take, drop, take-length-append, drop-length-append,
}
use libmobile_atmega.Host.Port.{SerialPort, IsLine, bytes}
use libmobile_atmega.Host.State.{Host, overlay}
use libmobile_atmega.Host.Receive.{gbridge_timeout_ms, recv_data}

-- Bytes that fit are put in front of a buffer.
pub overlay_fits :
    (l buffer : List ℕ)
    → length l ≤ length buffer
    → (b : List ℕ) × (overlay l buffer ≡ some b)
      × (take (length l) b ≡ l)
      × (length b ≡ length buffer)
overlay_fits [] buffer h = (buffer, refl, refl, refl)
overlay_fits (c ∷ cs) [] h = absurd (omega arith)
overlay_fits (c ∷ cs) (b ∷ buffer) h =
    let (l, e, t, n) = overlay_fits cs buffer (omega arith) in
    (c ∷ l, ground (arith, e), ap (λ x. c ∷ x) t, ap suc n)

-- More do not.
pub overlay_overflows : (l buffer : List ℕ) → length buffer < length l → overlay l buffer ≡ none
overlay_overflows [] buffer h = absurd (omega arith)
overlay_overflows (c ∷ cs) [] h = refl
overlay_overflows (c ∷ cs) (b ∷ buffer) h =
    ground (arith, overlay_overflows cs buffer (omega arith))

module _ {P : Type 0} (port : SerialPort P) (line : IsLine port) where
  -- A read of bytes that arrive in time
  pub read_lem :
      (count timeout : ℕ) (l rest : List ℕ) (p : P)
      → length l ≡ count
      → line.pending p ≡ l ++ rest
      → (p' : P) × (port.sp_blocking_read count timeout p ≡ (bytes l, p'))
        × (line.pending p' ≡ rest)
        × (line.written p' ≡ line.written p)
  read_lem count timeout l rest p n e =
      let enough : count ≤ length (line.pending p) =
        omega (arith, ap length e, length-append l rest) in
      let (p', reads, left, same) = line.read count timeout p enough in
      (
        p',
        reads ∙ ap (λ x. (bytes x, p')) (ap₂ take (sym n) e ∙ take-length-append l rest),
        left ∙ ap₂ drop (sym n) e ∙ drop-length-append l rest,
        same,
      )

  pub recv_data_lem :
      (count : ℕ) (l rest : List ℕ) (s : Host P)
      → length l ≡ count
      → line.pending s.port ≡ l ++ rest
      → (p' : P) × (recv_data port count s ≡ (true, l, record s { port = p' }))
        × (line.pending p' ≡ rest)
        × (line.written p' ≡ line.written s.port)
  unfolding recv_data
  recv_data_lem count l rest s n e =
      let (p', reads, left, same) = read_lem count gbridge_timeout_ms l rest s.port n e in
      (p', rw (reads, n, recv_data) (ground arith), left, same)
