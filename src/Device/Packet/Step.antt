-- ===== src/Device/Packet/Step.antt =====
-- One call of the handler on a data packet of which some bytes have arrived.
use libmobile_atmega.Prelude.{
  ℕ, ◌≤◌, ◌<◌, ◌≡◌, refl, ap, sym, subst, ◌∙◌, arith, List, [], ◌∷◌, ◌++◌, length,
}
use libmobile_atmega.Wire.{gbridge_max_data_size, word_bytes}
use libmobile_atmega.Wire.Cmd
use libmobile_atmega.Wire.Checksum.{checksum}
use libmobile_atmega.Device.State.{Device}
use libmobile_atmega.Device.Receive.{pending, data_bytes, data_length, recv_cmd_data_pc}
use libmobile_atmega.Device.Packet.{Needs, command, size, bytes, sum, IsOpen}
use libmobile_atmega.Device.Packet.Check.{stopped, Progresses, sum-Progresses}
use libmobile_atmega.Device.Packet.Payload.{AtBytes, bytes-Progresses}

module _ (payload sent todo rest : List ℕ) (some_payload : 0 < length payload)
    (fits : length payload ≤ gbridge_max_data_size) where
  -- At the length byte
  size_stops :
      (s : Device)
      → IsOpen sent s
      → s.processing_cmd ≡ Cmd.data_pc
      → s.processing_cmd_state ≡ 0
      → s.rx ≡ []
      → s.rx ++ todo ≡ (length payload ∷ (payload ++ word_bytes (checksum payload))) ++ rest
      → Progresses payload sent todo rest s (data_length s)
  unfolding data_length
  size_stops s open_ cmd at none_left e = record {
    rc = pending;
    state = s;
    returns = ground arith;
    progress =
        stopped (length payload ∷ (payload ++ word_bytes (checksum payload))) refl
          (size cmd at refl) e (omega (arith, ap length none_left))
          (omega (arith, ap length none_left)) open_.connected open_.waiting open_.free
          open_.written;
    time = refl;
    now = refl;
    cmd = cmd;
  }

  abbrev sized : Device → List ℕ → Device
  sized s l = record s { rx = l; data_len = length payload; data_cur = 0; processing_cmd_state = 1 }

  data_length_ok :
      (s : Device) (l : List ℕ) → s.rx ≡ length payload ∷ l → data_length s ≡ data_bytes (sized s l)
  unfolding data_length
  data_length_ok s l r = rw (r, data_length) (ground arith)

  sized-IsOpen :
      (s : Device) (l : List ℕ)
      → IsOpen sent s
      → s.processing_cmd ≡ Cmd.data_pc
      → IsOpen sent (sized s l)
  sized-IsOpen s l open_ cmd = record {
    valid = ground (arith, open_.valid);
    connected = open_.connected;
    waiting = open_.waiting;
    free = open_.free;
    written = open_.written;
  }

  size_goes_on :
      (s : Device) (l : List ℕ)
      → IsOpen sent s
      → s.processing_cmd ≡ Cmd.data_pc
      → s.rx ≡ length payload ∷ l
      → l ++ todo ≡ (payload ++ word_bytes (checksum payload)) ++ rest
      → Progresses payload sent todo rest s (data_length s)
  size_goes_on s l open_ cmd r e = record {
    rc = done.rc;
    state = done.state;
    returns = data_length_ok s l r ∙ done.returns;
    progress = done.progress;
    time = done.time;
    now = done.now;
    cmd = done.cmd;
  }
    where
      at : AtBytes payload [] payload (sized s l)
      at = record {
        cmd = cmd;
        stage = refl;
        len = refl;
        cur = refl;
        held = refl;
        whole = refl;
        missing = some_payload;
        fits = fits;
      }

      done : Progresses payload sent todo rest (sized s l) (data_bytes (sized s l))
      done =
          bytes-Progresses payload [] payload sent todo rest (sized s l) at
            (sized-IsOpen s l open_ cmd) e

  size-Progresses :
      (s : Device)
      → IsOpen sent s
      → s.processing_cmd ≡ Cmd.data_pc
      → s.processing_cmd_state ≡ 0
      → s.rx ++ todo ≡ (length payload ∷ (payload ++ word_bytes (checksum payload))) ++ rest
      → Progresses payload sent todo rest s (data_length s)
  size-Progresses s open_ cmd at e = go s.rx refl
    where
      go : (r : List ℕ) → s.rx ≡ r → Progresses payload sent todo rest s (data_length s)
      go [] p = size_stops s open_ cmd at p e
      go (x ∷ l) p =
          let e' : x ∷ (l ++ todo)
              ≡ length payload ∷ ((payload ++ word_bytes (checksum payload)) ++ rest) =
            rw p at e in
          size_goes_on s l open_ cmd (p ∙ ap (λ y. y ∷ l) (cc e')) (cc e')

  -- Wherever the handler has stopped, it goes on from there.
  pub handler-Progresses :
      (s : Device) {w : List ℕ}
      → IsOpen sent s
      → s.processing_cmd ≡ Cmd.data_pc
      → Needs payload s w
      → s.rx ++ todo ≡ w ++ rest
      → Progresses payload sent todo rest s (recv_cmd_data_pc s)
  unfolding recv_cmd_data_pc
  handler-Progresses s open_ cmd (command idle f) e = absurd (omega (arith, cmd, idle))
  handler-Progresses s open_ cmd (size c at f) e =
      subst (λ o. Progresses payload sent todo rest s o)
        (sym (unfold recv_cmd_data_pc in rw (open_.free, at)))
        (size-Progresses s open_ cmd at (e ∙ ap (λ x. x ++ rest) f))
  handler-Progresses s open_ cmd (bytes p q c at len cur held whole missing f) e =
      subst (λ o. Progresses payload sent todo rest s o)
        (sym (unfold recv_cmd_data_pc in rw (open_.free, at)))
        (bytes-Progresses payload p q sent todo rest s
          (record {
            cmd = c;
            stage = at;
            len = len;
            cur = cur;
            held = held;
            whole = whole;
            missing = missing;
            fits = fits;
          })
          open_ (e ∙ ap (λ x. x ++ rest) f))
  handler-Progresses s open_ cmd (sum c at len held f) e =
      subst (λ o. Progresses payload sent todo rest s o)
        (sym (unfold recv_cmd_data_pc in rw (open_.free, at)))
        (sum-Progresses payload sent todo rest s
          (c, at, len, held, omega (arith, len, fits, open_.valid.data_room)) open_
          (e ∙ ap (λ x. x ++ rest) f))
