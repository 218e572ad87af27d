-- ===== src/Device/Packet/Check.antt =====
-- The end of a data packet: its checksum.
use libmobile_atmega.Prelude.{
  ℕ, ◌/◌, ◌≤◌, ◌<◌, ◌≡◌, refl, ap, arith, true, false, Option, some, List, [], ◌∷◌, ◌++◌, length,
  take,
}
use libmobile_atmega.Wire.{reply, byte, word, word_bytes}
use libmobile_atmega.Wire.Cmd
use libmobile_atmega.Wire.Checksum.{checksum, checksum-lt, checksum_loop_lem, word-word_bytes}
use libmobile_atmega.Device.State.{Device}
use libmobile_atmega.Device.Receive.{Rc, finished, pending, data_verify, data_checksum}
use libmobile_atmega.Device.Packet.{Needs, sum, IsDelivered, IsOpen}

-- What a handler has come to that was called with the bytes of `s` in the ring, where `todo` is
-- still to be received and `rest` follows the packet: it has delivered the packet, or it has
-- stopped since bytes are missing.
pub data Progress (payload sent todo rest : List ℕ) (rc : Rc) (s : Device) : Type 0 where
  delivered :
      rc ≡ finished
      → s.rx ++ todo ≡ rest
      → IsDelivered payload sent s
      → s.connected ≡ true
      → s.waiting_cmd ≡ Cmd.none
      → Progress payload sent todo rest rc s
  stopped :
      (w : List ℕ)
      → rc ≡ pending
      → Needs payload s w
      → s.rx ++ todo ≡ w ++ rest
      → length s.rx < length w
      → length s.rx ≤ 1
      → s.connected ≡ true
      → s.waiting_cmd ≡ Cmd.none
      → s.data_ready ≡ false
      → s.tx ≡ sent
      → Progress payload sent todo rest rc s

-- A handler's call has come to such a point, and has left the clock and the start time alone.
pub record Progresses (payload sent todo rest : List ℕ) (s : Device) (o : Option (Rc × Device))
    : Type 0 where
  pub rc : Rc
  pub state : Device
  pub returns : o ≡ some (rc, state)
  pub progress : Progress payload sent todo rest rc state
  pub time : state.processing_cmd_time ≡ s.processing_cmd_time
  pub now : state.now ≡ s.now
  pub cmd : state.processing_cmd ≡ Cmd.data_pc

-- At the checksum
abbrev pub AtSum : List ℕ → Device → Type 0
AtSum payload s =
    (s.processing_cmd ≡ Cmd.data_pc)
    × (s.processing_cmd_state ≡ 2)
    × (s.data_size ≡ length payload)
    × (take s.data_size s.data_buf ≡ payload)
    × (s.data_size ≤ length s.data_buf)

-- Both bytes are there, and they are those of the payload's checksum.
data_checksum_ok :
    (payload l : List ℕ) (hi lo : ℕ) (s : Device)
    → AtSum payload s
    → s.rx ≡ hi ∷ lo ∷ l
    → hi ∷ lo ∷ [] ≡ word_bytes (checksum payload)
    → data_checksum s
      ≡ some
          (finished, record s { rx = l; tx = s.tx ++ (reply Cmd.data_pc ∷ []); data_ready = true })
unfolding data_checksum data_verify
data_checksum_ok payload l hi lo s (c, st, size, held, room) e ck =
    rw (e, data_checksum) (ground (arith, checksum_loop_lem s.data_size s.data_buf, same))
  where
    high : hi ≡ byte (checksum payload / 256)
    high = cc

    low : lo ≡ byte (checksum payload)
    low = cc

    same : word hi lo ≡ checksum payload
    same = rw (high, low) (word-word_bytes (checksum payload) (checksum-lt payload))

sum_stops :
    (payload sent todo rest : List ℕ) (s : Device)
    → AtSum payload s
    → IsOpen sent s
    → s.rx ++ todo ≡ word_bytes (checksum payload) ++ rest
    → length s.rx < 2
    → Progresses payload sent todo rest s (data_checksum s)
unfolding data_checksum
sum_stops payload sent todo rest s at open_ e short = record {
  rc = pending;
  state = s;
  returns = ground arith;
  progress =
      stopped (word_bytes (checksum payload)) refl (sum at.0 at.1 at.2 at.3 refl) e short
        (omega (arith, short)) open_.connected open_.waiting open_.free open_.written;
  time = refl;
  now = refl;
  cmd = at.0;
}

sum_ends :
    (payload sent todo rest l : List ℕ) (hi lo : ℕ) (s : Device)
    → AtSum payload s
    → IsOpen sent s
    → s.rx ≡ hi ∷ lo ∷ l
    → (hi ∷ lo ∷ l) ++ todo ≡ word_bytes (checksum payload) ++ rest
    → Progresses payload sent todo rest s (data_checksum s)
sum_ends payload sent todo rest l hi lo s at open_ r e = record {
  rc = finished;
  state = record s { rx = l; tx = s.tx ++ (reply Cmd.data_pc ∷ []); data_ready = true };
  returns = data_checksum_ok payload l hi lo s at r (cc e);
  progress =
      delivered refl (cc e)
        (record {
          ready = refl;
          size = at.2;
          bytes = at.3;
          acknowledged = ap (λ x. x ++ (reply Cmd.data_pc ∷ [])) open_.written;
        })
        open_.connected open_.waiting;
  time = refl;
  now = refl;
  cmd = at.0;
}

-- With both bytes there the packet is delivered, with fewer the handler waits.
pub sum-Progresses :
    (payload sent todo rest : List ℕ) (s : Device)
    → AtSum payload s
    → IsOpen sent s
    → s.rx ++ todo ≡ word_bytes (checksum payload) ++ rest
    → Progresses payload sent todo rest s (data_checksum s)
sum-Progresses payload sent todo rest s at open_ e = go s.rx refl
  where
    go : (r : List ℕ) → s.rx ≡ r → Progresses payload sent todo rest s (data_checksum s)
    go [] p = sum_stops payload sent todo rest s at open_ e (rw p (omega arith))
    go (x ∷ []) p = sum_stops payload sent todo rest s at open_ e (rw p (omega arith))
    go (x ∷ y ∷ l) p = sum_ends payload sent todo rest l x y s at open_ p (rw p at e)
