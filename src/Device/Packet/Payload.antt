-- ===== src/Device/Packet/Payload.antt =====
-- The middle of a data packet: its payload, in as many pieces as it comes.
use libmobile_atmega.Prelude.{
  ℕ, suc, ◌+◌, ◌-◌, ◌≤◌, ◌<◌, ◌≡◌, inl, inr, refl, ap, ap₂, sym, ◌∙◌, arith, true, false,
  Bool-cases, some, List, [], ◌++◌, append_assoc, length, length-append, take, drop, append_split,
  take_all, take-length-append, drop-length-append, drop_all,
}
use libmobile_atmega.Wire.{gbridge_max_data_size, word_bytes}
use libmobile_atmega.Wire.Cmd
use libmobile_atmega.Wire.Checksum.{checksum}
use libmobile_atmega.Device.State.{Device}
use libmobile_atmega.Device.Receive.{pending, Filled, fill, data_checksum, data_bytes}
use libmobile_atmega.Device.Fill.{IsFilled, fill_lem}
use libmobile_atmega.Device.Packet.{bytes, IsOpen}
use libmobile_atmega.Device.Packet.Check.{stopped, Progresses, sum-Progresses}

-- At the payload, of which `p` has been read and `q` is missing
pub record AtBytes (payload p q : List ℕ) (s : Device) : Type 0 where
  pub cmd : s.processing_cmd ≡ Cmd.data_pc
  pub stage : s.processing_cmd_state ≡ 1
  pub len : s.data_len ≡ length payload
  pub cur : s.data_cur ≡ length p
  pub held : take s.data_cur s.data_buf ≡ p
  pub whole : p ++ q ≡ payload
  pub missing : 0 < length q
  pub fits : length payload ≤ gbridge_max_data_size

module _ (payload p q sent todo rest : List ℕ) (s : Device) (at : AtBytes payload p q s)
    (open_ : IsOpen sent s) (f : Filled) (n : ℕ) (gap : length q ≡ suc n)
    (eq : fill 256 s.data_len s.data_buf s.data_cur s.rx ≡ some f)
    (filled : IsFilled (suc n) s.data_buf s.data_cur s.rx f)
    (e : s.rx ++ todo ≡ (q ++ word_bytes (checksum payload)) ++ rest) where
  abbrev after_read : Device
  after_read = record s { data_buf = f.buffer; data_cur = f.cur; rx = f.rest }

  parts : length p + length q ≡ length payload
  parts = sym (length-append p q) ∙ ap length at.whole

  abbrev at_sum : Device
  at_sum = record after_read { data_size = s.data_len; processing_cmd_state = 2 }

  -- All of it is there.
  module _ (full : f.full ≡ true) where
    long : length q ≤ length s.rx
    long = ground (arith, filled.full)

    split : (m : List ℕ) × (s.rx ≡ q ++ m) × (m ++ todo ≡ word_bytes (checksum payload) ++ rest)
    split =
        append_split s.rx todo q (word_bytes (checksum payload) ++ rest)
          (e ∙ append_assoc q (word_bytes (checksum payload)) rest) long

    left : f.rest ≡ split.0
    left = filled.rest ∙ ap₂ drop (sym gap) split.1 ∙ drop-length-append q split.0

    got : take f.cur f.buffer ≡ payload
    got =
        filled.bytes
        ∙ ap₂ ◌++◌ at.held (ap₂ take (sym gap) split.1 ∙ take-length-append q split.0)
        ∙ at.whole

    all_read : f.cur ≡ length payload
    all_read = omega (arith, filled.count, at.cur, parts, gap, long)

    sum_held : take s.data_len f.buffer ≡ payload
    sum_held = ap (λ k. take k f.buffer) (at.len ∙ sym all_read) ∙ got

    sum-IsOpen : IsOpen sent at_sum
    sum-IsOpen = record {
      valid = ground (arith, open_.valid, filled.size, at.cmd, at.len, at.fits);
      connected = open_.connected;
      waiting = open_.waiting;
      free = open_.free;
      written = open_.written;
    }

    at_sum-Progresses : Progresses payload sent todo rest at_sum (data_checksum at_sum)
    at_sum-Progresses =
        sum-Progresses payload sent todo rest at_sum
          (
            at.cmd,
            refl,
            at.len,
            sum_held,
            omega (arith, filled.size, open_.valid.data_room, at.len, at.fits),
          )
          sum-IsOpen (ap (λ x. x ++ todo) left ∙ split.2)

    bytes_end : Progresses payload sent todo rest s (data_bytes s)
    unfolding data_bytes
    bytes_end = record {
      rc = at_sum-Progresses.rc;
      state = at_sum-Progresses.state;
      returns = rw (eq, full, data_bytes) at_sum-Progresses.returns;
      progress = at_sum-Progresses.progress;
      time = at_sum-Progresses.time;
      now = at_sum-Progresses.now;
      cmd = at_sum-Progresses.cmd;
    }

  -- Some of it is still to come.
  module _ (part : f.full ≡ false) where
    short : length s.rx < length q
    short = ground (arith, filled.full)

    cut : (m : List ℕ) × (q ≡ s.rx ++ m) × (m ++ (word_bytes (checksum payload) ++ rest) ≡ todo)
    cut =
        append_split q (word_bytes (checksum payload) ++ rest) s.rx todo
          (sym (e ∙ append_assoc q (word_bytes (checksum payload)) rest)) (omega (arith, short))

    none_left : f.rest ≡ []
    none_left = filled.rest ∙ drop_all (suc n) s.rx (omega (arith, short, gap))

    cur_now : f.cur ≡ length (p ++ s.rx)
    cur_now = omega (arith, filled.count, at.cur, length-append p s.rx, gap, short)

    held_now : take f.cur f.buffer ≡ p ++ s.rx
    held_now = filled.bytes ∙ ap₂ ◌++◌ at.held (take_all (suc n) s.rx (omega (arith, short, gap)))

    whole_now : (p ++ s.rx) ++ cut.0 ≡ payload
    whole_now = append_assoc p s.rx cut.0 ∙ ap (λ x. p ++ x) (sym cut.1) ∙ at.whole

    missing_now : 0 < length cut.0
    missing_now = omega (arith, short, length-append s.rx cut.0, ap length cut.1)

    rest_now : f.rest ++ todo ≡ (cut.0 ++ word_bytes (checksum payload)) ++ rest
    rest_now =
        ap (λ x. x ++ todo) none_left
        ∙ sym (append_assoc cut.0 (word_bytes (checksum payload)) rest ∙ cut.2)

    less : length f.rest < length (cut.0 ++ word_bytes (checksum payload))
    less = omega (arith, ap length none_left, length-append cut.0 (word_bytes (checksum payload)))

    bytes_stop : Progresses payload sent todo rest s (data_bytes s)
    unfolding data_bytes
    bytes_stop = record {
      rc = pending;
      state = after_read;
      returns = rw (eq, part, data_bytes);
      progress =
          stopped (cut.0 ++ word_bytes (checksum payload)) refl
            (bytes (p ++ s.rx) cut.0 at.cmd at.stage at.len cur_now held_now whole_now missing_now
              refl)
            rest_now less (omega (arith, ap length none_left)) open_.connected open_.waiting
            open_.free open_.written;
      time = refl;
      now = refl;
      cmd = at.cmd;
    }

-- With all of the payload there the handler goes on to the checksum, with less it waits.
pub bytes-Progresses :
    (payload p q sent todo rest : List ℕ) (s : Device)
    → AtBytes payload p q s
    → IsOpen sent s
    → s.rx ++ todo ≡ (q ++ word_bytes (checksum payload)) ++ rest
    → Progresses payload sent todo rest s (data_bytes s)
bytes-Progresses payload p q sent todo rest s at open_ e =
    let n = length q - 1 in
    let gap : length q ≡ suc n = omega (arith, at.missing) in
    let parts : length p + length q ≡ length payload =
      sym (length-append p q) ∙ ap length at.whole in
    let (f, eq, filled) =
      fill_lem 256 s.data_len s.data_buf s.data_cur s.rx n
        (omega (arith, at.len, at.cur, parts, gap))
        (omega (arith, at.len, at.fits, open_.valid.data_room, parts, at.missing))
        (omega (arith, at.len, at.fits)) in
    elim (Bool-cases f.full) [
      | inl full ↦ bytes_end payload p q sent todo rest s at open_ f n gap eq filled e full
      | inr part ↦ bytes_stop payload p q sent todo rest s at open_ f n gap eq filled e part
    ]
