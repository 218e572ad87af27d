-- ===== src/Device/Malformed.antt =====
-- Data packets that the adapter does not take.
use libmobile_atmega.Prelude.{
  ℕ, suc, ◌+◌, ◌-◌, ◌≤◌, ◌<◌, ◌≡◌, ◌≢◌, refl, ap, ap₂, sym, ◌∙◌, arith, true, false, Option, some,
  List, ◌∷◌, ◌++◌, length, length-append, take, drop, take-length-append, drop-length-append,
}
use libmobile_atmega.Wire.{gbridge_max_data_size, word, checksum_loop}
use libmobile_atmega.Wire.Cmd
use libmobile_atmega.Wire.Checksum.{checksum, checksum_loop_lem}
use libmobile_atmega.Device.State.{Device, gbridge_init}
use libmobile_atmega.Device.Receive.{
  Rc, failed, data_verify, data_checksum, data_bytes, data_length, recv_cmd_data_pc,
}
use libmobile_atmega.Device.Fill.{fill_lem}
use libmobile_atmega.Device.Loop.{run_cmd, settle, gbridge_loop, fetch_cmd, accept_cmd}
use libmobile_atmega.Device.Inv.{IsValid}
use libmobile_atmega.Device.Packet.Turn.{loop_fetched}

-- The bytes behind the command of a data packet that is refused: an earlier packet has not been
-- taken, the length is over the limit, or the checksum is not that of the payload.
pub data IsRefused (s : Device) (l : List ℕ) : Type 0 where
  not_taken : s.data_ready ≡ true → IsRefused s l
  too_long :
      (len : ℕ) (rest : List ℕ)
      → s.data_ready ≡ false
      → l ≡ len ∷ rest
      → gbridge_max_data_size < len
      → IsRefused s l
  bad_checksum :
      (payload rest : List ℕ) (hi lo : ℕ)
      → s.data_ready ≡ false
      → l ≡ length payload ∷ (payload ++ (hi ∷ lo ∷ rest))
      → 0 < length payload
      → length payload ≤ gbridge_max_data_size
      → word hi lo ≢ checksum payload
      → IsRefused s l

-- A handler that fails and has sent nothing
abbrev pub Fails : List ℕ → Option (Rc × Device) → Type 0
Fails tx o = (s : Device) × (o ≡ some (failed, s)) × (s.tx ≡ tx)

-- The whole payload is in the ring: it is copied, and the handler goes on to the checksum.
data_bytes_whole :
    (payload tail : List ℕ) (s : Device)
    → s.data_len ≡ length payload
    → s.data_cur ≡ 0
    → 0 < length payload
    → length payload ≤ gbridge_max_data_size
    → length s.data_buf ≡ gbridge_max_data_size
    → s.rx ≡ payload ++ tail
    → (buf : List ℕ) × (data_bytes s
        ≡ data_checksum (record s {
          data_buf = buf;
          data_cur = length payload;
          rx = tail;
          data_size = s.data_len;
          processing_cmd_state = 2;
        }))
      × (take (length payload) buf ≡ payload)
      × (length buf ≡ gbridge_max_data_size)
unfolding data_bytes
data_bytes_whole payload tail s len cur some_payload fits room r =
    let n = length payload - 1 in
    let all : length payload ≡ suc n = omega arith in
    let (f, e, v) =
      fill_lem 256 s.data_len s.data_buf s.data_cur s.rx n (omega arith) (omega arith)
        (omega arith) in
    let lens : length s.rx ≡ length payload + length tail =
      ap length r ∙ length-append payload tail in
    let full : f.full ≡ true = ground (arith, v.full, all, lens) in
    let cur' : f.cur ≡ length payload = omega (arith, v.count, all, lens, cur) in
    let left : f.rest ≡ tail = v.rest ∙ ap₂ drop (sym all) r ∙ drop-length-append payload tail in
    (
      f.buffer,
      ground (arith, e, full, cur', left),
      ap (λ k. take k f.buffer) (sym cur')
          ∙ v.bytes
          ∙ ap₂ (λ k m. take k s.data_buf ++ m) cur
              (ap₂ take (sym all) r ∙ take-length-append payload tail),
      v.size ∙ room,
    )

-- At a checksum that is wrong
wrong_checksum-Fails :
    (payload rest : List ℕ) (hi lo : ℕ) (s : Device)
    → s.rx ≡ hi ∷ lo ∷ rest
    → s.data_size ≡ length payload
    → take (length payload) s.data_buf ≡ payload
    → length payload ≤ length s.data_buf
    → word hi lo ≢ checksum payload
    → Fails s.tx (data_checksum s)
unfolding data_checksum data_verify
wrong_checksum-Fails payload rest hi lo s r size held room ne =
    (record s { rx = rest }, ground (arith, sums), refl)
  where
    sums : checksum_loop s.data_size s.data_buf 0 ≡ some (checksum payload)
    sums =
        ap (λ n. checksum_loop n s.data_buf 0) size
        ∙ checksum_loop_lem (length payload) s.data_buf room
        ∙ ap (λ p. some (checksum p)) held

length_of_whole :
    (payload tail : List ℕ) (s : Device)
    → s.rx ≡ length payload ∷ (payload ++ tail)
    → length payload ≤ gbridge_max_data_size
    → data_length s
      ≡ data_bytes (record s {
        rx = payload ++ tail;
        data_len = length payload;
        data_cur = 0;
        processing_cmd_state = 1;
      })
unfolding data_length
length_of_whole payload tail s r fits = rw (r, data_length) (ground arith)

too_long-Fails :
    (len : ℕ) (rest : List ℕ) (s : Device)
    → s.rx ≡ len ∷ rest
    → gbridge_max_data_size < len
    → Fails s.tx (data_length s)
unfolding data_length
too_long-Fails len rest s r over =
    (record s { rx = rest; data_len = len }, rw (r, data_length) (ground arith), refl)

bad_checksum-Fails :
    (payload rest : List ℕ) (hi lo : ℕ) (s : Device)
    → length s.data_buf ≡ gbridge_max_data_size
    → s.rx ≡ length payload ∷ (payload ++ (hi ∷ lo ∷ rest))
    → 0 < length payload
    → length payload ≤ gbridge_max_data_size
    → word hi lo ≢ checksum payload
    → Fails s.tx (data_length s)
bad_checksum-Fails payload rest hi lo s room r some_payload fits ne =
    let s₁ = record s {
      rx = payload ++ (hi ∷ lo ∷ rest);
      data_len = length payload;
      data_cur = 0;
      processing_cmd_state = 1;
    } in
    let (buf, goes, held, room') =
      data_bytes_whole payload (hi ∷ lo ∷ rest) s₁ refl refl some_payload fits room refl in
    let s₂ = record s₁ {
      data_buf = buf;
      data_cur = length payload;
      rx = hi ∷ lo ∷ rest;
      data_size = length payload;
      processing_cmd_state = 2;
    } in
    let (s₃, fails, same) =
      wrong_checksum-Fails payload rest hi lo s₂ refl refl held (omega (arith, room', fits)) ne in
    (s₃, length_of_whole payload (hi ∷ lo ∷ rest) s r fits ∙ goes ∙ fails, same)

IsRefused-Fails :
    (s s₁ : Device) (l : List ℕ)
    → IsRefused s l
    → s₁.data_ready ≡ s.data_ready
    → s₁.processing_cmd_state ≡ 0
    → s₁.rx ≡ l
    → length s₁.data_buf ≡ gbridge_max_data_size
    → Fails s₁.tx (recv_cmd_data_pc s₁)
unfolding recv_cmd_data_pc
IsRefused-Fails s s₁ l (not_taken full) same at r room = (s₁, ground arith, refl)
IsRefused-Fails s s₁ l (too_long len rest free e over) same at r room =
    let (s₂, fails, tx) = too_long-Fails len rest s₁ (r ∙ e) over in (s₂, ground (arith, fails), tx)
IsRefused-Fails s s₁ l (bad_checksum payload rest hi lo free e some_payload fits ne) same at r
      room =
    let (s₂, fails, tx) =
      bad_checksum-Fails payload rest hi lo s₁ room (r ∙ e) some_payload fits ne in
    (s₂, ground (arith, fails), tx)

abbrev pub started : Device → List ℕ → Device
started s l = record s {
  rx = l;
  processing_cmd = Cmd.data_pc;
  processing_cmd_state = 0;
  processing_cmd_time = s.now;
}

pub fetch_data_pc :
    (s : Device) (l : List ℕ)
    → s.waiting_cmd ≡ Cmd.none
    → s.processing_cmd ≡ Cmd.none
    → s.rx ≡ Cmd.data_pc ∷ l
    → fetch_cmd s ≡ some (true, started s l)
unfolding fetch_cmd accept_cmd
fetch_data_pc s l w idle r = ground arith

-- A data packet that finds the last one not taken, that announces more than 128 bytes, or that is
-- in the ring as a whole with a payload of 1 to 128 bytes and a checksum that is not that of the
-- payload, resets the valid, connected adapter that was waiting for a command and for no reply: it
-- is disconnected, it forgets the last packet, and it does not acknowledge.
pub refused_packet_resets :
    (l : List ℕ) (s : Device)
    → IsValid s
    → s.connected ≡ true
    → s.waiting_cmd ≡ Cmd.none
    → s.processing_cmd ≡ Cmd.none
    → s.rx ≡ Cmd.data_pc ∷ l
    → IsRefused s l
    → (s' : Device) × (gbridge_loop s ≡ some (tt, s'))
      × (s'.connected ≡ false)
      × (s'.data_ready ≡ false)
      × (s'.tx ≡ s.tx)
unfolding gbridge_init
refused_packet_resets l s v c w idle r refused =
    let (s₂, fails, tx) = IsRefused-Fails s (started s l) l refused refl refl refl v.data_room in
    (
      gbridge_init s₂,
      loop_fetched s (started s l) s₂ failed c (ground (arith, idle)) w (fetch_data_pc s l w idle r)
            (unfold run_cmd in ground (arith, fails))
          ∙ (unfold settle in refl),
      refl,
      refl,
      tx,
    )
