-- ===== src/Device/Empty.antt =====
-- The data packet with an empty payload, which the adapter misreads: the loop of `case 1` stores a
-- byte before it tests whether one is wanted.
use libmobile_atmega.Prelude.{
  ℕ, ◌≡◌, refl, ap, sym, ◌∙◌, arith, leb, true, false, Option, some, [], ◌∷◌, length, drop,
}
use libmobile_atmega.Wire.{gbridge_max_data_size, word_bytes}
use libmobile_atmega.Wire.Cmd
use libmobile_atmega.Wire.Checksum.{checksum_nil}
use libmobile_atmega.Wire.Frame.{data_frame}
use libmobile_atmega.Device.State.{Device}
use libmobile_atmega.Device.Receive.{
  Rc, pending, data_checksum, data_bytes, data_length, recv_cmd_data_pc,
}
use libmobile_atmega.Device.Fill.{fill_lem}
use libmobile_atmega.Device.Loop.{run_cmd, settle, gbridge_loop}
use libmobile_atmega.Device.Packet.Turn.{loop_fetched}
use libmobile_atmega.Device.Packet.Chunks.{IsIdle}
use libmobile_atmega.Device.Malformed.{started, fetch_data_pc}

-- The handler stops with one byte in the ring.
abbrev pub StopsShort : ℕ → Device → Option (Rc × Device) → Type 0
StopsShort x s o =
    (s' : Device) × (o ≡ some (pending, s'))
    × (s'.rx ≡ x ∷ [])
    × (s'.tx ≡ s.tx)
    × (s'.data_ready ≡ s.data_ready)
    × (s'.connected ≡ s.connected)
    × (s'.processing_cmd ≡ s.processing_cmd)

empty_bytes :
    (x y : ℕ) (s : Device)
    → s.data_len ≡ 0
    → s.data_cur ≡ 0
    → length s.data_buf ≡ gbridge_max_data_size
    → s.rx ≡ x ∷ y ∷ []
    → StopsShort y s (data_bytes s)
unfolding data_bytes data_checksum
empty_bytes x y s len cur room r =
    let (f, e, v) =
      fill_lem 256 s.data_len s.data_buf s.data_cur s.rx 0 (omega arith) (omega arith)
        (omega arith) in
    let left : f.rest ≡ y ∷ [] = v.rest ∙ ap (λ l. drop 1 l) r in
    let full : f.full ≡ true = v.full ∙ ap (λ l. leb 1 (length l)) r in
    (
      record s {
        data_buf = f.buffer;
        data_cur = f.cur;
        rx = f.rest;
        data_size = s.data_len;
        processing_cmd_state = 2;
      },
      ground (arith, e, full, left),
      left,
      refl,
      refl,
      refl,
      refl,
    )

empty_length :
    (x y : ℕ) (s : Device)
    → length s.data_buf ≡ gbridge_max_data_size
    → s.rx ≡ 0 ∷ x ∷ y ∷ []
    → StopsShort y s (data_length s)
unfolding data_length
empty_length x y s room r =
    let s₁ = record s { rx = x ∷ y ∷ []; data_len = 0; data_cur = 0; processing_cmd_state = 1 } in
    let (s₂, stops, left, tx, ready, conn, cmd) = empty_bytes x y s₁ refl refl room refl in
    (s₂, rw (r, data_length) (ground (arith, stops)), left, tx, ready, conn, cmd)

-- A whole data packet with no payload, at an idle adapter, is not received: the adapter takes the
-- first byte of the checksum for a payload byte, keeps the second in the ring, and goes on waiting
-- in the middle of the packet, with nothing available to the program and nothing acknowledged.
pub empty_packet_missed :
    (s : Device)
    → IsIdle s
    → s.rx ≡ data_frame Cmd.data_pc []
    → (s' : Device) × (gbridge_loop s ≡ some (tt, s'))
      × (s'.connected ≡ true)
      × (s'.processing_cmd ≡ Cmd.data_pc)
      × (s'.rx ≡ 0 ∷ [])
      × (s'.data_ready ≡ false)
      × (s'.tx ≡ s.tx)
empty_packet_missed s i r =
    let zeros : s.rx ≡ Cmd.data_pc ∷ 0 ∷ 0 ∷ 0 ∷ [] =
      r ∙ ap (λ c. Cmd.data_pc ∷ 0 ∷ word_bytes c) (sym checksum_nil) in
    let s₁ = started s (0 ∷ 0 ∷ 0 ∷ []) in
    let (s₂, stops, left, tx, ready, conn, cmd) = empty_length 0 0 s₁ i.valid.data_room refl in
    (
      s₂,
      loop_fetched s s₁ s₂ pending i.connected (ground (arith, i.processing)) i.waiting
            (fetch_data_pc s (0 ∷ 0 ∷ 0 ∷ []) i.waiting i.processing zeros)
            (unfold run_cmd recv_cmd_data_pc in ground (arith, stops, i.free))
          ∙ (unfold settle in refl),
      conn ∙ i.connected,
      cmd,
      left,
      ready ∙ i.free,
      tx,
    )
