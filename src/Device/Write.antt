-- ===== src/Device/Write.antt =====
-- What the sending functions of atmega328p/source/gbridge.c put on the line.
use libmobile_atmega.Prelude.{
  ℕ, zero, suc, ◌≤◌, ◌<◌, ◌≡◌, refl, ap, sym, ◌∙◌, arith, leb, ◌&&◌, true, some, List, [], ◌∷◌,
  ◌++◌, append_assoc, append-nil, length, take, length-take, take_all, All, if◌then◌else◌,
}
use libmobile_atmega.Wire.{gbridge_max_data_size, byte, word_bytes, checksum_loop}
use libmobile_atmega.Wire.Cmd
use libmobile_atmega.Wire.Checksum.{checksum, checksum_nil, checksum_loop_lem, checksum_loop-append}
use libmobile_atmega.Wire.Frame.{data_frame, stream_frame}
use libmobile_atmega.Device.State.{Device, M, ◌>>◌, >>-some}
use libmobile_atmega.Device.Send.{
  Event, returned, wait_cmd, gbridge_cmd_data, gbridge_cmd_stream_finish, put_bytes, checksum_add,
  put_data, gbridge_cmd_stream_start, gbridge_cmd_stream_data,
}

pub put_bytes_lem :
    (n : ℕ) (buffer : List ℕ) (s : Device)
    → n ≤ length buffer
    → put_bytes n buffer s ≡ some (tt, record s { tx = s.tx ++ take n buffer })
unfolding put_bytes
put_bytes_lem zero buffer s h = ap (λ x. some (tt, record s { tx = x })) (sym (append-nil s.tx))
put_bytes_lem (suc n) [] s h = absurd (omega arith)
put_bytes_lem (suc n) (c ∷ buffer) s h =
    put_bytes_lem n buffer (record s { tx = s.tx ++ (c ∷ []) }) (omega arith)
    ∙ ap (λ x. some (tt, record s { tx = x })) (append_assoc s.tx (c ∷ []) (take n buffer))

put_data-data_frame :
    (size : ℕ) (buffer : List ℕ) (s : Device)
    → size ≤ length buffer
    → size ≤ gbridge_max_data_size
    → put_data size buffer s
      ≡ some (tt, record s { tx = s.tx ++ data_frame Cmd.data_packet (take size buffer) })
unfolding put_data checksum_add
put_data-data_frame size buffer s h k = written ∙ ap (λ x. some (tt, record s { tx = x })) regrouped
  where
    payload : List ℕ
    payload = take size buffer

    start : Device
    start = record s { tx = (s.tx ++ (Cmd.data_packet ∷ [])) ++ (byte size ∷ []) }

    same : byte size ≡ size
    same = omega arith

    counted : length payload ≡ size
    counted = omega (arith, length-take size buffer)

    written :
        put_data size buffer s
        ≡ some (tt, record s { tx = (start.tx ++ payload) ++ word_bytes (checksum payload) })
    written =
        ground (arith, put_bytes_lem size buffer start h, same, checksum_loop_lem size buffer h)

    regrouped :
        (start.tx ++ payload) ++ word_bytes (checksum payload)
        ≡ s.tx ++ data_frame Cmd.data_packet payload
    regrouped = rw (same, counted) (simp append_assoc)

-- `gbridge_cmd_data` of a connected adapter writes exactly the packet of its data, with the checksum
-- of those bytes, and then waits for the reply. If it is not connected, or the size is over the
-- limit, it writes nothing and returns at once.
pub gbridge_cmd_data-data_frame :
    (size : ℕ) (buffer : List ℕ) (es : List Event) (s : Device)
    → size ≤ length buffer
    → gbridge_cmd_data size buffer es s ≡ (
        if s.connected && leb size gbridge_max_data_size
        then wait_cmd Cmd.data_packet es
            (record s { tx = s.tx ++ data_frame Cmd.data_packet (take size buffer) })
        else returned tt s es)
unfolding gbridge_cmd_data
gbridge_cmd_data-data_frame size buffer es s h = ground (arith, put_data-data_frame size buffer s h)

-- The chunks of a stream, each with its length
pub put_chunks : List (List ℕ) → M (Unit {0})
put_chunks [] s = some (tt, s)
put_chunks (c ∷ cs) s = (gbridge_cmd_stream_data c (length c) >> put_chunks cs) s

abbrev pub flat : List (List ℕ) → List ℕ
flat [] = []
flat (c ∷ cs) = c ++ flat cs

stream_data_lem :
    (c : List ℕ) (before : List ℕ) (s : Device)
    → s.connected ≡ true
    → length c < 256
    → s.stream_checksum ≡ checksum before
    → gbridge_cmd_stream_data c (length c) s
      ≡ some (tt, record s { tx = s.tx ++ c; stream_checksum = checksum (before ++ c) })
unfolding gbridge_cmd_stream_data checksum_add
stream_data_lem c before s conn short e = ground (arith, sums, writes, take_all (length c) c)
  where
    same : byte (length c) ≡ length c
    same = omega arith

    sums : checksum_loop (byte (length c)) c s.stream_checksum ≡ some (checksum (before ++ c))
    sums =
        rw (same, e)
          (checksum_loop-append (length c) before c (omega arith)
            ∙ ap (λ x. some (checksum (before ++ x))) (take_all (length c) c (omega arith)))

    writes :
        put_bytes (length c) c (record s { stream_checksum = checksum (before ++ c) })
        ≡ some (
          tt,
          record s { tx = s.tx ++ take (length c) c; stream_checksum = checksum (before ++ c) },
        )
    writes =
        put_bytes_lem (length c) c (record s { stream_checksum = checksum (before ++ c) })
          (omega arith)

put_chunks_lem :
    (cs : List (List ℕ)) (before : List ℕ) (s : Device)
    → s.connected ≡ true
    → All (λ c. length c < 256) cs
    → s.stream_checksum ≡ checksum before
    → put_chunks cs s
      ≡ some (tt, record s { tx = s.tx ++ flat cs; stream_checksum = checksum (before ++ flat cs) })
unfolding put_chunks
put_chunks_lem [] before s conn short e = ground (arith, append-nil s.tx, append-nil before, e)
put_chunks_lem (c ∷ cs) before s conn (first, others) e = ground (
  arith,
  stream_data_lem c before s conn first e,
  put_chunks_lem cs (before ++ c)
      (record s { tx = s.tx ++ c; stream_checksum = checksum (before ++ c) }) conn others refl,
  append_assoc s.tx c (flat cs),
  append_assoc before c (flat cs),
)

starts :
    (s : Device) (n : ℕ)
    → s.connected ≡ true
    → gbridge_cmd_stream_start n s
      ≡ some
          (tt, record s { tx = (s.tx ++ (Cmd.stream ∷ [])) ++ word_bytes n; stream_checksum = 0 })
unfolding gbridge_cmd_stream_start
starts s n conn = rw (conn, gbridge_cmd_stream_start)

-- A stream sent by a connected adapter in chunks of up to 255 bytes: from the announcement of its
-- length to `gbridge_cmd_stream_finish` exactly the packet of all the chunks together is written,
-- with their checksum, and then the reply is waited for.
pub gbridge_cmd_stream-stream_frame :
    (cs : List (List ℕ)) (es : List Event) (s : Device)
    → s.connected ≡ true
    → All (λ c. length c < 256) cs
    → (s₁ : Device) × ((gbridge_cmd_stream_start (length (flat cs)) >> put_chunks cs) s
        ≡ some (tt, s₁))
      × (gbridge_cmd_stream_finish es s₁
          ≡ wait_cmd Cmd.stream es (record s₁ { tx = s.tx ++ stream_frame Cmd.stream (flat cs) }))
unfolding gbridge_cmd_stream_finish
gbridge_cmd_stream-stream_frame cs es s conn short = (
  ended,
  >>-some (gbridge_cmd_stream_start (length (flat cs))) (put_chunks cs)
        (starts s (length (flat cs)) conn)
      ∙ put_chunks_lem cs [] begun conn short checksum_nil,
  ending,
)
  where
    begun : Device
    begun = record s {
      tx = (s.tx ++ (Cmd.stream ∷ [])) ++ word_bytes (length (flat cs));
      stream_checksum = 0;
    }

    ended : Device
    ended = record begun { tx = begun.tx ++ flat cs; stream_checksum = checksum (flat cs) }

    regrouped :
        ended.tx ++ word_bytes (checksum (flat cs)) ≡ s.tx ++ stream_frame Cmd.stream (flat cs)
    regrouped = simp append_assoc

    ending :
        gbridge_cmd_stream_finish es ended
        ≡ wait_cmd Cmd.stream es (record ended { tx = s.tx ++ stream_frame Cmd.stream (flat cs) })
    ending = ground (arith, regrouped)
