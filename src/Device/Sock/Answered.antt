-- ===== src/Device/Sock/Answered.antt =====
-- A socket call of the adapter from the request to the reply.
use libmobile_atmega.Prelude.{
  ℕ, ◌+◌, ◌≤◌, ◌<◌, ◌^◌, ◌≡◌, ◌⊎◌, refl, ap, sym, ◌∙◌, append_assoc, arith, false, true, some, List,
  [], ◌∷◌, ◌++◌, length, take, take_all,
}
use libmobile_atmega.Wire.{gbridge_max_data_size, gbridge_timeout_us, reply}
use libmobile_atmega.Wire.Cmd
use libmobile_atmega.Wire.Frame.{data_frame}
use libmobile_atmega.Device.State.{Device, elapsed}
use libmobile_atmega.Device.Loop.{gbridge_recv_data_done}
use libmobile_atmega.Device.Send.{Event, serial_room, Outcome, returned, gbridge_cmd_data}
use libmobile_atmega.Device.Packet.Pieces.{all_bytes, InTime, InRoom}
use libmobile_atmega.Device.Packet.Chunks.{IsIdle}
use libmobile_atmega.Device.Packet.Awaited.{IsSilent, recv_data_wait-Received}
use libmobile_atmega.Device.Reply.Ends.{IsQuiet, reply_ends_wait}
use libmobile_atmega.Device.Write.{gbridge_cmd_data-data_frame}
use libmobile_atmega.Device.Sock.{Reply, ask}

-- The computer's side of a call that is made at the time `now`, as the rounds of the adapter see it:
-- after any number of rounds without a byte comes its acknowledgement, within the timeout, and then,
-- after any number of rounds more, its answer, in pieces of any size that the ring holds. The answer
-- takes no longer than the timeout from its first piece to its last. Its first bytes may come in the
-- round of the acknowledgement: then no round without a byte counts before the rest.
pub record IsExchange (now : ℕ) (answer : List ℕ) (es : List Event) : Type 0 where
  pub quiet : List Event
  pub ack : Event
  pub silent : List Event
  pub pieces : List Event
  pub first : List ℕ
  pub start : ℕ
  pub rounds : es ≡ quiet ++ (ack ∷ (silent ++ pieces))
  pub no_byte : IsQuiet now quiet
  pub acknowledges : ack.bytes ≡ reply Cmd.data_packet ∷ first
  pub ack_room : length ack.bytes ≤ serial_room
  pub soon : elapsed ack.time now ≤ gbridge_timeout_us
  pub none_yet : IsSilent silent
  pub apart : (first ≡ []) ⊎ (silent ≡ [])
  pub answers : first ++ all_bytes pieces ≡ data_frame Cmd.data_pc answer
  pub some_piece : 0 < length pieces
  pub in_time : InTime start (start + gbridge_timeout_us) pieces
  pub no_wrap : start + gbridge_timeout_us < 2 ^ 32
  pub in_room : InRoom (length first) pieces

bytes-append : (es fs : List Event) → all_bytes (es ++ fs) ≡ all_bytes es ++ all_bytes fs
bytes-append [] fs = refl
bytes-append (e ∷ es) fs =
    ap (λ l. e.bytes ++ l) (bytes-append es fs)
    ∙ sym (append_assoc e.bytes (all_bytes es) (all_bytes fs))

quiet_bytes : (now : ℕ) (es : List Event) → IsQuiet now es → all_bytes es ≡ []
quiet_bytes now [] h = refl
quiet_bytes now (e ∷ es) h = rw (h.0, quiet_bytes now es h.2) refl

silent_bytes : (es : List Event) → IsSilent es → all_bytes es ≡ []
silent_bytes [] h = refl
silent_bytes (e ∷ es) h = rw (h.0, silent_bytes es h.1) refl

-- The bytes that come are the acknowledgement and the answer.
pub IsExchange-bytes :
    (now : ℕ) (answer : List ℕ) (es : List Event)
    → IsExchange now answer es
    → all_bytes es ≡ reply Cmd.data_packet ∷ data_frame Cmd.data_pc answer
IsExchange-bytes now answer es x =
    ap all_bytes x.rounds
    ∙ bytes-append x.quiet (x.ack ∷ (x.silent ++ x.pieces))
    ∙ rw
        (
          quiet_bytes now x.quiet x.no_byte,
          bytes-append x.silent x.pieces,
          silent_bytes x.silent x.none_yet,
          x.acknowledges,
        )
        (ap (λ l. reply Cmd.data_packet ∷ l) x.answers)

-- A call that has come back with a value: it has sent its request and acknowledged the answer, which
-- has been given back, and it has used all bytes that came.
abbrev pub Answers : {A : Type 0} → List ℕ → Device → A → Outcome A → Type 0
Answers request s value o =
    (s' : Device) × (left : List Event) × (o ≡ returned value s' left)
    × (s'.tx ≡ (s.tx ++ data_frame Cmd.data_packet request) ++ (reply Cmd.data_pc ∷ []))
    × (s'.data_ready ≡ false)
    × (s'.connected ≡ true)
    × (s'.rx ++ all_bytes left ≡ [])

-- The value of a call is computed from a reply that begins with the answer.
pub ask_answered :
    {A : Type 0} (l answer : List ℕ) (f : Reply → A) (es : List Event) (s : Device) (value : A)
    → length l ≤ gbridge_max_data_size
    → 0 < length answer
    → length answer ≤ gbridge_max_data_size
    → IsIdle s
    → s.rx ≡ []
    → IsExchange s.now answer es
    → ((b : List ℕ) → take (length answer) b ≡ answer → f (some (length answer, b)) ≡ value)
    → Answers l s value (ask l f es s)
unfolding ask gbridge_recv_data_done
ask_answered l answer f es s value fits some_answer short idle r x computes =
    let s₁ = record s { tx = s.tx ++ data_frame Cmd.data_packet l } in
    let s₂ = record s₁ {
      waiting_cmd = Cmd.none;
      waiting_cmd_time = s.now;
      rx = x.first;
      now = x.ack.time;
    } in
    let later = x.silent ++ x.pieces in
    let asks : gbridge_cmd_data (length l) l (x.quiet ++ (x.ack ∷ later)) s ≡ returned tt s₂ later =
      gbridge_cmd_data-data_frame (length l) l (x.quiet ++ (x.ack ∷ later)) s (omega arith)
      ∙ ground (arith, idle.connected, fits, take_all (length l) l (omega arith))
      ∙ reply_ends_wait Cmd.data_packet (omega arith) (omega arith) x.ack later x.first
          x.acknowledges x.ack_room x.quiet s₁ idle.connected idle.waiting idle.processing r
          x.no_byte x.soon in
    let (s₃, left, waits, received, stays, used) =
      recv_data_wait-Received answer some_answer short x.start x.pieces x.no_wrap x.in_time
        x.some_piece x.first x.silent s₂
        (record {
          valid = ground (arith, idle.valid);
          connected = idle.connected;
          waiting = refl;
          processing = idle.processing;
          free = idle.free;
        })
        refl x.apart x.none_yet x.answers x.in_room in
    (
      gbridge_recv_data_done s₃,
      left,
      rw (x.rounds, asks, waits, ask)
          (ap (λ v. returned v (gbridge_recv_data_done s₃) left) (computes s₃.data_buf received.1)),
      received.2,
      refl,
      stays,
      used,
    )
