-- ===== src/Device/Sock/Safe.antt =====
-- The adapter's socket functions never fail, whatever arrives while they wait.
use libmobile_atmega.Prelude.{
  ℕ, ◌+◌, ◌-◌, ◌%◌, ◌≤◌, ◌<◌, ◌≡◌, arith, ◌==◌, not, Option, Option-cases, none, some, inl, inr,
  List, [], ◌∷◌, length, drop, length-drop,
}
use libmobile_atmega.Wire.{byte, word_bytes}
use libmobile_atmega.Address.{MobileAddr, address_write, address_read, read_host}
use libmobile_atmega.Sockets.{ℤ, pos, negsuc}
use libmobile_atmega.ProtMa.MaCmd
use libmobile_atmega.Device.State.{Device, >>-some}
use libmobile_atmega.Device.Loop.{gbridge_recv_stream, gbridge_connected}
use libmobile_atmega.Device.Inv.{IsValid}
use libmobile_atmega.Device.Send.{
  Event, returned, fault, and_then, wait_while, gbridge_cmd_data, gbridge_recv_data_wait,
  gbridge_recv_stream_wait, gbridge_cmd_stream_start, gbridge_cmd_stream_data,
  gbridge_cmd_stream_finish,
}
use libmobile_atmega.Device.Sock.{
  Reply, ask, send_stream, recv_reply, recv_stream, mobile_impl_sock_open, mobile_impl_sock_close,
  mobile_impl_sock_connect, mobile_impl_sock_listen, mobile_impl_sock_accept, mobile_impl_sock_send,
  mobile_impl_sock_recv,
}
use libmobile_atmega.Device.Sock.Waits.{
  IsSafe, Any, and_then-IsSafe, if-IsSafe, wait_while-IsSafe, cmd_data-IsSafe, IsPacket,
  data_wait-IsSafe, done-IsValid, stream_start-Returns, stream_data-Returns, stream_finish-IsSafe,
}

ask-IsSafe :
    {A : Type 0} (Q : A → Type 0) (l : List ℕ) (f : Reply → A) (es : List Event) (s : Device)
    → ((r : Reply) → IsPacket r → Q (f r))
    → IsValid s
    → IsSafe Q (ask l f es s)
unfolding ask
ask-IsSafe Q l f es s good v =
    and_then-IsSafe {P = Any} Q (gbridge_cmd_data (length l) l es s) _ (cmd_data-IsSafe l es s v)
      (λ u s₁ es₁ p v₁.
        and_then-IsSafe {P = IsPacket} Q (gbridge_recv_data_wait es₁ s₁) _
          (data_wait-IsSafe es₁ s₁ v₁) (λ r s₂ es₂ packet v₂. (good r packet, done-IsValid s₂ v₂)))

send_stream-IsSafe :
    (buffer : List ℕ) (size : ℕ) (es : List Event) (s : Device)
    → size ≤ length buffer
    → IsValid s
    → IsSafe Any (send_stream buffer size es s)
unfolding send_stream
send_stream-IsSafe buffer size es s h v =
    let (s₁, starts, v₁) = stream_start-Returns size s v in
    let (s₂, goes, v₂) = stream_data-Returns buffer size s₁ h v₁ in
    let both =
      >>-some (gbridge_cmd_stream_start size) (gbridge_cmd_stream_data buffer size) starts in
    rw (both, goes, send_stream)
      (and_then-IsSafe {P = Any} Any (gbridge_cmd_stream_finish es s₂) _
        (stream_finish-IsSafe es s₂ v₂)
        (λ u s₃ es₃ p v₃.
          and_then-IsSafe {P = IsPacket} Any (gbridge_recv_data_wait es₃ s₃) _
            (data_wait-IsSafe es₃ s₃ v₃) (λ r s₄ es₄ packet v₄. (tt, done-IsValid s₄ v₄))))

send-IsSafe :
    (conn : ℕ) (buffer : List ℕ) (size : ℕ) (addr : Option MobileAddr) (es : List Event)
    (s : Device)
    → size ≤ length buffer
    → IsValid s
    → IsSafe Any (mobile_impl_sock_send conn buffer size addr es s)
unfolding mobile_impl_sock_send
send-IsSafe conn buffer size addr es s h v =
    let l = MaCmd.cmd_send ∷ byte conn ∷ address_write addr in
    and_then-IsSafe {P = Any} Any (gbridge_cmd_data (length l) l es s) _ (cmd_data-IsSafe l es s v)
      (λ u s₁ es₁ p v₁.
        if-IsSafe Any (not (gbridge_connected s₁)) _ _ (tt, done-IsValid s₁ v₁)
          (send_stream-IsSafe buffer size es₁ s₁ h v₁))

-- With 19 bytes in the buffer no address reads behind it, whatever size it is given.
address_read_total :
    (buffer : List ℕ) (size : ℕ)
    → 19 ≤ length buffer
    → (r : ℕ × Option MobileAddr) × (address_read buffer size ≡ some r)
unfolding address_read read_host
address_read_total (a ∷ b ∷ c ∷ buffer) size h =
    elim (Option-cases (address_read (a ∷ b ∷ c ∷ buffer) size)) [
      | inl e ↦ absurd (ground (arith, e))
      | inr (r, e) ↦ (r, e)
    ]
address_read_total [] size h = absurd (omega arith)
address_read_total (a ∷ []) size h = absurd (omega arith)
address_read_total (a ∷ b ∷ []) size h = absurd (omega arith)

-- A reply to `recv` is read inside the buffer.
IsRead : Option (Option (ℤ × Option MobileAddr)) → Type 0
IsRead none = ⊥
IsRead (some r) = Unit

recv_reply-IsRead : (r : Reply) → IsPacket r → IsRead (recv_reply r)
unfolding recv_reply IsRead
recv_reply-IsRead none h = tt
recv_reply-IsRead (some (size, buffer)) h =
    let (r, reads) =
      address_read_total (drop 3 buffer) ((size + 0x1_0000 - 3) % 0x1_0000)
        (omega (arith, length-drop 3 buffer, h.0)) in
    ground (arith, reads)

recv_stream-IsValid :
    (buffer : List ℕ) (size : ℕ) (s : Device)
    → size ≤ length buffer
    → size < 0x1_0000
    → IsValid s
    → IsValid (gbridge_recv_stream buffer size s)
unfolding gbridge_recv_stream
recv_stream-IsValid buffer size s h small v = ground arith

recv_stream-IsSafe :
    (buffer : List ℕ) (size : ℕ) (res : ℤ) (es : List Event) (s : Device)
    → size ≤ length buffer
    → size < 0x1_0000
    → IsValid s
    → IsSafe Any (recv_stream buffer size res es s)
unfolding recv_stream gbridge_recv_stream_wait
recv_stream-IsSafe buffer size (negsuc n) es s h small v = (tt, v)
recv_stream-IsSafe buffer size (pos n) es s h small v =
    if-IsSafe Any (n == 0) (returned (pos n) s es) _ (tt, v)
      (and_then-IsSafe {P = Any} Any (gbridge_recv_stream_wait buffer size es s) _
        (and_then-IsSafe {P = Any} Any (wait_while _ es (gbridge_recv_stream buffer size s)) _
          (wait_while-IsSafe _ es _ (recv_stream-IsValid buffer size s h small v))
          (λ u s₁ es₁ p v₁. (tt, v₁)))
        (λ ok s₁ es₁ p v₁. (tt, v₁)))

recv-IsSafe :
    (conn : ℕ) (buffer : List ℕ) (size : ℕ) (es : List Event) (s : Device)
    → size ≤ length buffer
    → size < 0x1_0000
    → IsValid s
    → IsSafe Any (mobile_impl_sock_recv conn buffer size es s)
unfolding mobile_impl_sock_recv IsRead
recv-IsSafe conn buffer size es s h small v =
    and_then-IsSafe {P = IsRead} Any
      (ask (MaCmd.cmd_recv ∷ byte conn ∷ word_bytes size) recv_reply es s) _
      (ask-IsSafe IsRead (MaCmd.cmd_recv ∷ byte conn ∷ word_bytes size) recv_reply es s
        recv_reply-IsRead v)
      go
  where
    go :
        (r : Option (Option (ℤ × Option MobileAddr))) (s₁ : Device) (es₁ : List Event)
        → IsRead r
        → IsValid s₁
        → IsSafe {A = ℤ × Option MobileAddr} Any (elim r [
          | none ↦ fault
          | some none ↦ returned (negsuc 0, none) s₁ es₁
          | some (some (res, addr)) ↦
              and_then
                (recv_stream buffer size res es₁ s₁)
                λ value s₂ es₂. returned (value, addr) s₂ es₂
        ])
    go none s₁ es₁ p v₁ = absurd p
    go (some none) s₁ es₁ p v₁ = (tt, v₁)
    go (some (some (res, addr))) s₁ es₁ p v₁ =
        and_then-IsSafe {P = Any} Any (recv_stream buffer size res es₁ s₁) _
          (recv_stream-IsSafe buffer size res es₁ s₁ h small v₁) (λ value s₂ es₂ q v₂. (tt, v₂))

-- None of the adapter's socket functions fails: called in a valid state, with a buffer that has the
-- size given and fits in 16 bits, each of them returns or is still waiting, in a valid state, and
-- has read and written nothing outside its buffers, whatever bytes have arrived and come between
-- the rounds of its waiting loops, and whatever the computer answers.
pub socket_calls-IsSafe :
    (conn type addrtype bindport size : ℕ) (addr : Option MobileAddr) (buffer : List ℕ)
    (es : List Event) (s : Device)
    → size ≤ length buffer
    → size < 0x1_0000
    → IsValid s
    → IsSafe Any (mobile_impl_sock_open conn type addrtype bindport es s)
      × IsSafe Any (mobile_impl_sock_close conn es s)
      × IsSafe Any (mobile_impl_sock_connect conn addr es s)
      × IsSafe Any (mobile_impl_sock_listen conn es s)
      × IsSafe Any (mobile_impl_sock_accept conn es s)
      × IsSafe Any (mobile_impl_sock_send conn buffer size addr es s)
      × IsSafe Any (mobile_impl_sock_recv conn buffer size es s)
unfolding mobile_impl_sock_open mobile_impl_sock_close mobile_impl_sock_connect
    mobile_impl_sock_listen mobile_impl_sock_accept
socket_calls-IsSafe conn type addrtype bindport size addr buffer es s h small v = (
  ask-IsSafe Any _ _ es s (λ r p. tt) v,
  ask-IsSafe Any _ _ es s (λ r p. tt) v,
  ask-IsSafe Any _ _ es s (λ r p. tt) v,
  ask-IsSafe Any _ _ es s (λ r p. tt) v,
  ask-IsSafe Any _ _ es s (λ r p. tt) v,
  send-IsSafe conn buffer size addr es s h v,
  recv-IsSafe conn buffer size es s h small v,
)
