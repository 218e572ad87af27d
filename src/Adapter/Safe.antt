-- ===== src/Adapter/Safe.antt =====
-- The adapter's program never fails.
use libmobile_atmega.Prelude.{
  ℕ, ◌≤◌, ◌<◌, arith, ltb, not, Option, none, some, List, [], ◌∷◌, length, All,
}
use libmobile_atmega.Wire.Cmd
use libmobile_atmega.Device.State.{Device, gbridge_init}
use libmobile_atmega.Device.Loop.{gbridge_recv_data, gbridge_recv_data_done}
use libmobile_atmega.Device.Inv.{IsValid, gbridge_init-IsValid}
use libmobile_atmega.Device.Safe.{gbridge_loop_total}
use libmobile_atmega.Device.Send.{Event, arrive, Outcome, returned, gbridge_cmd_debug_line}
use libmobile_atmega.Device.Sock.{device_prot_ma_loop}
use libmobile_atmega.Device.Sock.Waits.{
  IsSafe, Any, arrive-IsValid, and_then-IsSafe, if-IsSafe, wait_cmd-IsSafe, done-IsValid,
  written-IsValid,
}
use libmobile_atmega.Device.Sock.Safe.{socket_calls-IsSafe}
use libmobile_atmega.Adapter.{
  Callback, debug_log, sock_open, sock_close, sock_connect, sock_listen, sock_accept, sock_send,
  sock_recv, mobile_impl_debug_log, quietly, run_callback, run_callbacks, loop_rest, adapter_loop,
  adapter_main,
}

-- Buffers have the size that is given, of 16 bits.
abbrev pub IsSized : Callback → Type 0
IsSized (debug_log line) = Unit
IsSized (sock_open conn type addrtype bindport) = Unit
IsSized (sock_close conn) = Unit
IsSized (sock_connect conn addr) = Unit
IsSized (sock_listen conn) = Unit
IsSized (sock_accept conn) = Unit
IsSized (sock_send conn buffer size addr) = (size ≤ length buffer) × (size < 0x1_0000)
IsSized (sock_recv conn buffer size) = (size ≤ length buffer) × (size < 0x1_0000)

debug_log-IsSafe :
    (line : List ℕ) (es : List Event) (s : Device)
    → IsValid s
    → IsSafe Any (mobile_impl_debug_log line es s)
unfolding mobile_impl_debug_log gbridge_cmd_debug_line
debug_log-IsSafe line es s v =
    if-IsSafe Any (not s.connected) (returned tt s es) _ (tt, v)
      (if-IsSafe Any (ltb 0xff (length line)) (returned tt s es) _ (tt, v)
        (wait_cmd-IsSafe Cmd.debug_line es _ (written-IsValid _ s v)))

quietly-IsSafe : {A : Type 0} (o : Outcome A) → IsSafe Any o → IsSafe Any (quietly o)
quietly-IsSafe o h = and_then-IsSafe {P = Any} Any o _ h (λ a s es p v. (tt, v))

callback-IsSafe :
    (c : Callback) (es : List Event) (s : Device)
    → IsSized c
    → IsValid s
    → IsSafe Any (run_callback c es s)
unfolding run_callback
callback-IsSafe (debug_log line) es s h v = debug_log-IsSafe line es s v
callback-IsSafe (sock_open conn type addrtype bindport) es s h v =
    let all =
      socket_calls-IsSafe conn type addrtype bindport 0 none [] es s (omega arith) (omega arith)
        v in
    quietly-IsSafe _ all.0
callback-IsSafe (sock_close conn) es s h v =
    let all = socket_calls-IsSafe conn 0 0 0 0 none [] es s (omega arith) (omega arith) v in
    quietly-IsSafe _ all.1
callback-IsSafe (sock_connect conn addr) es s h v =
    let all = socket_calls-IsSafe conn 0 0 0 0 addr [] es s (omega arith) (omega arith) v in
    quietly-IsSafe _ all.2
callback-IsSafe (sock_listen conn) es s h v =
    let all = socket_calls-IsSafe conn 0 0 0 0 none [] es s (omega arith) (omega arith) v in
    quietly-IsSafe _ all.3
callback-IsSafe (sock_accept conn) es s h v =
    let all = socket_calls-IsSafe conn 0 0 0 0 none [] es s (omega arith) (omega arith) v in
    quietly-IsSafe _ all.4
callback-IsSafe (sock_send conn buffer size addr) es s h v =
    let all = socket_calls-IsSafe conn 0 0 0 size addr buffer es s h.0 h.1 v in
    quietly-IsSafe _ all.5
callback-IsSafe (sock_recv conn buffer size) es s h v =
    let all = socket_calls-IsSafe conn 0 0 0 size none buffer es s h.0 h.1 v in
    quietly-IsSafe _ all.6

run_callbacks-IsSafe :
    (cs : List Callback) (es : List Event) (s : Device)
    → All IsSized cs
    → IsValid s
    → IsSafe Any (run_callbacks cs es s)
unfolding run_callbacks
run_callbacks-IsSafe [] es s h v = (tt, v)
run_callbacks-IsSafe (c ∷ cs) es s (h, hs) v =
    and_then-IsSafe {P = Any} Any (run_callback c es s) _ (callback-IsSafe c es s h v)
      (λ u s₁ es₁ p v₁. run_callbacks-IsSafe cs es₁ s₁ hs v₁)

prot_ma_loop-IsValid : (s : Device) → IsValid s → IsValid (device_prot_ma_loop s)
unfolding device_prot_ma_loop
prot_ma_loop-IsValid s v = go (gbridge_recv_data s)
  where
    go :
        (o : Option (ℕ × List ℕ))
        → IsValid (elim o [ none ↦ s | some packet ↦ gbridge_recv_data_done s ])
    go none = v
    go (some packet) = done-IsValid s v

loop_rest-IsSafe : (es : List Event) (s : Device) → IsValid s → IsSafe Any (loop_rest es s)
unfolding loop_rest
loop_rest-IsSafe [] s v = v
loop_rest-IsSafe (e ∷ es) s v =
    let (s₁, runs, v₁) = gbridge_loop_total (arrive e s) (arrive-IsValid e s v) in
    rw (runs, loop_rest) (tt, prot_ma_loop-IsValid s₁ v₁)

adapter_loop-IsSafe :
    (rounds : List (List Callback)) (es : List Event) (s : Device)
    → All (λ cs. All IsSized cs) rounds
    → IsValid s
    → IsSafe Any (adapter_loop rounds es s)
unfolding adapter_loop
adapter_loop-IsSafe [] es s h v = v
adapter_loop-IsSafe (cs ∷ rounds) es s (h, hs) v =
    and_then-IsSafe {P = Any} Any (run_callbacks cs es s) _ (run_callbacks-IsSafe cs es s h v)
      (λ u s₁ es₁ p v₁.
        and_then-IsSafe {P = Any} Any (loop_rest es₁ s₁) _ (loop_rest-IsSafe es₁ s₁ v₁)
          (λ w s₂ es₂ q v₂. adapter_loop-IsSafe rounds es₂ s₂ hs v₂))

-- The adapter's program never fails: from a state with buffers of the right sizes `main` initialises
-- the protocol and then, however many rounds its loop has run, whichever callbacks libmobile has made
-- in them, with buffers of the sizes given, and whatever bytes have arrived in between, the state is
-- valid, no function has read or written outside a buffer, and none has waited for a byte inside a
-- packet.
pub adapter_main-IsSafe :
    (rounds : List (List Callback)) (es : List Event) (s : Device)
    → All (λ cs. All IsSized cs) rounds
    → IsValid s
    → IsSafe Any (adapter_main rounds es s)
unfolding adapter_main
adapter_main-IsSafe rounds es s h v =
    adapter_loop-IsSafe rounds es (gbridge_init s) h (gbridge_init-IsValid v)
