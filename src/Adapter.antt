-- ===== src/Adapter.antt =====
-- The loop of atmega328p/source/main.c, without DEBUG_SPI and DEBUG_CMD. libmobile's `mobile_loop` is
-- a sequence of calls of the functions that it is given, whichever it makes, and so is `mobile_start`.
pub mod Safe
use libmobile_atmega.Prelude.{ℕ, Option, none, some, List, [], ◌∷◌}
use libmobile_atmega.Address.{MobileAddr}
use libmobile_atmega.Device.State.{Device, gbridge_init}
use libmobile_atmega.Device.Loop.{gbridge_loop}
use libmobile_atmega.Device.Send.{
  Event, arrive, Outcome, returned, waiting, fault, and_then, gbridge_cmd_debug_line,
}
use libmobile_atmega.Device.Sock.{
  mobile_impl_sock_open, mobile_impl_sock_close, mobile_impl_sock_connect, mobile_impl_sock_listen,
  mobile_impl_sock_accept, mobile_impl_sock_send, mobile_impl_sock_recv, device_prot_ma_loop,
}

unfoldable pub mobile_impl_debug_log : List ℕ → List Event → Device → Outcome (Unit {0})
mobile_impl_debug_log line es s = gbridge_cmd_debug_line line es s

-- The functions that use the line
pub data Callback : Type 0 where
  debug_log : List ℕ → Callback
  sock_open : (conn type addrtype bindport : ℕ) → Callback
  sock_close : (conn : ℕ) → Callback
  sock_connect : (conn : ℕ) → Option MobileAddr → Callback
  sock_listen : (conn : ℕ) → Callback
  sock_accept : (conn : ℕ) → Callback
  sock_send : (conn : ℕ) → List ℕ → ℕ → Option MobileAddr → Callback
  sock_recv : (conn : ℕ) → List ℕ → ℕ → Callback

-- What a call does, its value left out
abbrev pub quietly : {A : Type 0} → Outcome A → Outcome (Unit {0})
quietly o = and_then o λ a s es. returned tt s es

unfoldable pub run_callback : Callback → List Event → Device → Outcome (Unit {0})
run_callback (debug_log line) es s = mobile_impl_debug_log line es s
run_callback (sock_open conn type addrtype bindport) es s =
    quietly (mobile_impl_sock_open conn type addrtype bindport es s)
run_callback (sock_close conn) es s = quietly (mobile_impl_sock_close conn es s)
run_callback (sock_connect conn addr) es s = quietly (mobile_impl_sock_connect conn addr es s)
run_callback (sock_listen conn) es s = quietly (mobile_impl_sock_listen conn es s)
run_callback (sock_accept conn) es s = quietly (mobile_impl_sock_accept conn es s)
run_callback (sock_send conn buffer size addr) es s =
    quietly (mobile_impl_sock_send conn buffer size addr es s)
run_callback (sock_recv conn buffer size) es s =
    quietly (mobile_impl_sock_recv conn buffer size es s)

unfoldable pub run_callbacks : List Callback → List Event → Device → Outcome (Unit {0})
run_callbacks [] es s = returned tt s es
run_callbacks (c ∷ cs) es s = and_then (run_callback c es s) λ u s₁ es₁. run_callbacks cs es₁ s₁

-- The body of the loop behind `mobile_loop`; one event comes before it.
unfoldable pub loop_rest : List Event → Device → Outcome (Unit {0})
loop_rest [] s = waiting s
loop_rest (e ∷ es) s = elim (gbridge_loop (arrive e s)) [
  | none ↦ fault
  | some (u, s₁) ↦ returned tt (device_prot_ma_loop s₁) es
]

-- So many rounds of the loop, each with the calls that libmobile makes in it
unfoldable pub adapter_loop : List (List Callback) → List Event → Device → Outcome (Unit {0})
adapter_loop [] es s = waiting s
adapter_loop (cs ∷ rounds) es s =
    and_then (run_callbacks cs es s)
      λ u s₁ es₁. and_then (loop_rest es₁ s₁) λ v s₂ es₂. adapter_loop rounds es₂ s₂

-- `main` from `gbridge_init` on
unfoldable pub adapter_main : List (List Callback) → List Event → Device → Outcome (Unit {0})
adapter_main rounds es s = adapter_loop rounds es (gbridge_init s)
