-- ===== src/Device/Sock/Calls.antt =====
-- The adapter's socket functions whose reply is one value, each from its request to its reply.
use libmobile_atmega.Prelude.{
  ℕ, ◌≡◌, refl, arith, ◌==◌, not, Option, some, List, [], ◌∷◌, take, get_or,
}
use libmobile_atmega.Wire.{byte, word_bytes}
use libmobile_atmega.Address.{MobileAddr, address_write}
use libmobile_atmega.Address.RoundTrip.{address_write_short}
use libmobile_atmega.ProtMa.MaCmd
use libmobile_atmega.Device.State.{Device}
use libmobile_atmega.Device.Send.{Event}
use libmobile_atmega.Device.Packet.Chunks.{IsIdle}
use libmobile_atmega.Device.Sock.{
  signed_byte, bool_reply, connect_reply, mobile_impl_sock_open, mobile_impl_sock_close,
  mobile_impl_sock_connect, mobile_impl_sock_listen, mobile_impl_sock_accept,
}
use libmobile_atmega.Device.Sock.Answered.{IsExchange, Answers, ask_answered}

two_bytes : (x y : ℕ) (b : List ℕ) → take 2 b ≡ x ∷ y ∷ [] → (get_or b 0 0 ≡ x) × (get_or b 1 0 ≡ y)
two_bytes x y [] e = absurd (ground (arith, e))
two_bytes x y (a ∷ []) e = absurd (ground (arith, e))
two_bytes x y (a ∷ c ∷ b) e = (ground (arith, e), ground (arith, e))

bool_reply_lem :
    (cmd res : ℕ) (b : List ℕ)
    → take 2 b ≡ cmd ∷ res ∷ []
    → bool_reply cmd (some (2, b)) ≡ not (res == 0)
unfolding bool_reply
bool_reply_lem cmd res b e = ground (arith, two_bytes cmd res b e)

connect_reply_lem :
    (res : ℕ) (b : List ℕ)
    → take 2 b ≡ MaCmd.cmd_connect ∷ res ∷ []
    → connect_reply (some (2, b)) ≡ signed_byte res
unfolding connect_reply
connect_reply_lem res b e = ground (arith, two_bytes MaCmd.cmd_connect res b e)

pub open_answered :
    (conn type addrtype bindport res : ℕ) (s : Device) (es : List Event)
    → IsIdle s
    → s.rx ≡ []
    → IsExchange s.now (MaCmd.cmd_open ∷ res ∷ []) es
    → Answers
        (MaCmd.cmd_open ∷ byte conn ∷ byte type ∷ byte addrtype ∷ word_bytes bindport)
        s
        (not (res == 0))
        (mobile_impl_sock_open conn type addrtype bindport es s)
unfolding mobile_impl_sock_open
open_answered conn type addrtype bindport res s es idle r x =
    ask_answered _ _ _ es s _ (omega arith) (omega arith) (omega arith) idle r x
      (bool_reply_lem MaCmd.cmd_open res)

pub close_answered :
    (conn : ℕ) (s : Device) (es : List Event)
    → IsIdle s
    → s.rx ≡ []
    → IsExchange s.now (MaCmd.cmd_close ∷ []) es
    → Answers (MaCmd.cmd_close ∷ byte conn ∷ []) s tt (mobile_impl_sock_close conn es s)
unfolding mobile_impl_sock_close
close_answered conn s es idle r x =
    ask_answered _ (MaCmd.cmd_close ∷ []) _ es s _ (omega arith) (omega arith) (omega arith) idle r
      x (λ b e. refl)

pub connect_answered :
    (conn res : ℕ) (addr : Option MobileAddr) (s : Device) (es : List Event)
    → IsIdle s
    → s.rx ≡ []
    → IsExchange s.now (MaCmd.cmd_connect ∷ res ∷ []) es
    → Answers
        (MaCmd.cmd_connect ∷ byte conn ∷ address_write addr)
        s
        (signed_byte res)
        (mobile_impl_sock_connect conn addr es s)
unfolding mobile_impl_sock_connect
connect_answered conn res addr s es idle r x =
    ask_answered _ _ _ es s _ (omega (arith, address_write_short addr)) (omega arith) (omega arith)
      idle r x (connect_reply_lem res)

pub listen_answered :
    (conn res : ℕ) (s : Device) (es : List Event)
    → IsIdle s
    → s.rx ≡ []
    → IsExchange s.now (MaCmd.cmd_listen ∷ res ∷ []) es
    → Answers
        (MaCmd.cmd_listen ∷ byte conn ∷ [])
        s
        (not (res == 0))
        (mobile_impl_sock_listen conn es s)
unfolding mobile_impl_sock_listen
listen_answered conn res s es idle r x =
    ask_answered _ _ _ es s _ (omega arith) (omega arith) (omega arith) idle r x
      (bool_reply_lem MaCmd.cmd_listen res)

pub accept_answered :
    (conn res : ℕ) (s : Device) (es : List Event)
    → IsIdle s
    → s.rx ≡ []
    → IsExchange s.now (MaCmd.cmd_accept ∷ res ∷ []) es
    → Answers
        (MaCmd.cmd_accept ∷ byte conn ∷ [])
        s
        (not (res == 0))
        (mobile_impl_sock_accept conn es s)
unfolding mobile_impl_sock_accept
accept_answered conn res s es idle r x =
    ask_answered _ _ _ es s _ (omega arith) (omega arith) (omega arith) idle r x
      (bool_reply_lem MaCmd.cmd_accept res)

-- On an idle adapter whose ring is empty, where the computer acknowledges the request within the
-- timeout and then answers it, each after any number of rounds without a byte and the answer in any
-- pieces that the ring holds, the functions to open, close, connect, listen and accept send the request
-- with their arguments and return what the answer says: the truth value that its second byte stands
-- for, or, for connect, that byte as a signed number. They acknowledge the answer and give it back.
-- The answer takes no longer than the timeout from its first piece to its last, and the clock does not
-- wrap around during it.
pub socket_calls_answered :
    (conn type addrtype bindport res : ℕ) (addr : Option MobileAddr) (s : Device)
    (opening closing connecting listening accepting : List Event)
    → IsIdle s
    → s.rx ≡ []
    → IsExchange s.now (MaCmd.cmd_open ∷ res ∷ []) opening
    → IsExchange s.now (MaCmd.cmd_close ∷ []) closing
    → IsExchange s.now (MaCmd.cmd_connect ∷ res ∷ []) connecting
    → IsExchange s.now (MaCmd.cmd_listen ∷ res ∷ []) listening
    → IsExchange s.now (MaCmd.cmd_accept ∷ res ∷ []) accepting
    → Answers
        (MaCmd.cmd_open ∷ byte conn ∷ byte type ∷ byte addrtype ∷ word_bytes bindport)
        s
        (not (res == 0))
        (mobile_impl_sock_open conn type addrtype bindport opening s)
      × Answers (MaCmd.cmd_close ∷ byte conn ∷ []) s tt (mobile_impl_sock_close conn closing s)
      × Answers
          (MaCmd.cmd_connect ∷ byte conn ∷ address_write addr)
          s
          (signed_byte res)
          (mobile_impl_sock_connect conn addr connecting s)
      × Answers
          (MaCmd.cmd_listen ∷ byte conn ∷ [])
          s
          (not (res == 0))
          (mobile_impl_sock_listen conn listening s)
      × Answers
          (MaCmd.cmd_accept ∷ byte conn ∷ [])
          s
          (not (res == 0))
          (mobile_impl_sock_accept conn accepting s)
socket_calls_answered conn type addrtype bindport res addr s es₁ es₂ es₃ es₄ es₅ idle r x₁ x₂ x₃ x₄
      x₅ =
    (
      open_answered conn type addrtype bindport res s es₁ idle r x₁,
      close_answered conn s es₂ idle r x₂,
      connect_answered conn res addr s es₃ idle r x₃,
      listen_answered conn res s es₄ idle r x₄,
      accept_answered conn res s es₅ idle r x₅,
    )
