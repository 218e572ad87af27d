-- ===== src/Device/Sock.antt =====
-- atmega328p/source/gbridge_prot_ma.c: the adapter's socket functions. Each writes the bytes that it
-- sends to the start of its buffer first, so what the buffer held before is not kept here.
pub mod Offline
pub mod Answered
pub mod Calls
pub mod Waits
pub mod Safe
use libmobile_atmega.Prelude.{
  ℕ, ◌+◌, ◌-◌, ◌%◌, ◌==◌, ltb, not, Bool, true, false, Option, none, some, List, [], ◌∷◌, ◌++◌,
  length, get_or, drop, if◌then◌else◌,
}
use libmobile_atmega.Wire.{byte, word, word_bytes}
use libmobile_atmega.Address.{MobileAddr, address_write, address_read}
use libmobile_atmega.Sockets.{ℤ, pos, negsuc}
use libmobile_atmega.ProtMa.MaCmd
use libmobile_atmega.Device.State.{Device, M, ◌>>◌}
use libmobile_atmega.Device.Loop.{gbridge_connected, gbridge_recv_data, gbridge_recv_data_done}
use libmobile_atmega.Device.Send.{
  Event, Outcome, returned, waiting, fault, and_then, gbridge_cmd_data, gbridge_cmd_stream_start,
  gbridge_cmd_stream_data, gbridge_cmd_stream_finish, gbridge_recv_data_wait,
  gbridge_recv_stream_wait,
}

-- `gbridge_prot_ma_loop`
unfoldable pub device_prot_ma_loop : Device → Device
device_prot_ma_loop s = elim (gbridge_recv_data s) [
  | none ↦ s
  | some packet ↦ gbridge_recv_data_done s
]

-- `(char)` and `(int16_t)`
abbrev pub signed_byte : ℕ → ℤ
signed_byte x = if ltb x 0x80 then pos x else negsuc (0xff - x)

abbrev pub signed_word : ℕ → ℤ
signed_word x = if ltb x 0x8000 then pos x else negsuc (0xffff - x)

-- What `gbridge_recv_data_wait` returns
abbrev pub Reply : Type 0
Reply = Option (ℕ × List ℕ)

-- `gbridge_cmd_data` and `gbridge_recv_data_wait`, and `gbridge_recv_data_done` once the reply has
-- been looked at
unfoldable pub ask : {A : Type 0} → List ℕ → (Reply → A) → List Event → Device → Outcome A
ask l f es s = and_then (gbridge_cmd_data (length l) l es s) λ u s₁ es₁.
    and_then (gbridge_recv_data_wait es₁ s₁)
      λ r s₂ es₂. returned (f r) (gbridge_recv_data_done s₂) es₂

-- The reply to a command with a truth value, and false without one
unfoldable pub bool_reply : ℕ → Reply → Bool
bool_reply cmd none = false
bool_reply cmd (some (size, buffer)) =
    if not (size == 2)
    then false
    else if not (get_or buffer 0 0 == cmd)
    then false
    else not (get_or buffer 1 0 == 0)

unfoldable pub mobile_impl_sock_open : ℕ → ℕ → ℕ → ℕ → List Event → Device → Outcome Bool
mobile_impl_sock_open conn type addrtype bindport =
    ask (MaCmd.cmd_open ∷ byte conn ∷ byte type ∷ byte addrtype ∷ word_bytes bindport)
      (bool_reply MaCmd.cmd_open)

unfoldable pub mobile_impl_sock_close : ℕ → List Event → Device → Outcome (Unit {0})
mobile_impl_sock_close conn = ask (MaCmd.cmd_close ∷ byte conn ∷ []) (λ r. tt)

unfoldable pub connect_reply : Reply → ℤ
connect_reply none = negsuc 0
connect_reply (some (size, buffer)) =
    if not (size == 2)
    then negsuc 0
    else if not (get_or buffer 0 0 == MaCmd.cmd_connect)
    then negsuc 0
    else signed_byte (get_or buffer 1 0)

unfoldable pub mobile_impl_sock_connect : ℕ → Option MobileAddr → List Event → Device → Outcome ℤ
mobile_impl_sock_connect conn addr =
    ask (MaCmd.cmd_connect ∷ byte conn ∷ address_write addr) connect_reply

unfoldable pub mobile_impl_sock_listen : ℕ → List Event → Device → Outcome Bool
mobile_impl_sock_listen conn = ask (MaCmd.cmd_listen ∷ byte conn ∷ []) (bool_reply MaCmd.cmd_listen)

unfoldable pub mobile_impl_sock_accept : ℕ → List Event → Device → Outcome Bool
mobile_impl_sock_accept conn = ask (MaCmd.cmd_accept ∷ byte conn ∷ []) (bool_reply MaCmd.cmd_accept)

unfoldable pub send_reply_value : Reply → ℤ
send_reply_value none = negsuc 0
send_reply_value (some (size, buffer)) =
    if not (size == 3)
    then negsuc 0
    else if not (get_or buffer 0 0 == MaCmd.cmd_send)
    then negsuc 0
    else signed_word (word (get_or buffer 1 0) (get_or buffer 2 0))

-- The stream of `mobile_impl_sock_send`, and its end
unfoldable pub send_stream : List ℕ → ℕ → List Event → Device → Outcome ℤ
send_stream buffer size es s =
    elim ((gbridge_cmd_stream_start size >> gbridge_cmd_stream_data buffer size) s) [
      | none ↦ fault
      | some (u, s₁) ↦ and_then (gbridge_cmd_stream_finish es s₁) λ v s₂ es₂.
          and_then (gbridge_recv_data_wait es₂ s₂)
            λ r s₃ es₃. returned (send_reply_value r) (gbridge_recv_data_done s₃) es₃
    ]

unfoldable pub mobile_impl_sock_send :
    ℕ → List ℕ → ℕ → Option MobileAddr → List Event → Device → Outcome ℤ
mobile_impl_sock_send conn buffer size addr es s =
    let l = MaCmd.cmd_send ∷ byte conn ∷ address_write addr in
    and_then (gbridge_cmd_data (length l) l es s) λ u s₁ es₁.
      if not (gbridge_connected s₁)
      then returned (negsuc 0) (gbridge_recv_data_done s₁) es₁
      else send_stream buffer size es₁ s₁

-- The result and the address that a reply to `recv` has. The outer `none` is a read behind the
-- buffer. A size of 2 makes the last argument of `address_read` negative, so it wraps around.
unfoldable pub recv_reply : Reply → Option (Option (ℤ × Option MobileAddr))
recv_reply none = some none
recv_reply (some (size, buffer)) =
    if ltb size 2
    then some none
    else if not (get_or buffer 0 0 == MaCmd.cmd_recv)
    then some none
    else elim (address_read (drop 3 buffer) ((size + 0x1_0000 - 3) % 0x1_0000)) [
      | none ↦ none
      | some (n, addr) ↦
          if n == 0
          then some none
          else if not (size == n + 3)
          then some none
          else some (some (signed_word (word (get_or buffer 1 0) (get_or buffer 2 0)), addr))
    ]

-- The stream that follows a positive result
unfoldable pub recv_stream : List ℕ → ℕ → ℤ → List Event → Device → Outcome ℤ
recv_stream buffer size (negsuc n) es s = returned (negsuc n) s es
recv_stream buffer size (pos n) es s =
    if n == 0
    then returned (pos n) s es
    else and_then (gbridge_recv_stream_wait buffer size es s)
        λ ok s₁ es₁. returned (if ok then pos n else negsuc 0) s₁ es₁

-- With the result, the address that an accepted reply has
unfoldable pub mobile_impl_sock_recv :
    ℕ → List ℕ → ℕ → List Event → Device → Outcome (ℤ × Option MobileAddr)
mobile_impl_sock_recv conn buffer size es s =
    and_then (ask (MaCmd.cmd_recv ∷ byte conn ∷ word_bytes size) recv_reply es s) λ r s₁ es₁.
      elim r [
        | none ↦ fault
        | some none ↦ returned (negsuc 0, none) s₁ es₁
        | some (some (res, addr)) ↦
            and_then (recv_stream buffer size res es₁ s₁)
              λ value s₂ es₂. returned (value, addr) s₂ es₂
      ]
