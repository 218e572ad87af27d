-- ===== src/Device/Sock/Offline.antt =====
-- The adapter's socket functions without a connection to the computer.
use libmobile_atmega.Prelude.{ℕ, ◌≡◌, refl, arith, false, Option, none, List, [], ◌∷◌, length}
use libmobile_atmega.Wire.{byte, word_bytes}
use libmobile_atmega.Address.{MobileAddr, address_write}
use libmobile_atmega.Sockets.{negsuc}
use libmobile_atmega.ProtMa.MaCmd
use libmobile_atmega.Device.State.{Device}
use libmobile_atmega.Device.Loop.{gbridge_connected, gbridge_recv_data_done}
use libmobile_atmega.Device.Send.{
  Event, returned, wait_while, gbridge_cmd_data, gbridge_recv_data_wait,
}
use libmobile_atmega.Device.Sock.{
  Reply, ask, bool_reply, connect_reply, recv_reply, mobile_impl_sock_open, mobile_impl_sock_close,
  mobile_impl_sock_connect, mobile_impl_sock_listen, mobile_impl_sock_accept, mobile_impl_sock_send,
  mobile_impl_sock_recv,
}

module _ (es : List Event) (s : Device) (offline : s.connected ≡ false) where
  recv_data_wait_offline : gbridge_recv_data_wait es s ≡ returned none s es
  unfolding gbridge_recv_data_wait wait_while
  recv_data_wait_offline = go es
    where
      go : (l : List Event) → gbridge_recv_data_wait l s ≡ returned none s l
      go [] = ground arith
      go (e ∷ l) = ground arith

  cmd_data_offline : (size : ℕ) (l : List ℕ) → gbridge_cmd_data size l es s ≡ returned tt s es
  unfolding gbridge_cmd_data
  cmd_data_offline size l = ground arith

  ask_offline :
      {A : Type 0} (l : List ℕ) (f : Reply → A)
      → ask l f es s ≡ returned (f none) (gbridge_recv_data_done s) es
  unfolding ask
  ask_offline l f = rw (cmd_data_offline (length l) l, recv_data_wait_offline, ask) refl

-- On an adapter that is not connected every socket function returns at once with its failure value:
-- nothing is sent and no round of a waiting loop passes.
pub offline_fails :
    (conn type addrtype bindport size : ℕ) (buffer : List ℕ) (addr : Option MobileAddr)
    (es : List Event) (s : Device)
    → s.connected ≡ false
    → (mobile_impl_sock_open conn type addrtype bindport es s
        ≡ returned false (gbridge_recv_data_done s) es)
      × (mobile_impl_sock_close conn es s ≡ returned tt (gbridge_recv_data_done s) es)
      × (mobile_impl_sock_connect conn addr es s
          ≡ returned (negsuc 0) (gbridge_recv_data_done s) es)
      × (mobile_impl_sock_listen conn es s ≡ returned false (gbridge_recv_data_done s) es)
      × (mobile_impl_sock_accept conn es s ≡ returned false (gbridge_recv_data_done s) es)
      × (mobile_impl_sock_send conn buffer size addr es s
          ≡ returned (negsuc 0) (gbridge_recv_data_done s) es)
      × (mobile_impl_sock_recv conn buffer size es s
          ≡ returned (negsuc 0, none) (gbridge_recv_data_done s) es)
unfolding mobile_impl_sock_open mobile_impl_sock_close mobile_impl_sock_connect
    mobile_impl_sock_listen mobile_impl_sock_accept mobile_impl_sock_send mobile_impl_sock_recv
    bool_reply connect_reply recv_reply gbridge_connected
offline_fails conn type addrtype bindport size buffer addr es s offline = (
  ask_offline es s offline _ _,
  ask_offline es s offline _ _,
  ask_offline es s offline _ _,
  ask_offline es s offline _ _,
  ask_offline es s offline _ _,
  rw
      (
        cmd_data_offline es s offline (length (MaCmd.cmd_send ∷ byte conn ∷ address_write addr))
            (MaCmd.cmd_send ∷ byte conn ∷ address_write addr),
        mobile_impl_sock_send,
      )
      (ground (arith, offline)),
  rw
      (
        ask_offline es s offline (MaCmd.cmd_recv ∷ byte conn ∷ word_bytes size) recv_reply,
        mobile_impl_sock_recv,
      )
      refl,
)
