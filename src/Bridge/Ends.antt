-- ===== src/Bridge/Ends.antt =====
-- How the computer's program ends.
use libmobile_atmega.Prelude.{ℕ, suc, ◌≡◌, arith, false}
use libmobile_atmega.Sockets.{SocketImpl}
use libmobile_atmega.Host.Port.{SerialPort, error}
use libmobile_atmega.Host.State.{host_connected, host_recv_data}
use libmobile_atmega.Host.Loop.{host_loop}
use libmobile_atmega.ProtMa.State.{Ma}
use libmobile_atmega.ProtMa.Handlers.{prot_ma_loop}
use libmobile_atmega.Bridge.{PortSetup, exited, main_turn, main_loop, shut_down}
use libmobile_atmega.Bridge.Serve.{IsListening}

module _ {P S : Type 0} (port : SerialPort P) (impl : SocketImpl S) (rounds : ℕ)
    (setup : PortSetup P) where
  -- The program ends when its port fails while it has nothing to do: with the next turn, for which
  -- two rounds are enough, the loop of `main` ends, and the port is closed and freed, once each. The
  -- sockets are left as they are.
  pub main_loop-exited :
      (turns : ℕ) (p : P) (s : Ma P S)
      → IsListening s
      → port.sp_blocking_read 1 100 s.host.port ≡ (error, p)
      → shut_down port impl rounds setup (main_loop port impl rounds (suc (suc turns)) s)
        ≡ exited (record s {
          host = record s.host { connected = false; port = setup.sp_free_port (setup.sp_close p) };
        })
  unfolding main_loop main_turn host_loop host_connected prot_ma_loop host_recv_data shut_down
  main_loop-exited turns p s free e = ground (arith, e, free.connected, free.free)
