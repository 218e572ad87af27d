-- ===== src/ProtMa/Ignored.antt =====
-- Requests that bridge/source/gbridge_prot_ma.c does not understand.
use native.Mathlib.Decide.{ℕ_discrete}
use libmobile_atmega.Prelude.{
  ℕ, ◌+◌, ◌-◌, ◌<◌, ◌≤◌, ◌≡◌, ◌≢◌, arith, ◌==◌, Bool, true, false, Option, none, some, List, get_or,
  drop, if◌then◌else◌,
}
use libmobile_atmega.Address.{MobileAddr, address_read}
use libmobile_atmega.Sockets.{SocketImpl}
use libmobile_atmega.Host.Port.{SerialPort}
use libmobile_atmega.Host.State.{host_recv_data, host_recv_data_done}
use libmobile_atmega.ProtMa.MaCmd
use libmobile_atmega.ProtMa.State.{Ma, handled}
use libmobile_atmega.ProtMa.Handlers.{
  recv_cmd_sock_open, recv_cmd_sock_close, recv_cmd_sock_connect, recv_cmd_sock_listen,
  recv_cmd_sock_accept, recv_cmd_sock_recv, run_request, give_back, prot_ma_loop,
}

-- The number of bytes that a request must have, where it is fixed, by its command
abbrev pub fixed_size : ℕ → Option ℕ
fixed_size cmd =
    if cmd == MaCmd.cmd_open
    then some 6
    else if cmd == MaCmd.cmd_close
    then some 2
    else if cmd == MaCmd.cmd_listen
    then some 2
    else if cmd == MaCmd.cmd_accept
    then some 2
    else if cmd == MaCmd.cmd_recv
    then some 4
    else none

pub data IsMalformed (size : ℕ) (buffer : List ℕ) : Type 0 where
  empty : size ≡ 0 → IsMalformed size buffer
  unknown : MaCmd.cmd_recv < get_or buffer 0 0 → IsMalformed size buffer
  bad_size : (n : ℕ) → fixed_size (get_or buffer 0 0) ≡ some n → size ≢ n → IsMalformed size buffer
  no_address : (get_or buffer 0 0 ≡ MaCmd.cmd_connect) → size < 2 → IsMalformed size buffer
  bad_address :
      (n : ℕ) (a : Option MobileAddr)
      → get_or buffer 0 0 ≡ MaCmd.cmd_connect
      → address_read (drop 2 buffer) (size - 2) ≡ some (n, a)
      → size ≢ 2 + n
      → IsMalformed size buffer
  short_address :
      (n : ℕ) (a : Option MobileAddr)
      → get_or buffer 0 0 ≡ MaCmd.cmd_connect
      → address_read (drop 2 buffer) (size - 2) ≡ some (n, a)
      → n ≤ 1
      → IsMalformed size buffer

run_malformed :
    {P S : Type 0} (port : SerialPort P) (impl : SocketImpl S) (rounds : ℕ) (size : ℕ)
    (buffer : List ℕ) (s : Ma P S)
    → size ≢ 0
    → IsMalformed size buffer
    → (ok : Bool) × (run_request port impl rounds size buffer s ≡ handled ok s)
unfolding run_request recv_cmd_sock_open recv_cmd_sock_close recv_cmd_sock_connect
    recv_cmd_sock_listen recv_cmd_sock_accept recv_cmd_sock_recv
run_malformed port impl rounds size buffer s ne (empty e) = absurd (ne e)
run_malformed port impl rounds size buffer s ne (unknown h) = (true, ground arith)
run_malformed port impl rounds size buffer s ne (bad_size n h other) = (false, ground (arith, h))
run_malformed port impl rounds size buffer s ne (no_address h lt) = (false, ground (arith, h))
run_malformed port impl rounds size buffer s ne (bad_address n none h e other) =
    (false, ground (arith, h, e))
run_malformed port impl rounds size buffer s ne (bad_address n (some a) h e other) =
    (false, ground (arith, h, e))
run_malformed port impl rounds size buffer s ne (short_address n none h e few) =
    (false, ground (arith, h, e))
run_malformed port impl rounds size buffer s ne (short_address n (some a) h e few) =
    (false, ground (arith, h, e))

-- A request that is empty, whose command is none of the seven, whose size is not that of its command
-- (to open, close, listen, accept or receive), or that is to connect and has no address, has one that
-- ends after its type, or has one that does not end where the packet does, is given back without a
-- reply: `gbridge_prot_ma_loop` touches neither the sockets nor the line.
pub malformed_ignored :
    {P S : Type 0} (port : SerialPort P) (impl : SocketImpl S) (rounds : ℕ) (s : Ma P S)
    → s.host.data_ready ≡ true
    → IsMalformed s.host.data_size s.host.data_buf
    → (ok : Bool) × (prot_ma_loop port impl rounds s
        ≡ handled ok (record s { host = record s.host { data_ready = false } }))
unfolding prot_ma_loop host_recv_data host_recv_data_done give_back
malformed_ignored port impl rounds s ready bad = elim (ℕ_discrete s.host.data_size 0) [
  | yes e ↦ (true, ground (arith, ready, e))
  | no ne ↦
      let (ok, runs) = run_malformed port impl rounds s.host.data_size s.host.data_buf s ne bad in
      (ok, ground (arith, ready, runs, ne))
]
