-- ===== src/ProtMa/MaCmd.antt =====
-- The commands of bridge/source/gbridge_prot_ma_cmd.h, one file with that of the adapter.
use libmobile_atmega.Prelude.{ℕ}

abbrev pub cmd_open : ℕ
cmd_open = 0

abbrev pub cmd_close : ℕ
cmd_close = 1

abbrev pub cmd_connect : ℕ
cmd_connect = 2

abbrev pub cmd_listen : ℕ
cmd_listen = 3

abbrev pub cmd_accept : ℕ
cmd_accept = 4

abbrev pub cmd_send : ℕ
cmd_send = 5

abbrev pub cmd_recv : ℕ
cmd_recv = 6
