-- ===== src/Device/Packet.antt =====
-- A data packet on its way into the adapter: what `recv_cmd_data_pc` still needs of it, at each of
-- the points where it can stop and wait for more bytes.
pub mod Check
pub mod Payload
pub mod Step
pub mod Turn
pub mod Pieces
pub mod Chunks
pub mod Awaited
use libmobile_atmega.Prelude.{
  ℕ, ◌≤◌, ◌<◌, ◌≡◌, ◌≢◌, ◌⊎◌, Bool, true, false, List, [], ◌∷◌, ◌++◌, length, take,
}
use libmobile_atmega.Wire.{gbridge_max_data_size, reply, word_bytes}
use libmobile_atmega.Wire.Cmd
use libmobile_atmega.Wire.Checksum.{checksum}
use libmobile_atmega.Wire.Frame.{data_frame}
use libmobile_atmega.Device.State.{Device}
use libmobile_atmega.Device.Inv.{IsValid}

-- The handler has stopped at `s` and needs the bytes `w`, from those in the ring on.
pub data Needs (payload : List ℕ) (s : Device) (w : List ℕ) : Type 0 where
  command : s.processing_cmd ≡ Cmd.none → w ≡ data_frame Cmd.data_pc payload → Needs payload s w
  size :
      s.processing_cmd ≡ Cmd.data_pc
      → s.processing_cmd_state ≡ 0
      → w ≡ length payload ∷ (payload ++ word_bytes (checksum payload))
      → Needs payload s w
  bytes :
      (p q : List ℕ)
      → s.processing_cmd ≡ Cmd.data_pc
      → s.processing_cmd_state ≡ 1
      → s.data_len ≡ length payload
      → s.data_cur ≡ length p
      → take s.data_cur s.data_buf ≡ p
      → p ++ q ≡ payload
      → 0 < length q
      → w ≡ q ++ word_bytes (checksum payload)
      → Needs payload s w
  sum :
      s.processing_cmd ≡ Cmd.data_pc
      → s.processing_cmd_state ≡ 2
      → s.data_size ≡ length payload
      → take s.data_size s.data_buf ≡ payload
      → w ≡ word_bytes (checksum payload)
      → Needs payload s w

-- The packet is there for `gbridge_recv_data`, and has been acknowledged once, behind the bytes
-- `sent`.
pub record IsDelivered (payload sent : List ℕ) (s : Device) : Type 0 where
  pub ready : s.data_ready ≡ true
  pub size : s.data_size ≡ length payload
  pub bytes : take s.data_size s.data_buf ≡ payload
  pub acknowledged : s.tx ≡ sent ++ (reply Cmd.data_pc ∷ [])

-- The adapter is connected and waits for no reply, and no earlier packet is waiting to be taken.
pub record IsOpen (sent : List ℕ) (s : Device) : Type 0 where
  pub valid : IsValid s
  pub connected : s.connected ≡ true
  pub waiting : s.waiting_cmd ≡ Cmd.none
  pub free : s.data_ready ≡ false
  pub written : s.tx ≡ sent
