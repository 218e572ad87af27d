-- ===== src/ProtMa/State.antt =====
-- The state of bridge/source/gbridge_prot_ma.c, and how a handler sends its reply.
use libmobile_atmega.Prelude.{ℕ, Bool, none, some, List, length}
use libmobile_atmega.Host.Port.{SerialPort}
use libmobile_atmega.Host.State.{Host, overlay}
use libmobile_atmega.Host.Send.{Waited, host_cmd_data}
use libmobile_atmega.Host.Send

-- The static variables, and those of the gbridge.c below them
pub record Ma (P S : Type 0) : Type 0 where
  pub host : Host P
  pub reply_buf : List ℕ
  pub reply_size : ℕ
  pub socket : S

-- How a handler ends: with what it returns, waiting for a reply, or without a defined result
pub data Handled (P S : Type 0) : Type 0 where
  handled : Bool → Ma P S → Handled P S
  unfinished : Ma P S → Handled P S
  fault : Handled P S

module _ {P S : Type 0} where
  -- What a handler does when the protocol below has returned
  abbrev pub after : Ma P S → Waited P → (Ma P S → Handled P S) → Handled P S
  after s (Send.returned h) f = f (record s { host = h })
  after s (Send.waiting h) f = unfinished (record s { host = h })
  after s Send.fault f = fault

  -- The bytes put into the reply's buffer from its start, their number as its size, and
  -- `gbridge_cmd_data`
  unfoldable pub send_reply :
      SerialPort P → ℕ → List ℕ → Ma P S → (Ma P S → Handled P S) → Handled P S
  send_reply port rounds l s f = elim (overlay l s.reply_buf) [
    | none ↦ fault
    | some buf ↦
        after (record s { reply_buf = buf; reply_size = length l })
          (host_cmd_data port rounds (length l) buf s.host) f
  ]
