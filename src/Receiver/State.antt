-- ===== src/Receiver/State.antt =====
-- packet_receiver.c: the state that the handler of received datagrams reads and writes, and what a part
-- of it comes to.
use bora.Prelude.{ℕ, ◌+◌, ◌-◌, ◌%◌, Option, none, some, Array, set, List, u64}
use bora.Net.{SendData}
use bora.BlockCache.{Block}
use bora.PeerAcks.{AckState}
use bora.Biter.{IncomingData, Biter}
use bora.RecvStats.{BwEstimation}
use bora.BwMsgs.{BwMsg}

-- `stats_r`
pub record InStats : Type 0 where
  pub i_pkg_counter : ℕ
  pub i_data_counter : ℕ
  pub i_ack_data_counter : ℕ
  pub i_ack_counter : ℕ
  pub i_garbage : ℕ
  pub i_dupe_counter : ℕ
  pub i_dupe_data_counter : ℕ
  pub i_bad_ack_counter : ℕ

pub record Receiver : Type 0 where
  pub cache : List Block
  pub ack_state : AckState
  pub biter : Biter
  pub estimations : List BwEstimation
  pub bwmlist : List BwMsg
  pub stats_r : InStats

-- What memory holds that the handler allocates: the payload of a fragment, a block, and the local
-- `SendData`.
pub record Memory : Type 0 where
  pub heap : Array ℕ
  pub fresh : Block
  pub stack : SendData

-- A part of the handler ends, waits for a place in the ring to the Python side, or accesses memory
-- out of bounds.
pub data Result {ℓ} (A : Type ℓ) : Type ℓ where
  done : A → Result A
  waits : Result A
  faults : Result A

infixl 5 ◌>>=◌
abbrev pub ◌>>=◌ {ℓ κ} : {A : Type ℓ} {B : Type κ} → Result A → (A → Result B) → Result B
done a >>= f = f a
waits >>= f = waits
faults >>= f = faults

abbrev pub or_faults {ℓ} : {A : Type ℓ} → Option A → Result A
or_faults none = faults
or_faults (some a) = done a

abbrev pub or_waits {ℓ} : {A : Type ℓ} → Option A → Result A
or_waits none = waits
or_waits (some a) = done a

-- The datagram, as the parts change it in its buffer, and the rest of the state.
abbrev pub Work : Type 0
Work = IncomingData × Receiver

abbrev pub sub64 : ℕ → ℕ → ℕ
sub64 a b = (a + 0x1_0000_0000_0000_0000 - b) % 0x1_0000_0000_0000_0000

abbrev pub garbage : ℕ → InStats → InStats
garbage n st = record st { i_garbage = u64 (st.i_garbage + n) }

-- The branches that mark a datagram as bad: its first byte is cleared, so that no later part takes it.
abbrev pub reject : Work → Work
reject (d, r) =
    (record d { buf = set d.buf 0 0 }, record r { stats_r = garbage d.buflen r.stats_r })
