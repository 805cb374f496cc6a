-- ===== src/BwControl.antt =====
-- bw_stats.c, stats_bridge.c and bpuller_bridge.c: a timer hands the statistics to the Python side and
-- takes back a bandwidth; and the Python side is told when the sender wants another block. The
-- semaphores are their counts.
pub mod Reply
use bora.Prelude.{ℕ, ◌+◌, ◌-◌, Bool, true, false, Option, none, some, ◌==◌, if◌then◌else◌}
use bora.Prelude.Int.{ℤ}
use bora.Sender.{Sender, OutStats, set_bandwidth}
use bora.Receiver.{InStats}
use bora.PeerAcks.{PeerAcks, release_ack_store}

unfoldable pub reset_in_counters : InStats → InStats
reset_in_counters st = record {
  i_pkg_counter = 0;
  i_data_counter = 0;
  i_ack_data_counter = 0;
  i_ack_counter = 0;
  i_garbage = 0;
  i_dupe_counter = 0;
  i_dupe_data_counter = 0;
  i_bad_ack_counter = 0;
}

unfoldable pub reset_out_counters : OutStats → OutStats
reset_out_counters st = record {
  o_data_counter = 0;
  o_pkg_counter = 0;
  o_ack_counter = 0;
  o_ack_data_counter = 0;
  o_retr_counter = 0;
  o_retr_data_counter = 0;
}

-- `bw_locked` says that `bws_thread` holds `bwLock`, which it does from its post on `s_bws_hasdata`
-- until it has passed `s_bws_processed`.
pub record BwControl : Type 0 where
  pub s_bws_hasdata : ℕ
  pub s_bws_processed : ℕ
  pub bws_timer : ℤ
  pub bw_locked : Bool

-- `init_bws`, but for the thread.
unfoldable pub init_bws : ℤ → BwControl
init_bws interval = record {
  s_bws_hasdata = 0;
  s_bws_processed = 0;
  bws_timer = interval;
  bw_locked = false;
}

unfoldable pub set_bws_interval : ℤ → BwControl → BwControl
set_bws_interval interval b = record b { bws_timer = interval }

-- A round of `bws_thread` up to its wait on `s_bws_processed`; `none` is a wait on `bwLock`.
unfoldable pub offer : BwControl → Option BwControl
offer b =
    if b.bw_locked
    then none
    else some (record b { bw_locked = true; s_bws_hasdata = b.s_bws_hasdata + 1 })

-- The rest of the round; `none` is a wait on `s_bws_processed`.
unfoldable pub accept : BwControl → Option BwControl
accept b =
    if b.s_bws_processed == 0
    then none
    else some (record b { bw_locked = false; s_bws_processed = b.s_bws_processed - 1 })

-- The wait at the start of `bora_BWIter_iternext`.
unfoldable pub fetch : BwControl → Option BwControl
fetch b =
    if b.s_bws_hasdata == 0 then none else some (record b { s_bws_hasdata = b.s_bws_hasdata - 1 })

unfoldable pub bws_return_value : ℤ → Sender × PeerAcks × BwControl → Sender × PeerAcks × BwControl
unfolding set_bandwidth reset_out_counters release_ack_store
bws_return_value bw (s, acks, b) =
    let s' = set_bandwidth bw s in
    (
      record s' { stats_s = reset_out_counters s'.stats_s },
      release_ack_store acks,
      record b { s_bws_processed = b.s_bws_processed + 1 },
    )

pub record Bpuller : Type 0 where
  pub s_bpuller_full : ℕ
  pub s_bpuller_empty : ℕ

-- N_BPULLER
abbrev pub n_bpuller : ℕ
n_bpuller = 20

unfoldable pub init_bpuller : Bpuller
init_bpuller = record { s_bpuller_full = 0; s_bpuller_empty = n_bpuller }

unfoldable pub block_pull : Bpuller → Option Bpuller
block_pull p =
    if p.s_bpuller_empty == 0
    then none
    else some
        (record { s_bpuller_full = p.s_bpuller_full + 1; s_bpuller_empty = p.s_bpuller_empty - 1 })

-- A round of `send_pull`, where `kill` is `kill_bora_threads`: whether the thread goes on. Its two waits
-- for a signal are left out, since such a wait may end at any time; `none` is the wait in `block_pull`.
unfoldable pub send_pull : Bool → Bpuller → Option (Bool × Bpuller)
unfolding block_pull
send_pull kill p =
    if kill
    then some (false, p)
    else elim (block_pull p) [ none ↦ none | some p' ↦ some (true, p') ]

-- `bora_BPuller_iternext`.
unfoldable pub bpuller_next : Bpuller → Option Bpuller
bpuller_next p =
    if p.s_bpuller_full == 0
    then none
    else some
        (record { s_bpuller_full = p.s_bpuller_full - 1; s_bpuller_empty = p.s_bpuller_empty + 1 })
