-- ===== src/Bindings/Stats.antt =====
-- bora.c, the counters and the samples of the bandwidth. Py_BuildValue is given each counter, a
-- `uint64_t`, for an `int`, and takes its low 32 bits.
use bora.Prelude.{ℕ, Option, none, some, List, map, u32, if◌then◌else◌}
use bora.Prelude.Int.{ℤ, pos, negsuc, to_u32, int32, eqb_ℤ}
use bora.Sender.{OutStats, swap16, get_send_size}
use bora.RecvStats.{Bw, BwEstimation, fetch_bw_estimations}
use bora.Receiver.{InStats}
use bora.BwControl.{reset_in_counters}
use bora.Bindings.{Library, Call, access, none_if_dead, need_sock, ◌>>◌}

abbrev pub int_value : ℕ → ℤ
int_value n = int32 (u32 n)

pub record InDict : Type 0 where
  pub pkg_counter : ℤ
  pub data_counter : ℤ
  pub ack_data_counter : ℤ
  pub ack_counter : ℤ
  pub garbage : ℤ
  pub dupe_counter : ℤ
  pub dupe_data_counter : ℤ
  pub bad_ack_counter : ℤ

abbrev pub in_dict : InStats → InDict
in_dict st = record {
  pkg_counter = int_value st.i_pkg_counter;
  data_counter = int_value st.i_data_counter;
  ack_data_counter = int_value st.i_ack_data_counter;
  ack_counter = int_value st.i_ack_counter;
  garbage = int_value st.i_garbage;
  dupe_counter = int_value st.i_dupe_counter;
  dupe_data_counter = int_value st.i_dupe_data_counter;
  bad_ack_counter = int_value st.i_bad_ack_counter;
}

pub record OutDict : Type 0 where
  pub data_counter : ℤ
  pub pkg_counter : ℤ
  pub ack_counter : ℤ
  pub ack_data_counter : ℤ
  pub retr_counter : ℤ
  pub retr_data_counter : ℤ

abbrev pub out_dict : OutStats → OutDict
out_dict st = record {
  data_counter = int_value st.o_data_counter;
  pkg_counter = int_value st.o_pkg_counter;
  ack_counter = int_value st.o_ack_counter;
  ack_data_counter = int_value st.o_ack_data_counter;
  retr_counter = int_value st.o_retr_counter;
  retr_data_counter = int_value st.o_retr_data_counter;
}

-- (int)PyInt_AsLong(value), without a test: -1 where it fails.
abbrev pub long_of : Option ℤ → ℤ
long_of none = negsuc 0
long_of (some n) = int32 (to_u32 n)

-- if (rst) { reset_in_counters(); }
unfoldable pub reset_if : ℤ → Library → Library
unfolding reset_in_counters
reset_if rst lib =
    if eqb_ℤ rst (pos 0) then lib else record lib { stats_r = reset_in_counters lib.stats_r }

unfoldable pub get_in_stats : Option ℤ → Call InDict
unfolding none_if_dead reset_if
get_in_stats arg = do
  none_if_dead
  access (λ lib. (in_dict lib.stats_r, reset_if (long_of arg) lib))

-- It calls `reset_in_counters`, too.
unfoldable pub get_out_stats : Option ℤ → Call OutDict
unfolding none_if_dead reset_if
get_out_stats arg = do
  none_if_dead
  access (λ lib. (out_dict lib.sender.stats_s, reset_if (long_of arg) lib))

-- The dictionary for a host: `bandwidth` has the samples, each with its time.
pub record BwDict : Type 0 where
  pub ip : List ℕ
  pub port : ℕ
  pub bandwidth : List Bw

abbrev pub bw_dict : (ℕ → List ℕ) → BwEstimation → BwDict
bw_dict inet_ntop e = record {
  ip = inet_ntop e.host.sin_addr;
  port = swap16 e.host.sin_port;
  bandwidth = e.bandwidth;
}

unfoldable pub get_bw_stats : (ℕ → List ℕ) → Call (List BwDict)
unfolding none_if_dead need_sock fetch_bw_estimations
get_bw_stats inet_ntop = do
  none_if_dead
  need_sock
  access (λ lib.
      let (bwlist, left) = fetch_bw_estimations lib.estimations in
      (map (bw_dict inet_ntop) bwlist, record lib { estimations = left }))

-- `bora_get_que_size`
unfoldable pub get_que_size : Call ℕ
unfolding need_sock get_send_size
get_que_size = do need_sock; access (λ lib. (get_send_size lib.sender, lib))
