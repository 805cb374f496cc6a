-- ===== src/Bindings/Counters.antt =====
-- What `get_in_stats` and `get_out_stats` reset.
use bora.Prelude.{◌≡◌, refl, false, some}
use bora.Prelude.Int.{ℤ, pos, to_u32, int32, eqb_ℤ}
use bora.BwControl.{reset_in_counters}
use bora.Bindings.{Library, value, none_if_dead}
use bora.Bindings.Stats.{InDict, in_dict, out_dict, reset_if, get_in_stats, get_out_stats}

-- All counters at zero.
abbrev pub zero_dict : InDict
zero_dict = record {
  pkg_counter = pos 0;
  data_counter = pos 0;
  ack_data_counter = pos 0;
  ack_counter = pos 0;
  garbage = pos 0;
  dupe_counter = pos 0;
  dupe_data_counter = pos 0;
  bad_ack_counter = pos 0;
}

-- Both calls give the counters as they are, and with a number that is not 0 as `int` they reset those
-- of received datagrams: `get_in_stats` gives zeros then. The counters of sent datagrams are not
-- reset by `get_out_stats`, which gives the same again.
pub get_out_stats_resets_in :
    (lib : Library) (rst : ℤ)
    → lib.death ≡ false
    → eqb_ℤ (int32 (to_u32 rst)) (pos 0) ≡ false
    → let (received, after_in) = get_in_stats (some rst) lib in
      let (sent, after_out) = get_out_stats (some rst) lib in
      (received ≡ value (in_dict lib.stats_r))
      × ((get_in_stats (some rst) after_in).0 ≡ value zero_dict)
      × (sent ≡ value (out_dict lib.sender.stats_s))
      × ((get_in_stats (some rst) after_out).0 ≡ value zero_dict)
      × ((get_out_stats (some rst) after_out).0 ≡ sent)
unfolding get_in_stats get_out_stats none_if_dead reset_if reset_in_counters
get_out_stats_resets_in lib rst alive reset = rw (alive, reset) (refl, refl, refl, refl, refl)
