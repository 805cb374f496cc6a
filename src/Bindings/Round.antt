-- ===== src/Bindings/Round.antt =====
-- A round of the bandwidth control, as Python sees it.
use bora.Prelude.{
  ℕ, ◌+◌, ◌-◌, ◌≡◌, refl, ap, Bool, true, false, none, some, List, [], ◌∷◌, map, arith,
}
use bora.Prelude.Int.{ℤ, to_u64}
use bora.Net.Time.{Timeval, time_zero}
use bora.Sender.{get_idle, set_bandwidth}
use bora.PeerAcks.{PeerAckStore, clear_last, release_ack_store}
use bora.BwControl.{
  BwControl, offer, accept, fetch, set_bws_interval, bws_return_value, reset_out_counters,
}
use bora.Bindings.{Library, value, none_value, none_if_dead}
use bora.Bindings.Messages.{stop_if_dead}
use bora.Bindings.Control.{
  BwsDict, PeerDict, value_of, peer_dict, emptied, report, take_bws, get_ack_store, bwiter_wake,
  bwiter_iternext, resend_late, answer_bws, bws_set,
}

-- Nothing is left of the acknowledgements that have been reported, in any peer.
abbrev pub AllReported : List PeerAckStore → Type 0
AllReported [] = Unit
AllReported (p ∷ peers) =
    (p.ack_store ≡ []) × (p.last_acked ≡ 0) × (p.last_error ≡ 0) × AllReported peers

emptied-AllReported : (peers : List PeerAckStore) → AllReported (clear_last (map emptied peers))
unfolding clear_last
emptied-AllReported [] = tt
emptied-AllReported (p ∷ peers) = (refl, refl, refl, emptied-AllReported peers)

-- The lists `values`, peer by peer.
reported_values :
    (inet_ntop : ℕ → List ℕ) (peers : List PeerAckStore)
    → map (λ (p : PeerDict). p.values) (map (peer_dict inet_ntop) peers)
      ≡ map (λ (p : PeerAckStore). map value_of p.ack_store) peers
reported_values inet_ntop [] = refl
reported_values inet_ntop (p ∷ peers) =
    ap (λ xs. map value_of p.ack_store ∷ xs) (reported_values inet_ntop peers)

bwiter_iternext-offered :
    (inet_ntop : ℕ → List ℕ) (lib : Library) {b : BwControl}
    → lib.death ≡ false
    → lib.ack_list ≡ false
    → fetch lib.bws ≡ some b
    → bwiter_iternext inet_ntop lib ≡ (
      value (report inet_ntop lib).0,
      record (report inet_ntop lib).1 { bws = b; ack_list = true },
    )
unfolding bwiter_iternext bwiter_wake take_bws stop_if_dead get_ack_store report
bwiter_iternext-offered inet_ntop lib {b} alive unlocked taken =
    rw alive (rw (taken, bwiter_wake, take_bws) (rw unlocked refl))

bws_set-answers :
    (timeout : Bool) (times_1_2 : ℕ → ℕ) (now : Timeval) (rst bws_time : ℤ) (lib : Library)
    → lib.death ≡ false
    → bws_set timeout times_1_2 now (some (rst, bws_time)) lib
      ≡ (none_value, answer_bws rst bws_time (resend_late timeout times_1_2 now lib))
unfolding bws_set none_if_dead
bws_set-answers timeout times_1_2 now rst bws_time lib alive = rw alive refl

-- What the answer leaves, with and without BORA_TIMEOUT.
record IsAnswered (rst bws_time : ℤ) (lib after : Library) : Type 0 where
  pub bandwidth : after.sender.bandwidth ≡ to_u64 rst
  pub counters : after.sender.stats_s ≡ reset_out_counters lib.sender.stats_s
  pub idle : after.sender.idle_time ≡ lib.sender.idle_time
  pub unlocked : after.ack_list ≡ false
  pub acks : after.acks ≡ release_ack_store lib.acks
  pub control :
      after.bws
      ≡ record (lib.bws) { bws_timer = bws_time; s_bws_processed = lib.bws.s_bws_processed + 1 }

answer_bws-IsAnswered :
    (timeout : Bool) (times_1_2 : ℕ → ℕ) (now : Timeval) (rst bws_time : ℤ) (lib : Library)
    → IsAnswered rst bws_time lib (answer_bws rst bws_time (resend_late timeout times_1_2 now lib))
unfolding answer_bws resend_late set_bws_interval bws_return_value set_bandwidth reset_out_counters
answer_bws-IsAnswered true times_1_2 now rst bws_time lib = record {
  bandwidth = refl;
  counters = refl;
  idle = refl;
  unlocked = refl;
  acks = refl;
  control = refl;
}
answer_bws-IsAnswered false times_1_2 now rst bws_time lib = record {
  bandwidth = refl;
  counters = refl;
  idle = refl;
  unlocked = refl;
  acks = refl;
  control = refl;
}

-- A round from rest, in a library that is not dying: the timer offers the statistics; the iterator
-- gives them, with the values of every acknowledgement of every peer since the last round, and holds
-- `ack_list` from then on; `bws_set` with a bandwidth and an interval returns None and gives
-- `ack_list` back. Then the timer can go on, and the control is at rest
-- with the new interval; the sender has the new bandwidth, no idle time and its counters at zero; and
-- no peer has an acknowledgement left to report.
pub python_round :
    (inet_ntop : ℕ → List ℕ) (timeout : Bool) (times_1_2 : ℕ → ℕ) (now : Timeval) (rst bws_time : ℤ)
    (lib : Library)
    → lib.death ≡ false
    → lib.ack_list ≡ false
    → lib.bws.bw_locked ≡ false
    → lib.bws.s_bws_hasdata ≡ 0
    → lib.bws.s_bws_processed ≡ 0
    → (offered : BwControl) × (dict : BwsDict) × (given after : Library) × (offer lib.bws
        ≡ some offered)
      × (bwiter_iternext inet_ntop (record lib { bws = offered }) ≡ (value dict, given))
      × (map (λ (p : PeerDict). p.values) dict.peer_stats
          ≡ map (λ (p : PeerAckStore). map value_of p.ack_store) lib.acks.peers)
      × (accept given.bws ≡ none)
      × (given.ack_list ≡ true)
      × (bws_set timeout times_1_2 now (some (rst, bws_time)) given ≡ (none_value, after))
      × (accept after.bws ≡ some (record (lib.bws) { bws_timer = bws_time }))
      × (after.ack_list ≡ false)
      × (after.sender.bandwidth ≡ to_u64 rst)
      × (after.sender.idle_time ≡ time_zero)
      × (after.sender.stats_s ≡ reset_out_counters lib.sender.stats_s)
      × AllReported after.acks.peers
unfolding offer accept fetch report get_idle release_ack_store reset_out_counters
python_round inet_ntop timeout times_1_2 now rst bws_time lib alive unlocked hl hd hp =
    let offered = record (lib.bws) {
      bw_locked = true;
      s_bws_hasdata = lib.bws.s_bws_hasdata + 1;
    } in
    let fetched : BwControl = record offered { s_bws_hasdata = lib.bws.s_bws_hasdata + 1 - 1 } in
    let given = record (report inet_ntop lib).1 { bws = fetched; ack_list = true } in
    let after = answer_bws rst bws_time (resend_late timeout times_1_2 now given) in
    let x = answer_bws-IsAnswered timeout times_1_2 now rst bws_time given in
    (
      offered,
      (report inet_ntop lib).0,
      given,
      after,
      ground arith,
      bwiter_iternext-offered inet_ntop (record lib { bws = offered }) alive unlocked
          (ground arith),
      reported_values inet_ntop lib.acks.peers,
      ground arith,
      refl,
      bws_set-answers timeout times_1_2 now rst bws_time given alive,
      rw (x.control) (ground arith),
      x.unlocked,
      x.bandwidth,
      x.idle,
      x.counters,
      rw (x.acks) (emptied-AllReported lib.acks.peers),
    )
