-- ===== src/BwControl/Reply.antt =====
-- A round of the bandwidth control.
use bora.Prelude.{◌+◌, ◌-◌, ◌≡◌, refl, true, false, none, some, List, [], ◌∷◌, arith}
use bora.Prelude.Int.{ℤ, to_u64}
use bora.Sender.{Sender}
use bora.PeerAcks.{PeerAckStore, PeerAcks, clear_last}
use bora.BwControl.{BwControl, offer, accept, fetch, bws_return_value, reset_out_counters}

-- No errors and no acknowledgements since the last round, in any peer.
abbrev pub AllCleared : List PeerAckStore → Type 0
AllCleared [] = Unit
AllCleared (p ∷ peers) = (p.last_acked ≡ 0) × (p.last_error ≡ 0) × AllCleared peers

clear_last-AllCleared : (peers : List PeerAckStore) → AllCleared (clear_last peers)
unfolding clear_last
clear_last-AllCleared [] = tt
clear_last-AllCleared (p ∷ peers) = (refl, refl, clear_last-AllCleared peers)

-- A round of the control from rest: the timer offers the statistics and then holds the lock; it can go
-- on only after the Python side has fetched them and returned a bandwidth; and then the lock is free
-- again and both semaphores are at 0, the sender has the new bandwidth and counters at zero, and every
-- peer counts from zero.
pub bandwidth_round :
    (bw : ℤ) (s : Sender) (acks : PeerAcks) (b : BwControl)
    → b.bw_locked ≡ false
    → b.s_bws_hasdata ≡ 0
    → b.s_bws_processed ≡ 0
    → (offered fetched replied rest : BwControl) × (s' : Sender) × (acks' : PeerAcks) × (offer b
        ≡ some offered)
      × (offer offered ≡ none)
      × (accept offered ≡ none)
      × (fetch offered ≡ some fetched)
      × (accept fetched ≡ none)
      × (bws_return_value bw (s, acks, fetched) ≡ (s', acks', replied))
      × (accept replied ≡ some rest)
      × (rest ≡ b)
      × (s'.bandwidth ≡ to_u64 bw)
      × (s'.stats_s ≡ reset_out_counters s.stats_s)
      × AllCleared acks'.peers
unfolding offer accept fetch bws_return_value bora.PeerAcks.release_ack_store
    bora.Sender.set_bandwidth
bandwidth_round bw s acks b hl hd hp =
    let offered = record b { bw_locked = true; s_bws_hasdata = b.s_bws_hasdata + 1 } in
    let fetched : BwControl = record offered { s_bws_hasdata = b.s_bws_hasdata + 1 - 1 } in
    let replied : BwControl = record fetched { s_bws_processed = b.s_bws_processed + 1 } in
    let (s', acks', _) = bws_return_value bw (s, acks, fetched) in
    (
      offered,
      fetched,
      replied,
      record replied { bw_locked = false; s_bws_processed = b.s_bws_processed + 1 - 1 },
      s',
      acks',
      ground arith,
      ground arith,
      ground arith,
      ground arith,
      ground arith,
      refl,
      ground arith,
      ground arith,
      refl,
      refl,
      clear_last-AllCleared acks.peers,
    )
