-- ===== src/RecvStats.antt =====
-- recv_stats.c: samples of the bandwidth from each host, by the time between two consecutive
-- fragments of a block. A sample is a quotient of doubles in the source; here it is kept as its two
-- operands.
pub mod Samples
use bora.Prelude.{ℕ, ◌+◌, Bool, Option, none, some, List, [], ◌∷◌, has, ◌==◌, ◌&&◌, if◌then◌else◌}
use bora.Net.{SockaddrIn, addr_eq}
use bora.Net.Time.{Timeval, timersub}
use bora.Net.Messages.{block_consecutive}

pub record RecvFragment : Type 0 where
  pub host : SockaddrIn
  pub fromlen : ℕ
  pub streamid : ℕ
  pub blockid : ℕ
  pub fragmentid : ℕ
  pub buflen : ℕ
  pub tv : Timeval
  pub flags : ℕ

-- `bw` is `buflen / delta`.
pub record Bw : Type 0 where
  pub buflen : ℕ
  pub delta : Timeval
  pub tv : Timeval

pub record BwEstimation : Type 0 where
  pub host : SockaddrIn
  pub fromlen : ℕ
  pub bandwidth : List Bw
  pub lastfragment : RecvFragment

-- `fromlen` is that of `struct sockaddr_in` for every datagram that is received, so that memcmp
-- compares whole addresses.
abbrev pub is_host : SockaddrIn → ℕ → BwEstimation → Bool
is_host host fromlen e = e.fromlen == fromlen && addr_eq e.host host

pub bw_find_by_host : SockaddrIn → ℕ → List BwEstimation → Option BwEstimation
bw_find_by_host host fromlen [] = none
bw_find_by_host host fromlen (e ∷ estimations) =
    if is_host host fromlen e then some e else bw_find_by_host host fromlen estimations

-- A write through the pointer that `bw_find_by_host` returns.
pub store_estimation : BwEstimation → List BwEstimation → List BwEstimation
store_estimation new [] = []
store_estimation new (e ∷ estimations) =
    if is_host new.host new.fromlen e
    then new ∷ estimations
    else e ∷ store_estimation new estimations

-- The fragment follows the last one of its host, in the same block, and was sent right behind it.
abbrev pub is_next : RecvFragment → RecvFragment → Bool
is_next last fragment =
    last.streamid == fragment.streamid
    && last.blockid == fragment.blockid
    && last.fragmentid + 1 == fragment.fragmentid
    && has fragment.flags block_consecutive

unfoldable pub fragment_received : RecvFragment → List BwEstimation → List BwEstimation
unfolding bw_find_by_host store_estimation timersub
fragment_received fragment estimations =
    elim (bw_find_by_host fragment.host fragment.fromlen estimations) [
      | none ↦
          record {
            host = fragment.host;
            fromlen = fragment.fromlen;
            bandwidth = [];
            lastfragment = fragment;
          }
          ∷ estimations
      | some e ↦
          let sample : Bw = record {
            buflen = fragment.buflen;
            delta = timersub fragment.tv e.lastfragment.tv;
            tv = fragment.tv;
          } in
          store_estimation
            (record e {
              bandwidth =
                  if is_next e.lastfragment fragment then sample ∷ e.bandwidth else e.bandwidth;
              lastfragment = fragment;
            })
            estimations
    ]

-- The estimations, and the list that is left: an empty one.
unfoldable pub fetch_bw_estimations : List BwEstimation → List BwEstimation × List BwEstimation
fetch_bw_estimations estimations = (estimations, [])
