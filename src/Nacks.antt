-- ===== src/Nacks.antt =====
-- ack.c: the datagrams that wait for an acknowledgement, by peer. The lists of queue.h are lists
-- here: MYSLIST_INSERT_HEAD is `∷`, MYSLIST_FOREACH walks from the head, MYSLIST_REMOVE takes out
-- the element that the walk stands on. Each function holds `nack_lock` throughout and is one step;
-- malloc does not fail.
pub mod Peers
pub mod Cookie
pub mod Purge
pub mod Resend
pub mod Fit
pub mod Keeps
use bora.Prelude.{
  ℕ, ◌+◌, ◌-◌, Bool, Option, none, some, List, [], ◌∷◌, u16, u64, le16, read_le16, bit_and, bit_or,
  has, ltb, leb, ◌==◌, ◌&&◌, set, if◌then◌else◌, Array,
}
use bora.Net.{SockaddrIn, addr_eq, SendData}
use bora.Net.Time.{Timeval, timer_lt, time_to_usec}
use bora.Net.Messages.{block_mask_consecutive, blk_block_ack, block_retransmission}
use bora.Codec.{get_fragment_id, put}
use bora.Queues.{Queues, send_data}

pub record Ack : Type 0 where
  pub seq : ℕ
  pub sendtime : Timeval
  pub sleeptime : ℕ
  pub d : SendData

pub record NackPeer : Type 0 where
  pub addr : SockaddrIn
  pub nacks : List Ack

-- `nacklist` and `seq_num`.
pub record Nacks : Type 0 where
  pub peers : List NackPeer
  pub seq_num : ℕ

-- sizeof(_AckCookie)
abbrev pub cookie_size : ℕ
cookie_size = 2

unfoldable pub nack_find_by_host : SockaddrIn → List NackPeer → Option NackPeer
nack_find_by_host host [] = none
nack_find_by_host host (p ∷ peers) =
    if addr_eq p.addr host then some p else nack_find_by_host host peers

-- A write to the waiting list of the peer that `nack_find_by_host` returns.
unfoldable pub store_nacks : SockaddrIn → List Ack → List NackPeer → List NackPeer
store_nacks host nacks [] = []
store_nacks host nacks (p ∷ peers) =
    if addr_eq p.addr host
    then record p { nacks = nacks } ∷ peers
    else p ∷ store_nacks host nacks peers

-- The datagram with its sequence number behind it, its new length, and the lists. The source writes the
-- number into the array of 1500 bytes; this is what it does with a datagram that leaves room for it.
unfoldable pub append_ack : SendData → Timeval → ℕ → Nacks → SendData × ℕ × Nacks
unfolding nack_find_by_host store_nacks
append_ack d sendtime sleeptime st =
    let seq = u16 (st.seq_num + 1) in
    let nack : Ack = record { seq = seq; sendtime = sendtime; sleeptime = sleeptime; d = d } in
    let peers : List NackPeer = elim (nack_find_by_host d.to st.peers) [
      | none ↦ record { addr = d.to; nacks = nack ∷ [] } ∷ st.peers
      | some peer ↦ store_nacks d.to (nack ∷ peer.nacks) st.peers
    ] in
    (
      record d { contents = put d.contents d.length (le16 seq) },
      d.length + cookie_size,
      record { peers = peers; seq_num = seq },
    )

-- The first acknowledgement of a number, and the list without it.
unfoldable pub take_seq : ℕ → List Ack → Option (Ack × List Ack)
take_seq seq [] = none
take_seq seq (a ∷ nacks) =
    let rest = take_seq seq nacks in
    if a.seq == seq
    then some (a, nacks)
    else elim rest [ none ↦ none | some (b, others) ↦ some (b, a ∷ others) ]

-- What is popped, and the lists.
unfoldable pub pop_ack : ℕ → SockaddrIn → Nacks → Option Ack × Nacks
unfolding nack_find_by_host store_nacks take_seq
pop_ack seq host st = elim (nack_find_by_host host st.peers) [
  | none ↦ (none, st)
  | some peer ↦ elim (take_seq seq peer.nacks) [
    | none ↦ (none, st)
    | some (a, others) ↦ (some a, record st { peers = store_nacks host others st.peers })
  ]
]

unfoldable pub strip_ack : Array ℕ → ℕ → ℕ
strip_ack fragment fsize = read_le16 fragment (fsize - cookie_size)

-- The walk of `remove_ooo_nacks`: how many are removed, and what is left.
unfoldable pub drop_older : Timeval → List Ack → ℕ × List Ack
drop_older sendtime [] = (0, [])
drop_older sendtime (a ∷ nacks) =
    let (n, left) = drop_older sendtime nacks in
    if timer_lt a.sendtime sendtime then (n + 1, left) else (n, a ∷ left)

unfoldable pub remove_ooo_nacks : Ack → Nacks → ℕ × Nacks
unfolding nack_find_by_host store_nacks drop_older
remove_ooo_nacks ack st = elim (nack_find_by_host ack.d.to st.peers) [
  | none ↦ (0, st)
  | some peer ↦
      let (n, left) = drop_older ack.sendtime peer.nacks in
      (n, record st { peers = store_nacks ack.d.to left st.peers })
]

-- The test of `remove_lost_acks`: the fragment of `a` is one of the `cons` fragments before the
-- acknowledged one, which the peer has received.
unfoldable pub is_lost : Ack → ℕ → Ack → Bool
unfolding get_fragment_id
is_lost ack cons a =
    let content = get_fragment_id a.d.contents a.d.length in
    let ack_content = get_fragment_id ack.d.contents ack.d.length in
    timer_lt a.sendtime ack.sendtime
    && content.streamid == ack_content.streamid
    && content.blockid == ack_content.blockid
    && ltb content.fragmentid ack_content.fragmentid
    && leb (ack_content.fragmentid - content.fragmentid) cons

pub drop_lost : Ack → ℕ → List Ack → List Ack
drop_lost ack cons [] = []
drop_lost ack cons (a ∷ nacks) =
    if is_lost ack cons a then drop_lost ack cons nacks else a ∷ drop_lost ack cons nacks

-- The count that the code returns stays 0.
unfoldable pub remove_lost_acks : Ack → ℕ → Nacks → ℕ × Nacks
unfolding nack_find_by_host store_nacks drop_lost is_lost
remove_lost_acks ack cons st = elim (nack_find_by_host ack.d.to st.peers) [
  | none ↦ (0, st)
  | some peer ↦
      (0, record st { peers = store_nacks ack.d.to (drop_lost ack cons peer.nacks) st.peers })
]

-- The datagram as it is sent again: not consecutive, and marked as a retransmission.
unfoldable pub again : SendData → SendData
again d = record d {
  contents =
      set d.contents 0
        (bit_or (bit_and (d.contents 0) block_mask_consecutive) block_retransmission);
}

-- What both functions that resend do with a datagram.
unfoldable pub resend : SendData → Queues → Queues
unfolding again
resend d q =
    if has (bit_and (d.contents 0) block_mask_consecutive) blk_block_ack
    then send_data (again d) q
    else q

-- The walk of `resend_ooo_nacks` and `resend_timeout_nacks`: those that pass the test are resent and
-- removed, from the head on.
pub resend_where : (Ack → Bool) → List Ack → Queues → ℕ × List Ack × Queues
resend_where test [] q = (0, [], q)
resend_where test (a ∷ nacks) q =
    let (n, left, q') = resend_where test nacks (if test a then resend a.d q else q) in
    if test a then (n + 1, left, q') else (n, a ∷ left, q')

unfoldable pub resend_ooo_nacks : Ack → Nacks → Queues → ℕ × Nacks × Queues
unfolding nack_find_by_host store_nacks resend_where
resend_ooo_nacks ack st q = elim (nack_find_by_host ack.d.to st.peers) [
  | none ↦ (0, st, q)
  | some peer ↦
      let (n, left, q') = resend_where (λ a. timer_lt a.sendtime ack.sendtime) peer.nacks q in
      (n, record st { peers = store_nacks ack.d.to left st.peers }, q')
]

-- now_usec > time_to_usec(cur->sendtime) + timeout
unfoldable pub timed_out : ℕ → ℕ → Ack → Bool
unfolding time_to_usec
timed_out now_usec timeout a = ltb (u64 (time_to_usec a.sendtime + timeout)) now_usec

-- The walk over the peers; `get_timeout_value` gives each one its timeout.
pub resend_peers : (SockaddrIn → ℕ) → ℕ → List NackPeer → Queues → ℕ × List NackPeer × Queues
resend_peers get_timeout_value now_usec [] q = (0, [], q)
resend_peers get_timeout_value now_usec (p ∷ peers) q =
    let (n, left, q') = resend_where (timed_out now_usec (get_timeout_value p.addr)) p.nacks q in
    let (m, others, q'') = resend_peers get_timeout_value now_usec peers q' in
    (n + m, record p { nacks = left } ∷ others, q'')

unfoldable pub resend_timeout_nacks :
    (SockaddrIn → ℕ) → Timeval → Nacks → Queues → ℕ × Nacks × Queues
unfolding resend_peers time_to_usec
resend_timeout_nacks get_timeout_value now st q =
    let (n, peers, q') = resend_peers get_timeout_value (time_to_usec now) st.peers q in
    (n, record st { peers = peers }, q')

abbrev pub count : List Ack → ℕ
count [] = 0
count (a ∷ nacks) = count nacks + 1

-- The loops of `get_n_nack`.
pub count_peers : List NackPeer → ℕ
count_peers [] = 0
count_peers (p ∷ peers) = count p.nacks + count_peers peers

unfoldable pub get_n_nack : Nacks → ℕ
unfolding count_peers
get_n_nack st = count_peers st.peers

unfoldable pub get_seq : Nacks → ℕ
get_seq st = st.seq_num
