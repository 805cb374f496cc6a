-- ===== src/Nacks/Resend.antt =====
-- The functions that send unacknowledged datagrams again.
use bora.Prelude.{
  ℕ, ◌+◌, ◌<◌, ◌≡◌, ◌⊎◌, none, some, refl, sym, ap, ap₂, ◌∙◌, ◌++◌, Bool, true, false, not, ◌&&◌,
  ◌||◌, Bool-cases, Option-cases, inl, inr, List, [], ◌∷◌, bit_and, bit_or, has, holds_up_to,
  holds_up_to_at, ◌==◌, if◌then◌else◌, arith,
}
use bora.Net.{SockaddrIn, SendData, addr_eq}
use bora.Net.Messages.{
  block_mask_consecutive, blk_block_ack, block_retransmission, block_consecutive, blk_block,
  blk_ack, bw_msg,
}
use bora.Net.Time.{Timeval, timer_lt, time_to_usec}
use bora.Codec.{block_flags}
use bora.Queues.{Queues, retr_lane, lane, send_data}
use bora.Nacks.{
  Ack, NackPeer, Nacks, nack_find_by_host, resend_where, resend, again, resend_ooo_nacks,
  resend_peers, resend_timeout_nacks, timed_out, count,
}
use bora.Nacks.Purge.{keep}
use bora.Nacks.Peers.{nack_find_by_host-store_nacks, nack_find_by_host-store_nacks_ne}
use bora.Queues.Routing.{IsBalanced, send_data-IsBalanced}

-- The entries of the list that pass the test, in order.
pub passing : (Ack → Bool) → List Ack → List Ack
passing test [] = []
passing test (a ∷ nacks) = let rest = passing test nacks in if test a then a ∷ rest else rest

-- A datagram that is no longer the first of a consecutive pair, but a retransmission.
abbrev pub marked : SendData → SendData
marked d = record d {
  contents = λ i.
      if i == 0
      then bit_or (bit_and (d.contents 0) block_mask_consecutive) block_retransmission
      else d.contents i;
}

-- The datagrams that are sent for such entries: the block data among them, marked.
pub resent : List Ack → List SendData
resent [] = []
resent (a ∷ nacks) =
    let rest = resent nacks in
    if has (bit_and (a.d.contents 0) block_mask_consecutive) blk_block_ack
    then marked a.d ∷ rest
    else rest

-- The queues after these datagrams have been handed to `send_data`, one after the other.
pub send_all : List SendData → Queues → Queues
unfolding send_data
send_all [] q = q
send_all (d ∷ ds) q = send_all ds (send_data d q)

resent-cons :
    (a : Ack) (nacks : List Ack) (q : Queues)
    → send_all (resent (a ∷ nacks)) q ≡ send_all (resent nacks) (resend a.d q)
unfolding resent send_all resend again
resent-cons a nacks q =
    elim (Bool-cases (has (bit_and (a.d.contents 0) block_mask_consecutive) blk_block_ack)) [
      | inl again_it ↦ rw again_it refl
      | inr drop_it ↦ rw drop_it refl
    ]

resent-append :
    (xs ys : List Ack) (q : Queues)
    → send_all (resent (xs ++ ys)) q ≡ send_all (resent ys) (send_all (resent xs) q)
unfolding resent send_all
resent-append [] ys q = refl
resent-append (a ∷ xs) ys q =
    resent-cons a (xs ++ ys) q
    ∙ resent-append xs ys (resend a.d q)
    ∙ ap (send_all (resent ys)) (sym (resent-cons a xs q))

resend_where-passing :
    (test : Ack → Bool) (nacks : List Ack) (q : Queues)
    → ((resend_where test nacks q).1 ≡ keep test nacks)
      × ((resend_where test nacks q).0 ≡ count (passing test nacks))
      × ((resend_where test nacks q).2 ≡ send_all (resent (passing test nacks)) q)
unfolding resend_where keep passing send_all resent
resend_where-passing test [] q = (refl, refl, refl)
resend_where-passing test (a ∷ nacks) q = elim (Bool-cases (test a)) [
  | inl yes_it ↦
      let (left, n, sent) = resend_where-passing test nacks (resend a.d q) in
      rw yes_it (left, omega (arith, n), sent ∙ sym (resent-cons a (passing test nacks) q))
  | inr no_it ↦
      let (left, n, sent) = resend_where-passing test nacks q in
      rw no_it (ap (λ r. a ∷ r) left, n, sent)
]

resend-IsBalanced : (d : SendData) {q : Queues} → IsBalanced q → IsBalanced (resend d q)
unfolding resend
resend-IsBalanced d {q} b =
    elim (Bool-cases (has (bit_and (d.contents 0) block_mask_consecutive) blk_block_ack)) [
      | inl again_it ↦ rw again_it (send_data-IsBalanced (again d) b)
      | inr drop_it ↦ rw drop_it b
    ]

resend_where-IsBalanced :
    (test : Ack → Bool) (nacks : List Ack) {q : Queues}
    → IsBalanced q
    → IsBalanced (resend_where test nacks q).2
unfolding resend_where
resend_where-IsBalanced test [] b = b
resend_where-IsBalanced test (a ∷ nacks) b = elim (Bool-cases (test a)) [
  | inl yes_it ↦ rw yes_it (resend_where-IsBalanced test nacks (resend-IsBalanced a.d b))
  | inr no_it ↦ rw no_it (resend_where-IsBalanced test nacks b)
]

-- From balanced queues, `resend_ooo_nacks` changes nothing if the acknowledged peer has no list. Else it leaves there
-- exactly the entries that were not sent before the acknowledged one, in order, and every other list
-- as it was; it returns the number of the entries that it has removed; and the block data among those
-- go to `send_data`, marked as retransmissions, one after the other from the head of the list on. The
-- queues stay balanced.
pub resend_ooo_nacks_lem :
    (ack : Ack) (st : Nacks) {q : Queues}
    → IsBalanced q
    → let older = λ (a : Ack). timer_lt a.sendtime ack.sendtime in
      let (n, st', q') = resend_ooo_nacks ack st q in
      IsBalanced q'
      × (((nack_find_by_host ack.d.to st.peers ≡ none) × (n ≡ 0) × (st' ≡ st) × (q' ≡ q))
          ⊎ ((p : NackPeer) × (nack_find_by_host ack.d.to st.peers ≡ some p)
              × (nack_find_by_host ack.d.to st'.peers
                  ≡ some (record p { nacks = keep older p.nacks }))
              × ((other : SockaddrIn)
                  → addr_eq ack.d.to other ≡ false
                  → nack_find_by_host other st'.peers ≡ nack_find_by_host other st.peers)
              × (n ≡ count (passing older p.nacks))
              × (q' ≡ send_all (resent (passing older p.nacks)) q)))
unfolding resend_ooo_nacks
resend_ooo_nacks_lem ack st {q} b = elim (Option-cases (nack_find_by_host ack.d.to st.peers)) [
  | inl absent ↦ rw (absent, resend_ooo_nacks) (b, inl (refl, refl, refl, refl))
  | inr (p, found) ↦
      let older = λ (a : Ack). timer_lt a.sendtime ack.sendtime in
      let out = resend_where older p.nacks q in
      let (left, n, sent) = resend_where-passing older p.nacks q in
      rw (found, resend_ooo_nacks)
        (
          resend_where-IsBalanced older p.nacks b,
          inr (
            p,
            refl,
            nack_find_by_host-store_nacks ack.d.to out.1 st.peers found
                ∙ ap (λ nacks. some (record p { nacks = nacks })) left,
            λ other ne. nack_find_by_host-store_nacks_ne ack.d.to other out.1 st.peers ne,
            n,
            sent,
          ),
        )
]

-- The peers with the entries that have not timed out, and those that have, peer by peer.
pub in_time : (SockaddrIn → ℕ) → ℕ → List NackPeer → List NackPeer
in_time timeout now [] = []
in_time timeout now (p ∷ peers) =
    record p { nacks = keep (timed_out now (timeout p.addr)) p.nacks } ∷ in_time timeout now peers

pub late : (SockaddrIn → ℕ) → ℕ → List NackPeer → List Ack
late timeout now [] = []
late timeout now (p ∷ peers) =
    passing (timed_out now (timeout p.addr)) p.nacks ++ late timeout now peers

count-append : (xs ys : List Ack) → count (xs ++ ys) ≡ count xs + count ys
count-append [] ys = omega arith
count-append (x ∷ xs) ys = omega (arith, count-append xs ys)

resend_peers_lem :
    (timeout : SockaddrIn → ℕ) (now : ℕ) (peers : List NackPeer) {q : Queues}
    → IsBalanced q
    → let (n, peers', q') = resend_peers timeout now peers q in
      (peers' ≡ in_time timeout now peers)
      × (n ≡ count (late timeout now peers))
      × (q' ≡ send_all (resent (late timeout now peers)) q)
      × IsBalanced q'
unfolding resend_peers in_time late send_all resent
resend_peers_lem timeout now [] b = (refl, refl, refl, b)
resend_peers_lem timeout now (p ∷ peers) {q} b =
    let test = timed_out now (timeout p.addr) in
    let gone = passing test p.nacks in
    let rest = late timeout now peers in
    let out = resend_where test p.nacks q in
    let (left, n, sent) = resend_where-passing test p.nacks q in
    let (others, m, sent', balanced) =
      resend_peers_lem timeout now peers (resend_where-IsBalanced test p.nacks b) in
    (
      ap₂ (λ nacks ps. record p { nacks = nacks } ∷ ps) left others,
      omega (arith, n, m, count-append gone rest),
      sent' ∙ ap (send_all (resent rest)) sent ∙ sym (resent-append gone rest q),
      balanced,
    )

-- From balanced queues, `resend_timeout_nacks` leaves each peer exactly the entries that have not timed out, in order; it
-- returns the number of the others; and the block data among those go to `send_data`, marked as
-- retransmissions, peer by peer and in each from the head of the list on. The queues stay balanced.
pub resend_timeout_nacks_lem :
    (timeout : SockaddrIn → ℕ) (now : Timeval) (st : Nacks) {q : Queues}
    → IsBalanced q
    → let (n, st', q') = resend_timeout_nacks timeout now st q in
      let gone = late timeout (time_to_usec now) st.peers in
      (st' ≡ record st { peers = in_time timeout (time_to_usec now) st.peers })
      × (n ≡ count gone)
      × (q' ≡ send_all (resent gone) q)
      × IsBalanced q'
unfolding resend_timeout_nacks
resend_timeout_nacks_lem timeout now st b =
    let (left, n, sent, balanced) = resend_peers_lem timeout (time_to_usec now) st.peers b in
    (ap (λ peers. record st { peers = peers }) left, n, sent, balanced)

-- What holds of the flags of a block datagram when it is sent again.
abbrev resent_ok : ℕ → Bool
resent_ok f =
    let g = bit_or (bit_and f block_mask_consecutive) block_retransmission in
    not (block_flags f)
    || (block_flags g
        && not (has g block_consecutive)
        && has g block_retransmission
        && not (has g blk_ack)
        && not (has g bw_msg)
        && (if has f blk_block then has g blk_block else not (has g blk_block)))

resent_table : holds_up_to resent_ok 256 ≡ true
unfolding holds_up_to
resent_table = refl

-- A block datagram that is sent again keeps flags that `validate_block` accepts and its BLK_BLOCK
-- bit, loses BLOCK_CONSECUTIVE, and goes to the queue of retransmissions.
pub again_lem :
    (d : SendData)
    → d.contents 0 < 256
    → block_flags (d.contents 0) ≡ true
    → (block_flags ((again d).contents 0) ≡ true)
      × (has ((again d).contents 0) block_consecutive ≡ false)
      × (has ((again d).contents 0) blk_block ≡ has (d.contents 0) blk_block)
      × (lane (again d) ≡ retr_lane)
unfolding again lane
again_lem d h ok = ground (arith, holds_up_to_at resent_ok 256 (d.contents 0) h resent_table)
