-- ===== src/Nacks/Keeps.antt =====
-- What `send_data` keeps of the queues for every datagram with room behind it, the functions that
-- send again keep, too; and what is left in the lists has room behind it.
use bora.Prelude.{ℕ, Bool, Bool-cases, Option-cases, inl, inr, List, [], ◌∷◌, bit_and, has}
use bora.Net.{SockaddrIn, SendData}
use bora.Net.Messages.{block_mask_consecutive, blk_block_ack}
use bora.Net.Time.{Timeval, timer_lt, time_to_usec}
use bora.Queues.{Queues, send_data}
use bora.Queues.Fit.{Fits}
use bora.Nacks.{
  Ack, NackPeer, Nacks, nack_find_by_host, again, resend, resend_where, resend_ooo_nacks,
  resend_peers, resend_timeout_nacks, timed_out,
}
use bora.Nacks.Fit.{AcksFit, PeersFit, NacksFit, nack_find_by_host-AcksFit, store_nacks-PeersFit}

module _ (P : Queues → Type 0)
    (keeps : (d : SendData) (q : Queues) → Fits d → P q → P (send_data d q)) where
  resend_keeps : (d : SendData) (q : Queues) → Fits d → P q → P (resend d q)
  unfolding resend again
  resend_keeps d q fit p =
      elim (Bool-cases (has (bit_and (d.contents 0) block_mask_consecutive) blk_block_ack)) [
        | inl again_it ↦ rw again_it (keeps (again d) q fit p)
        | inr drop_it ↦ rw drop_it p
      ]

  resend_where_keeps :
      (test : Ack → Bool) (nacks : List Ack) (q : Queues)
      → AcksFit nacks
      → P q
      → AcksFit (resend_where test nacks q).1 × P (resend_where test nacks q).2
  unfolding resend_where
  resend_where_keeps test [] q fit p = (tt, p)
  resend_where_keeps test (a ∷ nacks) q fit p = elim (Bool-cases (test a)) [
    | inl yes_it ↦
        rw yes_it (resend_where_keeps test nacks (resend a.d q) fit.1 (resend_keeps a.d q fit.0 p))
    | inr no_it ↦
        let (left, kept) = resend_where_keeps test nacks q fit.1 p in rw no_it ((fit.0, left), kept)
  ]

  pub resend_ooo_nacks_keeps :
      (ack : Ack) (st : Nacks) (q : Queues)
      → NacksFit st
      → P q
      → NacksFit (resend_ooo_nacks ack st q).1 × P (resend_ooo_nacks ack st q).2
  unfolding resend_ooo_nacks
  resend_ooo_nacks_keeps ack st q fit p =
      elim (Option-cases (nack_find_by_host ack.d.to st.peers)) [
        | inl absent ↦ rw (absent, resend_ooo_nacks) (fit, p)
        | inr (peer, found) ↦
            let (left, kept) =
              resend_where_keeps (λ a. timer_lt a.sendtime ack.sendtime) peer.nacks q
                (nack_find_by_host-AcksFit ack.d.to st.peers fit found) p in
            rw (found, resend_ooo_nacks) (store_nacks-PeersFit ack.d.to _ st.peers left fit, kept)
      ]

  resend_peers_keeps :
      (timeout : SockaddrIn → ℕ) (now : ℕ) (peers : List NackPeer) (q : Queues)
      → PeersFit peers
      → P q
      → PeersFit (resend_peers timeout now peers q).1 × P (resend_peers timeout now peers q).2
  unfolding resend_peers
  resend_peers_keeps timeout now [] q fit p = (tt, p)
  resend_peers_keeps timeout now (peer ∷ peers) q fit p =
      let test = timed_out now (timeout peer.addr) in
      let (left, kept) = resend_where_keeps test peer.nacks q fit.0 p in
      let (others, all_kept) =
        resend_peers_keeps timeout now peers (resend_where test peer.nacks q).2 fit.1 kept in
      ((left, others), all_kept)

  pub resend_timeout_nacks_keeps :
      (timeout : SockaddrIn → ℕ) (now : Timeval) (st : Nacks) (q : Queues)
      → NacksFit st
      → P q
      → NacksFit (resend_timeout_nacks timeout now st q).1
        × P (resend_timeout_nacks timeout now st q).2
  unfolding resend_timeout_nacks
  resend_timeout_nacks_keeps timeout now st q fit p =
      resend_peers_keeps timeout (time_to_usec now) st.peers q fit p
