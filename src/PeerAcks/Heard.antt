-- ===== src/PeerAcks/Heard.antt =====
-- What `ack_received` leaves in the list of peers: the peer that the acknowledgement came from has
-- one more entry, and the others are as before.
use bora.Prelude.{
  ℕ, ◌+◌, ◌≡◌, refl, ◌∙◌, Bool, false, Bool-cases, inl, inr, none, some, List, [], ◌∷◌, u64, max,
  ◌==◌, if◌then◌else◌, arith,
}
use bora.Net.{SockaddrIn, addr_eq}
use bora.Net.Time.{Timeval, timer_lt, time_to_usec}
use bora.Net.Messages.{need_ack, cookie_msg}
use bora.Codec.{AckReceived}
use bora.Nacks.{Ack}
use bora.Nacks.Peers.{addr_eq→eq, addr_eq_refl}
use bora.Cookies.{AckStore}
use bora.PeerAcks.{
  PeerAckStore, AckState, find_peer_by_host, store_peer, new_entry, first_heard, heard_again, blame,
  previous, receive_first, receive_next, notice_cookie, overtaken, ack_received, get_timeout_value,
}

find_peer_by_host-store_peer :
    (host : SockaddrIn) (new : PeerAckStore) (peers : List PeerAckStore) {p : PeerAckStore}
    → find_peer_by_host host peers ≡ some p
    → new.addr ≡ host
    → find_peer_by_host host (store_peer host new peers) ≡ some new
unfolding find_peer_by_host store_peer
find_peer_by_host-store_peer host new [] h e = ground arith
find_peer_by_host-store_peer host new (q ∷ peers) {p} h e =
    ground (arith, addr_eq_refl host, find_peer_by_host-store_peer host new peers {p = p})

find_peer_by_host-store_peer_ne :
    (host other : SockaddrIn) (new : PeerAckStore) (peers : List PeerAckStore)
    → new.addr ≡ host
    → addr_eq host other ≡ false
    → find_peer_by_host other (store_peer host new peers) ≡ find_peer_by_host other peers
unfolding find_peer_by_host store_peer
find_peer_by_host-store_peer_ne host other new [] e h = refl
find_peer_by_host-store_peer_ne host other new (q ∷ peers) e h =
    elim (Bool-cases (addr_eq q.addr host)) [
      | inl here ↦ rw here (ground (arith, addr_eq→eq q.addr host here))
      | inr there ↦
          rw there (ground (arith, find_peer_by_host-store_peer_ne host other new peers e h))
    ]

find_peer_by_host-addr :
    (host : SockaddrIn) (peers : List PeerAckStore) {p : PeerAckStore}
    → find_peer_by_host host peers ≡ some p
    → p.addr ≡ host
unfolding find_peer_by_host
find_peer_by_host-addr host [] h = ground arith
find_peer_by_host-addr host (q ∷ peers) {p} h =
    ground (arith, addr_eq→eq q.addr host, find_peer_by_host-addr host peers {p = p})

notice_cookie-acks :
    (entry : AckStore) (a : Ack) (st : AckState) → (notice_cookie entry a st).acks ≡ st.acks
unfolding notice_cookie
notice_cookie-acks entry a st = elim (Bool-cases (a.d.contents 0 == need_ack + cookie_msg)) [
  | inl cookie ↦ rw (cookie, notice_cookie) refl
  | inr other ↦ rw (other, notice_cookie) refl
]

-- Errors touch neither the address, nor the count, nor the times that the timeout depends on.
blame_lem :
    (prev : AckStore) (errors : ℕ) (p : PeerAckStore)
    → ((blame prev errors p).addr ≡ p.addr)
      × ((blame prev errors p).total_acked ≡ p.total_acked)
      × ((blame prev errors p).min_rtt ≡ p.min_rtt)
      × ((blame prev errors p).last_rtt ≡ p.last_rtt)
unfolding blame
blame_lem prev errors p = elim (Bool-cases (errors == 0)) [
  | inl without ↦ rw (without, blame) (refl, refl, refl, refl)
  | inr found ↦ rw (found, blame) (refl, refl, refl, refl)
]

-- The round trip time of an acknowledgement.
abbrev pub rtt_of : Ack → AckReceived → Timeval → SockaddrIn → Timeval
rtt_of a ack_r received host =
    (new_entry host a (record { tv_sec = ack_r.sec; tv_usec = ack_r.usec }) received).rtt

-- The first acknowledgement from a host makes a peer of it, with one datagram acknowledged, no error
-- and the round trip time of the acknowledgement; all other hosts are found as before.
pub ack_received-first :
    (retransmission : Bool) (a : Ack) (ack_r : AckReceived) (received : Timeval) (host : SockaddrIn)
    (st : AckState)
    → find_peer_by_host host st.acks.peers ≡ none
    → let after = ack_received retransmission a ack_r received host st in
      let rtt = rtt_of a ack_r received host in
      ((p : PeerAckStore) × (find_peer_by_host host after.acks.peers ≡ some p)
        × (p.total_acked ≡ 1)
        × (p.total_errors ≡ 0)
        × (p.min_rtt ≡ rtt)
        × (p.last_rtt ≡ time_to_usec rtt))
      × ((other : SockaddrIn)
          → addr_eq host other ≡ false
          → find_peer_by_host other after.acks.peers ≡ find_peer_by_host other st.acks.peers)
unfolding find_peer_by_host ack_received receive_first first_heard new_entry
ack_received-first retransmission a ack_r received host st h =
    let entry = new_entry host a (record { tv_sec = ack_r.sec; tv_usec = ack_r.usec }) received in
    rw (h, ack_received)
      (rw (notice_cookie-acks entry a (receive_first entry a st)) (
        (first_heard entry, rw (addr_eq_refl host, find_peer_by_host) refl, refl, refl, refl, refl),
        λ other e. rw (e, find_peer_by_host) refl,
      ))

-- An acknowledgement from a known peer: its count of acknowledged datagrams grows by one, the least
-- round trip time is the smaller one of the old and the new, the timeout follows the new one, and all
-- other hosts are found as before.
pub ack_received-next :
    (retransmission : Bool) (a : Ack) (ack_r : AckReceived) (received : Timeval) (host : SockaddrIn)
    (st : AckState) {p : PeerAckStore}
    → find_peer_by_host host st.acks.peers ≡ some p
    → let after = ack_received retransmission a ack_r received host st in
      let rtt = rtt_of a ack_r received host in
      ((p' : PeerAckStore) × (find_peer_by_host host after.acks.peers ≡ some p')
        × (p'.total_acked ≡ u64 (p.total_acked + 1))
        × (p'.min_rtt ≡ (if timer_lt rtt p.min_rtt then rtt else p.min_rtt))
        × (p'.last_rtt ≡ time_to_usec rtt)
        × ((times_1_2 : ℕ → ℕ)
            → get_timeout_value times_1_2 host after.acks.peers
              ≡ max (times_1_2 (time_to_usec rtt)) 10000))
      × ((other : SockaddrIn)
          → addr_eq host other ≡ false
          → find_peer_by_host other after.acks.peers ≡ find_peer_by_host other st.acks.peers)
unfolding get_timeout_value ack_received receive_next heard_again new_entry
ack_received-next retransmission a ack_r received host st {p} h =
    let entry = new_entry host a (record { tv_sec = ack_r.sec; tv_usec = ack_r.usec }) received in
    let errors = (overtaken retransmission a ack_r.cons st.nacks st.queues).0 in
    let after = blame (previous entry p.ack_store) errors (heard_again entry p) in
    let (same, acked, least, last) =
      blame_lem (previous entry p.ack_store) errors (heard_again entry p) in
    let addr : after.addr ≡ host = same ∙ find_peer_by_host-addr host st.acks.peers h in
    let found : find_peer_by_host host (store_peer host after st.acks.peers) ≡ some after =
      find_peer_by_host-store_peer host after st.acks.peers h addr in
    rw (h, ack_received)
      (rw (notice_cookie-acks entry a (receive_next retransmission p entry a ack_r.cons st)) (
        (after, found, acked, least, last, λ times. rw (found, get_timeout_value) (rw last refl)),
        λ other e. find_peer_by_host-store_peer_ne host other after st.acks.peers addr e,
      ))
