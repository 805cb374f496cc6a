-- ===== src/Nacks/Peers.antt =====
-- The peers of `nacklist`: finding one, and writing its waiting list.
use bora.Prelude.{◌+◌, ◌≡◌, refl, true, false, Bool-cases, inl, inr, some, List, [], ◌∷◌, arith}
use bora.Net.{SockaddrIn, addr_eq}
use bora.Nacks.{Ack, NackPeer, nack_find_by_host, store_nacks, count, count_peers}

pub addr_eq→eq : (a b : SockaddrIn) → addr_eq a b ≡ true → a ≡ b
addr_eq→eq a b h = ground arith

pub addr_eq_refl : (a : SockaddrIn) → addr_eq a a ≡ true
addr_eq_refl a = ground arith

pub nack_find_by_host-addr :
    (host : SockaddrIn) (peers : List NackPeer) {p : NackPeer}
    → nack_find_by_host host peers ≡ some p
    → p.addr ≡ host
unfolding nack_find_by_host
nack_find_by_host-addr host [] h = ground arith
nack_find_by_host-addr host (q ∷ peers) {p} h =
    ground (arith, addr_eq→eq q.addr host, nack_find_by_host-addr host peers {p = p})

-- A lookup after a write to the list of a peer that is there.
pub nack_find_by_host-store_nacks :
    (host : SockaddrIn) (nacks : List Ack) (peers : List NackPeer) {p : NackPeer}
    → nack_find_by_host host peers ≡ some p
    → nack_find_by_host host (store_nacks host nacks peers) ≡ some (record p { nacks = nacks })
unfolding nack_find_by_host store_nacks
nack_find_by_host-store_nacks host nacks [] h = ground arith
nack_find_by_host-store_nacks host nacks (q ∷ peers) {p} h =
    ground (arith, nack_find_by_host-store_nacks host nacks peers {p = p})

-- The peers at other addresses are found as before.
pub nack_find_by_host-store_nacks_ne :
    (host other : SockaddrIn) (nacks : List Ack) (peers : List NackPeer)
    → addr_eq host other ≡ false
    → nack_find_by_host other (store_nacks host nacks peers) ≡ nack_find_by_host other peers
unfolding nack_find_by_host store_nacks
nack_find_by_host-store_nacks_ne host other nacks [] h = refl
nack_find_by_host-store_nacks_ne host other nacks (q ∷ peers) h =
    elim (Bool-cases (addr_eq q.addr host)) [
      | inl here ↦ rw here (ground (arith, addr_eq→eq q.addr host here))
      | inr there ↦
          rw there (ground (arith, nack_find_by_host-store_nacks_ne host other nacks peers h))
    ]

pub count_peers-store_nacks :
    (host : SockaddrIn) (nacks : List Ack) (peers : List NackPeer) {p : NackPeer}
    → nack_find_by_host host peers ≡ some p
    → count_peers (store_nacks host nacks peers) + count p.nacks ≡ count_peers peers + count nacks
unfolding nack_find_by_host store_nacks count_peers
count_peers-store_nacks host nacks [] h = ground arith
count_peers-store_nacks host nacks (q ∷ peers) {p} h =
    ground (arith, count_peers-store_nacks host nacks peers {p = p})

pub store_nacks_twice :
    (host : SockaddrIn) (first second : List Ack) (peers : List NackPeer)
    → store_nacks host second (store_nacks host first peers) ≡ store_nacks host second peers
unfolding store_nacks
store_nacks_twice host first second [] = refl
store_nacks_twice host first second (q ∷ peers) =
    ground (arith, store_nacks_twice host first second peers)

pub store_nacks_same :
    (host : SockaddrIn) (peers : List NackPeer) {p : NackPeer}
    → nack_find_by_host host peers ≡ some p
    → store_nacks host p.nacks peers ≡ peers
unfolding nack_find_by_host store_nacks
store_nacks_same host [] h = refl
store_nacks_same host (q ∷ peers) {p} h = ground (arith, store_nacks_same host peers {p = p})
