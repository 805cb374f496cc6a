-- ===== src/Nacks/Cookie.antt =====
-- A datagram that asks for an acknowledgement, and the acknowledgement that names its number.
use bora.Prelude.{
  ℕ, ◌+◌, ◌<◌, ◌≤◌, ◌≡◌, refl, Option-cases, ◌⊎◌, inl, inr, none, some, List, [], ◌∷◌, u16, arith,
}
use bora.Net.{SockaddrIn, SendData, send_data_size}
use bora.Net.Time.{Timeval}
use bora.Nacks.{
  cookie_size, Ack, NackPeer, Nacks, nack_find_by_host, store_nacks, append_ack, pop_ack, take_seq,
  strip_ack, count, count_peers, get_n_nack,
}
use bora.Nacks.Peers.{
  nack_find_by_host-store_nacks, count_peers-store_nacks, store_nacks_twice, store_nacks_same,
}

-- The number behind a datagram, as `strip_ack` reads it from the received bytes, is the one that
-- `append_ack` has stored, the next after the last one, modulo 2 ^ 16; the bytes before it are those
-- of the datagram.
pub strip_ack-append_ack :
    (d : SendData) (sendtime : Timeval) (sleeptime : ℕ) (st : Nacks)
    → let (d', l, st') = append_ack d sendtime sleeptime st in
      (strip_ack d'.contents l ≡ st'.seq_num)
      × (st'.seq_num ≡ u16 (st.seq_num + 1))
      × (l ≡ d.length + 2)
      × ((i : ℕ) → i < d.length → d'.contents i ≡ d.contents i)
unfolding append_ack strip_ack
strip_ack-append_ack d sendtime sleeptime st = (ground arith, refl, refl, λ i h. ground arith)

-- The peers that are left when the new entry is popped again: those before, or with an empty list
-- for the peer of the datagram in front, if it had none.
pub with_peer : SockaddrIn → List NackPeer → List NackPeer
unfolding nack_find_by_host
with_peer host peers = elim (nack_find_by_host host peers) [
  | none ↦ record { addr = host; nacks = [] } ∷ peers
  | some p ↦ peers
]

-- The entry that `append_ack` stores.
abbrev pub new_nack : SendData → Timeval → ℕ → Nacks → Ack
new_nack d sendtime sleeptime st = record {
  seq = u16 (st.seq_num + 1);
  sendtime = sendtime;
  sleeptime = sleeptime;
  d = d;
}

pop_ack-new :
    (d : SendData) (sendtime : Timeval) (sleeptime : ℕ) (st : Nacks)
    → let (d', l, st') = append_ack d sendtime sleeptime st in
      pop_ack st'.seq_num d.to st' ≡ (
        some (record { seq = st'.seq_num; sendtime = sendtime; sleeptime = sleeptime; d = d }),
        record { peers = with_peer d.to st.peers; seq_num = st'.seq_num },
      )
unfolding append_ack pop_ack with_peer take_seq
pop_ack-new d sendtime sleeptime st = elim (Option-cases (nack_find_by_host d.to st.peers)) [
  | inl absent ↦ ground arith
  | inr (p, found) ↦ ground (
    arith,
    nack_find_by_host-store_nacks d.to (new_nack d sendtime sleeptime st ∷ p.nacks) st.peers found,
    store_nacks_twice d.to (new_nack d sendtime sleeptime st ∷ p.nacks) p.nacks st.peers,
    store_nacks_same d.to st.peers found,
  )
]

-- `append_ack` of a datagram that leaves room for the number: the length with the number behind it is
-- within the 1500 bytes, and `strip_ack` reads there the number that was stored. An acknowledgement of
-- that number, from the address that the datagram goes to, finds the datagram as it was before the
-- number was put behind it, with its time of sending; and the lists are then as they were before,
-- except that a peer that had none has an empty one, in front of the others.
pub pop_ack-append_ack :
    (d : SendData) (sendtime : Timeval) (sleeptime : ℕ) (st : Nacks)
    → d.length + cookie_size ≤ send_data_size
    → let (d', l, st') = append_ack d sendtime sleeptime st in
      (l ≤ send_data_size)
      × (strip_ack d'.contents l ≡ st'.seq_num)
      × (pop_ack st'.seq_num d.to st' ≡ (
        some (record { seq = st'.seq_num; sendtime = sendtime; sleeptime = sleeptime; d = d }),
        record { peers = with_peer d.to st.peers; seq_num = st'.seq_num },
      ))
pop_ack-append_ack d sendtime sleeptime st room =
    let (number, _, len, _) = strip_ack-append_ack d sendtime sleeptime st in
    (omega (arith, len), number, pop_ack-new d sendtime sleeptime st)

-- One more datagram waits after `append_ack`.
pub get_n_nack-append_ack :
    (d : SendData) (sendtime : Timeval) (sleeptime : ℕ) (st : Nacks)
    → get_n_nack (append_ack d sendtime sleeptime st).2 ≡ get_n_nack st + 1
unfolding append_ack get_n_nack count_peers
get_n_nack-append_ack d sendtime sleeptime st =
    elim (Option-cases (nack_find_by_host d.to st.peers)) [
      | inl absent ↦ ground arith
      | inr (p, found) ↦ ground (
        arith,
        count_peers-store_nacks d.to (new_nack d sendtime sleeptime st ∷ p.nacks) st.peers found,
      )
    ]

count-take_seq :
    (seq : ℕ) (nacks : List Ack) {a : Ack} {others : List Ack}
    → take_seq seq nacks ≡ some (a, others)
    → (count nacks ≡ count others + 1) × (a.seq ≡ seq)
unfolding take_seq
count-take_seq seq [] h = ground arith
count-take_seq seq (b ∷ nacks) {a} {others} h = elim (Option-cases (take_seq seq nacks)) [
  | inl e ↦ ground arith
  | inr (x, e) ↦ ground (arith, count-take_seq seq nacks {a = x.0} {others = x.1} e)
]

-- `pop_ack` either finds nothing and changes nothing, or returns an entry of that number and
-- leaves one datagram fewer waiting.
pub pop_ack_lem :
    (seq : ℕ) (host : SockaddrIn) (st : Nacks)
    → (pop_ack seq host st ≡ (none, st))
      ⊎ ((a : Ack) × (st' : Nacks) × (pop_ack seq host st ≡ (some a, st'))
          × (a.seq ≡ seq)
          × (get_n_nack st ≡ get_n_nack st' + 1))
unfolding pop_ack get_n_nack
pop_ack_lem seq host st = elim (Option-cases (nack_find_by_host host st.peers)) [
  | inl absent ↦ inl (rw (absent, pop_ack))
  | inr (p, found) ↦ elim (Option-cases (take_seq seq p.nacks)) [
    | inl none_such ↦ inl (ground arith)
    | inr (x, taken) ↦ inr (
      x.0,
      record st { peers = store_nacks host x.1 st.peers },
      ground arith,
      (count-take_seq seq p.nacks taken).1,
      omega (
        arith,
        count_peers-store_nacks host x.1 st.peers found,
        (count-take_seq seq p.nacks taken).0,
      ),
    )
  ]
]
