-- ===== src/Nacks/Fit.antt =====
-- Every datagram that waits for an acknowledgement has room for what is put behind it.
use mathlib.Core.Option.{some-injective}
use bora.Prelude.{
  ℕ, ◌≡◌, ◌≢◌, subst, Bool-cases, Option-cases, inl, inr, none, some, List, [], ◌∷◌, ◌==◌,
}
use bora.Net.{SockaddrIn, addr_eq, SendData}
use bora.Net.Time.{Timeval, timer_lt}
use bora.Queues.Fit.{Fits}
use bora.Nacks.{
  Ack, NackPeer, Nacks, nack_find_by_host, store_nacks, append_ack, take_seq, pop_ack, drop_older,
  remove_ooo_nacks, is_lost, drop_lost, remove_lost_acks,
}

abbrev pub AcksFit : List Ack → Type 0
AcksFit [] = Unit
AcksFit (a ∷ nacks) = Fits a.d × AcksFit nacks

abbrev pub PeersFit : List NackPeer → Type 0
PeersFit [] = Unit
PeersFit (p ∷ peers) = AcksFit p.nacks × PeersFit peers

abbrev pub NacksFit : Nacks → Type 0
NacksFit st = PeersFit st.peers

pub nack_find_by_host-AcksFit :
    (host : SockaddrIn) (peers : List NackPeer) {p : NackPeer}
    → PeersFit peers
    → nack_find_by_host host peers ≡ some p
    → AcksFit p.nacks
unfolding nack_find_by_host
nack_find_by_host-AcksFit host [] fit h = cc
nack_find_by_host-AcksFit host (q ∷ peers) fit h = elim (Bool-cases (addr_eq q.addr host)) [
  | inl here ↦ subst (λ p. AcksFit p.nacks) (some-injective _ _ (rw here at h)) fit.0
  | inr there ↦ nack_find_by_host-AcksFit host peers fit.1 (rw there at h)
]

pub store_nacks-PeersFit :
    (host : SockaddrIn) (nacks : List Ack) (peers : List NackPeer)
    → AcksFit nacks
    → PeersFit peers
    → PeersFit (store_nacks host nacks peers)
unfolding store_nacks
store_nacks-PeersFit host nacks [] new fit = tt
store_nacks-PeersFit host nacks (q ∷ peers) new fit = elim (Bool-cases (addr_eq q.addr host)) [
  | inl here ↦ rw here (new, fit.1)
  | inr there ↦ rw there (fit.0, store_nacks-PeersFit host nacks peers new fit.1)
]

pub append_ack-NacksFit :
    (d : SendData) (sendtime : Timeval) (sleeptime : ℕ) (st : Nacks)
    → Fits d
    → NacksFit st
    → NacksFit (append_ack d sendtime sleeptime st).2
unfolding append_ack
append_ack-NacksFit d sendtime sleeptime st h fit =
    elim (Option-cases (nack_find_by_host d.to st.peers)) [
      | inl absent ↦ rw (absent, append_ack) ((h, tt), fit)
      | inr (p, found) ↦
          rw (found, append_ack)
            (store_nacks-PeersFit d.to _ st.peers
              (h, nack_find_by_host-AcksFit d.to st.peers fit found) fit)
    ]

nothing : {x : Ack × List Ack} → none ≢ some x
nothing e = cc

take_seq-AcksFit :
    (seq : ℕ) (nacks : List Ack) {a : Ack} {others : List Ack}
    → AcksFit nacks
    → take_seq seq nacks ≡ some (a, others)
    → Fits a.d × AcksFit others
unfolding take_seq
take_seq-AcksFit seq [] fit h = cc
take_seq-AcksFit seq (b ∷ nacks) fit h = elim (Bool-cases (b.seq == seq)) [
  | inl here ↦ subst (λ r. Fits r.0.d × AcksFit r.1) (some-injective _ _ (rw here at h)) fit
  | inr there ↦ elim (Option-cases (take_seq seq nacks)) [
    | inl absent ↦ absurd (nothing (rw (there, absent) at h))
    | inr ((c, left), found) ↦
        let (one, rest) = take_seq-AcksFit seq nacks fit.1 found in
        subst (λ r. Fits r.0.d × AcksFit r.1) (some-injective _ _ (rw (there, found) at h))
          (one, (fit.0, rest))
  ]
]

-- What is popped fits, and so does what is left.
pub pop_ack-NacksFit :
    (seq : ℕ) (host : SockaddrIn) (st : Nacks)
    → NacksFit st
    → NacksFit (pop_ack seq host st).1 × ((a : Ack) → (pop_ack seq host st).0 ≡ some a → Fits a.d)
unfolding pop_ack
pop_ack-NacksFit seq host st fit = elim (Option-cases (nack_find_by_host host st.peers)) [
  | inl absent ↦ rw (absent, pop_ack) (fit, λ a e. cc)
  | inr (p, found) ↦ elim (Option-cases (take_seq seq p.nacks)) [
    | inl unknown ↦ rw (found, pop_ack, unknown) (fit, λ a e. cc)
    | inr ((b, others), taken) ↦
        let (one, rest) =
          take_seq-AcksFit seq p.nacks (nack_find_by_host-AcksFit host st.peers fit found) taken in
        rw (found, pop_ack, taken)
          (
            store_nacks-PeersFit host others st.peers rest fit,
            λ a e. subst (λ x. Fits x.d) (some-injective _ _ e) one,
          )
  ]
]

drop_older-AcksFit :
    (sendtime : Timeval) (nacks : List Ack) → AcksFit nacks → AcksFit (drop_older sendtime nacks).1
unfolding drop_older
drop_older-AcksFit sendtime [] fit = tt
drop_older-AcksFit sendtime (a ∷ nacks) fit = elim (Bool-cases (timer_lt a.sendtime sendtime)) [
  | inl older ↦ rw older (drop_older-AcksFit sendtime nacks fit.1)
  | inr newer ↦ rw newer (fit.0, drop_older-AcksFit sendtime nacks fit.1)
]

pub remove_ooo_nacks-NacksFit :
    (ack : Ack) (st : Nacks) → NacksFit st → NacksFit (remove_ooo_nacks ack st).1
unfolding remove_ooo_nacks
remove_ooo_nacks-NacksFit ack st fit = elim (Option-cases (nack_find_by_host ack.d.to st.peers)) [
  | inl absent ↦ rw (absent, remove_ooo_nacks) fit
  | inr (p, found) ↦
      rw (found, remove_ooo_nacks)
        (store_nacks-PeersFit ack.d.to _ st.peers
          (drop_older-AcksFit ack.sendtime p.nacks
            (nack_find_by_host-AcksFit ack.d.to st.peers fit found))
          fit)
]

drop_lost-AcksFit :
    (ack : Ack) (cons : ℕ) (nacks : List Ack) → AcksFit nacks → AcksFit (drop_lost ack cons nacks)
unfolding drop_lost
drop_lost-AcksFit ack cons [] fit = tt
drop_lost-AcksFit ack cons (a ∷ nacks) fit = elim (Bool-cases (is_lost ack cons a)) [
  | inl lost ↦ rw lost (drop_lost-AcksFit ack cons nacks fit.1)
  | inr open_still ↦ rw open_still (fit.0, drop_lost-AcksFit ack cons nacks fit.1)
]

pub remove_lost_acks-NacksFit :
    (ack : Ack) (cons : ℕ) (st : Nacks) → NacksFit st → NacksFit (remove_lost_acks ack cons st).1
unfolding remove_lost_acks
remove_lost_acks-NacksFit ack cons st fit =
    elim (Option-cases (nack_find_by_host ack.d.to st.peers)) [
      | inl absent ↦ rw (absent, remove_lost_acks) fit
      | inr (p, found) ↦
          rw (found, remove_lost_acks)
            (store_nacks-PeersFit ack.d.to _ st.peers
              (drop_lost-AcksFit ack cons p.nacks
                (nack_find_by_host-AcksFit ack.d.to st.peers fit found))
              fit)
    ]
