-- ===== src/Nacks/Purge.antt =====
-- The entries that are removed because a later datagram was acknowledged, or for their age.
use mathlib.Core.Option.{some-injective}
use bora.Prelude.{
  ℕ, ◌+◌, ◌≡◌, refl, sym, subst, Bool, false, Bool-cases, Option-cases, inl, inr, Option, none,
  some, List, [], ◌∷◌, if◌then◌else◌, arith,
}
use bora.Net.{SockaddrIn, addr_eq}
use bora.Net.Time.{Timeval, timer_lt}
use bora.Nacks.{
  Ack, NackPeer, Nacks, nack_find_by_host, store_nacks, drop_older, remove_ooo_nacks, count,
  get_n_nack,
}
use bora.Nacks.Peers.{
  nack_find_by_host-store_nacks, nack_find_by_host-store_nacks_ne, count_peers-store_nacks,
}

-- No entry of the list passes the test.
abbrev pub NoneOf : (Ack → Bool) → List Ack → Type 0
NoneOf test [] = Unit
NoneOf test (a ∷ nacks) = (test a ≡ false) × NoneOf test nacks

-- The entries of the list that do not pass the test, in order.
unfoldable pub keep : (Ack → Bool) → List Ack → List Ack
keep test [] = []
keep test (a ∷ nacks) = let rest = keep test nacks in if test a then rest else a ∷ rest

pub keep-NoneOf : (test : Ack → Bool) (nacks : List Ack) → NoneOf test (keep test nacks)
unfolding keep
keep-NoneOf test [] = tt
keep-NoneOf test (a ∷ nacks) = elim (Bool-cases (test a)) [
  | inl yes_it ↦ rw yes_it (keep-NoneOf test nacks)
  | inr no_it ↦ rw no_it (no_it, keep-NoneOf test nacks)
]

pub drop_older_lem :
    (t : Timeval) (nacks : List Ack)
    → ((drop_older t nacks).1 ≡ keep (λ a. timer_lt a.sendtime t) nacks)
      × ((drop_older t nacks).0 + count (drop_older t nacks).1 ≡ count nacks)
unfolding drop_older keep
drop_older_lem t [] = (refl, omega arith)
drop_older_lem t (a ∷ nacks) = ground (arith, drop_older_lem t nacks)

-- What an acknowledged datagram leaves of the lists: no entry of its peer was sent before it, the
-- lists of the other peers are as they were, and `n` entries are gone.
abbrev pub Purged : Ack → Nacks → ℕ → Nacks → Type 0
Purged ack st n st' =
    (n + get_n_nack st' ≡ get_n_nack st)
    × ((p : NackPeer)
        → nack_find_by_host ack.d.to st'.peers ≡ some p
        → NoneOf (λ a. timer_lt a.sendtime ack.sendtime) p.nacks)
    × ((other : SockaddrIn)
        → addr_eq ack.d.to other ≡ false
        → nack_find_by_host other st'.peers ≡ nack_find_by_host other st.peers)

module _ (ack : Ack) (st : Nacks) where
  pub store-Purged :
      {p : NackPeer} (n : ℕ) (left : List Ack)
      → nack_find_by_host ack.d.to st.peers ≡ some p
      → left ≡ keep (λ a. timer_lt a.sendtime ack.sendtime) p.nacks
      → n + count left ≡ count p.nacks
      → Purged ack st n (record st { peers = store_nacks ack.d.to left st.peers })
  unfolding get_n_nack
  store-Purged {p} n left found e total = (
    omega (arith, count_peers-store_nacks ack.d.to left st.peers found),
    λ p' h.
        subst
          (λ (x : Option NackPeer).
            x ≡ some p' → NoneOf (λ a. timer_lt a.sendtime ack.sendtime) p'.nacks)
          (sym (nack_find_by_host-store_nacks ack.d.to left st.peers found))
          (λ k.
            subst (λ (x : NackPeer). NoneOf (λ a. timer_lt a.sendtime ack.sendtime) x.nacks)
              (some-injective _ _ k)
              (rw e (keep-NoneOf (λ a. timer_lt a.sendtime ack.sendtime) p.nacks)))
          h,
    λ other ne. nack_find_by_host-store_nacks_ne ack.d.to other left st.peers ne,
  )

  pub absent-Purged : nack_find_by_host ack.d.to st.peers ≡ none → Purged ack st 0 st
  absent-Purged absent = (omega arith, λ p h. cc, λ other ne. refl)

  -- `remove_ooo_nacks` removes from the acknowledged peer's list exactly the entries sent before the
  -- acknowledged one, and returns their number.
  pub remove_ooo_nacks_lem : let (n, st') = remove_ooo_nacks ack st in Purged ack st n st'
  unfolding remove_ooo_nacks
  remove_ooo_nacks_lem = elim (Option-cases (nack_find_by_host ack.d.to st.peers)) [
    | inl absent ↦ rw (absent, remove_ooo_nacks) (absent-Purged absent)
    | inr (p, found) ↦
        rw (found, remove_ooo_nacks)
          (store-Purged (drop_older ack.sendtime p.nacks).0 (drop_older ack.sendtime p.nacks).1
            found (drop_older_lem ack.sendtime p.nacks).0 (drop_older_lem ack.sendtime p.nacks).1)
  ]
