-- ===== src/BlockCache/Invariant.antt =====
-- Every operation on the cache keeps its blocks sound, and a fragment that is refused changes
-- nothing.
use mathlib.Core.Option
use mathlib.Core.Option.{some-injective}
use bora.Prelude.{
  ℕ, ◌<◌, ◌≡◌, ◌≢◌, refl, sym, ap, subst, ◌∙◌, ◌⊎◌, Bool-cases, Option-cases, inl, inr, Option,
  none, some, List, [], ◌∷◌, arith,
}
use bora.Net.{SockaddrIn}
use bora.Net.Time.{Timeval}
use bora.Codec.{FragmentData}
use bora.BlockCache.{
  Block, BlockData, AddResult, f_added, is_block, findblock, store_block, addblock, calcfragments,
  first_fragment, next_fragment, addfragment, link_in, deleteblock, delete_after,
}
use bora.BlockCache.Bounds.{
  IsSound, AllSound, first_fragment-IsSound, next_fragment-IsSound, next_fragment_code,
}

pub findblock-IsSound :
    (sid bid : ℕ) (cache : List Block) {b : Block}
    → AllSound cache
    → findblock sid bid cache ≡ some b
    → IsSound b
unfolding findblock
findblock-IsSound sid bid [] all h = ground arith
findblock-IsSound sid bid (c ∷ cache) {b} all h = elim (Bool-cases (is_block sid bid c)) [
  | inl here ↦ subst IsSound (some-injective _ _ (rw here at h)) all.0
  | inr there ↦ findblock-IsSound sid bid cache all.1 (rw there at h)
]

store_block-AllSound :
    (sid bid : ℕ) (new : Block) (cache : List Block)
    → IsSound new
    → AllSound cache
    → AllSound (store_block sid bid new cache)
unfolding store_block
store_block-AllSound sid bid new [] sound all = tt
store_block-AllSound sid bid new (c ∷ cache) sound all = elim (Bool-cases (is_block sid bid c)) [
  | inl here ↦ rw here (sound, all.1)
  | inr there ↦ rw there (all.0, store_block-AllSound sid bid new cache sound all.1)
]

store_block_same :
    (sid bid : ℕ) (cache : List Block) {b : Block}
    → findblock sid bid cache ≡ some b
    → store_block sid bid b cache ≡ cache
unfolding findblock store_block
store_block_same sid bid [] h = refl
store_block_same sid bid (c ∷ cache) {b} h = elim (Bool-cases (is_block sid bid c)) [
  | inl here ↦ rw here (ap (λ x. x ∷ cache) (sym (some-injective _ _ (rw here at h))))
  | inr there ↦ rw there (ap (λ r. c ∷ r) (store_block_same sid bid cache (rw there at h)))
]

-- The ways in which `addfragment` returns.
pub data Outcome (fresh : Block) (g : FragmentData) (host : SockaddrIn) (ts : Timeval)
    (cache : List Block) (r : AddResult) (cache' : List Block) : Type 0 where
  linked :
      (b : Block)
      → findblock g.streamid g.blockid cache ≡ none
      → first_fragment fresh g host ts ≡ some (r, some b)
      → cache' ≡ b ∷ cache
      → Outcome fresh g host ts cache r cache'
  refused :
      first_fragment fresh g host ts ≡ some (r, none)
      → cache' ≡ cache
      → Outcome fresh g host ts cache r cache'
  stored :
      (b b' : Block)
      → findblock g.streamid g.blockid cache ≡ some b
      → next_fragment b g host ts ≡ some (r, b')
      → cache' ≡ store_block g.streamid g.blockid b' cache
      → Outcome fresh g host ts cache r cache'

linked-cases :
    (x : Option (AddResult × Option Block)) (cache : List Block) {r : AddResult}
    {cache' : List Block}
    → Option.map {B = AddResult × List Block} (λ r. (r.0, link_in r.1 cache)) x ≡ some (r, cache')
    → ((b : Block) × (x ≡ some (r, some b)) × (cache' ≡ b ∷ cache))
      ⊎ ((x ≡ some (r, none)) × (cache' ≡ cache))
linked-cases none cache h = cc
linked-cases (some (r, none)) cache h = inr (ground arith, ground arith)
linked-cases (some (r, some b)) cache h = inl (b, ground arith, ground arith)

stored-cases :
    (x : Option (AddResult × Block)) (sid bid : ℕ) (cache : List Block) {r : AddResult}
    {cache' : List Block}
    → Option.map {B = AddResult × List Block} (λ r. (r.0, store_block sid bid r.1 cache)) x
      ≡ some (r, cache')
    → (b : Block) × (x ≡ some (r, b)) × (cache' ≡ store_block sid bid b cache)
stored-cases none sid bid cache h = cc
stored-cases (some (r, b)) sid bid cache h = (b, ground arith, ground arith)

pub addfragment-Outcome :
    (fresh : Block) (g : FragmentData) (host : SockaddrIn) (ts : Timeval) (cache : List Block)
    {r : AddResult} {cache' : List Block}
    → addfragment fresh g host ts cache ≡ some (r, cache')
    → Outcome fresh g host ts cache r cache'
unfolding addfragment
addfragment-Outcome fresh g host ts cache h =
    elim (Option-cases (findblock g.streamid g.blockid cache)) [
      | inl absent ↦
          elim (linked-cases (first_fragment fresh g host ts) cache
            (rw (absent, addfragment) at h)) [
              | inl (b, step, e) ↦ Outcome.linked b absent step e
              | inr (step, e) ↦ Outcome.refused step e
            ]
      | inr (b, found) ↦
          let (b', step, e) =
            stored-cases (next_fragment b g host ts) g.streamid g.blockid cache
              (rw (found, addfragment) at h) in
          Outcome.stored b b' found step e
    ]

Outcome-AllSound :
    {fresh : Block} {g : FragmentData} {host : SockaddrIn} {ts : Timeval} {cache : List Block}
    {r : AddResult} {cache' : List Block}
    → AllSound cache
    → Outcome fresh g host ts cache r cache'
    → AllSound cache'
Outcome-AllSound {fresh} {g} {host} {ts} all (Outcome.linked b absent step e) =
    rw e (first_fragment-IsSound fresh g host ts step, all)
Outcome-AllSound all (Outcome.refused step e) = rw e all
Outcome-AllSound {fresh} {g} {host} {ts} {cache} all (Outcome.stored b b' found step e) = rw e (
    store_block-AllSound g.streamid g.blockid b' cache
      (next_fragment-IsSound (findblock-IsSound g.streamid g.blockid cache all found) g host ts
        step)
      all)

-- A fragment that `addfragment` takes or refuses leaves every block of the cache sound.
pub addfragment-AllSound :
    (fresh : Block) (g : FragmentData) (host : SockaddrIn) (ts : Timeval) (cache : List Block)
    {r : AddResult} {cache' : List Block}
    → AllSound cache
    → addfragment fresh g host ts cache ≡ some (r, cache')
    → AllSound cache'
addfragment-AllSound fresh g host ts cache all h =
    Outcome-AllSound all (addfragment-Outcome fresh g host ts cache h)

first_fragment-refused :
    (fresh : Block) (g : FragmentData) (host : SockaddrIn) (ts : Timeval) {r : AddResult}
    {b : Block}
    → first_fragment fresh g host ts ≡ some (r, some b)
    → r ≡ f_added
unfolding first_fragment
first_fragment-refused fresh g host ts h = ground arith

Outcome-refused :
    {fresh : Block} {g : FragmentData} {host : SockaddrIn} {ts : Timeval} {cache : List Block}
    {r : AddResult} {cache' : List Block}
    → Outcome fresh g host ts cache r cache'
    → r ≢ f_added
    → cache' ≡ cache
Outcome-refused {fresh} {g} {host} {ts} (Outcome.linked b absent step e) ne =
    absurd (ne (first_fragment-refused fresh g host ts step))
Outcome-refused (Outcome.refused step e) ne = e
Outcome-refused {fresh} {g} {host} {ts} {cache} (Outcome.stored b b' found step e) ne =
    e
    ∙ ap (λ x. store_block g.streamid g.blockid x cache)
        ((next_fragment_code b g host ts step).2 ne)
    ∙ store_block_same g.streamid g.blockid cache found

-- A fragment that gets any code but F_ADDED leaves the cache as it is.
pub addfragment-refused :
    (fresh : Block) (g : FragmentData) (host : SockaddrIn) (ts : Timeval) (cache : List Block)
    {r : AddResult} {cache' : List Block}
    → addfragment fresh g host ts cache ≡ some (r, cache')
    → r ≢ f_added
    → cache' ≡ cache
addfragment-refused fresh g host ts cache h ne =
    Outcome-refused (addfragment-Outcome fresh g host ts cache h) ne

-- `addblock` of less than 2 ^ 31 bytes keeps the blocks sound, and so does `deleteblock`.
pub addblock-AllSound :
    (fresh : Block) (sid bid : ℕ) (d : BlockData) (cache : List Block)
    → d.length < 0x8000_0000
    → AllSound cache
    → AllSound (addblock fresh sid bid d cache).1
unfolding addblock calcfragments
addblock-AllSound fresh sid bid d cache short all = elim (Option-cases (findblock sid bid cache)) [
  | inl absent ↦
      rw (absent, addblock)
        (
          record {
            size = omega arith;
            room = λ i hi got. ground arith;
            ends = λ i hi got. ground arith;
          },
          all,
        )
  | inr (b, found) ↦ rw (found, addblock) all
]

delete_after-AllSound :
    (sid bid : ℕ) (prev : Block) (cache : List Block)
    → IsSound prev
    → AllSound cache
    → AllSound (delete_after sid bid prev cache).1
unfolding delete_after
delete_after-AllSound sid bid prev [] sound all = (sound, tt)
delete_after-AllSound sid bid prev (b ∷ cache) sound all = elim (Bool-cases (is_block sid bid b)) [
  | inl here ↦ rw here (sound, all.1)
  | inr there ↦ rw there (sound, delete_after-AllSound sid bid b cache all.0 all.1)
]

pub deleteblock-AllSound :
    (sid bid : ℕ) (cache : List Block) → AllSound cache → AllSound (deleteblock sid bid cache).1
unfolding deleteblock
deleteblock-AllSound sid bid [] all = tt
deleteblock-AllSound sid bid (b ∷ cache) all = delete_after-AllSound sid bid b cache all.0 all.1
