-- ===== src/BlockCache/Distinct.antt =====
-- No two blocks of the cache have the same identifier: what every operation keeps of that, and what
-- `deleteblock` does then.
use bora.Prelude.{
  ℕ, ◌≡◌, refl, sym, ap, subst, ◌∙◌, true, false, Bool-cases, Option-cases, inl, inr, none, some,
  List, [], ◌∷◌, ◌==◌, ◌&&◌, arith,
}
use bora.Net.{SockaddrIn}
use bora.Net.Time.{Timeval}
use bora.Codec.{FragmentData}
use bora.BlockCache.{
  Block, BlockData, AddResult, is_block, findblock, store_block, addblock, deleteblock, addfragment,
  first_fragment, next_fragment,
}
use bora.BlockCache.Lookup.{findblock-some}
use bora.BlockCache.Add.{remove_block, deleteblock_lem}
use bora.BlockCache.Invariant.{Outcome, addfragment-Outcome}

abbrev pub AllDistinct : List Block → Type 0
AllDistinct [] = Unit
AllDistinct (b ∷ cache) = (findblock b.streamid b.blockid cache ≡ none) × AllDistinct cache

pub remove_block-none :
    (sid bid s i : ℕ) (cache : List Block)
    → findblock s i cache ≡ none
    → findblock s i (remove_block sid bid cache).1 ≡ none
unfolding findblock remove_block
remove_block-none sid bid s i [] h = refl
remove_block-none sid bid s i (b ∷ cache) h = ground (arith, remove_block-none sid bid s i cache)

pub remove_block-AllDistinct :
    (sid bid : ℕ) (cache : List Block)
    → AllDistinct cache
    → AllDistinct (remove_block sid bid cache).1
unfolding remove_block
remove_block-AllDistinct sid bid [] all = tt
remove_block-AllDistinct sid bid (b ∷ cache) all = elim (Bool-cases (is_block sid bid b)) [
  | inl here ↦ rw here all.1
  | inr there ↦ rw there (
    remove_block-none sid bid b.streamid b.blockid cache all.0,
    remove_block-AllDistinct sid bid cache all.1,
  )
]

store_block-none :
    (sid bid s i : ℕ) (new : Block) (cache : List Block)
    → new.streamid ≡ sid
    → new.blockid ≡ bid
    → findblock s i cache ≡ none
    → findblock s i (store_block sid bid new cache) ≡ none
unfolding findblock store_block
store_block-none sid bid s i new [] hs hb h = refl
store_block-none sid bid s i new (b ∷ cache) hs hb h =
    ground (arith, store_block-none sid bid s i new cache hs hb)

store_block-AllDistinct :
    (sid bid : ℕ) (new : Block) (cache : List Block)
    → new.streamid ≡ sid
    → new.blockid ≡ bid
    → AllDistinct cache
    → AllDistinct (store_block sid bid new cache)
unfolding store_block
store_block-AllDistinct sid bid new [] hs hb all = tt
store_block-AllDistinct sid bid new (b ∷ cache) hs hb all = elim (Bool-cases (is_block sid bid b)) [
  | inl here ↦
      let absent : findblock new.streamid new.blockid cache ≡ none = ground (arith, all.0) in
      rw here (absent, all.1)
  | inr there ↦ rw there (
    store_block-none sid bid b.streamid b.blockid new cache hs hb all.0,
    store_block-AllDistinct sid bid new cache hs hb all.1,
  )
]

first_fragment-named :
    (fresh : Block) (g : FragmentData) (host : SockaddrIn) (ts : Timeval) {r : AddResult}
    {b : Block}
    → first_fragment fresh g host ts ≡ some (r, some b)
    → (b.streamid ≡ g.streamid) × (b.blockid ≡ g.blockid)
unfolding first_fragment
first_fragment-named fresh g host ts h = ground arith

next_fragment-named :
    (b : Block) (g : FragmentData) (host : SockaddrIn) (ts : Timeval) {r : AddResult} {b' : Block}
    → next_fragment b g host ts ≡ some (r, b')
    → (b'.streamid ≡ b.streamid) × (b'.blockid ≡ b.blockid)
unfolding next_fragment
next_fragment-named b g host ts h = ground arith

Outcome-AllDistinct :
    {fresh : Block} {g : FragmentData} {host : SockaddrIn} {ts : Timeval} {cache : List Block}
    {r : AddResult} {cache' : List Block}
    → AllDistinct cache
    → Outcome fresh g host ts cache r cache'
    → AllDistinct cache'
Outcome-AllDistinct {fresh} {g} {host} {ts} {cache} all (Outcome.linked b absent step e) =
    let (sid, bid) = first_fragment-named fresh g host ts step in
    let new : findblock b.streamid b.blockid cache ≡ none = rw (sid, bid) absent in rw e (new, all)
Outcome-AllDistinct all (Outcome.refused step e) = rw e all
Outcome-AllDistinct {fresh} {g} {host} {ts} {cache} all (Outcome.stored b b' found step e) =
    let (sid, bid) = findblock-some g.streamid g.blockid cache found in
    let (sid', bid') = next_fragment-named b g host ts step in
    rw e (store_block-AllDistinct g.streamid g.blockid b' cache (sid' ∙ sid) (bid' ∙ bid) all)

pub addfragment-AllDistinct :
    (fresh : Block) (g : FragmentData) (host : SockaddrIn) (ts : Timeval) (cache : List Block)
    {r : AddResult} {cache' : List Block}
    → AllDistinct cache
    → addfragment fresh g host ts cache ≡ some (r, cache')
    → AllDistinct cache'
addfragment-AllDistinct fresh g host ts cache all h =
    Outcome-AllDistinct all (addfragment-Outcome fresh g host ts cache h)

pub addblock-AllDistinct :
    (fresh : Block) (sid bid : ℕ) (d : BlockData) (cache : List Block)
    → AllDistinct cache
    → AllDistinct (addblock fresh sid bid d cache).1
unfolding addblock
addblock-AllDistinct fresh sid bid d cache all = elim (Option-cases (findblock sid bid cache)) [
  | inl absent ↦ rw (absent, addblock) (absent, all)
  | inr (b, found) ↦ rw (found, addblock) all
]

pub deleteblock-AllDistinct :
    (sid bid : ℕ) (cache : List Block)
    → AllDistinct cache
    → AllDistinct (deleteblock sid bid cache).1
unfolding deleteblock
deleteblock-AllDistinct sid bid [] all = tt
deleteblock-AllDistinct sid bid (newest ∷ cache) all =
    subst (λ out. AllDistinct out.1) (sym (deleteblock_lem sid bid newest cache))
      (
        remove_block-none sid bid newest.streamid newest.blockid cache all.0,
        remove_block-AllDistinct sid bid cache all.1,
      )

pub remove_block-found :
    (sid bid : ℕ) (cache : List Block) {b : Block}
    → AllDistinct cache
    → findblock sid bid cache ≡ some b
    → ((remove_block sid bid cache).0 ≡ true)
      × (findblock sid bid (remove_block sid bid cache).1 ≡ none)
unfolding findblock remove_block
remove_block-found sid bid [] all h = cc
remove_block-found sid bid (c ∷ cache) {b} all h = elim (Bool-cases (is_block sid bid c)) [
  | inl here ↦ rw here (refl, ground (arith, all.0))
  | inr there ↦
      let (ok, gone) = remove_block-found sid bid cache {b = b} all.1 (rw there at h) in
      rw there (ok, rw there gone)
]

remove_block-other :
    (sid bid s i : ℕ) (cache : List Block)
    → (sid == s && bid == i) ≡ false
    → findblock s i (remove_block sid bid cache).1 ≡ findblock s i cache
unfolding findblock remove_block
remove_block-other sid bid s i [] ne = refl
remove_block-other sid bid s i (c ∷ cache) ne = ground (arith, remove_block-other sid bid s i cache)

-- What `deleteblock` of a block behind the newest one does where no two have the same identifier.
pub deleteblock-found :
    (sid bid : ℕ) (newest : Block) (cache : List Block) {b : Block}
    → AllDistinct (newest ∷ cache)
    → findblock sid bid cache ≡ some b
    → let left = (remove_block sid bid cache).1 in
      (deleteblock sid bid (newest ∷ cache) ≡ (true, newest ∷ left))
      × (findblock sid bid left ≡ none)
      × (findblock sid bid (newest ∷ left) ≡ none)
      × ((s i : ℕ)
          → (sid == s && bid == i) ≡ false
          → findblock s i (newest ∷ left) ≡ findblock s i (newest ∷ cache))
unfolding findblock
deleteblock-found sid bid newest cache {b} all found =
    let (ok, gone) = remove_block-found sid bid cache all.1 found in
    let apart : is_block sid bid newest ≡ false = ground (arith, all.0, found) in
    (
      deleteblock_lem sid bid newest cache
          ∙ ap (λ r. (r, newest ∷ (remove_block sid bid cache).1)) ok,
      gone,
      rw apart gone,
      λ s i ne. ground (arith, remove_block-other sid bid s i cache ne),
    )

pub remove_block-absent :
    (sid bid : ℕ) (cache : List Block)
    → findblock sid bid cache ≡ none
    → remove_block sid bid cache ≡ (false, cache)
unfolding findblock remove_block
remove_block-absent sid bid [] h = refl
remove_block-absent sid bid (c ∷ cache) h = ground (arith, remove_block-absent sid bid cache)

pub deleteblock-absent :
    (sid bid : ℕ) (newest : Block) (cache : List Block)
    → findblock sid bid cache ≡ none
    → deleteblock sid bid (newest ∷ cache) ≡ (false, newest ∷ cache)
deleteblock-absent sid bid newest cache h =
    deleteblock_lem sid bid newest cache
    ∙ ap (λ out. (out.0, newest ∷ out.1)) (remove_block-absent sid bid cache h)
