-- ===== src/Demo/Leftover.antt =====
-- main.c, its part on the blocks as a whole: which of them are left.
use bora.Prelude.{
  ℕ, zero, suc, ◌+◌, ◌<◌, ◌≤◌, ◌≡◌, refl, sym, subst, ap, inl, inr, Option-cases, List, [], ◌∷◌,
  arith,
}
use bora.BlockCache.{Block, BlockData, findblock, addblock, deleteblock}
use bora.BlockCache.Add.{deleteblock_lem}
use bora.BlockCache.Distinct.{AllDistinct, remove_block-none, remove_block-AllDistinct}
use bora.Demo.Main.{add_loop, del_loop, main_blocks}
use bora.Demo.Deleting.{AllNumbered, remove_block-AllNumbered, del_loop_leaves_newest}

-- There are blocks, all distinct, and all of stream 1 with a number below `count`.
abbrev Stocked : ℕ → List Block → Type 0
Stocked count [] = ⊥
Stocked count (b ∷ cache) = AllDistinct (b ∷ cache) × AllNumbered count (b ∷ cache)

addblock-Stocked :
    (count : ℕ) (fresh : Block) (d : BlockData) (i : ℕ) (cache : List Block)
    → i < count
    → Stocked count cache
    → Stocked count (addblock fresh 1 i d cache).1
unfolding addblock
addblock-Stocked count fresh d i [] below stock = absurd stock
addblock-Stocked count fresh d i (b ∷ cache) below stock =
    elim (Option-cases (findblock 1 i (b ∷ cache))) [
      | inl absent ↦ rw (absent, addblock) ((absent, stock.0), (refl, below, stock.1))
      | inr (c, found) ↦ rw (found, addblock) stock
    ]

add_loop-Stocked :
    (count : ℕ) (fresh : Block) (d : BlockData) (n i : ℕ) (cache : List Block)
    → i + n ≤ count
    → Stocked count cache
    → Stocked count (add_loop fresh d n i cache).1
unfolding add_loop
add_loop-Stocked count fresh d zero i cache below stock = stock
add_loop-Stocked count fresh d (suc n) i cache below stock =
    add_loop-Stocked count fresh d n (i + 1) (addblock fresh 1 i d cache).1 (omega (arith, below))
      (addblock-Stocked count fresh d i cache (omega (arith, below)) stock)

deleteblock-Stocked :
    (count i : ℕ) (cache : List Block)
    → Stocked count cache
    → Stocked count (deleteblock 1 i cache).1
deleteblock-Stocked count i [] stock = absurd stock
deleteblock-Stocked count i (b ∷ cache) (distinct, numbered) =
    subst (λ out. Stocked count out.1) (sym (deleteblock_lem 1 i b cache))
      (
        (
          remove_block-none 1 i b.streamid b.blockid cache distinct.0,
          remove_block-AllDistinct 1 i cache distinct.1,
        ),
        (numbered.0, numbered.1, remove_block-AllNumbered count i cache numbered.2),
      )

del_loop-Stocked :
    (count n i : ℕ) (cache : List Block)
    → Stocked count cache
    → Stocked count (del_loop n i cache).1
unfolding del_loop
del_loop-Stocked count zero i cache stock = stock
del_loop-Stocked count (suc n) i cache stock =
    del_loop-Stocked count n (i + 1) (deleteblock 1 i cache).1
      (deleteblock-Stocked count i cache stock)

one_left :
    (count : ℕ) (cache : List Block)
    → Stocked count cache
    → (newest : Block) × ((del_loop count 0 cache).1 ≡ newest ∷ [])
one_left count [] stock = absurd stock
one_left count (b ∷ cache) (distinct, numbered) =
    (b, del_loop_leaves_newest count b cache distinct.1 numbered.2)

-- With loops to any count of at least 2, one block is left where `main` has deleted every number that
-- it has added, and its last `addblock` finds that block there.
main_blocks_lem :
    (fresh : Block) (d : BlockData) (count : ℕ)
    → 2 ≤ count
    → (newest : Block) × ((main_blocks fresh d count).1 ≡ (addblock fresh 1 1 d (newest ∷ [])).1)
unfolding main_blocks addblock
main_blocks_lem fresh d count some_blocks =
    let first = (addblock fresh 1 1 d []).1 in
    let full = (add_loop fresh d count 0 first).1 in
    let less = (del_loop 2 0 full).1 in
    let no_9 = (deleteblock 1 9 less).1 in
    let no_6 = (deleteblock 1 6 no_9).1 in
    let stock = deleteblock-Stocked count 6 no_9 (
      deleteblock-Stocked count 9 less (
        del_loop-Stocked count 2 0 full (
          add_loop-Stocked count fresh d count 0 first (omega arith)
            ((refl, tt), (refl, omega (arith, some_blocks), tt))))) in
    let (newest, left) = one_left count no_6 stock in
    (newest, ap (λ cache. (addblock fresh 1 1 d cache).1) left)
