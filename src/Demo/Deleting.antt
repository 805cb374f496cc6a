-- ===== src/Demo/Deleting.antt =====
-- The last loop of main.c, which deletes every block that the program has added.
use bora.Prelude.{
  ℕ, zero, suc, ◌+◌, ◌<◌, ◌≤◌, ◌≡◌, refl, subst, ap, ◌∙◌, inl, inr, Bool-cases, Option-cases, none,
  List, [], ◌∷◌, ◌==◌, ==→eq, arith,
}
use bora.BlockCache.{Block, is_block, findblock}
use bora.BlockCache.Lookup.{findblock-cons}
use bora.BlockCache.Add.{remove_block, deleteblock_lem}
use bora.BlockCache.Distinct.{
  AllDistinct, remove_block-none, remove_block-AllDistinct, remove_block-found,
}
use bora.Demo.Main.{del_loop}

-- Every block has stream 1 and a number below `count`.
abbrev pub AllNumbered : ℕ → List Block → Type 0
AllNumbered count [] = Unit
AllNumbered count (b ∷ cache) = (b.streamid ≡ 1) × (b.blockid < count) × AllNumbered count cache

pub remove_block-AllNumbered :
    (count i : ℕ) (cache : List Block)
    → AllNumbered count cache
    → AllNumbered count (remove_block 1 i cache).1
unfolding remove_block
remove_block-AllNumbered count i [] all = tt
remove_block-AllNumbered count i (b ∷ cache) all = elim (Bool-cases (is_block 1 i b)) [
  | inl here ↦ rw here all.2
  | inr there ↦ rw there (all.0, all.1, remove_block-AllNumbered count i cache all.2)
]

remove_block-gone :
    (i : ℕ) (cache : List Block)
    → AllDistinct cache
    → findblock 1 i (remove_block 1 i cache).1 ≡ none
remove_block-gone i cache all = elim (Option-cases (findblock 1 i cache)) [
  | inl absent ↦ remove_block-none 1 i 1 i cache absent
  | inr (b, found) ↦ (remove_block-found 1 i cache all found).1
]

-- What the loop leaves behind the newest block.
left_behind : ℕ → ℕ → List Block → List Block
left_behind zero i cache = cache
left_behind (suc n) i cache = left_behind n (i + 1) (remove_block 1 i cache).1

del_loop-newest :
    (n i : ℕ) (newest : Block) (cache : List Block)
    → (del_loop n i (newest ∷ cache)).1 ≡ newest ∷ left_behind n i cache
unfolding del_loop left_behind
del_loop-newest zero i newest cache = refl
del_loop-newest (suc n) i newest cache =
    ap (λ out. (del_loop n (i + 1) out.1).1) (deleteblock_lem 1 i newest cache)
    ∙ del_loop-newest n (i + 1) newest (remove_block 1 i cache).1

left_behind-none :
    (n i j : ℕ) (cache : List Block)
    → findblock 1 j cache ≡ none
    → findblock 1 j (left_behind n i cache) ≡ none
unfolding left_behind
left_behind-none zero i j cache h = h
left_behind-none (suc n) i j cache h =
    left_behind-none n (i + 1) j (remove_block 1 i cache).1 (remove_block-none 1 i 1 j cache h)

left_behind-gone :
    (n i j : ℕ) (cache : List Block)
    → AllDistinct cache
    → i ≤ j
    → j < i + n
    → findblock 1 j (left_behind n i cache) ≡ none
unfolding left_behind
left_behind-gone zero i j cache all low high = absurd (omega (arith, low, high))
left_behind-gone (suc n) i j cache all low high = elim (Bool-cases (i == j)) [
  | inl here ↦ left_behind-none n (i + 1) j (remove_block 1 i cache).1 (
      subst (λ k. findblock 1 k (remove_block 1 i cache).1 ≡ none) (==→eq i j here)
        (remove_block-gone i cache all))
  | inr later ↦
      left_behind-gone n (i + 1) j (remove_block 1 i cache).1
        (remove_block-AllDistinct 1 i cache all) (ground arith) (omega arith)
]

left_behind-AllNumbered :
    (count n i : ℕ) (cache : List Block)
    → AllNumbered count cache
    → AllNumbered count (left_behind n i cache)
unfolding left_behind
left_behind-AllNumbered count zero i cache all = all
left_behind-AllNumbered count (suc n) i cache all =
    left_behind-AllNumbered count n (i + 1) (remove_block 1 i cache).1
      (remove_block-AllNumbered count i cache all)

nothing_numbered :
    (count : ℕ) (cache : List Block)
    → AllNumbered count cache
    → ((j : ℕ) → j < count → findblock 1 j cache ≡ none)
    → cache ≡ []
nothing_numbered count [] all gone = refl
nothing_numbered count (b ∷ cache) all gone =
    let there = findblock-cons 1 b.blockid b cache all.0 refl in
    let absent = gone b.blockid all.1 in cc

-- If no two blocks have the same identifier, and all behind the newest one are of stream 1 with a
-- number below `count`, then the loop over all these numbers leaves the newest block, and no other.
pub del_loop_leaves_newest :
    (count : ℕ) (newest : Block) (cache : List Block)
    → AllDistinct cache
    → AllNumbered count cache
    → (del_loop count 0 (newest ∷ cache)).1 ≡ newest ∷ []
del_loop_leaves_newest count newest cache distinct numbered =
    del_loop-newest count 0 newest cache
    ∙ ap (λ rest. newest ∷ rest)
        (nothing_numbered count (left_behind count 0 cache)
          (left_behind-AllNumbered count count 0 cache numbered)
          (λ j below.
            left_behind-gone count 0 j cache distinct (omega arith) (omega (arith, below))))
