-- ===== src/BlockCache/Add.antt =====
-- `addblock` and `deleteblock`.
use bora.Prelude.{
  ℕ, ◌<◌, ◌≤◌, ◌≡◌, refl, Bool, true, false, none, some, List, [], ◌∷◌, ◌==◌, ltb, ◌&&◌, memcpy,
  if◌then◌else◌, arith,
}
use bora.BlockCache.{
  Block, BlockData, is_block, findblock, addblock, calcfragments, deleteblock, delete_after,
  have_below, no_host,
}
use bora.Net.Time.{time_zero}
use bora.BlockCache.Cutting.{max_block, calcfragments_lem}
use bora.BlockCache.Lookup.{findblock-cons, findblock-cons_ne}
use bora.BlockCache.Reassembly.{IsCut}
use bora.BlockCache.Reassembly.Whole.{have_below-all}

-- The block that `addblock` links in.
unfoldable pub new_block : Block → ℕ → ℕ → BlockData → Block
unfolding calcfragments
new_block fresh sid bid data_in =
    let fs = calcfragments data_in.length in
    record {
      streamid = sid;
      blockid = bid;
      content = record {
        payload = memcpy fresh.content.payload 0 data_in.payload data_in.length;
        length = data_in.length;
      };
      alloc = data_in.length;
      f = λ i.
          if ltb i fs.fn then record { have = true; host = no_host; ts = time_zero } else fresh.f i;
      fs = fs;
    }

pub addblock-absent :
    (fresh : Block) (sid bid : ℕ) (d : BlockData) (cache : List Block)
    → findblock sid bid cache ≡ none
    → addblock fresh sid bid d cache ≡ (true, new_block fresh sid bid d ∷ cache)
unfolding addblock new_block
addblock-absent fresh sid bid d cache e = rw (addblock, e)

-- A block that is in the cache is not added again, and the cache stays as it is.
pub addblock-present :
    (fresh : Block) (sid bid : ℕ) (d : BlockData) (cache : List Block) {b : Block}
    → findblock sid bid cache ≡ some b
    → addblock fresh sid bid d cache ≡ (false, cache)
unfolding addblock
addblock-present fresh sid bid d cache e = rw (addblock, e)

pub new_block-IsCut :
    (fresh : Block) (sid bid : ℕ) (d : BlockData)
    → 0 < d.length
    → d.length ≤ max_block
    → IsCut (new_block fresh sid bid d)
unfolding new_block
new_block-IsCut fresh sid bid d h k =
    let (a, b, c, e, f) = calcfragments_lem d.length h k in
    record { some_fragments = a; count_fits = b; last_nonempty = c; last_fits = e; whole = f }

new_block_complete :
    (fresh : Block) (sid bid : ℕ) (d : BlockData)
    → have_below (new_block fresh sid bid d).f (new_block fresh sid bid d).fs.fn ≡ true
unfolding new_block
new_block_complete fresh sid bid d = have_below-all _ _ (λ k hk. ground arith)

-- A block of 1 to `max_block` bytes that is not in the cache is added: it is found under its
-- identifier, cut into fragments that make up its length, with every fragment there and the bytes
-- that were given; and every other block is found as before.
pub addblock_lem :
    (fresh : Block) (sid bid : ℕ) (d : BlockData) (cache : List Block)
    → findblock sid bid cache ≡ none
    → 0 < d.length
    → d.length ≤ max_block
    → (b : Block) × (cache' : List Block) × (addblock fresh sid bid d cache ≡ (true, cache'))
      × (findblock sid bid cache' ≡ some b)
      × IsCut b
      × (have_below b.f b.fs.fn ≡ true)
      × (b.content.length ≡ d.length)
      × ((j : ℕ) → j < d.length → b.content.payload j ≡ d.payload j)
      × ((s i : ℕ) → (sid == s && bid == i) ≡ false → findblock s i cache' ≡ findblock s i cache)
unfolding new_block
addblock_lem fresh sid bid d cache absent h k = (
  new_block fresh sid bid d,
  new_block fresh sid bid d ∷ cache,
  addblock-absent fresh sid bid d cache absent,
  findblock-cons sid bid (new_block fresh sid bid d) cache refl refl,
  new_block-IsCut fresh sid bid d h k,
  new_block_complete fresh sid bid d,
  refl,
  λ j hj. ground arith,
  λ s i ne. findblock-cons_ne s i (new_block fresh sid bid d) cache ne,
)

-- What `deleteblock` should do: take out the first block of the identifier.
unfoldable pub remove_block : ℕ → ℕ → List Block → Bool × List Block
remove_block sid bid [] = (false, [])
remove_block sid bid (b ∷ cache) =
    let rest = remove_block sid bid cache in
    if is_block sid bid b then (true, cache) else (rest.0, b ∷ rest.1)

delete_after_lem :
    (sid bid : ℕ) (prev : Block) (cache : List Block)
    → delete_after sid bid prev cache
      ≡ ((remove_block sid bid cache).0, prev ∷ (remove_block sid bid cache).1)
unfolding delete_after remove_block
delete_after_lem sid bid prev [] = refl
delete_after_lem sid bid prev (b ∷ cache) = ground (arith, delete_after_lem sid bid b cache)

-- `deleteblock` removes the first block of the identifier behind the newest block of the cache, and
-- reports whether there was one. The newest block itself is never removed.
pub deleteblock_lem :
    (sid bid : ℕ) (newest : Block) (cache : List Block)
    → deleteblock sid bid (newest ∷ cache)
      ≡ ((remove_block sid bid cache).0, newest ∷ (remove_block sid bid cache).1)
unfolding deleteblock
deleteblock_lem sid bid newest cache = delete_after_lem sid bid newest cache

remove_block-absent :
    (sid bid : ℕ) (cache : List Block)
    → findblock sid bid cache ≡ none
    → remove_block sid bid cache ≡ (false, cache)
unfolding findblock remove_block
remove_block-absent sid bid [] h = refl
remove_block-absent sid bid (b ∷ cache) h = ground (arith, remove_block-absent sid bid cache)

-- A block that has just been added cannot be deleted: `deleteblock` reports failure and leaves the
-- cache as it is.
pub delete_newest :
    (fresh : Block) (sid bid : ℕ) (d : BlockData) (cache : List Block)
    → findblock sid bid cache ≡ none
    → deleteblock sid bid (addblock fresh sid bid d cache).1
      ≡ (false, (addblock fresh sid bid d cache).1)
delete_newest fresh sid bid d cache absent = rw (
  addblock-absent fresh sid bid d cache absent,
  deleteblock_lem sid bid (new_block fresh sid bid d) cache,
  remove_block-absent sid bid cache absent,
)
