-- ===== src/Bindings/Content.antt =====
-- Blocks that Python adds, and reads again.
use bora.Prelude.{
  ℕ, ◌≡◌, refl, ap, ◌∙◌, true, false, Option, none, some, Array, memcpy, bytes, List, ◌∷◌, length,
  tabulate, tabulate-ext, tabulate-get_or, get_or, ◌==◌, ◌&&◌, arith,
}
use bora.Prelude.Int.{ℤ, to_u32}
use bora.BlockCache.{Block, BlockData, findblock, deleteblock, get_block_data}
use bora.BlockCache.Add.{new_block, addblock-absent, addblock-present, delete_newest}
use bora.BlockCache.Lookup.{findblock-cons, findblock-cons_ne}
use bora.Bindings.{Library, value, none_value, none_if_dead, to_u16}
use bora.Bindings.Blocks.{add_block, del_block, get_block_content, content_of}

-- The block that Python gives.
abbrev pub given : List ℕ → BlockData
given content = record { payload = bytes content; length = length content }

-- The library with the block in front.
abbrev pub with_block : Block → ℤ → ℤ → List ℕ → Library → Library
with_block fresh s_id b_id content lib = record lib {
  cache = new_block fresh (to_u16 s_id) (to_u32 b_id) (given content) ∷ lib.cache;
}

pub add_block-absent :
    (fresh : Block) (s_id b_id : ℤ) (content : List ℕ) (lib : Library)
    → lib.death ≡ false
    → findblock (to_u16 s_id) (to_u32 b_id) lib.cache ≡ none
    → add_block fresh (some (s_id, b_id, content)) lib
      ≡ (value true, with_block fresh s_id b_id content lib)
unfolding add_block none_if_dead
add_block-absent fresh s_id b_id content lib alive absent =
    rw (alive, addblock-absent fresh (to_u16 s_id) (to_u32 b_id) (given content) lib.cache absent)
      refl

-- A second block of the identifier is refused.
add_block-present :
    (fresh : Block) (s_id b_id : ℤ) (content : List ℕ) (lib : Library) {b : Block}
    → lib.death ≡ false
    → findblock (to_u16 s_id) (to_u32 b_id) lib.cache ≡ some b
    → add_block fresh (some (s_id, b_id, content)) lib ≡ (none_value, lib)
unfolding add_block none_if_dead
add_block-present fresh s_id b_id content lib alive there =
    rw (alive, addblock-present fresh (to_u16 s_id) (to_u32 b_id) (given content) lib.cache there)
      refl

get_block_content-there :
    (heap : Array ℕ) (s_id b_id : ℤ) (lib : Library) {b : Block}
    → lib.death ≡ false
    → findblock (to_u16 s_id) (to_u32 b_id) lib.cache ≡ some b
    → get_block_content heap (some (s_id, b_id)) lib
      ≡ (value (tabulate (memcpy heap 0 b.content.payload b.content.length) b.content.length), lib)
unfolding get_block_content get_block_data none_if_dead
get_block_content-there heap s_id b_id lib alive there = rw (alive, there) refl

pub content_of-reply :
    (o : Option BlockData) (lib lib' : Library) → (content_of o lib).0 ≡ (content_of o lib').0
content_of-reply none lib lib' = refl
content_of-reply (some d) lib lib' = refl

-- The bytes that are copied out of a new block are those that were given.
new_block-content :
    (heap : Array ℕ) (fresh : Block) (sid bid : ℕ) (content : List ℕ)
    → tabulate
        (memcpy heap 0 (new_block fresh sid bid (given content)).content.payload (length content))
        (length content)
      ≡ content
unfolding new_block
new_block-content heap fresh sid bid content =
    tabulate-ext _ (λ i. get_or content i 0) (length content) (λ k hk. ground arith)
    ∙ tabulate-get_or content 0

-- A block of an identifier that is not in the cache, given to `add_block`: the call returns True, and
-- then `get_block_content` returns its bytes, a second `add_block` of the identifier returns None and
-- changes nothing, and so does a `del_block` of it: the newest block cannot be deleted. The content
-- of any other identifier is as before.
pub content_kept :
    (heap : Array ℕ) (fresh : Block) (s_id b_id : ℤ) (content other : List ℕ) (lib : Library)
    (s i : ℤ)
    → lib.death ≡ false
    → findblock (to_u16 s_id) (to_u32 b_id) lib.cache ≡ none
    → (to_u16 s_id == to_u16 s && to_u32 b_id == to_u32 i) ≡ false
    → let (reply, after) = add_block fresh (some (s_id, b_id, content)) lib in
      (reply ≡ value true)
      × (get_block_content heap (some (s_id, b_id)) after ≡ (value content, after))
      × (add_block fresh (some (s_id, b_id, other)) after ≡ (none_value, after))
      × (del_block (some (s_id, b_id)) after ≡ (none_value, after))
      × ((get_block_content heap (some (s, i)) after).0
          ≡ (get_block_content heap (some (s, i)) lib).0)
unfolding new_block del_block none_if_dead get_block_content get_block_data
content_kept heap fresh s_id b_id content other lib s i alive absent ne =
    let sid = to_u16 s_id in
    let bid = to_u32 b_id in
    let new = new_block fresh sid bid (given content) in
    let after = with_block fresh s_id b_id content lib in
    let there = findblock-cons sid bid new lib.cache refl refl in
    let kept : deleteblock sid bid (new ∷ lib.cache) ≡ (false, new ∷ lib.cache) =
      rw (addblock-absent fresh sid bid (given content) lib.cache absent) at
        (delete_newest fresh sid bid (given content) lib.cache absent) in
    rw (add_block-absent fresh s_id b_id content lib alive absent) (
      refl,
      get_block_content-there heap s_id b_id after alive there
          ∙ ap (λ text. (value text, after)) (new_block-content heap fresh sid bid content),
      add_block-present fresh s_id b_id other after alive there,
      rw (alive, kept) refl,
      rw (alive, findblock-cons_ne (to_u16 s) (to_u32 i) new lib.cache ne)
          (content_of-reply (get_block_data heap (to_u16 s) (to_u32 i) lib.cache)
            (record after { death = false }) (record lib { death = false })),
    )
