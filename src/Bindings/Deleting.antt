-- ===== src/Bindings/Deleting.antt =====
-- `del_block` and `get_block_content`, by what is found in the cache.
use bora.Prelude.{ℕ, ◌≡◌, refl, ap, sym, ◌∙◌, true, false, none, some, Array, List}
use bora.Prelude.Int.{ℤ, to_u32}
use bora.BlockCache.{Block, findblock, deleteblock, get_block_data}
use bora.Bindings.{Library, value, none_value, none_if_dead, to_u16}
use bora.Bindings.Blocks.{del_block, get_block_content, content_of}
use bora.Bindings.Content.{content_of-reply}

module _ (s_id b_id : ℤ) (lib : Library) (alive : lib.death ≡ false) where
  pub del_block-done :
      (cache : List Block)
      → deleteblock (to_u16 s_id) (to_u32 b_id) lib.cache ≡ (true, cache)
      → del_block (some (s_id, b_id)) lib ≡ (value true, record lib { cache = cache })
  unfolding del_block none_if_dead
  del_block-done cache e = rw (alive, e) refl

  pub del_block-failed :
      deleteblock (to_u16 s_id) (to_u32 b_id) lib.cache ≡ (false, lib.cache)
      → del_block (some (s_id, b_id)) lib ≡ (none_value, lib)
  unfolding del_block none_if_dead
  del_block-failed e = rw (alive, e) refl

  pub get_block_content-absent :
      (heap : Array ℕ)
      → findblock (to_u16 s_id) (to_u32 b_id) lib.cache ≡ none
      → get_block_content heap (some (s_id, b_id)) lib ≡ (none_value, lib)
  unfolding get_block_content get_block_data none_if_dead
  get_block_content-absent heap gone = rw (alive, gone) refl

  get_block_content-reply :
      (heap : Array ℕ)
      → (get_block_content heap (some (s_id, b_id)) lib).0
        ≡ (content_of (get_block_data heap (to_u16 s_id) (to_u32 b_id) lib.cache) lib).0
  unfolding get_block_content get_block_data none_if_dead
  get_block_content-reply heap = rw alive refl

get_block_data-found :
    (heap : Array ℕ) (s i : ℕ) (cache cache' : List Block)
    → findblock s i cache ≡ findblock s i cache'
    → get_block_data heap s i cache ≡ get_block_data heap s i cache'
unfolding get_block_data
get_block_data-found heap s i cache cache' same = rw same refl

-- Two libraries that find the same under an identifier tell the same of it.
pub get_block_content-same :
    (heap : Array ℕ) (s_id b_id : ℤ) (lib lib' : Library)
    → lib.death ≡ false
    → lib'.death ≡ false
    → findblock (to_u16 s_id) (to_u32 b_id) lib.cache
      ≡ findblock (to_u16 s_id) (to_u32 b_id) lib'.cache
    → (get_block_content heap (some (s_id, b_id)) lib).0
      ≡ (get_block_content heap (some (s_id, b_id)) lib').0
get_block_content-same heap s_id b_id lib lib' alive alive' same =
    get_block_content-reply s_id b_id lib alive heap
    ∙ content_of-reply _ lib lib'
    ∙ ap (λ d. (content_of d lib').0)
        (get_block_data-found heap (to_u16 s_id) (to_u32 b_id) lib.cache lib'.cache same)
    ∙ sym (get_block_content-reply s_id b_id lib' alive' heap)
