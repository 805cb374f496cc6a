-- ===== src/System/Blocks.antt =====
-- Blocks that Python deletes, in every state of a session.
use bora.Prelude.{ℕ, ◌≡◌, ◌∙◌, subst, sym, ap, true, false, some, Array, List, ◌∷◌, ◌==◌, ◌&&◌}
use bora.Prelude.Int.{ℤ, to_u32}
use bora.BlockCache.{Block, findblock, deleteblock}
use bora.BlockCache.Add.{remove_block}
use bora.BlockCache.Distinct.{AllDistinct, deleteblock-found, deleteblock-absent}
use bora.Biter.{IncomingData}
use bora.Bindings.{Library, value, none_value, to_u16}
use bora.Bindings.Blocks.{del_block, get_block_content}
use bora.Bindings.Deleting.{
  del_block-done, del_block-failed, get_block_content-absent, get_block_content-same,
}
use bora.System.{Trace, Reached}
use bora.System.Safety.{reached_safe}

-- In every state of a session in which `send_block` is asked only for blocks that are complete or
-- not there, and `add_block` is given less than 2 ^ 31 bytes, as long as the library is not dying,
-- `del_block` of a block that is there and is not the newest one: the call returns True, and then
-- `get_block_content` of it returns None, and so does a second `del_block`, which changes nothing.
-- The content of any other identifier is as before.
pub deleted_in_session :
    {memory : Array IncomingData} {h : Trace} {lib : Library} {newest b : Block}
    {cache : List Block} (heap : Array ℕ) (s_id b_id s i : ℤ)
    → Reached memory h lib
    → lib.death ≡ false
    → lib.cache ≡ newest ∷ cache
    → findblock (to_u16 s_id) (to_u32 b_id) cache ≡ some b
    → (to_u16 s_id == to_u16 s && to_u32 b_id == to_u32 i) ≡ false
    → (after : Library) × (del_block (some (s_id, b_id)) lib ≡ (value true, after))
      × (get_block_content heap (some (s_id, b_id)) after ≡ (none_value, after))
      × (del_block (some (s_id, b_id)) after ≡ (none_value, after))
      × ((get_block_content heap (some (s, i)) after).0
          ≡ (get_block_content heap (some (s, i)) lib).0)
deleted_in_session {lib = lib} {newest} {cache = cache} heap s_id b_id s i r alive blocks found ne =
    let sid = to_u16 s_id in
    let bid = to_u32 b_id in
    let left = (remove_block sid bid cache).1 in
    let after : Library = record lib { cache = newest ∷ left } in
    let (out, left_none, gone, others) =
      deleteblock-found sid bid newest cache (subst AllDistinct blocks (reached_safe r).distinct)
        found in
    (
      after,
      del_block-done s_id b_id lib alive (newest ∷ left) (ap (deleteblock sid bid) blocks ∙ out),
      get_block_content-absent s_id b_id after alive heap gone,
      del_block-failed s_id b_id after alive (deleteblock-absent sid bid newest left left_none),
      get_block_content-same heap s i after lib alive alive
          (others (to_u16 s) (to_u32 i) ne ∙ ap (findblock (to_u16 s) (to_u32 i)) (sym blocks)),
    )
