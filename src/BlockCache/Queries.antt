-- ===== src/BlockCache/Queries.antt =====
-- blockcache.c: the lists of blocks that are complete or not, and the count of fragments that are
-- there in front of a given one.
use bora.Prelude.{
  ℕ, zero, suc, ◌+◌, Bool, true, false, Option, none, some, Array, List, [], ◌∷◌, leb, not,
  if◌then◌else◌,
}
use bora.Codec.{FragmentId}
use bora.BlockCache.{Block, BlockFragment, findblock, block_complete}

abbrev pub BlockId : Type 0
BlockId = ℕ × ℕ

-- The identifiers of the blocks that are complete, or of those that are not, in the order of the
-- list. The array that the code fills has a place for every block.
unfoldable pub list_blocks : Bool → List Block → List BlockId
list_blocks complete [] = []
list_blocks complete (b ∷ cache) =
    if (if complete then block_complete b else not (block_complete b))
    then (b.streamid, b.blockid) ∷ list_blocks complete cache
    else list_blocks complete cache

unfoldable pub get_incomplete_block_list : List Block → List BlockId
unfolding list_blocks
get_incomplete_block_list cache = list_blocks false cache

unfoldable pub get_complete_block_list : List Block → List BlockId
unfolding list_blocks
get_complete_block_list cache = list_blocks true cache

-- The loop of `get_consecutives`, from index `i` down.
unfoldable pub consecutive_below : Array BlockFragment → ℕ → ℕ
consecutive_below f zero = 0
consecutive_below f (suc i) = if (f i).have then consecutive_below f i + 1 else 0

-- `none` is a read past the end of the block's fragments.
unfoldable pub get_consecutives : FragmentId → List Block → Option ℕ
unfolding findblock consecutive_below
get_consecutives fragment cache = elim (findblock fragment.streamid fragment.blockid cache) [
  | none ↦ some 0
  | some b ↦
      if leb fragment.fragmentid b.fs.fn
      then some (consecutive_below b.f fragment.fragmentid)
      else none
]
