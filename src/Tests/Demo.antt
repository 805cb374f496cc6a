-- ===== src/Tests/Demo.antt =====
-- The demonstration programs on small numbers.
use bora.Prelude.{◌≡◌, refl, none, List, [], ◌∷◌}
use bora.Prelude.Int.{pos}
use bora.BlockCache.{addblock, deleteblock, findblock, calcfragments, block_complete}
use bora.BlockCache.Queries.{BlockId, list_blocks, get_complete_block_list}
use bora.Demo.Spam.{myiter, iternext, bora_call}
use bora.Demo.Main.{Line, bdata, add_loop, del_loop, list_line, main_blocks}
use bora.Tests.{blank, fresh_block}

-- the lists that are printed
abbrev lists_of : List Line → List (List BlockId)
lists_of [] = []
lists_of (Line.list ids ∷ lines) = ids ∷ lists_of lines
lists_of (Line.add ok i ∷ lines) = lists_of lines
lists_of (Line.del ok i ∷ lines) = lists_of lines
lists_of (Line.over ∷ lines) = lists_of lines
lists_of (Line.nack n ∷ lines) = lists_of lines

-- four blocks: one of them cannot be deleted
four_blocks :
    lists_of (main_blocks fresh_block (bdata blank) 4).0
    ≡ ((1, 3) ∷ (1, 2) ∷ (1, 0) ∷ (1, 1) ∷ [])
      ∷ ((1, 3) ∷ (1, 2) ∷ [])
      ∷ ((1, 3) ∷ (1, 2) ∷ [])
      ∷ ((1, 3) ∷ [])
      ∷ []
unfolding main_blocks add_loop del_loop list_line addblock deleteblock findblock calcfragments
    block_complete get_complete_block_list list_blocks
four_blocks = refl

two_calls : (iternext (iternext (myiter (pos 1))).1).0 ≡ none
unfolding iternext myiter
two_calls = refl

one_call : bora_call (pos 10) ≡ (pos 10, pos 11)
unfolding bora_call
one_call = refl
