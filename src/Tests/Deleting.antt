-- ===== src/Tests/Deleting.antt =====
-- Two blocks are added in a session, and the older one is deleted.
use bora.Prelude.{◌≡◌, refl, true, some, List, [], ◌∷◌, false, arith}
use bora.Prelude.Int.{pos}
use bora.BlockCache.{Block, findblock, addblock}
use bora.BlockCache.Add.{new_block}
use bora.Bindings.{Library, value, none_value}
use bora.Bindings.Blocks.{add_block, del_block, get_block_content}
use bora.Bindings.Content.{given}
use bora.Bindings.Session.{listen_on}
use bora.System.{Called, nothing, Reached, calls}
use bora.System.Blocks.{deleted_in_session}
use bora.Tests.{blank, fresh_block}
use bora.Tests.Session.{memory, listening, listening-Reached}

abbrev one_block : Library
one_block = (add_block fresh_block (some (pos 1, pos 1, 5 ∷ 6 ∷ [])) listening).1

abbrev two_blocks : Library
two_blocks = (add_block fresh_block (some (pos 1, pos 2, 7 ∷ [])) one_block).1

two_blocks-Reached : Reached memory nothing two_blocks
two_blocks-Reached =
    calls
      (calls listening-Reached
        (Called.add_blocks fresh_block (some (pos 1, pos 1, 5 ∷ 6 ∷ [])) (omega arith)))
      (Called.add_blocks fresh_block (some (pos 1, pos 2, 7 ∷ [])) (omega arith))

abbrev older : List Block
older = new_block fresh_block 1 1 (given (5 ∷ 6 ∷ [])) ∷ []

still_alive : two_blocks.death ≡ false
unfolding add_block addblock listen_on
still_alive = refl

two_blocks-cache : two_blocks.cache ≡ new_block fresh_block 1 2 (given (7 ∷ [])) ∷ older
unfolding add_block addblock listen_on new_block
two_blocks-cache = refl

older-found : findblock 1 1 older ≡ some (new_block fresh_block 1 1 (given (5 ∷ 6 ∷ [])))
unfolding new_block findblock
older-found = refl

deleted_in_session_example :
    (after : Library) × (del_block (some (pos 1, pos 1)) two_blocks ≡ (value true, after))
    × (get_block_content blank (some (pos 1, pos 1)) after ≡ (none_value, after))
    × (del_block (some (pos 1, pos 1)) after ≡ (none_value, after))
    × ((get_block_content blank (some (pos 1, pos 2)) after).0
        ≡ (get_block_content blank (some (pos 1, pos 2)) two_blocks).0)
deleted_in_session_example =
    deleted_in_session blank (pos 1) (pos 1) (pos 1) (pos 2) two_blocks-Reached still_alive
      two_blocks-cache older-found refl
