-- ===== src/Demo/Main.antt =====
-- main.c: blocks are added, listed and deleted, and one is sent many times. The socket and the waits
-- are left out; `during` is what the other threads do to the queues while the program sleeps. Nothing
-- is received meanwhile, so that the blocks are only those of the program.
use bora.Prelude.{ℕ, zero, suc, ◌+◌, Bool, Array, List, [], ◌∷◌, ◌++◌, ltb, if◌then◌else◌}
use bora.Prelude.Int.{pos}
use bora.Net.{SockaddrIn, SendData}
use bora.Queues.{Queues}
use bora.Nacks.{Nacks, get_n_nack}
use bora.BlockCache.{Block, BlockData, addblock, deleteblock}
use bora.BlockCache.Outgoing.{sendblock}
use bora.BlockCache.Queries.{BlockId, get_complete_block_list}
use bora.Bindings.{socket_address}

-- What printf is given; the length that it prints of a list is that of the list.
pub data Line : Type 0 where
  add del : Bool → ℕ → Line
  over : Line
  list : List BlockId → Line
  nack : ℕ → Line

abbrev pub Printed : Type 0
Printed = List Line × List Block

-- `bdata`: an array of 20000 bytes, of which the block has fewer.
abbrev pub bdata : Array ℕ → BlockData
bdata memory = record { payload = λ k. if ltb k 20000 then 1 else memory k; length = 11033 }

-- for (i=...; ...; i++) addblock(1,i,bdata), with the rounds that are left
unfoldable pub add_loop : Block → BlockData → ℕ → ℕ → List Block → Printed
unfolding addblock
add_loop fresh d zero i cache = ([], cache)
add_loop fresh d (suc n) i cache =
    let (ok, added) = addblock fresh 1 i d cache in
    let (lines, after) = add_loop fresh d n (i + 1) added in (Line.add ok i ∷ lines, after)

-- for (i=...; ...; i++) deleteblock(1,i)
unfoldable pub del_loop : ℕ → ℕ → List Block → Printed
unfolding deleteblock
del_loop zero i cache = ([], cache)
del_loop (suc n) i cache =
    let (ok, left) = deleteblock 1 i cache in
    let (lines, after) = del_loop n (i + 1) left in (Line.del ok i ∷ lines, after)

-- get_complete_block_list, and what is printed of it
unfoldable pub list_line : List Block → Line
unfolding get_complete_block_list
list_line cache = Line.list (get_complete_block_list cache)

-- The part of `main` on the blocks, where its loops run to `count` and not to 5000.
unfoldable pub main_blocks : Block → BlockData → ℕ → Printed
unfolding addblock add_loop deleteblock del_loop list_line
main_blocks fresh d count =
    let (ok, first) = addblock fresh 1 1 d [] in
    let (adds, full) = add_loop fresh d count 0 first in
    let (dels, less) = del_loop 2 0 full in
    let (ok9, no_9) = deleteblock 1 9 less in
    let (ok6, no_6) = deleteblock 1 6 no_9 in
    let (all_dels, left) = del_loop count 0 no_6 in
    let (ok1, last) = addblock fresh 1 1 d left in
    (
      adds
          ++ (Line.over ∷ list_line full ∷ [])
          ++ dels
          ++ (list_line less ∷ Line.del ok9 9 ∷ Line.del ok6 6 ∷ list_line no_6 ∷ [])
          ++ all_dels
          ++ (Line.over ∷ list_line left ∷ []),
      last,
    )

-- INADDR_ANY and port 3200
abbrev pub servaddr : SockaddrIn
servaddr = socket_address 0 (pos 3200)

-- for (...) { sendblock(1, 1, servaddr); usleep(...); }
unfoldable pub send_loop : SendData → (Queues → Queues) → ℕ → List Block → Queues → Queues
unfolding sendblock
send_loop stack during zero cache q = q
send_loop stack during (suc n) cache q =
    send_loop stack during n cache (during (sendblock stack 1 1 servaddr cache q).1)

-- The rest of `main`: a hundred rounds with a wait, and three without.
unfoldable pub main_sends : SendData → (Queues → Queues) → List Block → Queues → Queues
unfolding send_loop
main_sends stack during cache q =
    send_loop stack (λ r. r) 3 cache (during (send_loop stack during 100 cache q))

-- `main`: what it prints, with what waits for an acknowledgement at its end, the blocks and the queues.
unfoldable pub main :
    Block → SendData → Array ℕ → (Queues → Queues) → Nacks → Queues → Printed × Queues
unfolding main_blocks main_sends get_n_nack
main fresh stack memory during nacks q =
    let (lines, cache) = main_blocks fresh (bdata memory) 5000 in
    ((lines ++ (Line.nack (get_n_nack nacks) ∷ []), cache), main_sends stack during cache q)
