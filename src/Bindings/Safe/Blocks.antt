-- ===== src/Bindings/Safe/Blocks.antt =====
-- The calls on blocks keep the state safe.
use bora.Prelude.{ℕ, ◌<◌, ◌≡◌, true, Option, none, some, Array, List, length, bytes}
use bora.Prelude.Int.{ℤ, to_u32}
use bora.Net.{SendData}
use bora.BlockCache.{Block, BlockData, iscomplete, addblock, deleteblock, get_block_data}
use bora.BlockCache.Invariant.{addblock-AllSound, deleteblock-AllSound}
use bora.BlockCache.Distinct.{addblock-AllDistinct, deleteblock-AllDistinct}
use bora.BlockCache.Handing.{sendblock_keeps}
use bora.Bindings.{Library, bad_port, port_number_not_allowed, socket_address, to_u16}
use bora.Bindings.Blocks.{
  send_block, add_block, del_block, incomplete_block_list, complete_block_list, content_of,
  get_block_content,
}
use bora.Bindings.Safe.{
  Known, LibSafe, Sendable, send_data-Sendable, sendable, with_queues-LibSafe, none_if_dead_keeps,
  need_sock_keeps, address_keeps, raise_if_keeps, true_or_none_keeps,
}

-- The block that is asked for is complete, or not there.
abbrev pub AsksComplete : Option (ℤ × ℤ × List ℕ × ℤ) → Library → Type 0
AsksComplete none lib = Unit
AsksComplete (some (s_id, b_id, dest, port)) lib =
    iscomplete (to_u16 s_id) (to_u32 b_id) lib.cache ≡ true

-- The state with such a block.
record WithBlock (n : Known) (streamid blockid : ℕ) (lib : Library) : Type 0 where
  safe : LibSafe n lib
  whole : iscomplete streamid blockid lib.cache ≡ true

pub send_block-LibSafe :
    {n : Known} (inet_pton : List ℕ → Option ℕ) (stack : SendData)
    (args : Option (ℤ × ℤ × List ℕ × ℤ)) (lib : Library)
    → AsksComplete args lib
    → LibSafe n lib
    → LibSafe n (send_block inet_pton stack args lib).1
unfolding send_block
send_block-LibSafe {n} inet_pton stack none lib whole k =
    none_if_dead_keeps (LibSafe n) _ lib k
      (λ lib k. need_sock_keeps (LibSafe n) _ lib k (λ lib k. k))
send_block-LibSafe {n} inet_pton stack (some (s_id, b_id, dest, port)) lib whole k =
    let I = WithBlock n (to_u16 s_id) (to_u32 b_id) in
    let sent =
      none_if_dead_keeps I _ lib (record { safe = k; whole = whole })
        (λ lib k. need_sock_keeps I _ lib k (λ lib k.
          address_keeps I inet_pton dest _ lib k (λ s_addr lib k.
            raise_if_keeps I (bad_port port) port_number_not_allowed _ lib k (λ lib k.
              true_or_none_keeps I _ _ (record {
                safe =
                    with_queues-LibSafe _ lib
                      (sendblock_keeps (Sendable n.cookies) (send_data-Sendable n.cookies) stack
                        (to_u16 s_id) (to_u32 b_id) (socket_address s_addr port) lib.cache
                        lib.sender.queues k.safe.cache k.whole (sendable k.safe))
                      k.safe;
                whole = k.whole;
              }))))) in
    sent.safe

-- The bytes that are given are less than 2 ^ 31, which an `int` can count.
abbrev pub GivesShort : Option (ℤ × ℤ × List ℕ) → Type 0
GivesShort none = Unit
GivesShort (some (s_id, b_id, b_data)) = length b_data < 0x8000_0000

pub add_block-LibSafe :
    {n : Known} (fresh : Block) (args : Option (ℤ × ℤ × List ℕ)) (lib : Library)
    → GivesShort args
    → LibSafe n lib
    → LibSafe n (add_block fresh args lib).1
unfolding add_block
add_block-LibSafe {n} fresh none lib short k = none_if_dead_keeps (LibSafe n) _ lib k (λ lib k. k)
add_block-LibSafe {n} fresh (some (s_id, b_id, b_data)) lib short k =
    let I = LibSafe n in
    none_if_dead_keeps I _ lib k (λ lib k.
      let out =
        addblock fresh (to_u16 s_id) (to_u32 b_id)
          (record { payload = bytes b_data; length = length b_data }) lib.cache in
      true_or_none_keeps I out.0 (record lib { cache = out.1 })
        (record {
          cache =
              addblock-AllSound fresh (to_u16 s_id) (to_u32 b_id)
                (record { payload = bytes b_data; length = length b_data }) lib.cache short k.cache;
          distinct =
              addblock-AllDistinct fresh (to_u16 s_id) (to_u32 b_id)
                (record { payload = bytes b_data; length = length b_data }) lib.cache k.distinct;
          biter = k.biter;
          sender = k.sender;
          bpuller = k.bpuller;
          buffers = k.buffers;
        }))

pub del_block-LibSafe :
    {n : Known} (args : Option (ℤ × ℤ)) (lib : Library)
    → LibSafe n lib
    → LibSafe n (del_block args lib).1
unfolding del_block
del_block-LibSafe {n} none lib k = none_if_dead_keeps (LibSafe n) _ lib k (λ lib k. k)
del_block-LibSafe {n} (some (s_id, b_id)) lib k =
    let I = LibSafe n in
    none_if_dead_keeps I _ lib k (λ lib k.
      let out = deleteblock (to_u16 s_id) (to_u32 b_id) lib.cache in
      true_or_none_keeps I out.0 (record lib { cache = out.1 })
        (record {
          cache = deleteblock-AllSound (to_u16 s_id) (to_u32 b_id) lib.cache k.cache;
          distinct = deleteblock-AllDistinct (to_u16 s_id) (to_u32 b_id) lib.cache k.distinct;
          biter = k.biter;
          sender = k.sender;
          bpuller = k.bpuller;
          buffers = k.buffers;
        }))

pub incomplete_block_list-LibSafe :
    {n : Known} (lib : Library) → LibSafe n lib → LibSafe n (incomplete_block_list lib).1
unfolding incomplete_block_list
incomplete_block_list-LibSafe {n} lib k = none_if_dead_keeps (LibSafe n) _ lib k (λ lib k. k)

pub complete_block_list-LibSafe :
    {n : Known} (lib : Library) → LibSafe n lib → LibSafe n (complete_block_list lib).1
unfolding complete_block_list
complete_block_list-LibSafe {n} lib k = none_if_dead_keeps (LibSafe n) _ lib k (λ lib k. k)

content_of-LibSafe :
    {n : Known} (d : Option BlockData) (lib : Library)
    → LibSafe n lib
    → LibSafe n (content_of d lib).1
content_of-LibSafe none lib k = k
content_of-LibSafe (some d) lib k = k

pub get_block_content-LibSafe :
    {n : Known} (heap : Array ℕ) (args : Option (ℤ × ℤ)) (lib : Library)
    → LibSafe n lib
    → LibSafe n (get_block_content heap args lib).1
unfolding get_block_content
get_block_content-LibSafe {n} heap none lib k = none_if_dead_keeps (LibSafe n) _ lib k (λ lib k. k)
get_block_content-LibSafe {n} heap (some (s_id, b_id)) lib k =
    none_if_dead_keeps (LibSafe n) _ lib k (λ lib k.
      content_of-LibSafe (get_block_data heap (to_u16 s_id) (to_u32 b_id) lib.cache) lib k)
