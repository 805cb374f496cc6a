-- ===== src/Bindings/Blocks.antt =====
-- bora.c, the calls that work on blocks.
use bora.Prelude.{ℕ, ◌==◌, not, Bool, Option, none, some, Array, bytes, List, length, map, tabulate}
use bora.Prelude.Int.{ℤ, pos, to_u32, int32}
use bora.Net.{SendData}
use bora.BlockCache.{Block, BlockData, addblock, deleteblock, get_block_data}
use bora.BlockCache.Outgoing.{sendblock}
use bora.BlockCache.Queries.{BlockId, get_incomplete_block_list, get_complete_block_list}
use bora.Bindings.{
  Call, return, access, value, none_value, port_number_not_allowed, none_if_dead, need_sock, parsed,
  address, bad_port, raise_if, socket_address, true_or_none, to_u16, with_queues, ◌>>=◌, ◌>>◌,
}

-- The arguments are the identifiers, the address and the port.
unfoldable pub send_block : (List ℕ → Option ℕ) → SendData → Option (ℤ × ℤ × List ℕ × ℤ) → Call Bool
unfolding none_if_dead need_sock address sendblock
send_block inet_pton stack args = do
  none_if_dead
  need_sock
  (s_id, b_id, dest, port_num) ← parsed args
  s_addr ← address inet_pton dest
  raise_if (bad_port port_num) port_number_not_allowed
  retval ← access (λ lib.
      let (n, q) =
        sendblock stack (to_u16 s_id) (to_u32 b_id) (socket_address s_addr port_num) lib.cache
          lib.sender.queues in
      (n, with_queues q lib))
  true_or_none (not (retval == 0))

unfoldable pub add_block : Block → Option (ℤ × ℤ × List ℕ) → Call Bool
unfolding none_if_dead addblock
add_block fresh args = do
  none_if_dead
  (s_id, b_id, b_data) ← parsed args
  added ← access (λ lib.
      let (ok, cache) =
        addblock fresh (to_u16 s_id) (to_u32 b_id)
          (record { payload = bytes b_data; length = length b_data }) lib.cache in
      (ok, record lib { cache = cache }))
  true_or_none added

unfoldable pub del_block : Option (ℤ × ℤ) → Call Bool
unfolding none_if_dead deleteblock
del_block args = do
  none_if_dead
  (s_id, b_id) ← parsed args
  retval ← access (λ lib.
      let (ok, cache) = deleteblock (to_u16 s_id) (to_u32 b_id) lib.cache in
      (ok, record lib { cache = cache }))
  true_or_none retval

-- A dictionary with the entries `sid` and `bid`.
abbrev pub id_entry : BlockId → ℤ × ℤ
id_entry (streamid, blockid) = (pos streamid, int32 blockid)

unfoldable pub incomplete_block_list : Call (List (ℤ × ℤ))
unfolding none_if_dead get_incomplete_block_list
incomplete_block_list = do
  none_if_dead
  access (λ lib. (map id_entry (get_incomplete_block_list lib.cache), lib))

unfoldable pub complete_block_list : Call (List (ℤ × ℤ))
unfolding none_if_dead get_complete_block_list
complete_block_list = do
  none_if_dead
  access (λ lib. (map id_entry (get_complete_block_list lib.cache), lib))

-- The bytes of the block.
abbrev pub content_of : Option BlockData → Call (List ℕ)
content_of none = return none_value
content_of (some d) = return (value (tabulate d.payload d.length))

unfoldable pub get_block_content : Array ℕ → Option (ℤ × ℤ) → Call (List ℕ)
unfolding none_if_dead get_block_data
get_block_content heap args = do
  none_if_dead
  (s_id, b_id) ← parsed args
  bdata ← access (λ lib. (get_block_data heap (to_u16 s_id) (to_u32 b_id) lib.cache, lib))
  content_of bdata
