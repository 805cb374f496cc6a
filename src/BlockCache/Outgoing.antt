-- ===== src/BlockCache/Outgoing.antt =====
-- blockcache.c, `sendblock`: the fragments of a block are handed to the sender.
use bora.Prelude.{ℕ, zero, suc, ◌+◌, ◌*◌, none, some, List, set, from, ◌==◌, if◌then◌else◌}
use bora.Net.{SockaddrIn, SendData, mtu}
use bora.Net.Messages.{blk_block_ack}
use bora.Codec.{FragmentData, encode_fragment}
use bora.Queues.{Queues, send_data}
use bora.BlockCache.{Block, findblock}

-- Fragment `i` of a block, as the loop of `sendblock` makes it.
unfoldable pub fragment_of : ℕ → ℕ → Block → ℕ → FragmentData
fragment_of streamid blockid block i = record {
  streamid = streamid;
  blockid = blockid;
  fragmentid = i;
  fragments = block.fs.fn;
  length = if i + 1 == block.fs.fn then block.fs.lastlen else mtu;
  payload = from block.content.payload (mtu * i);
}

-- The datagram that the loop of `sendblock` sends for a fragment.
unfoldable pub datagram_of : SendData → SockaddrIn → FragmentData → SendData
unfolding encode_fragment
datagram_of stack to fragment =
    let d = encode_fragment stack fragment in
    record d { to = to; contents = set d.contents 0 blk_block_ack }

-- The loop of `sendblock`, with the rounds that are left and the index.
unfoldable pub send_fragments : SendData → SockaddrIn → ℕ → ℕ → Block → ℕ → ℕ → Queues → Queues
send_fragments stack to streamid blockid block zero i q = q
send_fragments stack to streamid blockid block (suc n) i q =
    send_fragments stack to streamid blockid block n (i + 1)
      (send_data (datagram_of stack to (fragment_of streamid blockid block i)) q)

-- The result is the number of fragments sent. The signal on `blockProduced` is left out.
unfoldable pub sendblock : SendData → ℕ → ℕ → SockaddrIn → List Block → Queues → ℕ × Queues
unfolding findblock send_fragments
sendblock stack streamid blockid to cache q = elim (findblock streamid blockid cache) [
  | none ↦ (0, q)
  | some block ↦ (block.fs.fn, send_fragments stack to streamid blockid block block.fs.fn 0 q)
]
