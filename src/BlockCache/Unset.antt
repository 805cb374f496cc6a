-- ===== src/BlockCache/Unset.antt =====
-- `sendblock` of a block that is still being received: the length of a last fragment that has not
-- arrived is what `malloc` left there.
use bora.Prelude.{
  ◌+◌, ◌-◌, ◌*◌, ◌<◌, ◌≤◌, ◌≡◌, refl, false, none, some, List, ◌∷◌, ◌++◌, set, memcpy, length, ltb,
  if◌then◌else◌, arith,
}
use bora.Net.{SockaddrIn, SendData, mtu, send_data_size}
use bora.Net.Time.{Timeval}
use bora.Codec.{FragmentData, header_size, encode_fragment}
use bora.Queues.{Queues, capacity}
use bora.Queues.Fifo.{items}
use bora.Queues.Routing.{IsBalanced}
use bora.BlockCache.{Block, f_added, received, findblock, first_fragment, addfragment}
use bora.BlockCache.Lookup.{findblock-cons}
use bora.BlockCache.Outgoing.{fragment_of, datagram_of, sendblock}
use bora.BlockCache.Sending.{datagrams, sendblock-queued}

-- The block that the first fragment of MTU bytes makes.
abbrev begun : Block → FragmentData → SockaddrIn → Timeval → Block
begun fresh g host ts = record {
  streamid = g.streamid;
  blockid = g.blockid;
  content = record {
    payload =
        memcpy (λ i. if ltb i (mtu * g.fragments) then 0 else fresh.content.payload i)
          (mtu * g.fragmentid) g.payload g.length;
    length = mtu * g.fragments;
  };
  alloc = mtu * g.fragments;
  f =
      set (λ i. if ltb i g.fragments then record (fresh.f i) { have = false } else fresh.f i)
        g.fragmentid (received host ts);
  fs = record { fn = g.fragments; lastlen = fresh.fs.lastlen };
}

first_fragment-begun :
    (fresh : Block) (g : FragmentData) (host : SockaddrIn) (ts : Timeval)
    → g.fragmentid + 1 < g.fragments
    → g.length ≡ mtu
    → first_fragment fresh g host ts ≡ some (f_added, some (begun fresh g host ts))
unfolding first_fragment
first_fragment-begun fresh g host ts early full = ground arith

-- A block of which a fragment has arrived, but not the last one, goes out all the same when it is
-- asked for: `sendblock` returns the count of its fragments and queues a datagram for each, and the
-- length that the last of them gives is whatever the memory of the block held when it was allocated, as
-- long as that many bytes have room behind the header in the 1500 of a datagram.
pub sends_unset_length :
    (stack : SendData) (fresh : Block) (g : FragmentData) (host to : SockaddrIn) (ts : Timeval)
    (cache : List Block) (q : Queues)
    → findblock g.streamid g.blockid cache ≡ none
    → g.fragmentid + 1 < g.fragments
    → g.length ≡ mtu
    → header_size + fresh.fs.lastlen ≤ send_data_size
    → IsBalanced q
    → length (items q.send) + g.fragments ≤ capacity
    → (block : Block) × (addfragment fresh g host ts cache ≡ some (f_added, block ∷ cache))
      × let out = sendblock stack g.streamid g.blockid to (block ∷ cache) q in
        let last = fragment_of g.streamid g.blockid block (g.fragments - 1) in
        (out.0 ≡ g.fragments)
        × (items out.1.send
            ≡ items q.send ++ datagrams stack to g.streamid g.blockid block g.fragments 0)
        × (last.length ≡ fresh.fs.lastlen)
        × ((datagram_of stack to last).length ≡ header_size + fresh.fs.lastlen)
unfolding addfragment fragment_of datagram_of encode_fragment
sends_unset_length stack fresh g host to ts cache q absent early full short b room =
    let block = begun fresh g host ts in
    let found : findblock g.streamid g.blockid (block ∷ cache) ≡ some block =
      findblock-cons g.streamid g.blockid block cache refl refl in
    let (count, balanced, order) =
      sendblock-queued stack g.streamid g.blockid to (block ∷ cache) q found b room in
    (
      block,
      rw (absent, addfragment, first_fragment-begun fresh g host ts early full) refl,
      (count, order, ground arith, ground arith),
    )
