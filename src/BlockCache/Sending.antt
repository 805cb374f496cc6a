-- ===== src/BlockCache/Sending.antt =====
-- `sendblock` hands the fragments of a block to the sender's queue, in order.
use bora.Prelude.{
  ℕ, zero, suc, ◌+◌, ◌<◌, ◌≤◌, ◌≡◌, refl, sym, ap, ◌∙◌, inl, inr, some, List, [], ◌∷◌, ◌++◌, length,
  length-append, arith,
}
use mathlib.Core.List.{append-nil, append_assoc}
use bora.Net.{SockaddrIn, SendData, mtu}
use bora.Queues.{Queues, lane, ring, send_data, capacity}
use bora.Queues.Fifo.{items}
use bora.Queues.Fit.{Fits}
use bora.Codec.{encode_fragment}
use bora.Queues.Routing.{IsBalanced, send_data-IsBalanced, send_data_lem}
use bora.BlockCache.{Block, findblock}
use bora.BlockCache.Outgoing.{fragment_of, datagram_of, send_fragments, sendblock}

-- The datagrams of `n` fragments from index `i` on.
pub datagrams : SendData → SockaddrIn → ℕ → ℕ → Block → ℕ → ℕ → List SendData
datagrams stack to streamid blockid block zero i = []
datagrams stack to streamid blockid block (suc n) i =
    datagram_of stack to (fragment_of streamid blockid block i)
    ∷ datagrams stack to streamid blockid block n (i + 1)

send_data-room :
    (d : SendData) (q : Queues)
    → IsBalanced q
    → length (items (ring (lane d) q)) < capacity
    → items (ring (lane d) (send_data d q)) ≡ items (ring (lane d) q) ++ (d ∷ [])
send_data-room d q b room = elim (send_data_lem d b) [
  | inl (full, same) ↦ ground (arith, full)
  | inr (_, put, _) ↦ put
]

send_fragments_lem :
    (stack : SendData) (to : SockaddrIn) (streamid blockid : ℕ) (block : Block) (n i : ℕ)
    (q : Queues)
    → IsBalanced q
    → length (items q.send) + n ≤ capacity
    → let q' = send_fragments stack to streamid blockid block n i q in
      IsBalanced q'
      × (items q'.send ≡ items q.send ++ datagrams stack to streamid blockid block n i)
unfolding send_fragments datagrams lane datagram_of
send_fragments_lem stack to streamid blockid block zero i q b room =
    (b, sym (append-nil (items q.send)))
send_fragments_lem stack to streamid blockid block (suc n) i q b room =
    let d = datagram_of stack to (fragment_of streamid blockid block i) in
    let rest = datagrams stack to streamid blockid block n (i + 1) in
    let here : items (send_data d q).send ≡ items q.send ++ (d ∷ []) =
      send_data-room d q b (omega arith) in
    let count : length (items (send_data d q).send) ≡ length (items q.send) + 1 =
      ap length here ∙ length-append (items q.send) (d ∷ []) in
    let (balanced, order) =
      send_fragments_lem stack to streamid blockid block n (i + 1) (send_data d q)
        (send_data-IsBalanced d b) (omega arith) in
    (balanced, order ∙ ap (λ xs. xs ++ rest) here ∙ append_assoc (items q.send) (d ∷ []) rest)

-- Each of the datagrams is a header with at most MTU bytes behind it.
abbrev pub AllFit : List SendData → Type 0
AllFit [] = Unit {0}
AllFit (d ∷ ds) = Fits d × AllFit ds

datagrams-AllFit :
    (stack : SendData) (to : SockaddrIn) (streamid blockid : ℕ) (block : Block) (n i : ℕ)
    → block.fs.lastlen ≤ mtu
    → AllFit (datagrams stack to streamid blockid block n i)
unfolding datagrams datagram_of fragment_of encode_fragment
datagrams-AllFit stack to streamid blockid block zero i h = tt
datagrams-AllFit stack to streamid blockid block (suc n) i h =
    (ground arith, datagrams-AllFit stack to streamid blockid block n (i + 1) h)

-- What the call returns and where the datagrams are, whatever their length.
pub sendblock-queued :
    (stack : SendData) (streamid blockid : ℕ) (to : SockaddrIn) (cache : List Block) (q : Queues)
    {block : Block}
    → findblock streamid blockid cache ≡ some block
    → IsBalanced q
    → length (items q.send) + block.fs.fn ≤ capacity
    → let out = sendblock stack streamid blockid to cache q in
      (out.0 ≡ block.fs.fn)
      × IsBalanced out.1
      × (items out.1.send ≡ items q.send ++ datagrams stack to streamid blockid block block.fs.fn 0)
unfolding sendblock
sendblock-queued stack streamid blockid to cache q {block} found b room =
    let (balanced, order) =
      send_fragments_lem stack to streamid blockid block block.fs.fn 0 q b room in
    rw (found, sendblock) (refl, balanced, order)

-- From balanced queues, if the sender's queue has room for all the fragments of a block that is there, and the length of its
-- last fragment is at most MTU, as it is once that fragment has come, then `sendblock` returns the
-- number of the fragments and puts the datagrams behind all that wait there, fragment by fragment in
-- order, each of them a header with at most MTU bytes behind it; the queues stay balanced.
pub sendblock_lem :
    (stack : SendData) (streamid blockid : ℕ) (to : SockaddrIn) (cache : List Block) (q : Queues)
    {block : Block}
    → findblock streamid blockid cache ≡ some block
    → block.fs.lastlen ≤ mtu
    → IsBalanced q
    → length (items q.send) + block.fs.fn ≤ capacity
    → let out = sendblock stack streamid blockid to cache q in
      let sent = datagrams stack to streamid blockid block block.fs.fn 0 in
      (out.0 ≡ block.fs.fn)
      × IsBalanced out.1
      × (items out.1.send ≡ items q.send ++ sent)
      × AllFit sent
sendblock_lem stack streamid blockid to cache q {block} found short b room =
    let (count, balanced, order) =
      sendblock-queued stack streamid blockid to cache q found b room in
    (count, balanced, order, datagrams-AllFit stack to streamid blockid block block.fs.fn 0 short)
