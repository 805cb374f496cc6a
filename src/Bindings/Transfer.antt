-- ===== src/Bindings/Transfer.antt =====
-- A block from `add_block` and `send_block` of one host to `get_block_content` of another one.
use bora.Prelude.{
  ℕ, ◌+◌, ◌<◌, ◌≤◌, ◌≡◌, ◌≢◌, refl, ap, ◌∙◌, Bool, true, false, Option, none, some, Array, List,
  ◌∷◌, ◌++◌, length, get_or, tabulate, tabulate-ext, tabulate-get_or, ◌==◌, arith,
}
use bora.Prelude.Int.{ℤ, pos, eqb_ℤ, to_u32}
use bora.Net.{SendData}
use bora.Queues.{capacity}
use bora.Queues.Fifo.{items}
use bora.Queues.Routing.{IsBalanced}
use bora.BlockCache.{Block, BlockData, findblock, get_block_data}
use bora.BlockCache.Add.{new_block, new_block-IsCut}
use bora.BlockCache.Cutting.{max_block}
use bora.BlockCache.Lookup.{findblock-cons}
use bora.BlockCache.Reassembly.{IsCut}
use bora.BlockCache.Reassembly.Delivery.{AllIn, arrives}
use bora.BlockCache.Sending.{datagrams, sendblock-queued}
use bora.Receiver.{Memory, Receiver, done}
use bora.Receiver.Transfer.{Trip, arrivals, PortZero, process_all, IsNamed, transfer}
use bora.Bindings.{
  Library, value, none_if_dead, need_sock, address, bad_port, socket_address, to_u16, receiver_of,
  with_receiver,
}
use bora.Bindings.Blocks.{add_block, send_block, get_block_content}
use bora.Bindings.Ports.{handed_on}
use bora.Bindings.Content.{given, with_block, add_block-absent}

get_block_content-data :
    (heap : Array ℕ) (s_id b_id : ℤ) (lib : Library) {d : BlockData}
    → lib.death ≡ false
    → get_block_data heap (to_u16 s_id) (to_u32 b_id) lib.cache ≡ some d
    → get_block_content heap (some (s_id, b_id)) lib ≡ (value (tabulate d.payload d.length), lib)
unfolding get_block_content none_if_dead
get_block_content-data heap s_id b_id lib alive data_of = rw (alive, data_of) refl

-- The library after `send_block`.
abbrev pub after_send_block : SendData → ℤ → ℤ → ℕ → ℤ → Library → Library
after_send_block stack s_id b_id s_addr port_num lib =
    (handed_on stack s_id b_id s_addr port_num lib).1

send_block-sends :
    (inet_pton : List ℕ → Option ℕ) (stack : SendData) (lib : Library) (s_id b_id : ℤ)
    (dest : List ℕ) (port_num : ℤ) {s_addr : ℕ}
    → lib.death ≡ false
    → lib.sock ≢ pos 0
    → inet_pton dest ≡ some s_addr
    → bad_port port_num ≡ false
    → ((handed_on stack s_id b_id s_addr port_num lib).0 == 0) ≡ false
    → send_block inet_pton stack (some (s_id, b_id, dest, port_num)) lib
      ≡ (value true, after_send_block stack s_id b_id s_addr port_num lib)
unfolding send_block none_if_dead need_sock address
send_block-sends inet_pton stack lib s_id b_id dest port_num alive opened found good some_sent =
    let not_closed : eqb_ℤ lib.sock (pos 0) ≡ false = ground arith in
    rw (alive, not_closed, found, good, some_sent) refl

module _ (fresh : Block) (s_id b_id : ℤ) (content : List ℕ) where
  -- The block that Python gives to `add_block`.
  abbrev pub added_block : Block
  added_block = new_block fresh (to_u16 s_id) (to_u32 b_id) (given content)

  added_block-IsNamed : IsNamed added_block
  unfolding new_block
  added_block-IsNamed = record { streamid = ground arith; blockid = ground arith }

  added_block-names : (added_block.streamid ≡ to_u16 s_id) × (added_block.blockid ≡ to_u32 b_id)
  unfolding new_block
  added_block-names = (refl, refl)

  -- A block that is in front of the cache is sent, fragment by fragment.
  added_block-sent :
      (stack : SendData) (s_addr : ℕ) (port_num : ℤ) (lib : Library)
      → IsCut added_block
      → IsBalanced lib.sender.queues
      → length (items lib.sender.queues.send) + added_block.fs.fn ≤ capacity
      → let out =
          handed_on stack s_id b_id s_addr port_num (with_block fresh s_id b_id content lib) in
        ((out.0 == 0) ≡ false)
        × (items out.1.sender.queues.send
            ≡ items lib.sender.queues.send
              ++ datagrams stack
                  (socket_address s_addr port_num)
                  (to_u16 s_id)
                  (to_u32 b_id)
                  added_block
                  added_block.fs.fn
                  0)
  added_block-sent stack s_addr port_num lib cut balanced room =
      let found =
        findblock-cons (to_u16 s_id) (to_u32 b_id) added_block lib.cache added_block-names.0
          added_block-names.1 in
      let (count, _, order) =
        sendblock-queued stack (to_u16 s_id) (to_u32 b_id) (socket_address s_addr port_num)
          (added_block ∷ lib.cache) lib.sender.queues found balanced room in
      (rw count (ground (arith, cut.some_fragments)), order)

  added_block-received :
      (retransmission : Bool) (m : Memory) (heap : Array ℕ) (t : Trip) (trips : List Trip)
      (peer : Library)
      → IsCut added_block
      → peer.death ≡ false
      → findblock (to_u16 s_id) (to_u32 b_id) peer.cache ≡ none
      → peer.biter.s_biter_empty ≢ 0
      → t.arrival.index + 1 < added_block.fs.fn
      → AllIn added_block (arrivals trips)
      → PortZero (t ∷ trips)
      → ((k : ℕ) → k < added_block.fs.fn → arrives k (arrivals (t ∷ trips)) ≡ true)
      → (r : Receiver) × (process_all retransmission m added_block (t ∷ trips) (receiver_of peer)
          ≡ done r)
        × (get_block_content heap (some (s_id, b_id)) (with_receiver r peer)
            ≡ (value content, with_receiver r peer))
  unfolding new_block
  added_block-received retransmission m heap t trips peer cut alive absent place h inside ports
        all =
      let (r, d, run, _, data_of, len, bytes) =
        transfer cut added_block-IsNamed retransmission m heap t trips (receiver_of peer) h inside
          ports absent place all in
      let text : tabulate d.payload d.length ≡ content =
        ap (tabulate d.payload) len
        ∙ tabulate-ext d.payload (λ i. get_or content i 0) (length content)
            (λ k hk. ground (arith, bytes k hk))
        ∙ tabulate-get_or content 0 in
      (
        r,
        run,
        get_block_content-data heap s_id b_id (with_receiver r peer) alive data_of
            ∙ ap (λ text. (value text, with_receiver r peer)) text,
      )

  -- A block of at most `max_block` bytes in two or more fragments, given to `add_block` and then to
  -- `send_block` of a library with an open socket, under an identifier that is new there, with a
  -- valid address and port and room in the sender's queue: both calls return True, and the datagrams
  -- of all its fragments stand behind those that wait there, in order. When such datagrams have gone
  -- through a sending thread in any state, the first byte of whose port on the wire is 0, and have
  -- arrived at a library that has no block of the identifier and a free place in its ring, each
  -- fragment at least once, in any order and with any repetition, but the last one not first: then
  -- `get_block_content` there returns the bytes that were given to `add_block`.
  pub block_transfer :
      (inet_pton : List ℕ → Option ℕ) (stack : SendData) (dest : List ℕ) (port_num : ℤ) {s_addr : ℕ}
      (lib peer : Library) (retransmission : Bool) (m : Memory) (heap : Array ℕ) (t : Trip)
      (trips : List Trip)
      → 0 < length content
      → length content ≤ max_block
      → lib.death ≡ false
      → lib.sock ≢ pos 0
      → findblock (to_u16 s_id) (to_u32 b_id) lib.cache ≡ none
      → inet_pton dest ≡ some s_addr
      → bad_port port_num ≡ false
      → IsBalanced lib.sender.queues
      → length (items lib.sender.queues.send) + added_block.fs.fn ≤ capacity
      → peer.death ≡ false
      → findblock (to_u16 s_id) (to_u32 b_id) peer.cache ≡ none
      → peer.biter.s_biter_empty ≢ 0
      → t.arrival.index + 1 < added_block.fs.fn
      → AllIn added_block (arrivals trips)
      → PortZero (t ∷ trips)
      → ((k : ℕ) → k < added_block.fs.fn → arrives k (arrivals (t ∷ trips)) ≡ true)
      → let added = with_block fresh s_id b_id content lib in
        let sent = after_send_block stack s_id b_id s_addr port_num added in
        (add_block fresh (some (s_id, b_id, content)) lib ≡ (value true, added))
        × (send_block inet_pton stack (some (s_id, b_id, dest, port_num)) added
            ≡ (value true, sent))
        × (items sent.sender.queues.send
            ≡ items lib.sender.queues.send
              ++ datagrams stack
                  (socket_address s_addr port_num)
                  (to_u16 s_id)
                  (to_u32 b_id)
                  added_block
                  added_block.fs.fn
                  0)
        × (r : Receiver) × (process_all retransmission m added_block (t ∷ trips) (receiver_of peer)
            ≡ done r)
        × (get_block_content heap (some (s_id, b_id)) (with_receiver r peer)
            ≡ (value content, with_receiver r peer))
  block_transfer inet_pton stack dest port_num {s_addr} lib peer retransmission m heap t trips
        some_bytes fits alive opened absent found good balanced room peer_alive peer_absent place h
        inside ports all =
      let cut = new_block-IsCut fresh (to_u16 s_id) (to_u32 b_id) (given content) some_bytes fits in
      let added = with_block fresh s_id b_id content lib in
      let (some_sent, order) = added_block-sent stack s_addr port_num lib cut balanced room in
      let (r, run, read) =
        added_block-received retransmission m heap t trips peer cut peer_alive peer_absent place h
          inside ports all in
      (
        add_block-absent fresh s_id b_id content lib alive absent,
        send_block-sends inet_pton stack added s_id b_id dest port_num alive opened found good
            some_sent,
        order,
        r,
        run,
        read,
      )
