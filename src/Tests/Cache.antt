-- ===== src/Tests/Cache.antt =====
-- The block cache on a block of two fragments.
use bora.Prelude.{
  ℕ, ◌+◌, ◌-◌, ◌<◌, ◌≡◌, ◌↔◌, refl, true, false, none, some, List, [], ◌∷◌, ◌++◌, ◌==◌, leb, not,
  ◌&&◌, ◌||◌, arith,
}
use bora.Codec.{FragmentData, header_size}
use bora.Queues.{init_queues}
use bora.Queues.Fifo.{items}
use bora.Queues.Routing.{IsBalanced, init_queues-IsBalanced}
use bora.BlockCache.{
  Block, BlockData, f_added, findblock, addblock, addfragment, iscomplete, get_block_data,
  calcfragments, have_below, first_fragment, next_fragment,
}
use bora.BlockCache.Outgoing.{fragment_of, datagram_of, sendblock}
use bora.BlockCache.Unset.{sends_unset_length}
use bora.BlockCache.Reassembly.{IsCut, own_fragment}
use bora.BlockCache.Reassembly.Delivery.{Arrival, deliver}
use bora.BlockCache.Reassembly.Whole.{reassembly, reassembly_missing, one_fragment_block}
use bora.BlockCache.Add.{addblock_lem}
use bora.BlockCache.Bounds.{IsSound, first_fragment_fault, next_fragment_fault, oversized}
use bora.BlockCache.Sending.{sendblock_lem, datagrams, AllFit}
use bora.Tests.{
  blank, alice, bob, at, blank_datagram, fresh_block, two_fragments, small_block, second_fragment,
}

two_fragments-IsCut : IsCut two_fragments
two_fragments-IsCut = record {
  some_fragments = omega arith;
  count_fits = omega arith;
  last_nonempty = omega arith;
  last_fits = omega arith;
  whole = refl;
}

small_block-IsCut : IsCut small_block
small_block-IsCut = record {
  some_fragments = omega arith;
  count_fits = omega arith;
  last_nonempty = omega arith;
  last_fits = omega arith;
  whole = refl;
}

abbrev first_arrival : Arrival
first_arrival = record { index = 0; host = alice; ts = at 1 }

abbrev last_arrival : Arrival
last_arrival = record { index = 1; host = alice; ts = at 2 }

-- both fragments arrive, the first of them twice
abbrev rest_arrivals : List Arrival
rest_arrivals = last_arrival ∷ first_arrival ∷ []

reassembly_example :
    (cache' : List Block) × (d : BlockData) × (deliver fresh_block two_fragments
        (first_arrival ∷ rest_arrivals)
        []
      ≡ some cache')
    × (iscomplete 1 2 cache' ≡ true)
    × (get_block_data blank 1 2 cache' ≡ some d)
    × (d.length ≡ 1403)
    × ((j : ℕ) → j < 1403 → d.payload j ≡ j)
unfolding findblock
reassembly_example =
    reassembly two_fragments-IsCut fresh_block blank first_arrival rest_arrivals [] (omega arith)
      (omega arith, (omega arith, tt)) refl (λ k h. ground arith)

reassembly_missing_example :
    (cache' : List Block) × (deliver fresh_block two_fragments
        (first_arrival ∷ first_arrival ∷ [])
        []
      ≡ some cache')
    × (iscomplete 1 2 cache' ≡ false)
unfolding findblock
reassembly_missing_example =
    reassembly_missing two_fragments-IsCut fresh_block first_arrival (first_arrival ∷ []) []
      (omega arith) (omega arith, tt) refl 1 (omega arith) refl

one_fragment_block_example :
    (cache : List Block) × (d : BlockData) × (addfragment fresh_block
        (own_fragment small_block 0)
        alice
        (at 1)
        []
      ≡ some (f_added, cache))
    × (iscomplete 1 2 cache ≡ true)
    × (get_block_data blank 1 2 cache ≡ some d)
    × (d.length ≡ 1400)
one_fragment_block_example =
    one_fragment_block small_block-IsCut refl fresh_block blank alice (at 1)

calcfragments_1403 : calcfragments 1403 ≡ record { fn = 2; lastlen = 3 }
unfolding calcfragments
calcfragments_1403 = refl

abbrev three_bytes : BlockData
three_bytes = record { payload = λ i. i + 9; length = 3 }

addblock_lem_example :
    (b : Block) × (cache' : List Block) × (addblock fresh_block 3 4 three_bytes (two_fragments ∷ [])
      ≡ (true, cache'))
    × (findblock 3 4 cache' ≡ some b)
    × IsCut b
    × (have_below b.f b.fs.fn ≡ true)
    × (b.content.length ≡ 3)
    × ((j : ℕ) → j < 3 → b.content.payload j ≡ j + 9)
    × ((s i : ℕ)
        → (3 == s && 4 == i) ≡ false
        → findblock s i cache' ≡ findblock s i (two_fragments ∷ []))
unfolding findblock
addblock_lem_example =
    addblock_lem fresh_block 3 4 three_bytes (two_fragments ∷ []) refl (omega arith) (omega arith)

first_fragment_fault_example :
    (first_fragment fresh_block (record second_fragment { length = 1401 }) alice (at 1) ≡ none)
    ↔ (oversized (record second_fragment { length = 1401 }) ≡ true)
first_fragment_fault_example =
    first_fragment_fault fresh_block (record second_fragment { length = 1401 }) alice (at 1)

-- a block of two fragments with none of them received
abbrev partial_block : Block
partial_block = record fresh_block {
  streamid = 1;
  blockid = 2;
  content = record { payload = blank; length = 2800 };
  alloc = 2800;
  fs = record { fn = 2; lastlen = 0 };
}

partial_block-IsSound : IsSound partial_block
partial_block-IsSound = record {
  size = omega arith;
  room = λ i hi h. refl;
  ends = λ i hi h. ground arith;
}

next_fragment_fault_example :
    (next_fragment partial_block second_fragment alice (at 1) ≡ none)
    ↔ ((leb 2 1 || (not false && 2 == 2 && oversized second_fragment)) ≡ true)
next_fragment_fault_example = next_fragment_fault partial_block-IsSound second_fragment alice (at 1)

sendblock_lem_example :
    let q = init_queues (λ i. blank_datagram) in
    let out = sendblock blank_datagram 1 2 bob (two_fragments ∷ []) q in
    (out.0 ≡ 2)
    × IsBalanced out.1
    × (items out.1.send ≡ items q.send ++ datagrams blank_datagram bob 1 2 two_fragments 2 0)
    × AllFit (datagrams blank_datagram bob 1 2 two_fragments 2 0)
unfolding findblock init_queues
sendblock_lem_example =
    sendblock_lem blank_datagram 1 2 bob (two_fragments ∷ []) (init_queues (λ i. blank_datagram))
      refl (omega arith) (init_queues-IsBalanced (λ i. blank_datagram)) (omega arith)

-- the first of two fragments
abbrev early_fragment : FragmentData
early_fragment = record second_fragment { fragmentid = 0; length = 1400; payload = λ i. i }

-- memory that is left from something else
abbrev used_block : Block
used_block = record fresh_block { fs = record { fn = 0; lastlen = 100 } }

sends_unset_length_example :
    let q = init_queues (λ i. blank_datagram) in
    (block : Block) × (addfragment used_block early_fragment alice (at 1) []
      ≡ some (f_added, block ∷ []))
    × let out = sendblock blank_datagram 1 2 bob (block ∷ []) q in
      let last = fragment_of 1 2 block (2 - 1) in
      (out.0 ≡ 2)
      × (items out.1.send ≡ items q.send ++ datagrams blank_datagram bob 1 2 block 2 0)
      × (last.length ≡ 100)
      × ((datagram_of blank_datagram bob last).length ≡ header_size + 100)
unfolding findblock init_queues
sends_unset_length_example =
    sends_unset_length blank_datagram used_block early_fragment alice bob (at 1) []
      (init_queues (λ i. blank_datagram)) refl (omega arith) refl (omega arith)
      (init_queues-IsBalanced (λ i. blank_datagram)) (omega arith)
