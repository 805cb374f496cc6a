-- ===== src/BlockCache/Reassembly/Whole.antt =====
-- What the receiver has when all fragments of a block have arrived, and when some have not.
use bora.Prelude.{
  ℕ, zero, suc, ◌+◌, ◌-◌, ◌*◌, ◌/◌, ◌%◌, ◌<◌, ◌≡◌, refl, ◌∙◌, Bool, true, false, Bool-cases, inl,
  inr, none, some, Array, List, [], ◌∷◌, ◌==◌, ltb, from, set, memcpy, if◌then◌else◌, arith,
}
use bora.Net.{SockaddrIn, mtu}
use bora.Net.Time.{Timeval}
use bora.BlockCache.{
  Block, BlockFragment, BlockData, f_added, findblock, addfragment, first_fragment, received,
  have_below, iscomplete, get_block_data,
}
use bora.BlockCache.Outgoing.{fragment_of}
use bora.BlockCache.Lookup.{findblock-cons}
use bora.BlockCache.Reassembly.{IsCut, IsPart, own_fragment}
use bora.BlockCache.Reassembly.Delivery.{
  Arrival, deliver, arrives, AllIn, Holds, addfragment-first, deliver_lem,
}

pub have_below-all :
    (f : Array BlockFragment) (n : ℕ)
    → ((k : ℕ) → k < n → (f k).have ≡ true)
    → have_below f n ≡ true
unfolding have_below
have_below-all f zero h = refl
have_below-all f (suc n) h = ground (arith, h n, have_below-all f n (λ k hk. h k (omega arith)))

pub have_below-missing :
    (f : Array BlockFragment) (n k : ℕ) → k < n → (f k).have ≡ false → have_below f n ≡ false
unfolding have_below
have_below-missing f zero k hk h = elim hk [ ]
have_below-missing f (suc n) k hk h = elim (Bool-cases (k == n)) [
  | inl here ↦ ground arith
  | inr before ↦ ground (arith, have_below-missing f n k)
]

-- The byte `j` of the block stands in fragment `j / MTU`, at `j % MTU`.
pub IsPart-bytes :
    {s b : Block}
    → IsCut s
    → IsPart s b
    → ((k : ℕ) → k < s.fs.fn → (b.f k).have ≡ true)
    → (j : ℕ) → j < s.content.length
    → b.content.payload j ≡ s.content.payload j
IsPart-bytes {s} {b} cut part all j h =
    let e : mtu * (j / mtu) + j % mtu ≡ j = omega arith in
    let i_in : j / mtu < s.fs.fn = omega (arith, cut.whole) in
    rw e at (part.agree (j / mtu) (j % mtu) i_in (all (j / mtu) i_in) (ground (arith, cut.whole)))

pub iscomplete-found :
    (sid bid : ℕ) (cache : List Block) {b : Block}
    → findblock sid bid cache ≡ some b
    → iscomplete sid bid cache ≡ have_below b.f b.fs.fn
unfolding iscomplete
iscomplete-found sid bid cache e = rw (iscomplete, e)

copy_of : Array ℕ → Block → BlockData
copy_of heap b = record {
  payload = memcpy heap 0 b.content.payload b.content.length;
  length = b.content.length;
}

get_block_data-found :
    (heap : Array ℕ) (sid bid : ℕ) (cache : List Block) {b : Block}
    → findblock sid bid cache ≡ some b
    → get_block_data heap sid bid cache ≡ some (copy_of heap b)
unfolding get_block_data copy_of
get_block_data-found heap sid bid cache e = rw (get_block_data, e)

module _ {s : Block} (cut : IsCut s) (heap : Array ℕ) where
  pub Holds-whole :
      {cache : List Block} {got : ℕ → Bool}
      → Holds s cache got
      → ((k : ℕ) → k < s.fs.fn → got k ≡ true)
      → (iscomplete s.streamid s.blockid cache ≡ true)
        × (d : BlockData) × (get_block_data heap s.streamid s.blockid cache ≡ some d)
        × (d.length ≡ s.content.length)
        × ((j : ℕ) → j < s.content.length → d.payload j ≡ s.content.payload j)
  unfolding copy_of
  Holds-whole {cache} held all =
      let b = held.block in
      let have : (k : ℕ) → k < s.fs.fn → (b.f k).have ≡ true = λ k hk. held.have k hk ∙ all k hk in
      let length : b.content.length ≡ s.content.length =
        held.part.length (have (s.fs.fn - 1) (omega (arith, cut.some_fragments))) in
      (
        iscomplete-found s.streamid s.blockid cache held.found
            ∙ have_below-all b.f b.fs.fn (λ k hk. have k (omega (arith, held.part.count))),
        copy_of heap b,
        get_block_data-found heap s.streamid s.blockid cache held.found,
        length,
        λ j hj. ground (arith, IsPart-bytes cut held.part have j hj),
      )

pub Holds-missing :
    {s : Block} {cache : List Block} {got : ℕ → Bool}
    → Holds s cache got
    → (k : ℕ) → k < s.fs.fn
    → got k ≡ false
    → iscomplete s.streamid s.blockid cache ≡ false
Holds-missing {s} {cache} held k hk missing =
    iscomplete-found s.streamid s.blockid cache held.found
    ∙ have_below-missing held.block.f held.block.fs.fn k (omega (arith, held.part.count))
        (held.have k hk ∙ missing)

-- The fragments of a block reach a cache that has no block of its identifier: each at least once,
-- in any order and with any repetition, but the last fragment not first. Then the block is
-- complete there, and `get_block_data` returns the block that was cut, in length and in each byte.
pub reassembly :
    {s : Block}
    → IsCut s
    → (fresh : Block) (heap : Array ℕ) (a : Arrival) (rest : List Arrival) (cache : List Block)
    → a.index + 1 < s.fs.fn
    → AllIn s rest
    → findblock s.streamid s.blockid cache ≡ none
    → ((k : ℕ) → k < s.fs.fn → arrives k (a ∷ rest) ≡ true)
    → (cache' : List Block) × (d : BlockData) × (deliver fresh s (a ∷ rest) cache ≡ some cache')
      × (iscomplete s.streamid s.blockid cache' ≡ true)
      × (get_block_data heap s.streamid s.blockid cache' ≡ some d)
      × (d.length ≡ s.content.length)
      × ((j : ℕ) → j < s.content.length → d.payload j ≡ s.content.payload j)
reassembly cut fresh heap a rest cache h inside absent all =
    let (cache', run, held) = deliver_lem cut fresh a rest cache h inside absent in
    let (whole, d, data_of, length, bytes) = Holds-whole cut heap held all in
    (cache', d, run, whole, data_of, length, bytes)

-- Fragments of a cut block reach a cache that has no block of its identifier: at least one of them,
-- the first of them not the last fragment of the block, in any order and any number of times. As long
-- as some fragment of the block has not arrived, nothing faults and the block is not complete.
pub reassembly_missing :
    {s : Block}
    → IsCut s
    → (fresh : Block) (a : Arrival) (rest : List Arrival) (cache : List Block)
    → a.index + 1 < s.fs.fn
    → AllIn s rest
    → findblock s.streamid s.blockid cache ≡ none
    → (k : ℕ) → k < s.fs.fn
    → arrives k (a ∷ rest) ≡ false
    → (cache' : List Block) × (deliver fresh s (a ∷ rest) cache ≡ some cache')
      × (iscomplete s.streamid s.blockid cache' ≡ false)
reassembly_missing cut fresh a rest cache h inside absent k hk missing =
    let (cache', run, held) = deliver_lem cut fresh a rest cache h inside absent in
    (cache', run, Holds-missing held k hk missing)

copied_length : (heap : Array ℕ) (b : Block) → (copy_of heap b).length ≡ b.content.length
unfolding copy_of
copied_length heap b = refl

addfragment-first-empty :
    (s fresh : Block) (host : SockaddrIn) (ts : Timeval) {b : Block}
    → first_fragment fresh (own_fragment s 0) host ts ≡ some (f_added, some b)
    → addfragment fresh (own_fragment s 0) host ts [] ≡ some (f_added, b ∷ [])
unfolding findblock
addfragment-first-empty s fresh host ts step =
    addfragment-first fresh (own_fragment s 0) host ts [] refl step

-- The block that the only fragment of a block leaves.
only_fragment :
    {s : Block}
    → IsCut s
    → s.fs.fn ≡ 1
    → (fresh : Block) (host : SockaddrIn) (ts : Timeval)
    → (b : Block) × (first_fragment fresh (own_fragment s 0) host ts ≡ some (f_added, some b))
      × (b.streamid ≡ s.streamid)
      × (b.blockid ≡ s.blockid)
      × (have_below b.f b.fs.fn ≡ true)
      × (b.content.length ≡ mtu)
unfolding first_fragment fragment_of have_below
only_fragment {s} cut one fresh host ts = (
  record {
    streamid = s.streamid;
    blockid = s.blockid;
    content = record {
      payload =
          memcpy (λ i. if ltb i (mtu * s.fs.fn) then 0 else fresh.content.payload i) 0
            (from s.content.payload 0) s.fs.lastlen;
      length = mtu * s.fs.fn;
    };
    alloc = mtu * s.fs.fn;
    f =
        set (λ i. if ltb i s.fs.fn then record (fresh.f i) { have = false } else fresh.f i) 0
          (received host ts);
    fs = record { fn = s.fs.fn; lastlen = s.fs.lastlen };
  },
  ground arith,
  refl,
  refl,
  rw one,
  ground arith,
)

-- A block of one fragment, received in an empty cache: the block is complete, but the data that
-- `get_block_data` returns are MTU bytes long, whatever the length of the block.
pub one_fragment_block :
    {s : Block}
    → IsCut s
    → s.fs.fn ≡ 1
    → (fresh : Block) (heap : Array ℕ) (host : SockaddrIn) (ts : Timeval)
    → (cache : List Block) × (d : BlockData) × (addfragment fresh (own_fragment s 0) host ts []
        ≡ some (f_added, cache))
      × (iscomplete s.streamid s.blockid cache ≡ true)
      × (get_block_data heap s.streamid s.blockid cache ≡ some d)
      × (d.length ≡ mtu)
one_fragment_block {s} cut one fresh heap host ts =
    let (b, step, hs, hb, whole, length) = only_fragment cut one fresh host ts in
    let found : findblock s.streamid s.blockid (b ∷ []) ≡ some b =
      findblock-cons s.streamid s.blockid b [] hs hb in
    (
      b ∷ [],
      copy_of heap b,
      addfragment-first-empty s fresh host ts step,
      iscomplete-found s.streamid s.blockid (b ∷ []) found ∙ whole,
      get_block_data-found heap s.streamid s.blockid (b ∷ []) found,
      copied_length heap b ∙ length,
    )
