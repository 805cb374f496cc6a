-- ===== src/BlockCache.antt =====
-- blockcache.c: the blocks that the process holds, complete or in the course of being received.
-- The list `blockcache` is a list of blocks, newest first; a function that changes it returns the
-- new one. Each function holds the locks that it needs from its first access to its last, and is
-- one step here. A block that malloc returns is an argument, `fresh`, since the code leaves parts
-- of it as they are; malloc itself does not fail. `none` is an access outside an allocated array.
pub mod Outgoing
pub mod Queries
pub mod Cutting
pub mod Lookup
pub mod Reassembly
pub mod Add
pub mod Bounds
pub mod Invariant
pub mod Sending
pub mod Handing
pub mod Unset
pub mod Distinct
use mathlib.Core.Option
use bora.Prelude.{
  ℕ, zero, suc, ◌+◌, ◌-◌, ◌*◌, ◌/◌, ◌%◌, Bool, true, false, Option, none, some, Array, set, memcpy,
  List, [], ◌∷◌, u16, ltb, leb, ◌==◌, not, ◌&&◌, if◌then◌else◌,
}
use bora.Net.{SockaddrIn, mtu}
use bora.Net.Time.{Timeval, time_zero}
use bora.Codec.{FragmentData}

pub record BlockFragment : Type 0 where
  pub have : Bool
  pub host : SockaddrIn
  pub ts : Timeval

pub record Fragments : Type 0 where
  pub fn : ℕ
  pub lastlen : ℕ

pub record BlockData : Type 0 where
  pub payload : Array ℕ
  pub length : ℕ

-- `alloc` is the number of bytes that `content.data` was allocated with. `f` was allocated with
-- `fs.fn` entries.
pub record Block : Type 0 where
  pub streamid : ℕ
  pub blockid : ℕ
  pub content : BlockData
  pub alloc : ℕ
  pub f : Array BlockFragment
  pub fs : Fragments

pub data AddResult : Type 0 where
  f_added f_duplicate f_fragments_mismatch f_fragmentid_outofbounds f_bad_len : AddResult

abbrev pub is_block : ℕ → ℕ → Block → Bool
is_block streamid blockid b = b.streamid == streamid && b.blockid == blockid

unfoldable pub findblock : ℕ → ℕ → List Block → Option Block
findblock streamid blockid [] = none
findblock streamid blockid (b ∷ cache) =
    if is_block streamid blockid b then some b else findblock streamid blockid cache

-- A write through the pointer that `findblock` returns.
unfoldable pub store_block : ℕ → ℕ → Block → List Block → List Block
store_block streamid blockid new [] = []
store_block streamid blockid new (b ∷ cache) =
    if is_block streamid blockid b then new ∷ cache else b ∷ store_block streamid blockid new cache

-- The loop of `__iscomplete`, from index `i` down.
pub have_below : Array BlockFragment → ℕ → Bool
have_below f zero = true
have_below f (suc i) = if not (f i).have then false else have_below f i

-- `__iscomplete` of a block that is not NULL.
unfoldable pub block_complete : Block → Bool
unfolding have_below
block_complete b = have_below b.f b.fs.fn

unfoldable pub iscomplete : ℕ → ℕ → List Block → Bool
unfolding findblock block_complete
iscomplete streamid blockid cache = elim (findblock streamid blockid cache) [
  | none ↦ true
  | some b ↦ block_complete b
]

-- The low 16 bits of -n.
abbrev pub neg16 : ℕ → ℕ
neg16 n = (0x1_0000 - n % 0x1_0000) % 0x1_0000

-- div takes `int`: a length from 2 ^ 31 on is negative there, and quotient and remainder are
-- negative, too.
unfoldable pub calcfragments : ℕ → Fragments
calcfragments length =
    if ltb length 1
    then record { fn = 0; lastlen = 0 }
    else if ltb length 0x8000_0000
    then if length % mtu == 0
      then record { fn = u16 (length / mtu); lastlen = mtu }
      else record { fn = u16 (length / mtu + 1); lastlen = length % mtu }
    else let n = 0x1_0000_0000 - length in
      if n % mtu == 0
      then record { fn = neg16 (n / mtu); lastlen = mtu }
      else record { fn = u16 (neg16 (n / mtu) + 1); lastlen = neg16 (n % mtu) }

abbrev pub no_host : SockaddrIn
no_host = record { sin_family = 0; sin_port = 0; sin_addr = 0; sin_zero = 0 }

-- The new block and 1, or 0 if there is one of that identifier.
unfoldable pub addblock : Block → ℕ → ℕ → BlockData → List Block → Bool × List Block
unfolding findblock calcfragments
addblock fresh streamid blockid blockdata cache =
    let fs = calcfragments blockdata.length in
    let new : Block = record {
      streamid = streamid;
      blockid = blockid;
      content = record {
        payload = memcpy fresh.content.payload 0 blockdata.payload blockdata.length;
        length = blockdata.length;
      };
      alloc = blockdata.length;
      f = λ i.
          if ltb i fs.fn then record { have = true; host = no_host; ts = time_zero } else fresh.f i;
      fs = fs;
    } in
    elim (findblock streamid blockid cache) [ none ↦ (true, new ∷ cache) | some b ↦ (false, cache) ]

-- The loop of `deleteblock`: `prev` stays, and the blocks behind it are searched.
pub delete_after : ℕ → ℕ → Block → List Block → Bool × List Block
delete_after streamid blockid prev [] = (false, prev ∷ [])
delete_after streamid blockid prev (b ∷ cache) =
    let rest = delete_after streamid blockid b cache in
    if is_block streamid blockid b then (true, prev ∷ cache) else (rest.0, prev ∷ rest.1)

unfoldable pub deleteblock : ℕ → ℕ → List Block → Bool × List Block
unfolding delete_after
deleteblock streamid blockid [] = (false, [])
deleteblock streamid blockid (b ∷ cache) = delete_after streamid blockid b cache

abbrev pub received : SockaddrIn → Timeval → BlockFragment
received host ts = record { have = true; host = host; ts = ts }

-- A copy into an array of `alloc` bytes.
abbrev pub copy_in : ℕ → Array ℕ → ℕ → Array ℕ → ℕ → Option (Array ℕ)
copy_in alloc dst off src n = if leb (off + n) alloc then some (memcpy dst off src n) else none

-- `addfragment` where there is no block: the code for the caller, and the block to link in front,
-- if there is one.
unfoldable pub first_fragment :
    Block → FragmentData → SockaddrIn → Timeval → Option (AddResult × Option Block)
first_fragment fresh fragment host ts =
    let fn = fragment.fragments in
    let cleared : Array BlockFragment =
      λ i. if ltb i fn then record (fresh.f i) { have = false } else fresh.f i in
    let zeroed : Array ℕ = λ i. if ltb i (mtu * fn) then 0 else fresh.content.payload i in
    let is_last = fragment.fragmentid + 1 == fn in
    let lastlen = if is_last then fragment.length else fresh.fs.lastlen in
    if not (ltb fragment.fragmentid fn)
    then none
    else if not is_last && not (fragment.length == mtu)
    then some (f_bad_len, none)
    else Option.map
        (λ payload. (
          f_added,
          some (record {
            streamid = fragment.streamid;
            blockid = fragment.blockid;
            content = record { payload = payload; length = mtu * fn };
            alloc = mtu * fn;
            f = set cleared fragment.fragmentid (received host ts);
            fs = record { fn = fn; lastlen = lastlen };
          }),
        ))
        (copy_in (mtu * fn) zeroed (mtu * fragment.fragmentid) fragment.payload fragment.length)

-- `addfragment` where there is a block: the code for the caller, and the block as it is then.
unfoldable pub next_fragment :
    Block → FragmentData → SockaddrIn → Timeval → Option (AddResult × Block)
next_fragment block fragment host ts =
    let fn = block.fs.fn in
    let i = fragment.fragmentid in
    let is_last = i + 1 == fragment.fragments in
    let lastlen = if is_last then fragment.length else block.fs.lastlen in
    let length = if is_last then (fn - 1) * mtu + fragment.length else block.content.length in
    if not (ltb i fn)
    then none
    else if (block.f i).have
    then some (f_duplicate, block)
    else if not (fn == fragment.fragments)
    then some (f_fragments_mismatch, block)
    else if leb fn i
    then some (f_fragmentid_outofbounds, block)
    else if ltb i (fn - 1) && not (fragment.length == mtu)
    then some (f_bad_len, block)
    else Option.map
        (λ payload. (
          f_added,
          record block {
            content = record { payload = payload; length = length };
            f = set block.f i (received host ts);
            fs = record { fn = fn; lastlen = lastlen };
          },
        ))
        (copy_in block.alloc block.content.payload (mtu * i) fragment.payload fragment.length)

-- A new block is linked in front.
abbrev pub link_in : Option Block → List Block → List Block
link_in none cache = cache
link_in (some b) cache = b ∷ cache

unfoldable pub addfragment :
    Block → FragmentData → SockaddrIn → Timeval → List Block → Option (AddResult × List Block)
addfragment fresh fragment host ts cache =
    elim (findblock fragment.streamid fragment.blockid cache) [
      | none ↦ Option.map (λ r. (r.0, link_in r.1 cache)) (first_fragment fresh fragment host ts)
      | some b ↦
          Option.map (λ r. (r.0, store_block fragment.streamid fragment.blockid r.1 cache))
            (next_fragment b fragment host ts)
    ]

unfoldable pub get_block_data : Array ℕ → ℕ → ℕ → List Block → Option BlockData
unfolding findblock
get_block_data heap streamid blockid cache =
    Option.map
      (λ b. record {
        payload = memcpy heap 0 b.content.payload b.content.length;
        length = b.content.length;
      })
      (findblock streamid blockid cache)
