-- ===== src/BlockCache/Reassembly/Delivery.antt =====
-- The fragments of a block arrive one after the other, in any order and any number of times.
use bora.Prelude.{
  ℕ, ◌+◌, ◌<◌, ◌≡◌, refl, ◌∙◌, ◌||◌, Bool, true, false, Option, none, some, List, [], ◌∷◌, ◌==◌,
  arith,
}
use bora.Net.{SockaddrIn}
use bora.Net.Time.{Timeval}
use bora.Codec.{FragmentData}
use bora.BlockCache.{
  Block, AddResult, f_added, f_duplicate, findblock, store_block, addfragment, first_fragment,
  next_fragment,
}
use bora.BlockCache.Outgoing.{fragment_of}
use bora.BlockCache.Lookup.{findblock-cons, findblock-store_block}
use bora.BlockCache.Reassembly.{IsCut, IsPart, own_fragment}
use bora.BlockCache.Reassembly.Step.{first_fragment-IsPart, next_fragment-IsPart}

-- A fragment of the block, by its index, and where and when it came from.
pub record Arrival : Type 0 where
  pub index : ℕ
  pub host : SockaddrIn
  pub ts : Timeval

-- The receiver's cache after the arrivals, in their order.
pub deliver : Block → Block → List Arrival → List Block → Option (List Block)
deliver fresh s [] cache = some cache
deliver fresh s (a ∷ rest) cache =
    elim (addfragment fresh (own_fragment s a.index) a.host a.ts cache) [
      | none ↦ none
      | some (r, cache') ↦ deliver fresh s rest cache'
    ]

-- Fragment `k` is among the arrivals.
abbrev pub arrives : ℕ → List Arrival → Bool
arrives k [] = false
arrives k (a ∷ rest) = k == a.index || arrives k rest

-- Every arrival is a fragment of the block.
abbrev pub AllIn : Block → List Arrival → Type 0
AllIn s [] = Unit
AllIn s (a ∷ rest) = (a.index < s.fs.fn) × AllIn s rest

-- The cache holds a part of `s`, with the fragments of `got`.
pub record Holds (s : Block) (cache : List Block) (got : ℕ → Bool) : Type 0 where
  pub block : Block
  pub found : findblock s.streamid s.blockid cache ≡ some block
  pub part : IsPart s block
  pub have : (k : ℕ) → k < s.fs.fn → (block.f k).have ≡ got k

addfragment-next :
    (fresh : Block) (fragment : FragmentData) (host : SockaddrIn) (ts : Timeval)
    (cache : List Block) {b b' : Block} {r : AddResult}
    → findblock fragment.streamid fragment.blockid cache ≡ some b
    → next_fragment b fragment host ts ≡ some (r, b')
    → addfragment fresh fragment host ts cache
      ≡ some (r, store_block fragment.streamid fragment.blockid b' cache)
unfolding addfragment
addfragment-next fresh fragment host ts cache e step = ground arith

pub addfragment-first :
    (fresh : Block) (fragment : FragmentData) (host : SockaddrIn) (ts : Timeval)
    (cache : List Block) {b : Block} {r : AddResult}
    → findblock fragment.streamid fragment.blockid cache ≡ none
    → first_fragment fresh fragment host ts ≡ some (r, some b)
    → addfragment fresh fragment host ts cache ≡ some (r, b ∷ cache)
unfolding addfragment
addfragment-first fresh fragment host ts cache e step = ground arith

pub or_assoc : (a b c : Bool) → (a || b) || c ≡ a || (b || c)
or_assoc a b c = ground arith

pub or-false : (a : Bool) → a ≡ a || false
or-false a = ground arith

pub Holds-ext :
    {s : Block} {cache : List Block} {got got' : ℕ → Bool}
    → Holds s cache got
    → ((k : ℕ) → got k ≡ got' k)
    → Holds s cache got'
Holds-ext held e = record {
  block = held.block;
  found = held.found;
  part = held.part;
  have = λ k hk. held.have k hk ∙ e k;
}

found-own :
    {s : Block} {cache : List Block} {got : ℕ → Bool} (i : ℕ) (held : Holds s cache got)
    → findblock (own_fragment s i).streamid (own_fragment s i).blockid cache ≡ some held.block
unfolding fragment_of
found-own i held = held.found

module _ {s : Block} (cut : IsCut s) (fresh : Block) where
  pub addfragment-Holds :
      (a : Arrival) {cache : List Block} {got : ℕ → Bool}
      → a.index < s.fs.fn
      → Holds s cache got
      → (r : AddResult) × (cache' : List Block) × (addfragment fresh
            (own_fragment s a.index)
            a.host
            a.ts
            cache
          ≡ some (r, cache'))
        × Holds s cache' (λ k. got k || k == a.index)
        × (got a.index ≡ true → r ≡ f_duplicate)
  unfolding fragment_of
  addfragment-Holds a {cache} {got} h held =
      let (r, b', step, part, have, old) =
        next_fragment-IsPart cut a.host a.ts a.index h held.part in
      (
        r,
        store_block s.streamid s.blockid b' cache,
        addfragment-next fresh (own_fragment s a.index) a.host a.ts cache (found-own a.index held)
            step,
        record {
          block = b';
          found =
              rw
                (findblock-store_block s.streamid s.blockid b' cache held.found part.streamid
                  part.blockid s.streamid s.blockid)
                (ground arith);
          part = part;
          have = λ k hk. rw (have k hk, held.have k hk);
        },
        λ e. old (held.have a.index h ∙ e),
      )

  deliver-Holds :
      (rest : List Arrival) {cache : List Block} {got : ℕ → Bool}
      → AllIn s rest
      → Holds s cache got
      → (cache' : List Block) × (deliver fresh s rest cache ≡ some cache')
        × Holds s cache' (λ k. got k || arrives k rest)
  unfolding deliver
  deliver-Holds [] {cache} {got} inside held = (cache, refl, Holds-ext held (λ k. or-false (got k)))
  deliver-Holds (a ∷ rest) {cache} {got} inside held =
      let (r, mid, step, held', _) = addfragment-Holds a inside.0 held in
      let (last, run, held'') = deliver-Holds rest inside.1 held' in
      (
        last,
        rw (step, deliver) run,
        Holds-ext held'' (λ k. or_assoc (got k) (k == a.index) (arrives k rest)),
      )

  -- The first arrival, of a fragment that is not the last of its block.
  pub addfragment-first-Holds :
      (a : Arrival) (cache : List Block)
      → a.index + 1 < s.fs.fn
      → findblock s.streamid s.blockid cache ≡ none
      → (cache' : List Block) × (addfragment fresh (own_fragment s a.index) a.host a.ts cache
          ≡ some (f_added, cache'))
        × Holds s cache' (λ k. k == a.index)
  unfolding fragment_of
  addfragment-first-Holds a cache h absent =
      let (b, step, part, have) = first_fragment-IsPart cut a.host a.ts fresh a.index h in
      (
        b ∷ cache,
        addfragment-first fresh (own_fragment s a.index) a.host a.ts cache absent step,
        record {
          block = b;
          found = findblock-cons s.streamid s.blockid b cache part.streamid part.blockid;
          part = part;
          have = have;
        },
      )

  -- The fragments of a block reach a cache that has no block of its identifier, in any order and
  -- any number of times, the first of them being not the block's last fragment. Then no access is
  -- out of bounds, and the cache holds a part of the block with exactly the fragments that came.
  pub deliver_lem :
      (a : Arrival) (rest : List Arrival) (cache : List Block)
      → a.index + 1 < s.fs.fn
      → AllIn s rest
      → findblock s.streamid s.blockid cache ≡ none
      → (cache' : List Block) × (deliver fresh s (a ∷ rest) cache ≡ some cache')
        × Holds s cache' (λ k. arrives k (a ∷ rest))
  unfolding deliver
  deliver_lem a rest cache h inside absent =
      let (mid, step, held) = addfragment-first-Holds a cache h absent in
      let (last, run, held') = deliver-Holds rest inside held in
      (last, rw (step, deliver) run, held')
