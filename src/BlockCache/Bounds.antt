-- ===== src/BlockCache/Bounds.antt =====
-- The accesses of `addfragment`: which fragments make it write or read outside of a block's arrays,
-- and the invariant on the size of a block's content.
use bora.Prelude.{
  ℕ, ◌+◌, ◌*◌, ◌<◌, ◌≤◌, ◌≡◌, ◌≢◌, ◌↔◌, Bool, true, false, none, some, List, [], ◌∷◌, ◌==◌, ltb,
  leb, not, ◌&&◌, ◌||◌, if◌then◌else◌, arith,
}
use bora.Net.{SockaddrIn, mtu}
use bora.Net.Time.{Timeval}
use bora.Codec.{FragmentData}
use bora.BlockCache.{Block, AddResult, f_added, first_fragment, next_fragment}

-- A fragment with an index that is not below its count, or a last one of more than MTU bytes.
abbrev pub oversized : FragmentData → Bool
oversized g = leb g.fragments g.fragmentid || (g.fragmentid + 1 == g.fragments && ltb mtu g.length)

-- The first fragment of a block is written outside of the block's arrays exactly if its index is not
-- below its count, or it is the last one and longer than MTU bytes: there is no check of either.
pub first_fragment_fault :
    (fresh : Block) (g : FragmentData) (host : SockaddrIn) (ts : Timeval)
    → (first_fragment fresh g host ts ≡ none) ↔ (oversized g ≡ true)
unfolding first_fragment
first_fragment_fault fresh g host ts = (λ h. ground arith, λ h. ground arith)

-- The content is no longer than its allocation, which has MTU bytes for each fragment of a block
-- that is still being received; and the last fragment, once it is there, is no longer than MTU bytes.
pub record IsSound (b : Block) : Type 0 where
  pub size : b.content.length ≤ b.alloc
  pub room : (i : ℕ) → i < b.fs.fn → (b.f i).have ≡ false → b.alloc ≡ mtu * b.fs.fn
  pub ends : (i : ℕ) → i + 1 ≡ b.fs.fn → (b.f i).have ≡ true → b.fs.lastlen ≤ mtu

-- A further fragment is read or written outside of the block's arrays exactly if its index is not
-- below the block's count, or it is the block's last one, new, and longer than MTU bytes.
pub next_fragment_fault :
    {b : Block}
    → IsSound b
    → (g : FragmentData) (host : SockaddrIn) (ts : Timeval)
    → (next_fragment b g host ts ≡ none) ↔ (
        (leb b.fs.fn g.fragmentid
          || (not (b.f g.fragmentid).have && b.fs.fn == g.fragments && oversized g))
        ≡ true)
unfolding next_fragment
next_fragment_fault {b} sound g host ts =
    (λ h. ground (arith, sound.room g.fragmentid), λ h. ground (arith, sound.room g.fragmentid))

-- The code that a fragment gets from a block that has no fault on it.
abbrev next_code : Block → FragmentData → AddResult
next_code b g =
    if (b.f g.fragmentid).have
    then AddResult.f_duplicate
    else if not (b.fs.fn == g.fragments)
    then AddResult.f_fragments_mismatch
    else if ltb (g.fragmentid + 1) b.fs.fn && not (g.length == mtu)
    then AddResult.f_bad_len
    else f_added

-- A further fragment that is not added leaves its block as it is, and the code that it gets is
-- never F_FRAGMENTID_OUTOFBOUNDS: an index out of bounds has been used before it is compared.
pub next_fragment_code :
    (b : Block) (g : FragmentData) (host : SockaddrIn) (ts : Timeval) {r : AddResult} {b' : Block}
    → next_fragment b g host ts ≡ some (r, b')
    → (r ≡ next_code b g) × (r ≢ AddResult.f_fragmentid_outofbounds) × (r ≢ f_added → b' ≡ b)
unfolding next_fragment
next_fragment_code b g host ts h = (ground arith, ground arith, λ ne. ground arith)

pub first_fragment-IsSound :
    (fresh : Block) (g : FragmentData) (host : SockaddrIn) (ts : Timeval) {r : AddResult}
    {b : Block}
    → first_fragment fresh g host ts ≡ some (r, some b)
    → IsSound b
unfolding first_fragment
first_fragment-IsSound fresh g host ts h = record {
  size = ground arith;
  room = λ i hi got. ground arith;
  ends = λ i hi got. ground arith;
}

pub next_fragment-IsSound :
    {b : Block}
    → IsSound b
    → (g : FragmentData) (host : SockaddrIn) (ts : Timeval) {r : AddResult} {b' : Block}
    → next_fragment b g host ts ≡ some (r, b')
    → IsSound b'
unfolding next_fragment
next_fragment-IsSound {b} sound g host ts h = record {
  size = ground (arith, sound.room g.fragmentid);
  room = λ i hi got. ground (arith, sound.room i, sound.room g.fragmentid);
  ends = λ i hi got. ground (arith, sound.ends i, sound.room g.fragmentid);
}

-- Every block of the cache.
abbrev pub AllSound : List Block → Type 0
AllSound [] = Unit
AllSound (b ∷ cache) = IsSound b × AllSound cache
