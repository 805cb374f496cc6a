-- ===== src/BlockCache/Reassembly.antt =====
-- A block that is cut by `sendblock` and put together again by `addfragment`.
pub mod Step
pub mod Delivery
pub mod Whole
use bora.Prelude.{ℕ, ◌+◌, ◌-◌, ◌*◌, ◌<◌, ◌≤◌, ◌≡◌, true, if◌then◌else◌, ◌==◌}
use bora.Net.{mtu}
use bora.Codec.{FragmentData}
use bora.BlockCache.{Block}
use bora.BlockCache.Outgoing.{fragment_of}

-- A block whose fragments make up its content, as `addblock` leaves one of at most `max_block`
-- bytes.
pub record IsCut (s : Block) : Type 0 where
  pub some_fragments : 0 < s.fs.fn
  pub count_fits : s.fs.fn < 0x1_0000
  pub last_nonempty : 0 < s.fs.lastlen
  pub last_fits : s.fs.lastlen ≤ mtu
  pub whole : (s.fs.fn - 1) * mtu + s.fs.lastlen ≡ s.content.length

-- Fragment `i` of a block, under the block's own identifier.
abbrev pub own_fragment : Block → ℕ → FragmentData
own_fragment s i = fragment_of s.streamid s.blockid s i

abbrev pub fragment_length : Block → ℕ → ℕ
fragment_length s i = if i + 1 == s.fs.fn then s.fs.lastlen else mtu

-- `b` is `s` as far as its fragments have been received: each byte of such a fragment is that of
-- `s`, and the length is that of `s` once the last fragment is there.
pub record IsPart (s b : Block) : Type 0 where
  pub streamid : b.streamid ≡ s.streamid
  pub blockid : b.blockid ≡ s.blockid
  pub count : b.fs.fn ≡ s.fs.fn
  pub room : b.alloc ≡ mtu * s.fs.fn
  pub agree :
      (i j : ℕ)
      → i < s.fs.fn
      → (b.f i).have ≡ true
      → j < fragment_length s i
      → b.content.payload (mtu * i + j) ≡ s.content.payload (mtu * i + j)
  pub length : (b.f (s.fs.fn - 1)).have ≡ true → b.content.length ≡ s.content.length
