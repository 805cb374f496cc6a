-- ===== src/BlockCache/Cutting.antt =====
-- `calcfragments`: a block is cut into full fragments and one last fragment.
use bora.Prelude.{ℕ, ◌+◌, ◌-◌, ◌*◌, ◌<◌, ◌≤◌, ◌≡◌, arith}
use bora.Net.{mtu}
use bora.BlockCache.{calcfragments}

-- The longest block whose fragments a 16-bit count holds.
abbrev pub max_block : ℕ
max_block = 0xffff * mtu

-- A block of 1 to `max_block` bytes is cut into at least one fragment; the last one has between 1
-- and MTU bytes; full fragments in front of it make up the length; and the number of fragments
-- fits its 16 bits.
pub calcfragments_lem :
    (length : ℕ)
    → 0 < length
    → length ≤ max_block
    → let fs = calcfragments length in
      (0 < fs.fn)
      × (fs.fn < 0x1_0000)
      × (0 < fs.lastlen)
      × (fs.lastlen ≤ mtu)
      × ((fs.fn - 1) * mtu + fs.lastlen ≡ length)
unfolding calcfragments
calcfragments_lem length h k = ground arith

-- Beyond `max_block` the count wraps: the fragments of such a block, of less than 2 ^ 31 bytes, do
-- not make up its length.
pub calcfragments_overflow :
    (length : ℕ)
    → max_block < length
    → length < 0x8000_0000
    → let fs = calcfragments length in fs.fn * mtu < length
unfolding calcfragments
calcfragments_overflow length h k = ground arith
