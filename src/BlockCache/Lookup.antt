-- ===== src/BlockCache/Lookup.antt =====
-- Finding a block, and writing through the pointer that was found.
use bora.Prelude.{
  ℕ, ◌≡◌, Bool-cases, inl, inr, false, some, List, [], ◌∷◌, ◌==◌, ◌&&◌, arith, if◌then◌else◌,
}
use bora.BlockCache.{Block, is_block, findblock, store_block}

-- A block that is found has the identifier that was asked for.
pub findblock-some :
    (sid bid : ℕ) (cache : List Block) {b : Block}
    → findblock sid bid cache ≡ some b
    → (b.streamid ≡ sid) × (b.blockid ≡ bid)
unfolding findblock
findblock-some sid bid [] h = ground arith
findblock-some sid bid (c ∷ cache) {b} h = ground (arith, findblock-some sid bid cache {b = b})

pub findblock-cons :
    (sid bid : ℕ) (b : Block) (cache : List Block)
    → b.streamid ≡ sid
    → b.blockid ≡ bid
    → findblock sid bid (b ∷ cache) ≡ some b
unfolding findblock
findblock-cons sid bid b cache hs hb = ground arith

pub findblock-cons_ne :
    (sid bid : ℕ) (b : Block) (cache : List Block)
    → (b.streamid == sid && b.blockid == bid) ≡ false
    → findblock sid bid (b ∷ cache) ≡ findblock sid bid cache
unfolding findblock
findblock-cons_ne sid bid b cache ne = rw ne

-- A lookup after a write that keeps the identifier.
pub findblock-store_block :
    (sid bid : ℕ) (new : Block) (cache : List Block) {old : Block}
    → findblock sid bid cache ≡ some old
    → new.streamid ≡ sid
    → new.blockid ≡ bid
    → (s b : ℕ)
    → findblock s b (store_block sid bid new cache)
      ≡ (if sid == s && bid == b then some new else findblock s b cache)
unfolding findblock store_block
findblock-store_block sid bid new [] h hs hb s b = ground arith
findblock-store_block sid bid new (c ∷ cache) {old} h hs hb s b =
    elim (Bool-cases (is_block sid bid c)) [
      | inl here ↦ rw here (ground arith)
      | inr there ↦ rw there (
          ground
            (arith, findblock-store_block sid bid new cache {old = old} (rw there at h) hs hb s b))
    ]
