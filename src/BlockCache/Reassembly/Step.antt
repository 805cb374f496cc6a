-- ===== src/BlockCache/Reassembly/Step.antt =====
-- One fragment of a block reaches `addfragment`.
use bora.Prelude.{
  ℕ, ◌+◌, ◌-◌, ◌*◌, ◌<◌, ◌≡◌, refl, ◌||◌, true, false, Bool-cases, inl, inr, some, set, memcpy,
  from, ◌==◌, ltb, if◌then◌else◌, arith,
}
use bora.Net.{SockaddrIn, mtu}
use bora.Net.Time.{Timeval}
use bora.BlockCache.{
  Block, AddResult, f_added, f_duplicate, first_fragment, next_fragment, received,
}
use bora.BlockCache.Outgoing.{fragment_of}
use bora.BlockCache.Reassembly.{IsCut, IsPart, own_fragment, fragment_length}

module _ {s : Block} (cut : IsCut s) (host : SockaddrIn) (ts : Timeval) where
  -- The first fragment to arrive, if it is not the last one of its block, starts a part of it that
  -- has this fragment and no other.
  pub first_fragment-IsPart :
      (fresh : Block) (i : ℕ)
      → i + 1 < s.fs.fn
      → (b : Block) × (first_fragment fresh (own_fragment s i) host ts ≡ some (f_added, some b))
        × IsPart s b
        × ((k : ℕ) → k < s.fs.fn → (b.f k).have ≡ (k == i))
  unfolding first_fragment fragment_of
  first_fragment-IsPart fresh i h = (
    record {
      streamid = s.streamid;
      blockid = s.blockid;
      content = record {
        payload =
            memcpy (λ i. if ltb i (mtu * s.fs.fn) then 0 else fresh.content.payload i) (mtu * i)
              (from s.content.payload (mtu * i)) mtu;
        length = mtu * s.fs.fn;
      };
      alloc = mtu * s.fs.fn;
      f =
          set (λ i. if ltb i s.fs.fn then record (fresh.f i) { have = false } else fresh.f i) i
            (received host ts);
      fs = record { fn = s.fs.fn; lastlen = fresh.fs.lastlen };
    },
    ground arith,
    record {
      streamid = refl;
      blockid = refl;
      count = refl;
      room = refl;
      agree = λ k j hk got hj. ground arith;
      length = λ got. ground arith;
    },
    λ k hk. ground arith,
  )

  -- The block after a fragment that it did not have.
  abbrev extended : Block → ℕ → Block
  extended b i = record b {
    content = record {
      payload =
          memcpy b.content.payload (mtu * i) (from s.content.payload (mtu * i))
            (fragment_length s i);
      length =
          if i + 1 == s.fs.fn then (b.fs.fn - 1) * mtu + fragment_length s i else b.content.length;
    };
    f = set b.f i (received host ts);
    fs = record {
      fn = b.fs.fn;
      lastlen = if i + 1 == s.fs.fn then fragment_length s i else b.fs.lastlen;
    };
  }

  extended-IsPart : {b : Block} (i : ℕ) → i < s.fs.fn → IsPart s b → IsPart s (extended b i)
  extended-IsPart {b} i h part = record {
    streamid = part.streamid;
    blockid = part.blockid;
    count = part.count;
    room = part.room;
    agree = λ k j hk got hj. ground (arith, part.agree k j hk);
    length = λ got. ground (arith, part.length);
  }

  next_fragment-new :
      {b : Block} (i : ℕ)
      → i < s.fs.fn
      → IsPart s b
      → (b.f i).have ≡ false
      → next_fragment b (own_fragment s i) host ts ≡ some (f_added, extended b i)
  unfolding next_fragment fragment_of
  next_fragment-new {b} i h part new = ground arith

  next_fragment-old :
      {b : Block} (i : ℕ)
      → i < s.fs.fn
      → IsPart s b
      → (b.f i).have ≡ true
      → next_fragment b (own_fragment s i) host ts ≡ some (f_duplicate, b)
  unfolding next_fragment fragment_of
  next_fragment-old {b} i h part old = ground arith

  -- A further fragment keeps a part of the block a part of it, which has this fragment besides
  -- those that it had. One that is there already changes nothing.
  pub next_fragment-IsPart :
      {b : Block} (i : ℕ)
      → i < s.fs.fn
      → IsPart s b
      → (r : AddResult) × (b' : Block) × (next_fragment b (own_fragment s i) host ts ≡ some (r, b'))
        × IsPart s b'
        × ((k : ℕ) → k < s.fs.fn → (b'.f k).have ≡ (b.f k).have || k == i)
        × ((b.f i).have ≡ true → r ≡ f_duplicate)
  next_fragment-IsPart {b} i h part = elim (Bool-cases (b.f i).have) [
    | inl old ↦
        (f_duplicate, b, next_fragment-old i h part old, part, λ k hk. ground arith, λ e. refl)
    | inr new ↦ (
      f_added,
      extended b i,
      next_fragment-new i h part new,
      extended-IsPart i h part,
      λ k hk. ground arith,
      λ old. ground arith,
    )
  ]
