-- ===== src/BlockCache/Handing.antt =====
-- What `sendblock` hands on of a complete block.
use bora.Prelude.{
  ℕ, zero, suc, ◌+◌, ◌<◌, ◌≤◌, ◌≡◌, sym, subst, ◌∙◌, true, Bool-cases, Option-cases, inl, inr, List,
  ◌==◌, ==→eq, arith,
}
use bora.Net.{SockaddrIn, SendData}
use bora.Codec.{encode_fragment}
use bora.Queues.{Queues, send_data}
use bora.Queues.Fit.{Fits}
use bora.BlockCache.{Block, findblock, have_below, block_complete, iscomplete}
use bora.BlockCache.Bounds.{IsSound, AllSound}
use bora.BlockCache.Invariant.{findblock-IsSound}
use bora.BlockCache.Outgoing.{fragment_of, datagram_of, send_fragments, sendblock}

have_below-last : (b : Block) (i : ℕ) → have_below b.f (suc i) ≡ true → (b.f i).have ≡ true
unfolding have_below
have_below-last b i h = ground arith

-- The fragments of a sound block that is complete have no more than MTU bytes.
fragment_Fits :
    (stack : SendData) (to : SockaddrIn) (streamid blockid : ℕ) (b : Block) (i : ℕ)
    → IsSound b
    → have_below b.f b.fs.fn ≡ true
    → i < b.fs.fn
    → Fits (datagram_of stack to (fragment_of streamid blockid b i))
unfolding datagram_of encode_fragment fragment_of
fragment_Fits stack to streamid blockid b i sound whole h = elim (Bool-cases (i + 1 == b.fs.fn)) [
  | inl last ↦
      let at : i + 1 ≡ b.fs.fn = ==→eq (i + 1) b.fs.fn last in
      let there =
        have_below-last b i (subst (λ n. have_below b.f n ≡ true) (sym at ∙ omega arith) whole) in
      let bound = sound.ends i at there in rw last (omega arith)
  | inr inner ↦ rw inner (omega arith)
]

module _ (P : Queues → Type 0)
    (keeps : (d : SendData) (q : Queues) → Fits d → P q → P (send_data d q)) where
  send_fragments_keeps :
      (stack : SendData) (to : SockaddrIn) (streamid blockid : ℕ) (b : Block) (n i : ℕ) (q : Queues)
      → IsSound b
      → have_below b.f b.fs.fn ≡ true
      → i + n ≤ b.fs.fn
      → P q
      → P (send_fragments stack to streamid blockid b n i q)
  unfolding send_fragments
  send_fragments_keeps stack to streamid blockid b zero i q sound whole h p = p
  send_fragments_keeps stack to streamid blockid b (suc n) i q sound whole h p =
      send_fragments_keeps stack to streamid blockid b n (i + 1) _ sound whole (omega arith)
        (keeps _ q (fragment_Fits stack to streamid blockid b i sound whole (omega arith)) p)

  pub sendblock_keeps :
      (stack : SendData) (streamid blockid : ℕ) (to : SockaddrIn) (cache : List Block) (q : Queues)
      → AllSound cache
      → iscomplete streamid blockid cache ≡ true
      → P q
      → P (sendblock stack streamid blockid to cache q).1
  unfolding sendblock iscomplete block_complete
  sendblock_keeps stack streamid blockid to cache q all whole p =
      elim (Option-cases (findblock streamid blockid cache)) [
        | inl absent ↦ rw (absent, sendblock) p
        | inr (b, found) ↦
            rw (found, sendblock)
              (send_fragments_keeps stack to streamid blockid b b.fs.fn 0 q
                (findblock-IsSound streamid blockid cache all found)
                (rw (found, iscomplete) at whole) (omega arith) p)
      ]
