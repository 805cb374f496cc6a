-- ===== src/Receiver/Buffers/Order.antt =====
-- Datagrams are processed in the order of their arrival, and none is overwritten before.
use mathlib.Core.List.{append_assoc}
use bora.Prelude.{
  ℕ, suc, ◌+◌, ◌%◌, ◌<◌, ◌≡◌, refl, sym, ap, ap₂, ◌∙◌, Bool, true, false, Array, List, [], ◌∷◌,
  ◌++◌, ◌⊎◌, tabulate, tabulate-ext, tabulate_snoc, if◌then◌else◌, arith,
}
use bora.Biter.{IncomingData}
use bora.Receiver.Buffers.{
  Buffers, buf_n, next, init_buffers, claim, fill, take, release, current, Reached, start, claims,
  fills, takes, releases,
}

abbrev pub one : Bool → ℕ
one b = if b then 1 else 0

-- The datagrams that have arrived and are not yet processed, in order.
abbrev pub pending : Buffers → List IncomingData
pending b = tabulate (λ k. b.buffer ((b.read_c + k) % buf_n)) (b.b_full + one b.working)

-- Each buffer is free, being filled, full or worked on.
record IsBalanced (b : Buffers) : Type 0 where
  count : b.b_empty + b.b_full + one b.filling + one b.working ≡ buf_n
  read_in : b.read_c < buf_n
  write_at : b.write_c ≡ (b.read_c + b.b_full + one b.working) % buf_n

Reached-IsBalanced :
    {memory : Array IncomingData} {arrived processed : List IncomingData} {b : Buffers}
    → Reached memory arrived processed b
    → IsBalanced b
unfolding init_buffers claim fill take release
Reached-IsBalanced start = ground arith
Reached-IsBalanced (claims r h e) = let v = Reached-IsBalanced r in ground arith
Reached-IsBalanced (fills d r e) = let v = Reached-IsBalanced r in ground arith
Reached-IsBalanced (takes r h e) = let v = Reached-IsBalanced r in ground arith
Reached-IsBalanced (releases r e) = let v = Reached-IsBalanced r in ground arith

pending-fill :
    (d : IncomingData) (b : Buffers)
    → IsBalanced b
    → b.filling ≡ true
    → pending (fill d b) ≡ pending b ++ (d ∷ [])
unfolding fill
pending-fill d b v e =
    let n = b.b_full + one b.working in
    let before : Array IncomingData = λ k. b.buffer ((b.read_c + k) % buf_n) in
    let after : Array IncomingData = λ k. (fill d b).buffer ((b.read_c + k) % buf_n) in
    let count : b.b_full + 1 + one b.working ≡ suc n = omega arith in
    let same : tabulate after n ≡ tabulate before n =
      tabulate-ext after before n (λ k hk. ground arith) in
    let last : after n ≡ d = ground arith in
    ap (tabulate after) count
    ∙ tabulate_snoc after n
    ∙ ap (λ xs. xs ++ (after n ∷ [])) same
    ∙ ap (λ x. tabulate before n ++ (x ∷ [])) last

pending-release :
    (b : Buffers) → IsBalanced b → b.working ≡ true → pending b ≡ current b ∷ pending (release b)
unfolding release current
pending-release b v e =
    let n = b.b_full + one false in
    let before : Array IncomingData = λ k. b.buffer ((b.read_c + k) % buf_n) in
    let after : Array IncomingData = λ k. b.buffer ((next b.read_c + k) % buf_n) in
    let count : b.b_full + one b.working ≡ suc n = ground arith in
    ap (tabulate before) count
    ∙ ap₂ ◌∷◌ (ap b.buffer (omega arith))
        (tabulate-ext (λ k. before (suc k)) after n (λ k hk. ap b.buffer (omega arith)))

-- In any interleaving of the two threads, the datagrams that have been processed are the first of
-- those that have arrived, in order and each once, and the others are in the buffers.
pub received_in_order :
    {memory : Array IncomingData} {arrived processed : List IncomingData} {b : Buffers}
    → Reached memory arrived processed b
    → arrived ≡ processed ++ pending b
unfolding init_buffers claim take
received_in_order start = refl
received_in_order (claims r h e) = received_in_order r
received_in_order {processed = processed} (fills {arrived = before} {b = b} d r e) =
    ap (λ xs. xs ++ (d ∷ [])) (received_in_order r)
    ∙ append_assoc processed (pending b) (d ∷ [])
    ∙ ap (λ xs. processed ++ xs) (sym (pending-fill d b (Reached-IsBalanced r) e))
received_in_order {processed = processed} (takes {b = b} r h e) =
    received_in_order r
    ∙ ap (λ n. processed ++ tabulate (λ k. b.buffer ((b.read_c + k) % buf_n)) n) (ground arith)
received_in_order (releases {processed = before} {b = b} r e) =
    received_in_order r
    ∙ ap (λ xs. before ++ xs) (pending-release b (Reached-IsBalanced r) e)
    ∙ sym (append_assoc before (current b ∷ []) (pending (release b)))

-- A datagram that arrives does not touch the buffer that is being worked on.
pub current-fill :
    {memory : Array IncomingData} {arrived processed : List IncomingData} {b : Buffers}
    (d : IncomingData)
    → Reached memory arrived processed b
    → b.filling ≡ true
    → b.working ≡ true
    → current (fill d b) ≡ current b
unfolding current fill
current-fill d r e w = let v = Reached-IsBalanced r in ground arith

-- Whatever the two threads have done, one of them can go on.
never_stuck :
    {memory : Array IncomingData} {arrived processed : List IncomingData} {b : Buffers}
    → Reached memory arrived processed b
    → ((b.filling ≡ true) ⊎ ((b.filling ≡ false) × (0 < b.b_empty)))
      ⊎ ((b.working ≡ true) ⊎ ((b.working ≡ false) × (0 < b.b_full)))
never_stuck {b = b} r = let v = Reached-IsBalanced r in ground arith
