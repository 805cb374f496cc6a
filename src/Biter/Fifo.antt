-- ===== src/Biter/Fifo.antt =====
-- The ring between the receiving thread and the Python side is a queue of at most `slots` entries.
use bora.Prelude.{
  ℕ, zero, suc, ◌+◌, ◌-◌, ◌%◌, ◌<◌, ◌≡◌, ◌≢◌, refl, ap, ap₂, ◌∙◌, ◌⊎◌, inl, inr, Bool-cases, ==→eq,
  Option, none, some, Array, set, List, [], ◌∷◌, ◌++◌, ◌==◌, ◌&&◌, if◌then◌else◌, arith,
}
use bora.Prelude.Int.{ℤ, eqb_ℤ}
use bora.Biter.{IncomingData, Biter, slots, init_biter, block_completed, biter_next, minus_one}

-- What the Python side is told: two numbers, with a message where both are -1.
abbrev pub Entry : Type 0
Entry = ℤ × ℤ × Option IncomingData

abbrev pub entry : ℤ → ℤ → IncomingData → Entry
entry s i d = (s, i, if eqb_ℤ s minus_one && eqb_ℤ i minus_one then some d else none)

abbrev entry_at : Biter → ℕ → Entry
entry_at b i = entry (b.b_biter_s i) (b.b_biter_b i) (b.b_biter_d i)

-- The entries from a place on, going round at `slots`.
abbrev window : Array Entry → ℕ → ℕ → List Entry
window a i zero = []
window a i (suc n) = a i ∷ window a ((i + 1) % slots) n

-- The entries that wait, oldest first.
abbrev pub waiting : Biter → List Entry
waiting b = window (entry_at b) b.read_c b.s_biter_full

-- The semaphores count the entries and the free places, and the two places are that far apart.
pub record IsBalanced (b : Biter) : Type 0 where
  pub count : b.s_biter_full + b.s_biter_empty ≡ slots
  read_in : b.read_c < slots
  write_at : b.write_c ≡ (b.read_c + b.s_biter_full) % slots

pub waiting-empty : (b : Biter) → b.s_biter_full ≡ 0 → waiting b ≡ []
waiting-empty b h = ap (window (entry_at b) b.read_c) h

-- `init_biter` on the zeroed statics.
pub init_biter-IsBalanced :
    (b : Biter)
    → b.write_c ≡ 0
    → b.read_c ≡ 0
    → IsBalanced (init_biter b) × (waiting (init_biter b) ≡ [])
unfolding init_biter
init_biter-IsBalanced b hw hr = (omega arith, refl)

window-append :
    (a a' : Array Entry) (i j n : ℕ)
    → i < slots
    → n < slots
    → j ≡ (i + n) % slots
    → ((k : ℕ) → k < slots → k ≢ j → a' k ≡ a k)
    → window a' i (suc n) ≡ window a i n ++ (a' j ∷ [])
window-append a a' i j zero hi hn e h = ap (λ k. a' k ∷ []) (omega arith)
window-append a a' i j (suc n) hi hn e h =
    ap₂ ◌∷◌ (h i hi (omega arith))
      (window-append a a' ((i + 1) % slots) j n (omega arith) (omega arith) (omega arith) h)

window_suc :
    (a : Array Entry) (i n : ℕ) → n ≢ 0 → window a i n ≡ a i ∷ window a ((i + 1) % slots) (n - 1)
window_suc a i zero h = ground arith
window_suc a i (suc n) h = ap (λ k. window a i (suc k)) (omega arith)

-- The entry written in the next place.
abbrev told : ℤ → ℤ → Option IncomingData → Biter → Biter
told s i incoming b = record b {
  s_biter_empty = b.s_biter_empty - 1;
  b_biter_s = set b.b_biter_s b.write_c s;
  b_biter_b = set b.b_biter_b b.write_c i;
  b_biter_d = elim incoming [ none ↦ b.b_biter_d | some d ↦ set b.b_biter_d b.write_c d ];
  s_biter_full = b.s_biter_full + 1;
  write_c = (b.write_c + 1) % slots;
}

told-others :
    (s i : ℤ) (incoming : Option IncomingData) (b : Biter) (k : ℕ)
    → k < slots
    → k ≢ b.write_c
    → entry_at (told s i incoming b) k ≡ entry_at b k
told-others s i none b k hk h = ground arith
told-others s i (some d) b k hk h = ground arith

told-here :
    (s i : ℤ) (incoming : Option IncomingData) (b : Biter)
    → entry_at (told s i incoming b) b.write_c
      ≡ entry s i (elim incoming [ none ↦ b.b_biter_d b.write_c | some d ↦ d ])
told-here s i none b = ground arith
told-here s i (some d) b = ground arith

-- Without a free place the caller waits; with one, what it tells is put behind all that waits.
pub block_completed_refines :
    (s i : ℤ) (incoming : Option IncomingData) (b : Biter)
    → IsBalanced b
    → ((b.s_biter_empty ≡ 0) × (block_completed s i incoming b ≡ none))
      ⊎ ((b' : Biter) × (block_completed s i incoming b ≡ some b')
          × IsBalanced b'
          × (waiting b'
              ≡ waiting b
                ++ (entry s i (elim incoming [ none ↦ b.b_biter_d b.write_c | some d ↦ d ]) ∷ [])))
unfolding block_completed
block_completed_refines s i incoming b v = elim (Bool-cases (b.s_biter_empty == 0)) [
  | inl full ↦ inl (ground arith, ground arith)
  | inr room ↦
      let b' = told s i incoming b in
      let count : b.s_biter_full + 1 ≡ suc b.s_biter_full = omega arith in
      inr (
        b',
        rw (room, block_completed) refl,
        ground arith,
        ap (window (entry_at b') b.read_c) count
            ∙ window-append (entry_at b) (entry_at b') b.read_c b.write_c b.s_biter_full v.read_in
                (ground arith) v.write_at (told-others s i incoming b)
            ∙ ap (λ e. waiting b ++ (e ∷ [])) (told-here s i incoming b),
      )
]

-- The reader takes the oldest entry out, or waits if there is none.
pub biter_next_refines :
    (b : Biter)
    → IsBalanced b
    → ((waiting b ≡ []) × (biter_next b ≡ none))
      ⊎ ((e : Entry) × (b' : Biter) × (biter_next b ≡ some (e, b'))
          × IsBalanced b'
          × (waiting b ≡ e ∷ waiting b'))
unfolding biter_next
biter_next_refines b v = elim (Bool-cases (b.s_biter_full == 0)) [
  | inl empty ↦ inl (
    ap (window (entry_at b) b.read_c) (==→eq b.s_biter_full 0 empty),
    rw (empty, biter_next) refl,
  )
  | inr left ↦ inr (
    entry_at b b.read_c,
    record b {
      s_biter_full = b.s_biter_full - 1;
      s_biter_empty = b.s_biter_empty + 1;
      read_c = (b.read_c + 1) % slots;
    },
    rw (left, biter_next) refl,
    ground arith,
    window_suc (entry_at b) b.read_c b.s_biter_full (ground arith),
  )
]

pub block_completed-IsBalanced :
    (s i : ℤ) (incoming : Option IncomingData) (b : Biter) {b' : Biter}
    → IsBalanced b
    → block_completed s i incoming b ≡ some b'
    → IsBalanced b'
unfolding block_completed
block_completed-IsBalanced s i incoming b balanced e = ground arith

pub biter_next-IsBalanced :
    (b : Biter) {b' : Biter} {entry : Entry}
    → IsBalanced b
    → biter_next b ≡ some (entry, b')
    → IsBalanced b'
unfolding biter_next
biter_next-IsBalanced b balanced e = ground arith
