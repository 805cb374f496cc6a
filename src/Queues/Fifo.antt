-- ===== src/Queues/Fifo.antt =====
-- A ring of `packet_sender.c` is a queue of at most `capacity` datagrams, oldest first.
use bora.Prelude.{
  ℕ, zero, suc, ◌+◌, ◌-◌, ◌%◌, ◌<◌, ◌≤◌, ◌≡◌, ◌≢◌, refl, ap, ap₂, ◌∙◌, Option, none, some, Array,
  set, List, [], ◌∷◌, ◌++◌, length, ltb, if◌then◌else◌, arith, Bool-cases, ◌⊎◌, inl, inr, ◌==◌,
  ==→eq,
}
use bora.Net.{SendData}
use bora.Queues.{Ring, capacity, head, push, pop}

pub record IsValid (r : Ring) : Type 0 where
  pub write_in : r.c < capacity
  pub count_in : r.f ≤ capacity

-- The `n` datagrams from index `i` on, going round at `capacity`.
abbrev pub window : Array SendData → ℕ → ℕ → List SendData
window buf i zero = []
window buf i (suc n) = buf i ∷ window buf ((i + 1) % capacity) n

-- The datagrams in the ring, oldest first.
abbrev pub items : Ring → List SendData
items r = window r.buf (head r) r.f

length-window : (buf : Array SendData) (i n : ℕ) → length (window buf i n) ≡ n
length-window buf i zero = refl
length-window buf i (suc n) = ap suc (length-window buf ((i + 1) % capacity) n)

pub length-items : (r : Ring) → length (items r) ≡ r.f
length-items r = length-window r.buf (head r) r.f

-- A write just past a window extends it.
window-set :
    (buf : Array SendData) (d : SendData) (i j n : ℕ)
    → i < capacity
    → n < capacity
    → j ≡ (i + n) % capacity
    → window (set buf j d) i (suc n) ≡ window buf i n ++ (d ∷ [])
window-set buf d i j zero hi hn e = ground arith
window-set buf d i j (suc n) hi hn e =
    ap₂ ◌∷◌ (ground arith)
      (window-set buf d ((i + 1) % capacity) j n (omega arith) (omega arith) (omega arith))

pub window_suc :
    (buf : Array SendData) (i n : ℕ)
    → n ≢ 0
    → window buf i n ≡ buf i ∷ window buf ((i + 1) % capacity) (n - 1)
window_suc buf i zero h = ground arith
window_suc buf i (suc n) h = ap (λ k. window buf i (suc k)) (omega arith)

-- What a bounded queue answers to a write: none if it is full.
pub enqueue_items : SendData → List SendData → Option (List SendData)
enqueue_items d xs = if ltb (length xs) capacity then some (xs ++ (d ∷ [])) else none

pub enqueue_items-some :
    (d : SendData) (xs : List SendData) {ys : List SendData}
    → enqueue_items d xs ≡ some ys
    → ys ≡ xs ++ (d ∷ [])
unfolding enqueue_items
enqueue_items-some d xs h = ground arith

push-head :
    (d : SendData) (r : Ring)
    → IsValid r
    → r.f < capacity
    → window (set r.buf r.c d) ((capacity + (r.c + 1) % capacity - (r.f + 1)) % capacity) (r.f + 1)
      ≡ items r ++ (d ∷ [])
push-head d r v h =
    let at : head r ≡ (capacity + (r.c + 1) % capacity - (r.f + 1)) % capacity = omega arith in
    let count : suc r.f ≡ r.f + 1 = omega arith in
    rw (← at, ← count) (window-set r.buf d (head r) r.c r.f (omega arith) h (omega arith))

-- `push` is the write to a bounded queue: it is refused exactly when the ring holds `capacity`
-- datagrams, and else appends the datagram behind all the others and keeps the ring valid.
pub push_refines :
    (d : SendData) (r : Ring)
    → IsValid r
    → ((push d r ≡ none) × (enqueue_items d (items r) ≡ none))
      ⊎ ((r' : Ring) × (push d r ≡ some r')
          × IsValid r'
          × (enqueue_items d (items r) ≡ some (items r')))
unfolding push enqueue_items
push_refines d r v = elim (Bool-cases (ltb r.f capacity)) [
  | inl room ↦ inr (
    record { buf = set r.buf r.c d; c = (r.c + 1) % capacity; f = r.f + 1 },
    rw room,
    ground arith,
    rw (length-items r, room, push-head d r v (ground arith)),
  )
  | inr full ↦ inl (rw full, rw (length-items r, full))
]

-- What a queue answers to a read: its first element and the rest.
dequeue_items : List SendData → Option (SendData × List SendData)
dequeue_items [] = none
dequeue_items (d ∷ xs) = some (d, xs)

pop-window :
    (r : Ring)
    → IsValid r
    → r.f ≢ 0
    → dequeue_items (items r) ≡ some (r.buf (head r), items (record r { f = r.f - 1 }))
unfolding dequeue_items
pop-window r v h =
    ap dequeue_items (window_suc r.buf (head r) r.f h)
    ∙ ap (λ i. some (r.buf (head r), window r.buf i (r.f - 1))) (omega arith)

-- `pop` is the read from a queue: it takes the oldest datagram, leaves the others in order and
-- keeps the ring valid; there is none to take exactly when the queue is empty.
pop_refines :
    (r : Ring)
    → IsValid r
    → ((pop r ≡ none) × (dequeue_items (items r) ≡ none))
      ⊎ ((d : SendData) × (r' : Ring) × (pop r ≡ some (d, r'))
          × IsValid r'
          × (dequeue_items (items r) ≡ some (d, items r')))
unfolding pop dequeue_items
pop_refines r v = elim (Bool-cases (r.f == 0)) [
  | inl empty ↦
      inl (rw empty, ap (λ n. dequeue_items (window r.buf (head r) n)) (==→eq r.f 0 empty))
  | inr some_left ↦ inr (
    r.buf (head r),
    record r { f = r.f - 1 },
    rw some_left,
    omega arith,
    pop-window r v (ground arith),
  )
]
