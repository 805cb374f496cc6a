-- ===== src/Queues/Routing.antt =====
-- `send_data` against its specification: the choice of the queue, and the two semaphores.
use bora.Prelude.{
  ℕ, ◌+◌, ◌-◌, ◌*◌, ◌<◌, ◌≡◌, ◌≢◌, refl, ap, ◌∙◌, ◌⊎◌, inl, inr, none, some, Array, [], ◌∷◌, ◌++◌,
  length, arith,
}
use bora.Net.{SendData}
use bora.Queues.{
  Ring, Queues, capacity, Lane, prio_lane, retr_lane, send_lane, lane, ring, set_ring, push,
  send_on, send_data, init_queues,
}
use bora.Queues.Fifo.{IsValid, items, length-items, push_refines, enqueue_items-some}

-- The datagrams that wait in the three queues together.
abbrev pub queued : Queues → ℕ
queued q = q.prio.f + q.retr.f + q.send.f

-- Each queue is valid, `sFull` counts the waiting datagrams and `qEmpty` the free places.
pub record IsBalanced (q : Queues) : Type 0 where
  pub prio : IsValid q.prio
  pub retr : IsValid q.retr
  pub send : IsValid q.send
  pub full : q.s_full ≡ queued q
  pub empty : q.q_empty + queued q ≡ capacity * 3

pub ring-IsValid : (l : Lane) {q : Queues} → IsBalanced q → IsValid (ring l q)
ring-IsValid prio_lane b = b.prio
ring-IsValid retr_lane b = b.retr
ring-IsValid send_lane b = b.send

-- `init_sender` starts with empty queues and balanced semaphores.
pub init_queues-IsBalanced : (memory : Array SendData) → IsBalanced (init_queues memory)
unfolding init_queues
init_queues-IsBalanced memory = omega arith

-- The effect of a datagram on the queues: it is dropped, and nothing changes, if its queue holds
-- `capacity` datagrams; else it stands last in its queue, and the other queues are as before.
abbrev pub Sent : SendData → Queues → Queues → Type 0
Sent d q q' =
    ((length (items (ring (lane d) q)) ≡ capacity) × (q' ≡ q))
    ⊎ ((length (items (ring (lane d) q)) < capacity)
        × (items (ring (lane d) q') ≡ items (ring (lane d) q) ++ (d ∷ []))
        × ((l : Lane) → l ≢ lane d → ring l q' ≡ ring l q))

-- The queues after a datagram has been put on one of them.
abbrev placed : Lane → Ring → Queues → Queues
placed l r q =
    let q' = set_ring l r q in record q' { s_full = q.s_full + 1; q_empty = q.q_empty - 1 }

ring-placed : (l : Lane) (r : Ring) (q : Queues) → ring l (placed l r q) ≡ r
ring-placed prio_lane r q = refl
ring-placed retr_lane r q = refl
ring-placed send_lane r q = refl

ring-placed_ne : (l m : Lane) (r : Ring) (q : Queues) → m ≢ l → ring m (placed l r q) ≡ ring m q
ring-placed_ne prio_lane m r q h = ground arith
ring-placed_ne retr_lane m r q h = ground arith
ring-placed_ne send_lane m r q h = ground arith

send_on-full :
    (l : Lane) (d : SendData) {q : Queues}
    → IsBalanced q
    → push d (ring l q) ≡ none
    → send_on l d q ≡ q
unfolding send_on
send_on-full prio_lane d b h = ground arith
send_on-full retr_lane d b h = ground arith
send_on-full send_lane d b h = ground arith

send_on-room :
    (l : Lane) (d : SendData) {q : Queues} {r : Ring}
    → IsBalanced q
    → push d (ring l q) ≡ some r
    → send_on l d q ≡ placed l r q
unfolding send_on push
send_on-room prio_lane d b h = ground arith
send_on-room retr_lane d b h = ground arith
send_on-room send_lane d b h = ground arith

push-count :
    (d : SendData) (r : Ring)
    → IsValid r
    → ((push d r ≡ none) → length (items r) ≡ capacity)
      × ((r' : Ring) → push d r ≡ some r' → length (items r) < capacity)
unfolding push
push-count d r v = rw (length-items r) (λ h. ground arith, λ r' h. ground arith)

-- `send_data` keeps the queues valid and the semaphores balanced, whatever the datagram.
pub send_data-IsBalanced : (d : SendData) {q : Queues} → IsBalanced q → IsBalanced (send_data d q)
unfolding send_data push lane
send_data-IsBalanced d b = ground arith

-- With the semaphores balanced, `send_data` puts the datagram on the queue that its flags choose,
-- behind all that wait there, and drops it only if that queue is full.
pub send_data_lem : (d : SendData) {q : Queues} → IsBalanced q → Sent d q (send_data d q)
unfolding send_data
send_data_lem d {q} b = elim (push_refines d (ring (lane d) q) (ring-IsValid (lane d) b)) [
  | inl (full, spec) ↦ inl (
    (push-count d (ring (lane d) q) (ring-IsValid (lane d) b)).0 full,
    send_on-full (lane d) d b full,
  )
  | inr (r', e, valid, spec) ↦ inr (
    (push-count d (ring (lane d) q) (ring-IsValid (lane d) b)).1 r' e,
    ap items (ap (ring (lane d)) (send_on-room (lane d) d b e) ∙ ring-placed (lane d) r' q)
        ∙ enqueue_items-some d (items (ring (lane d) q)) spec,
    λ l h. rw (send_on-room (lane d) d b e) (ring-placed_ne (lane d) l r' q h),
  )
]
