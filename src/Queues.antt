-- ===== src/Queues.antt =====
-- packet_sender.c, the three queues of datagrams that wait to be sent, and `send_data`, which puts
-- a datagram on one of them.
pub mod Fifo
pub mod Routing
pub mod Drift
pub mod Fit
use bora.Prelude.{
  ℕ, ◌+◌, ◌-◌, ◌*◌, ◌%◌, Option, none, some, Array, set, has, ltb, ◌==◌, ◌||◌, if◌then◌else◌,
}
use bora.Net.{SendData}
use bora.Net.Messages.{blk_ack, bw_msg, block_retransmission}

-- N_SEND, N_RETR and N_PRIO.
abbrev pub capacity : ℕ
capacity = 2000

-- A queue in an array: `c_...` is the index of the next write, `f_...` the number of datagrams.
pub record Ring : Type 0 where
  pub buf : Array SendData
  pub c : ℕ
  pub f : ℕ

-- The index that the next read takes, (N + c - f) % N.
abbrev pub head : Ring → ℕ
head r = (capacity + r.c - r.f) % capacity

-- The write that each branch of `send_data` makes if there is room.
unfoldable pub push : SendData → Ring → Option Ring
push d r =
    if ltb r.f capacity
    then some (record { buf = set r.buf r.c d; c = (r.c + 1) % capacity; f = r.f + 1 })
    else none

-- The read that `packet_send` makes; `none` where it would take `f_...` below zero.
unfoldable pub pop : Ring → Option (SendData × Ring)
pop r = if r.f == 0 then none else some (r.buf (head r), record r { f = r.f - 1 })

-- The queues with the two semaphores that count their datagrams and their free places.
pub record Queues : Type 0 where
  pub prio : Ring
  pub retr : Ring
  pub send : Ring
  pub s_full : ℕ
  pub q_empty : ℕ

pub data Lane : Type 0 where
  prio_lane retr_lane send_lane : Lane

-- The queue that `send_data` chooses by the flags of a datagram.
unfoldable pub lane : SendData → Lane
lane d =
    if has (d.contents 0) blk_ack || has (d.contents 0) bw_msg
    then prio_lane
    else if has (d.contents 0) block_retransmission
    then retr_lane
    else send_lane

abbrev pub ring : Lane → Queues → Ring
ring prio_lane q = q.prio
ring retr_lane q = q.retr
ring send_lane q = q.send

abbrev pub set_ring : Lane → Ring → Queues → Queues
set_ring prio_lane r q = record q { prio = r }
set_ring retr_lane r q = record q { retr = r }
set_ring send_lane r q = record q { send = r }

-- What `send_data` does once it has taken a place from `qEmpty`: it gives the place back if the
-- queue is full.
unfoldable pub enqueue : Queues → Lane → Option Ring → Queues
enqueue q l none = record q { q_empty = q.q_empty + 1 }
enqueue q l (some r) = let q' = set_ring l r q in record q' { s_full = q'.s_full + 1 }

unfoldable pub send_on : Lane → SendData → Queues → Queues
unfolding enqueue
send_on l d q =
    if q.q_empty == 0
    then q
    else let taken = record q { q_empty = q.q_empty - 1 } in enqueue taken l (push d (ring l taken))

unfoldable pub send_data : SendData → Queues → Queues
unfolding send_on
send_data d q = send_on (lane d) d q

-- `init_sender`, with what the buffers hold before the first write.
unfoldable pub init_queues : Array SendData → Queues
init_queues memory =
    let empty : Ring = record { buf = memory; c = 0; f = 0 } in
    record { prio = empty; retr = empty; send = empty; s_full = 0; q_empty = capacity * 3 }
