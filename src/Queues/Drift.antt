-- ===== src/Queues/Drift.antt =====
-- The semaphores of the queues, where cookies have passed them.
use bora.Prelude.{ℕ, ◌+◌, ◌*◌, ◌≡◌, arith}
use bora.Net.{SendData}
use bora.Queues.{Queues, capacity, lane, push, send_data}
use bora.Queues.Fifo.{IsValid}
use bora.Queues.Routing.{IsBalanced, queued}

-- Each queue is valid; `sFull` is `n` less than the number of waiting datagrams, and `qEmpty` is `n`
-- more than that of free places.
pub record IsOffBy (n : ℕ) (q : Queues) : Type 0 where
  pub prio : IsValid q.prio
  pub retr : IsValid q.retr
  pub send : IsValid q.send
  pub full : q.s_full + n ≡ queued q
  pub empty : q.q_empty + queued q ≡ capacity * 3 + n

pub send_data-IsOffBy :
    {n : ℕ} (d : SendData) {q : Queues} → IsOffBy n q → IsOffBy n (send_data d q)
unfolding send_data push lane
send_data-IsOffBy d b = ground arith

pub IsBalanced-IsOffBy : {q : Queues} → IsBalanced q → IsOffBy 0 q
IsBalanced-IsOffBy b = omega (arith, b.full, b.empty)
