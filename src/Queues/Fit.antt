-- ===== src/Queues/Fit.antt =====
-- Every datagram has room for what the sending thread puts behind it.
use bora.Prelude.{ℕ, ◌+◌, ◌≤◌, arith}
use bora.Net.{SendData, mtu}
use bora.Codec.{header_size}
use bora.Queues.{Ring, Queues, lane, push, send_data}

-- It is no longer than a fragment of MTU bytes.
abbrev pub Fits : SendData → Type 0
Fits d = d.length ≤ header_size + mtu

-- What goes to the socket: at most a fragment of MTU bytes, a number and a port.
abbrev pub Short : SendData → Type 0
Short d = d.length ≤ header_size + mtu + 4

-- Every place of the ring, whether it is in use or not: the arrays of the source start as zeros.
abbrev pub RingFits : Ring → Type 0
RingFits r = (i : ℕ) → Fits (r.buf i)

pub record QueuesFit (q : Queues) : Type 0 where
  pub prio : RingFits q.prio
  pub retr : RingFits q.retr
  pub send : RingFits q.send

pub send_data-QueuesFit :
    (d : SendData) (q : Queues) → Fits d → QueuesFit q → QueuesFit (send_data d q)
unfolding send_data push lane
send_data-QueuesFit d q h f = record {
  prio = λ i. ground (arith, f.prio i);
  retr = λ i. ground (arith, f.retr i);
  send = λ i. ground (arith, f.send i);
}
