-- ===== src/Bindings/Lost.antt =====
-- Messages of `send_raw` that never reach the iterator of the other host.
use bora.Prelude.{
  ℕ, ◌+◌, ◌<◌, ◌≡◌, refl, ap, Bool, true, false, Bool-cases, inl, inr, some, List, [], ◌∷◌, length,
  ltb, u64, ◌==◌, arith,
}
use bora.Prelude.Int.{ℤ}
use bora.Net.{SockaddrIn, SendData}
use bora.Net.Time.{Timeval}
use bora.Net.Messages.{block_consecutive}
use bora.Queues.{head}
use bora.Queues.Routing.{IsBalanced}
use bora.Sender.{Sender, Origin, completed, after_send}
use bora.Sender.Round.{Environment, Turn, follows, send_consecutive}
use bora.Sender.Pair.{paired, send_consecutive-follows}
use bora.Biter.{IncomingData}
use bora.Receiver.{
  Memory, Receiver, InStats, done, process, handle, strip_port, count_packet, ◌>>=◌,
}
use bora.Receiver.Port.{arriving}
use bora.Bindings.Messages.{raw_message}
use bora.Bindings.Journey.{unflagged-passes, process-short, completed-message}

-- A datagram whose only flag is BLOCK_CONSECUTIVE changes nothing but the counters.
process-consecutive :
    (retransmission : Bool) (m : Memory) (d : IncomingData) (r : Receiver)
    → d.buf 0 ≡ block_consecutive
    → (st : InStats) × (process retransmission m d r ≡ done (record r { stats_r = st }))
unfolding process handle count_packet strip_port
process-consecutive retransmission m d r h =
    let flags : (d.buf 0 == 0) ≡ false = rw h refl in
    let kept : (strip_port d).buf 0 ≡ block_consecutive = ground arith in
    elim (Bool-cases (ltb 1 d.buflen)) [
      | inl long ↦ (
        (count_packet (strip_port d, r)).stats_r,
        rw (long, flags)
            (ap (λ w. w >>= λ w. done (count_packet w))
              (unflagged-passes retransmission m (strip_port d) r (rw kept refl) (rw kept refl)
                (rw kept refl) (rw kept refl))),
      )
      | inr one ↦ ((count_packet (d, r)).stats_r, rw one refl)
    ]

-- When a message of `send_raw` is the next datagram behind block data for the same host and port, the
-- sending thread, unless it meets `bws_thread` with `bwLock`, sends it as the second of a consecutive
-- pair and marks it: whoever receives it changes nothing but the counters, and does not tell the Python side.
pub message_lost_in_pair :
    (e : Environment) (s : Sender) (last : SockaddrIn) (stack : SendData) (message : List ℕ)
    (s_addr : ℕ) (port_num : ℤ)
    → e.bw_locked ≡ false
    → 0 < s.bandwidth
    → IsBalanced s.queues
    → s.queues.send.buf (head s.queues.send) ≡ raw_message stack message s_addr port_num
    → follows last s.queues ≡ true
    → (out : SendData) × (s' : Sender) × (send_consecutive e (record s { lasthost = some last })
        ≡ Turn.done (out ∷ []) s')
      × ((retransmission : Bool) (m : Memory) (host : SockaddrIn) (tv : Timeval) (r : Receiver)
          → (st : InStats) × (process retransmission m (arriving host tv out) r
              ≡ done (record r { stats_r = st })))
unfolding completed
message_lost_in_pair e s last stack message s_addr port_num free hb balanced first next =
    let after = record s { lasthost = some last } in
    let (n, turn) = send_consecutive-follows e s last free hb balanced next in
    let d = s.queues.send.buf (head s.queues.send) in
    let out = completed e.t_end d (paired n after) in
    let s' = after_send e.t_start e.t_end e.sendto_ok Origin.plain d (paired n after) in
    let plain : d.contents 0 ≡ 0 = ap (λ d. d.contents 0) first in
    let marked : out.contents 0 ≡ block_consecutive = ground arith in
    (
      out,
      record s' { sleeptime = u64 (s.sleeptime + s'.sleeptime) },
      turn,
      λ retransmission m host tv r.
          process-consecutive retransmission m (arriving host tv out) r marked,
    )

-- A message of less than three bytes is sent, but whoever receives it changes nothing but the
-- counters.
short_message_lost :
    (t_end tv : Timeval) (s : Sender) (host : SockaddrIn) (stack : SendData) (message : List ℕ)
    (s_addr : ℕ) (port_num : ℤ) (retransmission : Bool) (m : Memory) (r : Receiver)
    → s.z ≡ false
    → length message < 3
    → let out = completed t_end (raw_message stack message s_addr port_num) s in
      (st : InStats) × (process retransmission m (arriving host tv out) r
        ≡ done (record r { stats_r = st }))
unfolding count_packet
short_message_lost t_end tv s host stack message s_addr port_num retransmission m r hz short =
    let d = raw_message stack message s_addr port_num in
    let plain = completed-message t_end d s hz refl in
    (
      (count_packet (arriving host tv d, r)).stats_r,
      rw plain (process-short retransmission m (arriving host tv d) r refl (omega arith)),
    )
