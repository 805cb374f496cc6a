-- ===== src/Sender/Round.antt =====
-- packet_sender.c, `send_packet`: a round of the loop of the sending thread.
use bora.Prelude.{
  ◌+◌, Bool, true, false, none, some, List, [], ◌∷◌, ◌++◌, u64, ◌==◌, ◌&&◌, not, if◌then◌else◌,
}
use bora.Net.{SockaddrIn, SendData}
use bora.Net.Time.{Timeval}
use bora.Queues.{Queues, head}
use bora.Sender.{Sender, Outcome, signal_puller, packet_send}

-- The next datagram of block data goes to the host and port of the last one.
unfoldable pub follows : SockaddrIn → Queues → Bool
follows last q =
    let next = (q.send.buf (head q.send)).to in
    not (q.send.f == 0) && next.sin_port == last.sin_port && next.sin_addr == last.sin_addr

-- What a call of `packet_send` meets: the clock before and after, whether `bws_thread` holds `bwLock`,
-- and whether sendto succeeds.
pub record Environment : Type 0 where
  pub t_start : Timeval
  pub t_end : Timeval
  pub bw_locked : Bool
  pub sendto_ok : Bool

unfoldable pub send_with : Environment → Sender → Outcome
send_with e s = packet_send e.t_start e.t_end e.bw_locked e.sendto_ok s

-- What a round comes to: `holds` is the wait on `bwLock`; or the datagrams handed to sendto, and the variables then.
pub data Turn : Type 0 where
  waits : Turn
  holds : Turn
  dies : Turn
  done : List SendData → Sender → Turn

-- The first half of a round: if the last datagram has a successor to the same host, it is sent at
-- once, marked as consecutive, and both sleeping times add up.
unfoldable pub send_consecutive : Environment → Sender → Turn
unfolding follows
send_consecutive e s = elim s.lasthost [
  | none ↦ Turn.done [] s
  | some last ↦
      if follows last s.queues
      then elim (send_with e (record s { z = true })) [
        | Outcome.sends d s' ↦
            Turn.done (d ∷ []) (record s' { sleeptime = u64 (s.sleeptime + s'.sleeptime) })
        | Outcome.waits ↦ Turn.waits
        | Outcome.holds c d s' ↦ Turn.holds
        | Outcome.dies ↦ Turn.dies
      ]
      else Turn.done [] (record s { lasthost = none })
]

-- The second half of a round, which clears `z`, sends a datagram and wakes the puller.
unfoldable pub send_next : Environment → List SendData → Sender → Turn
send_next e sent s = elim (send_with e (record s { z = false })) [
  | Outcome.sends d s' ↦ elim (signal_puller s') [
    | none ↦ Turn.dies
    | some s'' ↦ Turn.done (sent ++ (d ∷ [])) s''
  ]
  | Outcome.waits ↦ Turn.waits
  | Outcome.holds c d s' ↦ Turn.holds
  | Outcome.dies ↦ Turn.dies
]

-- One round of the loop of `send_packet`; usleep is left out.
unfoldable pub send_round : Environment → Environment → Sender → Turn
send_round first second s = elim (send_consecutive first s) [
  | Turn.done sent s' ↦ send_next second sent s'
  | Turn.waits ↦ Turn.waits
  | Turn.holds ↦ Turn.holds
  | Turn.dies ↦ Turn.dies
]
