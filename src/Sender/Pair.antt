-- ===== src/Sender/Pair.antt =====
-- The first half of a round of the sending thread: the second datagram of a consecutive pair.
use bora.Prelude.{ℕ, ◌+◌, ◌<◌, ◌≡◌, refl, ap, ◌∙◌, true, false, some, [], ◌∷◌, u64, arith}
use bora.Net.{SockaddrIn, SendData}
use bora.Queues.{Queues, head, pop}
use bora.Queues.Routing.{IsBalanced}
use bora.Sender.{Sender, Origin, choose, take_send, completed, after_send, packet_send}
use bora.Sender.Choice.{less, passed, signal_puller-some, packet_send-chosen, finish-sends}
use bora.Sender.Round.{Environment, Turn, follows, send_with, send_consecutive}

-- With `z` set, the oldest datagram of block data is chosen, whatever else waits.
choose-paired :
    (s : Sender)
    → s.z ≡ true
    → 0 < s.queues.send.f
    → choose s
      ≡ some (
        Origin.plain,
        s.queues.send.buf (head s.queues.send),
        record s { queues = record (s.queues) { send = less s.queues.send } },
      )
unfolding choose take_send pop
choose-paired s hz h = ground arith

-- The variables when the second datagram of a pair has been taken.
abbrev pub paired : ℕ → Sender → Sender
paired n s =
    let s' = passed n (record s { z = true }) in
    record s' { queues = record (s'.queues) { send = less s.queues.send } }

-- The turn that sends it.
abbrev pub pair_turn : Environment → SendData → ℕ → Sender → Turn
pair_turn e d n s =
    let s' = after_send e.t_start e.t_end e.sendto_ok Origin.plain d (paired n s) in
    Turn.done (completed e.t_end d (paired n s) ∷ [])
      (record s' { sleeptime = u64 (s.sleeptime + s'.sleeptime) })

follows-nonempty : (last : SockaddrIn) (q : Queues) → follows last q ≡ true → 0 < q.send.f
unfolding follows
follows-nonempty last q h = ground arith

-- A sender that has just sent block data to `last`, and whose oldest datagram of block data goes there,
-- sends that one, if `bwLock` is free.
pub send_consecutive-follows :
    (e : Environment) (s : Sender) (last : SockaddrIn)
    → e.bw_locked ≡ false
    → 0 < s.bandwidth
    → IsBalanced s.queues
    → follows last s.queues ≡ true
    → let after = record s { lasthost = some last } in
      (n : ℕ) × (send_consecutive e after
        ≡ pair_turn e (s.queues.send.buf (head s.queues.send)) n after)
unfolding send_consecutive send_with
send_consecutive-follows e s last free hb balanced next =
    let some_left = follows-nonempty last s.queues next in
    let after = record s { lasthost = some last; z = true } in
    let (n, signalled) = signal_puller-some after hb in
    let d = s.queues.send.buf (head s.queues.send) in
    let taken = paired n (record s { lasthost = some last }) in
    let sent =
      ap (λ l. packet_send e.t_start e.t_end l e.sendto_ok after) free
      ∙ packet_send-chosen e.t_start e.t_end false e.sendto_ok after n signalled
          (omega (arith, balanced.full)) (choose-paired (passed n after) refl some_left)
      ∙ finish-sends e.t_start e.t_end e.sendto_ok Origin.plain d taken in
    (n, rw (next, send_consecutive) (rw sent refl))
