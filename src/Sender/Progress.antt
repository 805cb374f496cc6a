-- ===== src/Sender/Progress.antt =====
-- Where the semaphores are off by the cookies that were sent, the sending thread does not end the
-- process, and waits only for `bwLock`, or if all that is left are datagrams that cookies have passed.
use bora.Prelude.{
  ℕ, Bool, if◌then◌else◌, ◌<◌, ◌≡◌, refl, sym, subst, inl, inr, true, false, Bool-cases,
  Option-cases, some, List, ◌==◌, ==→eq, arith,
}
use bora.Net.{SendData}
use bora.Net.Time.{Timeval}
use bora.Queues.{Queues, head, pop}
use bora.Queues.Routing.{queued}
use bora.Queues.Drift.{IsOffBy}
use bora.Sender.{Sender, Origin, Outcome, plain, choose, take_send, finish, after_send}
use bora.Sender.Choice.{
  due, due-none, less, without, choose-queued, passed, signal_puller-some, packet_send-chosen,
  packet_send-waits,
}
use bora.Sender.Round.{Environment, Turn, follows, send_with, send_consecutive, send_next}
use bora.Sender.Turns.{
  paired_turn, consecutive_paired, consecutive_single, next_turn, next_turn-done,
}

-- What a call of `packet_send` comes to.
abbrev CallGoesOn : Bool → ℕ → Queues → Outcome → Type 0
CallGoesOn bw_locked n q (Outcome.sends d s) = 0 < s.bandwidth
CallGoesOn bw_locked n q Outcome.waits = queued q ≡ n
CallGoesOn bw_locked n q (Outcome.holds c d s) = bw_locked ≡ true
CallGoesOn bw_locked n q Outcome.dies = ⊥

-- What a half of a round comes to: the process does not end there, it waits on `sFull` only with `n`
-- datagrams left, and on `bwLock` only while `bws_thread` holds it.
abbrev pub GoesOn : Bool → ℕ → Queues → Turn → Type 0
GoesOn bw_locked n q (Turn.done out s) = Unit
GoesOn bw_locked n q Turn.waits = queued q ≡ n
GoesOn bw_locked n q Turn.holds = bw_locked ≡ true
GoesOn bw_locked n q Turn.dies = ⊥

choose-pair :
    (s : Sender)
    → s.z ≡ true
    → 0 < s.queues.send.f
    → (c : Origin) × (d : SendData) × (s' : Sender) × (choose s ≡ some (c, d, s'))
      × (s'.bandwidth ≡ s.bandwidth)
unfolding choose take_send pop
choose-pair s pair some_left = (
  plain,
  s.queues.send.buf (head s.queues.send),
  record s { queues = record (s.queues) { send = less s.queues.send } },
  ground arith,
  refl,
)

choose-single :
    (s : Sender)
    → s.z ≡ false
    → s.cookies.ck_full ≡ 0
    → 0 < queued s.queues
    → (c : Origin) × (d : SendData) × (s' : Sender) × (choose s ≡ some (c, d, s'))
      × (s'.bandwidth ≡ s.bandwidth)
choose-single s single no_cookie some_left = elim (Option-cases (due s.queues)) [
  | inl idle ↦ let left = due-none s.queues idle in absurd (omega (arith, left, some_left))
  | inr ((c, d), waiting) ↦
      (c, d, without c s, choose-queued s c d single no_cookie waiting, same c)
]
  where
    same : (c : Origin) → (without c s).bandwidth ≡ s.bandwidth
    same Origin.plain = refl
    same Origin.prio = refl
    same Origin.retr = refl

locked_or_sent :
    (n : ℕ) (q : Queues) (t_start t_end : Timeval) (bw_locked sendto_ok : Bool) (c : Origin)
    (d : SendData) (s : Sender)
    → 0 < s.bandwidth
    → CallGoesOn bw_locked n q
        (if bw_locked then Outcome.holds c d s else finish t_start t_end sendto_ok c d s)
unfolding finish after_send
locked_or_sent n q t_start t_end true sendto_ok c d s h = refl
locked_or_sent n q t_start t_end false sendto_ok c d s h = h

-- A call for which something can be chosen once `sFull` is passed.
packet_send-goes :
    {n : ℕ} (e : Environment) (s : Sender)
    → 0 < s.bandwidth
    → IsOffBy n s.queues
    → ((m : ℕ)
        → 0 < s.queues.s_full
        → (c : Origin) × (d : SendData) × (s' : Sender) × (choose (passed m s) ≡ some (c, d, s'))
          × (s'.bandwidth ≡ s.bandwidth))
    → CallGoesOn e.bw_locked n s.queues (send_with e s)
unfolding send_with after_send
packet_send-goes {n} e s hb b chooses = elim (Bool-cases (s.queues.s_full == 0)) [
  | inl empty ↦
      let none_left = ==→eq s.queues.s_full 0 empty in
      subst (CallGoesOn e.bw_locked n s.queues)
        (sym (packet_send-waits e.t_start e.t_end e.bw_locked e.sendto_ok s hb none_left))
        (omega (arith, b.full))
  | inr some_left ↦
      let (m, passes) = signal_puller-some s hb in
      let room : 0 < s.queues.s_full = ground arith in
      let (c, d, s', chosen, same) = chooses m room in
      subst (CallGoesOn e.bw_locked n s.queues)
        (sym (packet_send-chosen e.t_start e.t_end e.bw_locked e.sendto_ok s m passes room chosen))
        (locked_or_sent n s.queues e.t_start e.t_end e.bw_locked e.sendto_ok c d s'
          (omega (arith, hb, same)))
]

paired_turn-goes :
    (bw_locked : Bool) (n : ℕ) (s : Sender) (q : Queues) (o : Outcome)
    → CallGoesOn bw_locked n q o
    → GoesOn bw_locked n q (paired_turn s o)
paired_turn-goes bw_locked n s q (Outcome.sends d s') go = tt
paired_turn-goes bw_locked n s q Outcome.waits go = go
paired_turn-goes bw_locked n s q (Outcome.holds c d s') go = go
paired_turn-goes bw_locked n s q Outcome.dies go = absurd go

next_turn-goes :
    (bw_locked : Bool) (n : ℕ) (sent : List SendData) (q : Queues) (o : Outcome)
    → CallGoesOn bw_locked n q o
    → GoesOn bw_locked n q (next_turn sent o)
next_turn-goes bw_locked n sent q (Outcome.sends d s) go =
    let (m, passes) = signal_puller-some s go in
    subst (GoesOn bw_locked n q) (sym (next_turn-done sent d s passes)) tt
next_turn-goes bw_locked n sent q Outcome.waits go = go
next_turn-goes bw_locked n sent q (Outcome.holds c d s') go = go
next_turn-goes bw_locked n sent q Outcome.dies go = absurd go

pub send_consecutive-GoesOn :
    {n : ℕ} (e : Environment) (s : Sender)
    → 0 < s.bandwidth
    → IsOffBy n s.queues
    → GoesOn e.bw_locked n s.queues (send_consecutive e s)
unfolding send_consecutive follows
send_consecutive-GoesOn {n} e s hb b = elim (Option-cases s.lasthost) [
  | inl nobody ↦ rw nobody tt
  | inr (last, known) ↦ elim (Bool-cases (follows last s.queues)) [
    | inl pair ↦ subst (GoesOn e.bw_locked n s.queues) (sym (consecutive_paired e s known pair)) (
        paired_turn-goes e.bw_locked n s s.queues (send_with e (record s { z = true })) (
          packet_send-goes e (record s { z = true }) hb b
            (λ m room.
              let some_left : 0 < s.queues.send.f = ground arith in
              choose-pair (passed m (record s { z = true })) refl some_left)))
    | inr single ↦
        subst (GoesOn e.bw_locked n s.queues) (sym (consecutive_single e s known single)) tt
  ]
]

pub send_next-GoesOn :
    {n : ℕ} (e : Environment) (sent : List SendData) (s : Sender)
    → 0 < s.bandwidth
    → s.cookies.ck_full ≡ 0
    → IsOffBy n s.queues
    → GoesOn e.bw_locked n s.queues (send_next e sent s)
unfolding send_next
send_next-GoesOn {n} e sent s hb no_cookie b =
    next_turn-goes e.bw_locked n sent s.queues (send_with e (record s { z = false })) (
      packet_send-goes e (record s { z = false }) hb b
        (λ m room.
          choose-single (passed m (record s { z = false })) refl no_cookie
            (omega (arith, b.full, room))))
