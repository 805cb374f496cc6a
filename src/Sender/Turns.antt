-- ===== src/Sender/Turns.antt =====
-- The two halves of a round of the sending thread keep its state safe.
use bora.Prelude.{
  ℕ, ◌+◌, ◌≡◌, refl, sym, subst, ◌⊎◌, inl, inr, true, false, Bool-cases, Option-cases, none, some,
  u64, List, [], ◌∷◌, ◌++◌, ◌==◌, ==→eq, arith,
}
use bora.Net.{SockaddrIn, SendData}
use bora.Sender.{Sender, Outcome, signal_puller}
use bora.Sender.Round.{
  Environment, Turn, follows, send_with, send_consecutive, send_next, send_round,
}
use bora.Sender.Choice.{signal_puller-some}
use bora.Queues.Fit.{Short}
use bora.Sender.Drift.{SenderSafe, IsOn, packet_send-IsOn, signal_puller-none}

abbrev pub AllShort : List SendData → Type 0
AllShort [] = Unit
AllShort (d ∷ ds) = Short d × AllShort ds

-- What a turn leaves, if it comes to its end.
abbrev pub TurnIsOn : ℕ → Sender → Turn → Type 0
TurnIsOn n s (Turn.done sent s') = IsOn n s s' × AllShort sent
TurnIsOn n s Turn.waits = Unit
TurnIsOn n s Turn.holds = Unit
TurnIsOn n s Turn.dies = Unit

unmoved-IsOn : (n : ℕ) (s s' : Sender) → s'.cookies ≡ s.cookies → SenderSafe n s' → IsOn n s s'
unmoved-IsOn n s s' same b = record {
  cookies = 0;
  fetched = ground arith;
  safe = subst (λ k. SenderSafe k s') (omega arith) b;
}

-- The call in the first half of a round.
abbrev pub paired_turn : Sender → Outcome → Turn
paired_turn s (Outcome.sends d s') =
    Turn.done (d ∷ []) (record s' { sleeptime = u64 (s.sleeptime + s'.sleeptime) })
paired_turn s Outcome.waits = Turn.waits
paired_turn s (Outcome.holds c d s') = Turn.holds
paired_turn s Outcome.dies = Turn.dies

paired_turn-IsOn :
    {n : ℕ} (e : Environment) (s : Sender) (o : Outcome)
    → SenderSafe n s
    → send_with e (record s { z = true }) ≡ o
    → TurnIsOn n s (paired_turn s o)
unfolding send_with
paired_turn-IsOn e s (Outcome.sends d s') b call =
    let (on, short) =
      packet_send-IsOn e.t_start e.t_end e.bw_locked e.sendto_ok (record s { z = true }) s' b
        call in
    (record { cookies = on.cookies; fetched = on.fetched; safe = on.safe }, (short, tt))
paired_turn-IsOn e s Outcome.waits b call = tt
paired_turn-IsOn e s (Outcome.holds c d s') b call = tt
paired_turn-IsOn e s Outcome.dies b call = tt

pub consecutive_paired :
    (e : Environment) (s : Sender) {last : SockaddrIn}
    → s.lasthost ≡ some last
    → follows last s.queues ≡ true
    → send_consecutive e s ≡ paired_turn s (send_with e (record s { z = true }))
unfolding send_consecutive
consecutive_paired e s known pair = rw (known, pair) refl

pub consecutive_single :
    (e : Environment) (s : Sender) {last : SockaddrIn}
    → s.lasthost ≡ some last
    → follows last s.queues ≡ false
    → send_consecutive e s ≡ Turn.done [] (record s { lasthost = none })
unfolding send_consecutive
consecutive_single e s known single = rw (known, single) refl

pub send_consecutive-IsOn :
    {n : ℕ} (e : Environment) (s : Sender) → SenderSafe n s → TurnIsOn n s (send_consecutive e s)
unfolding send_consecutive
send_consecutive-IsOn {n} e s b = elim (Option-cases s.lasthost) [
  | inl nobody ↦
      rw nobody
        (unmoved-IsOn n (record s { lasthost = none }) (record s { lasthost = none }) refl b, tt)
  | inr (last, known) ↦ elim (Bool-cases (follows last s.queues)) [
    | inl pair ↦
        subst (TurnIsOn n s) (sym (consecutive_paired e s known pair))
          (paired_turn-IsOn e s (send_with e (record s { z = true })) b refl)
    | inr single ↦
        subst (TurnIsOn n s) (sym (consecutive_single e s known single))
          (unmoved-IsOn n s (record s { lasthost = none }) refl b, tt)
  ]
]

-- The call in the second half of a round.
abbrev pub next_turn : List SendData → Outcome → Turn
next_turn sent (Outcome.sends d s') = elim (signal_puller s') [
  | none ↦ Turn.dies
  | some s'' ↦ Turn.done (sent ++ (d ∷ [])) s''
]
next_turn sent Outcome.waits = Turn.waits
next_turn sent (Outcome.holds c d s) = Turn.holds
next_turn sent Outcome.dies = Turn.dies

signal_puller-cases :
    (s : Sender)
    → (signal_puller s ≡ none)
      ⊎ ((m : ℕ) × (signal_puller s ≡ some (record s { produce_block = m })))
signal_puller-cases s = elim (Bool-cases (s.bandwidth == 0)) [
  | inl halted ↦ inl (signal_puller-none s (==→eq s.bandwidth 0 halted))
  | inr running ↦ inr (signal_puller-some s (ground arith))
]

pub AllShort-append : (xs ys : List SendData) → AllShort xs → AllShort ys → AllShort (xs ++ ys)
AllShort-append [] ys hx hy = hy
AllShort-append (x ∷ xs) ys hx hy = (hx.0, AllShort-append xs ys hx.1 hy)

next_turn-dies :
    (sent : List SendData) (d : SendData) (s : Sender)
    → signal_puller s ≡ none
    → next_turn sent (Outcome.sends d s) ≡ Turn.dies
next_turn-dies sent d s halted = rw (halted, next_turn) refl

pub next_turn-done :
    (sent : List SendData) (d : SendData) (s : Sender) {s' : Sender}
    → signal_puller s ≡ some s'
    → next_turn sent (Outcome.sends d s) ≡ Turn.done (sent ++ (d ∷ [])) s'
next_turn-done sent d s passes = rw (passes, next_turn) refl

next_turn-IsOn :
    {n : ℕ} (e : Environment) (sent : List SendData) (s : Sender) (o : Outcome)
    → SenderSafe n s
    → AllShort sent
    → send_with e (record s { z = false }) ≡ o
    → TurnIsOn n s (next_turn sent o)
unfolding send_with
next_turn-IsOn {n} e sent s (Outcome.sends d s') b all_short call =
    let (on, short) =
      packet_send-IsOn e.t_start e.t_end e.bw_locked e.sendto_ok (record s { z = false }) s' b
        call in
    elim (signal_puller-cases s') [
      | inl halted ↦ subst (TurnIsOn n s) (sym (next_turn-dies sent d s' halted)) tt
      | inr (m, passes) ↦ subst (TurnIsOn n s) (sym (next_turn-done sent d s' passes)) (
        record { cookies = on.cookies; fetched = on.fetched; safe = on.safe },
        AllShort-append sent (d ∷ []) all_short (short, tt),
      )
    ]
next_turn-IsOn e sent s Outcome.waits b all_short call = tt
next_turn-IsOn e sent s (Outcome.holds c d s') b all_short call = tt
next_turn-IsOn e sent s Outcome.dies b all_short call = tt

pub send_next-IsOn :
    {n : ℕ} (e : Environment) (sent : List SendData) (s : Sender)
    → SenderSafe n s
    → AllShort sent
    → TurnIsOn n s (send_next e sent s)
unfolding send_next
send_next-IsOn e sent s b all_short =
    next_turn-IsOn e sent s (send_with e (record s { z = false })) b all_short refl

IsOn-trans :
    {n : ℕ} {s s' s'' : Sender} (on : IsOn n s s') → IsOn (n + on.cookies) s' s'' → IsOn n s s''
IsOn-trans {n} {s'' = s''} on then_on = record {
  cookies = on.cookies + then_on.cookies;
  fetched = omega (arith, on.fetched, then_on.fetched);
  safe = subst (λ k. SenderSafe k s'') (omega arith) then_on.safe;
}

TurnIsOn-trans :
    (n : ℕ) (s s' : Sender) (on : IsOn n s s') (t : Turn)
    → TurnIsOn (n + on.cookies) s' t
    → TurnIsOn n s t
TurnIsOn-trans n s s' on (Turn.done sent s'') (then_on, short) = (IsOn-trans on then_on, short)
TurnIsOn-trans n s s' on Turn.waits then_on = tt
TurnIsOn-trans n s s' on Turn.holds then_on = tt
TurnIsOn-trans n s s' on Turn.dies then_on = tt

both_turns : Environment → Turn → Turn
both_turns e (Turn.done sent s') = send_next e sent s'
both_turns e Turn.waits = Turn.waits
both_turns e Turn.holds = Turn.holds
both_turns e Turn.dies = Turn.dies

both_turns-IsOn :
    (n : ℕ) (e : Environment) (s : Sender) (t : Turn)
    → TurnIsOn n s t
    → TurnIsOn n s (both_turns e t)
unfolding both_turns
both_turns-IsOn n e s (Turn.done sent s') (on, short) =
    TurnIsOn-trans n s s' on (send_next e sent s') (send_next-IsOn e sent s' on.safe short)
both_turns-IsOn n e s Turn.waits on = tt
both_turns-IsOn n e s Turn.holds on = tt
both_turns-IsOn n e s Turn.dies on = tt

-- A round of the loop of `send_packet`.
pub send_round-IsOn :
    {n : ℕ} (first second : Environment) (s : Sender)
    → SenderSafe n s
    → TurnIsOn n s (send_round first second s)
unfolding send_round both_turns
send_round-IsOn {n} first second s b =
    both_turns-IsOn n second s (send_consecutive first s) (send_consecutive-IsOn first s b)
