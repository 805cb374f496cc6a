-- ===== src/Sender/Drain.antt =====
-- Calls of `packet_send` one after the other, with no other thread in between.
use bora.Prelude.{
  ℕ, suc, ◌-◌, ◌<◌, ◌≡◌, ◌≢◌, refl, sym, ap, ap₂, subst, ◌∙◌, false, inl, inr, Option, Option-cases,
  none, some, List, [], ◌∷◌, ◌++◌, length, arith,
}
use bora.Net.{SendData}
use bora.Queues.{Ring, Queues, head}
use bora.Queues.Fifo.{IsValid, items, window, window_suc}
use bora.Queues.Routing.{IsBalanced, queued}
use bora.Queues.Fit.{Short, QueuesFit}
use bora.Sender.{Sender, Origin, Outcome, plain, prio, retr, completed, after_send, packet_send}
use bora.Sender.Choice.{
  due, less, without, passed, signal_puller-some, choose-queued, packet_send-chosen, finish-sends,
  packet_send-waits, after_send-IsBalanced, due-none, due-Short,
}
use bora.Sender.Round.{Environment, send_with}

-- All datagrams of the queues, in the order of the queues' priority and the oldest first in each.
abbrev pub waiting : Queues → List SendData
waiting q = items q.prio ++ (items q.retr ++ items q.send)

-- What the calls hand to sendto, and the variables then; `none` if one waits or dies.
unfoldable pub send_calls : List Environment → Sender → Option (List SendData × Sender)
send_calls [] s = some ([], s)
send_calls (e ∷ es) s = elim (send_with e s) [
  | Outcome.sends d s' ↦ elim (send_calls es s') [
    | none ↦ none
    | some (sent, s'') ↦ some (d ∷ sent, s'')
  ]
  | Outcome.waits ↦ none
  | Outcome.holds c d s' ↦ none
  | Outcome.dies ↦ none
]

-- The datagrams of the first list, each completed with this port, at the time of its call, and with
-- the number that is due, and no longer than what a datagram has room for.
pub data AllCompleted (port : ℕ) : List Environment → List SendData → List SendData → Type 0 where
  nothing : AllCompleted port [] [] []
  and_one :
      {es : List Environment} {ds sent : List SendData} (e : Environment) (d : SendData)
      (taken : Sender)
      → taken.nat_port ≡ port
      → Short (completed e.t_end d taken)
      → AllCompleted port es ds sent
      → AllCompleted port (e ∷ es) (d ∷ ds) (completed e.t_end d taken ∷ sent)

-- No pair is being sent, no cookie is to be fetched, the bandwidth is not 0, and no datagram in the
-- queues is longer than a fragment of MTU bytes.
pub record IsReady (s : Sender) : Type 0 where
  pub bandwidth : 0 < s.bandwidth
  pub no_pair : s.z ≡ false
  pub no_cookie : s.cookies.ck_full ≡ 0
  pub balanced : IsBalanced s.queues
  pub room : QueuesFit s.queues

items-first :
    (r : Ring) {d : SendData}
    → IsValid r
    → r.f ≢ 0
    → r.buf (head r) ≡ d
    → items r ≡ d ∷ items (less r)
items-first r v h e =
    window_suc r.buf (head r) r.f h ∙ ap₂ (λ x i. x ∷ window r.buf i (r.f - 1)) e (omega arith)

items-none : (r : Ring) → r.f ≡ 0 → items r ≡ []
items-none r h = rw h refl

-- The queues when the datagram that is due has been taken.
abbrev taken_from : Origin → Queues → Queues
taken_from plain q = record q { send = less q.send }
taken_from prio q = record q { prio = less q.prio }
taken_from retr q = record q { retr = less q.retr }

waiting-due :
    (q : Queues) (c : Origin) (d : SendData)
    → IsBalanced q
    → due q ≡ some (c, d)
    → waiting q ≡ d ∷ waiting (taken_from c q)
waiting-due q prio d b h =
    ap (λ xs. xs ++ (items q.retr ++ items q.send))
      (items-first q.prio b.prio (ground arith) (ground arith))
waiting-due q retr d b h =
    let none_first = items-none q.prio (ground arith) in
    ap (λ xs. xs ++ (items q.retr ++ items q.send)) none_first
    ∙ ap (λ xs. xs ++ items q.send) (items-first q.retr b.retr (ground arith) (ground arith))
    ∙ ap (λ xs. d ∷ (xs ++ (items (less q.retr) ++ items q.send))) (sym none_first)
waiting-due q plain d b h =
    let none_first = items-none q.prio (ground arith) in
    let none_second = items-none q.retr (ground arith) in
    ap₂ (λ xs ys. xs ++ (ys ++ items q.send)) none_first none_second
    ∙ items-first q.send b.send (ground arith) (ground arith)
    ∙ ap₂ (λ xs ys. d ∷ (xs ++ (ys ++ items (less q.send)))) (sym none_first) (sym none_second)

waiting-empty : (q : Queues) → queued q ≡ 0 → waiting q ≡ []
waiting-empty q h =
    ap₂ ◌++◌ (items-none q.prio (omega arith))
      (ap₂ ◌++◌ (items-none q.retr (omega arith)) (items-none q.send (omega arith)))

-- The variables after the call.
abbrev after_call : Environment → Origin → SendData → ℕ → Sender → Sender
after_call e c d n s = after_send e.t_start e.t_end e.sendto_ok c d (without c (passed n s))

after_call-kept :
    (e : Environment) (c : Origin) (d : SendData) (n : ℕ) (s : Sender)
    → let s' = after_call e c d n s in
      (s'.bandwidth ≡ s.bandwidth)
      × (s'.z ≡ s.z)
      × (s'.cookies ≡ s.cookies)
      × (s'.nat_port ≡ s.nat_port)
      × ((without c (passed n s)).nat_port ≡ s.nat_port)
      × (waiting s'.queues ≡ waiting (taken_from c s.queues))
unfolding after_send
after_call-kept e plain d n s = (refl, refl, refl, refl, refl, refl)
after_call-kept e prio d n s = (refl, refl, refl, refl, refl, refl)
after_call-kept e retr d n s = (refl, refl, refl, refl, refl, refl)

-- No place of the rings is written to.
after_call-QueuesFit :
    (e : Environment) (c : Origin) (d : SendData) (n : ℕ) (s : Sender)
    → QueuesFit s.queues
    → QueuesFit (after_call e c d n s).queues
unfolding after_send
after_call-QueuesFit e plain d n s fit = record {
  prio = fit.prio;
  retr = fit.retr;
  send = fit.send;
}
after_call-QueuesFit e prio d n s fit = record { prio = fit.prio; retr = fit.retr; send = fit.send }
after_call-QueuesFit e retr d n s fit = record { prio = fit.prio; retr = fit.retr; send = fit.send }

-- No call meets `bws_thread` with the lock.
abbrev pub AllFree : List Environment → Type 0
AllFree [] = Unit
AllFree (e ∷ es) = (e.bw_locked ≡ false) × AllFree es

-- One call, where a datagram waits.
send_with-due :
    (e : Environment) (s : Sender)
    → e.bw_locked ≡ false
    → IsReady s
    → 0 < queued s.queues
    → (d : SendData) × (taken s' : Sender) × (send_with e s
        ≡ Outcome.sends (completed e.t_end d taken) s')
      × IsReady s'
      × (taken.nat_port ≡ s.nat_port)
      × Short (completed e.t_end d taken)
      × (s'.nat_port ≡ s.nat_port)
      × (waiting s.queues ≡ d ∷ waiting s'.queues)
      × (queued s.queues ≡ suc (queued s'.queues))
unfolding send_with
send_with-due e s free ready some_queued = elim (Option-cases (due s.queues)) [
  | inl idle ↦ absurd (ground (arith, due-none s.queues idle))
  | inr ((c, d), first) ↦
      let (n, signalled) = signal_puller-some s ready.bandwidth in
      let taken = without c (passed n s) in
      let (balanced, count) =
        after_send-IsBalanced e.t_start e.t_end e.sendto_ok c d n s first ready.balanced in
      let (bandwidth, z, cookies, port, same_port, left) = after_call-kept e c d n s in
      let chosen = choose-queued (passed n s) c d ready.no_pair ready.no_cookie first in
      (
        d,
        taken,
        after_call e c d n s,
        ap (λ l. packet_send e.t_start e.t_end l e.sendto_ok s) free
            ∙ packet_send-chosen e.t_start e.t_end false e.sendto_ok s n signalled (omega arith)
                chosen
            ∙ finish-sends e.t_start e.t_end e.sendto_ok c d taken,
        record {
          bandwidth = rw bandwidth ready.bandwidth;
          no_pair = z ∙ ready.no_pair;
          no_cookie = ap (λ ck. ck.ck_full) cookies ∙ ready.no_cookie;
          balanced = balanced;
          room = after_call-QueuesFit e c d n s ready.room;
        },
        same_port,
        due-Short e.t_end s.queues taken ready.room first,
        port,
        waiting-due s.queues c d ready.balanced first ∙ ap (λ xs. d ∷ xs) (sym left),
        omega arith,
      )
]

send_with-empty :
    (e : Environment) (s : Sender) → IsReady s → queued s.queues ≡ 0 → send_with e s ≡ Outcome.waits
unfolding send_with
send_with-empty e s ready empty =
    packet_send-waits e.t_start e.t_end e.bw_locked e.sendto_ok s ready.bandwidth
      (ready.balanced.full ∙ empty)

send_calls-cons :
    (e : Environment) (es : List Environment) (s s' : Sender) {last : Sender} {d : SendData}
    {sent : List SendData}
    → send_with e s ≡ Outcome.sends d s'
    → send_calls es s' ≡ some (sent, last)
    → send_calls (e ∷ es) s ≡ some (d ∷ sent, last)
unfolding send_calls
send_calls-cons e es s s' first rest = rw (first, send_calls) (rw rest refl)

-- As many calls of `packet_send` as datagrams wait, from balanced semaphores, outside of a pair,
-- with no cookie to fetch, a bandwidth above 0, no datagram longer than a fragment of MTU bytes,
-- nobody else adding to the queues and `bws_thread` not holding `bwLock` at any of them: no call waits
-- or dies; they hand on every datagram once, the priority queue before the retransmissions and these
-- before the block data, in each the oldest first, each completed at its call with the port and no
-- longer than what a datagram has room for; the semaphores are balanced again, and any further call
-- waits.
pub drain :
    (es : List Environment) (s : Sender)
    → AllFree es
    → IsReady s
    → length es ≡ queued s.queues
    → (sent : List SendData) × (s' : Sender) × (send_calls es s ≡ some (sent, s'))
      × AllCompleted s.nat_port es (waiting s.queues) sent
      × IsBalanced s'.queues
      × ((e : Environment) → send_with e s' ≡ Outcome.waits)
unfolding send_calls
drain [] s free ready count = (
  [],
  s,
  refl,
  subst (λ ds. AllCompleted s.nat_port [] ds []) (sym (waiting-empty s.queues (sym count))) nothing,
  ready.balanced,
  λ e. send_with-empty e s ready (sym count),
)
drain (e ∷ es) s free ready count =
    let (d, taken, next, call, still_ready, taken_port, short, same_port, order, one_less) =
      send_with-due e s free.0 ready (omega arith) in
    let (sent, last, calls, done, balanced, ends) =
      drain es next free.1 still_ready (omega arith) in
    (
      completed e.t_end d taken ∷ sent,
      last,
      send_calls-cons e es s next call calls,
      subst (λ ds. AllCompleted s.nat_port (e ∷ es) ds (completed e.t_end d taken ∷ sent))
          (sym order)
          (and_one e d taken taken_port short
            (subst (λ port. AllCompleted port es (waiting next.queues) sent) same_port done)),
      balanced,
      ends,
    )
