-- ===== src/Sender/Drift.antt =====
-- The sending thread keeps the rings of the queues valid, and each cookie that it sends moves the two
-- semaphores one further away from what they count.
use bora.Prelude.{
  false, ℕ, ◌+◌, ◌<◌, ◌≡◌, ◌≢◌, sym, ap, subst, ◌∙◌, inl, inr, Bool, Bool-cases, Option-cases, none,
  some, u32, has, ◌==◌, ==→eq, arith,
}
use bora.Net.{SendData}
use bora.Net.Time.{Timeval}
use bora.Queues.{Queues, head, pop}
use bora.Queues.Drift.{IsOffBy}
use bora.Queues.Fit.{Fits, Short, QueuesFit}
use bora.Nacks.{Nacks}
use bora.Nacks.Fit.{NacksFit, append_ack-NacksFit}
use bora.Cookies.{Cookies, get_cookie_data}
use bora.Cookies.Fit.{CookiesFit}
use bora.Net.Messages.{need_ack}
use bora.Sender.{
  Sender, Origin, Outcome, choose, take_send, take_queued, packet_send, signal_puller, after_send,
  add_cookie, completed, pause,
}
use bora.Sender.Choice.{
  passed, signal_puller-some, packet_send-chosen, finish-sends, completed-Short,
}

-- The rings are valid with the semaphores off by `n`, and all that is stored has room for what is put
-- behind it.
pub record IsSafeAt (n : ℕ) (q : Queues) (nacks : Nacks) (ck : Cookies) : Type 0 where
  pub counts : IsOffBy n q
  pub room : QueuesFit q
  pub nacks_fit : NacksFit nacks
  pub cookies_fit : CookiesFit ck

abbrev pub SenderSafe : ℕ → Sender → Type 0
SenderSafe n s = IsSafeAt n s.queues s.nacks s.cookies

-- On the way from one state to another, `ckFull` loses the cookies that are sent, and the semaphores
-- are off by as many more.
pub record IsOn (n : ℕ) (s s' : Sender) : Type 0 where
  pub cookies : ℕ
  pub fetched : s.cookies.ck_full ≡ s'.cookies.ck_full + cookies
  pub safe : SenderSafe (n + cookies) s'

choose-counts :
    {n : ℕ} (m : ℕ) (s s' : Sender) {c : Origin} {d : SendData}
    → IsOffBy n s.queues
    → 0 < s.queues.s_full
    → choose (passed m s) ≡ some (c, d, s')
    → (k : ℕ) × (s.cookies.ck_full ≡ s'.cookies.ck_full + k)
      × IsOffBy (n + k) (record (s'.queues) { q_empty = s'.queues.q_empty + 1 })
      × (s'.nacks ≡ s.nacks)
unfolding choose take_send take_queued pop get_cookie_data
choose-counts m s s' b room e = elim (Bool-cases s.z) [
  | inl pair ↦ (0, ground arith, ground arith, ground arith)
  | inr single ↦ elim (Bool-cases (s.cookies.ck_full == 0)) [
    | inl no_cookie ↦ (0, ground arith, ground arith, ground arith)
    | inr cookie ↦ (1, ground arith, ground arith, ground arith)
  ]
]

choose-Fits :
    (m : ℕ) (s s' : Sender) {c : Origin} {d : SendData}
    → QueuesFit s.queues
    → CookiesFit s.cookies
    → choose (passed m s) ≡ some (c, d, s')
    → Fits d × QueuesFit s'.queues × CookiesFit s'.cookies
unfolding choose take_send take_queued pop get_cookie_data
choose-Fits m s s' fit ck e =
    let oldest_prio = fit.prio (head s.queues.prio) in
    let oldest_retr = fit.retr (head s.queues.retr) in
    let oldest_send = fit.send (head s.queues.send) in
    let bogus = ck.bogus in
    let first = ck.first in
    let second = ck.second in
    (
      ground arith,
      record {
        prio = λ i. ground (arith, fit.prio i);
        retr = λ i. ground (arith, fit.retr i);
        send = λ i. ground (arith, fit.send i);
      },
      record { bogus = ground arith; first = ground arith; second = ground arith },
    )

add_cookie-NacksFit :
    (t_end : Timeval) (sleeptime : ℕ) (d : SendData) (nacks : Nacks)
    → Fits d
    → NacksFit nacks
    → NacksFit (add_cookie t_end sleeptime d nacks).1
unfolding add_cookie
add_cookie-NacksFit t_end sleeptime d nacks h fit =
    elim (Bool-cases (has (d.contents 0) need_ack)) [
      | inl asks ↦ rw asks (append_ack-NacksFit d t_end (u32 sleeptime) nacks h fit)
      | inr quiet ↦ rw quiet fit
    ]

after_send-IsOn :
    {n : ℕ} (t_start t_end : Timeval) (sendto_ok : Bool) (m : ℕ) (s s' : Sender) {c : Origin}
    {d : SendData}
    → SenderSafe n s
    → 0 < s.queues.s_full
    → choose (passed m s) ≡ some (c, d, s')
    → IsOn n s (after_send t_start t_end sendto_ok c d s') × Short (completed t_end d s')
unfolding after_send
after_send-IsOn t_start t_end sendto_ok m s s' {d = d} b room e =
    let (k, fetched, counts, same) = choose-counts m s s' b.counts room e in
    let (fits, queues, cookies) = choose-Fits m s s' b.room b.cookies_fit e in
    let nacks = subst NacksFit (sym same) b.nacks_fit in
    (
      record {
        cookies = k;
        fetched = fetched;
        safe = record {
          counts = counts;
          room = record { prio = queues.prio; retr = queues.retr; send = queues.send };
          nacks_fit = add_cookie-NacksFit t_end (pause d s') d s'.nacks fits nacks;
          cookies_fit = cookies;
        };
      },
      completed-Short t_end d s' fits,
    )

sends-injective :
    {d d' : SendData} {s s' : Sender}
    → Outcome.sends d s ≡ Outcome.sends d' s'
    → ◌≡◌ {A = SendData × Sender} (d, s) (d', s')
sends-injective {d} {s = s} e =
    ap
      (λ o. elim o [
        | Outcome.sends d s ↦ (d, s)
        | Outcome.waits ↦ (d, s)
        | Outcome.holds c d' s' ↦ (d, s)
        | Outcome.dies ↦ (d, s)
      ])
      e

not-sends : {d : SendData} {s : Sender} → Outcome.waits ≢ Outcome.sends d s
not-sends e = cc

holds-not-sends :
    {c : Origin} {d d' : SendData} {s s' : Sender} → Outcome.holds c d s ≢ Outcome.sends d' s'
holds-not-sends e = cc

dies-not-sends : {d : SendData} {s : Sender} → Outcome.dies ≢ Outcome.sends d s
dies-not-sends e = cc

pub signal_puller-none : (s : Sender) → s.bandwidth ≡ 0 → signal_puller s ≡ none
unfolding signal_puller
signal_puller-none s h = ground arith

-- Where `packet_send` hands on a datagram, it has passed `sFull` and chosen it, and `bwLock` is free.
sends-chosen :
    (t_start t_end : Timeval) (bw_locked sendto_ok : Bool) (s : Sender) {s' : Sender}
    {out : SendData}
    → packet_send t_start t_end bw_locked sendto_ok s ≡ Outcome.sends out s'
    → (m : ℕ) × (signal_puller s ≡ some (record s { produce_block = m }))
      × (0 < s.queues.s_full)
      × (bw_locked ≡ false)
      × (c : Origin) × (d : SendData) × (s'' : Sender) × (choose (passed m s) ≡ some (c, d, s''))
unfolding packet_send
sends-chosen t_start t_end bw_locked sendto_ok s e = elim (Bool-cases (s.bandwidth == 0)) [
  | inl halted ↦
      absurd
        (dies-not-sends (rw (signal_puller-none s (==→eq s.bandwidth 0 halted), packet_send) at e))
  | inr running ↦
      let (m, passes) = signal_puller-some s (ground arith) in
      elim (Bool-cases (s.queues.s_full == 0)) [
        | inl empty ↦ absurd (not-sends (rw (passes, packet_send, empty) at e))
        | inr room ↦ elim (Option-cases (choose (passed m s))) [
          | inl nothing ↦ absurd (dies-not-sends (rw (passes, packet_send, room, nothing) at e))
          | inr ((c, d, s''), chosen) ↦ elim (Bool-cases bw_locked) [
            | inl held ↦
                absurd (holds-not-sends (rw (passes, packet_send, room, chosen, held) at e))
            | inr free ↦ (m, passes, ground arith, free, c, d, s'', chosen)
          ]
        ]
      ]
]

-- A call of `packet_send` that hands on a datagram.
pub packet_send-IsOn :
    {n : ℕ} (t_start t_end : Timeval) (bw_locked sendto_ok : Bool) (s s' : Sender) {out : SendData}
    → SenderSafe n s
    → packet_send t_start t_end bw_locked sendto_ok s ≡ Outcome.sends out s'
    → IsOn n s s' × Short out
packet_send-IsOn {n} t_start t_end bw_locked sendto_ok s s' {out} b e =
    let (m, passes, room, free, c, d, s'', chosen) =
      sends-chosen t_start t_end bw_locked sendto_ok s e in
    let call : packet_send t_start t_end false sendto_ok s ≡ Outcome.sends out s' =
      ap (λ l. packet_send t_start t_end l sendto_ok s) (sym free) ∙ e in
    let (on, short) = after_send-IsOn t_start t_end sendto_ok m s s'' b room chosen in
    subst (λ r. IsOn n s r.1 × Short r.0)
      (sends-injective (
        sym (finish-sends t_start t_end sendto_ok c d s'')
        ∙ sym (packet_send-chosen t_start t_end false sendto_ok s m passes room chosen)
        ∙ call))
      (on, short)
