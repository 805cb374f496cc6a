-- ===== src/Sender/Choice.antt =====
-- `packet_send` and the queues: which datagram it takes, and the two semaphores.
use bora.Prelude.{
  ℕ, ◌+◌, ◌-◌, ◌*◌, ◌<◌, ◌≡◌, refl, ap, ◌∙◌, ◌⊎◌, inl, inr, Bool, false, Bool-cases, Option, none,
  some, Option-cases, ◌==◌, if◌then◌else◌, arith,
}
use bora.Net.{SendData}
use bora.Net.Time.{Timeval}
use bora.Queues.{Ring, Queues, capacity, head, pop}
use bora.Queues.Routing.{IsBalanced, queued}
use bora.Queues.Fit.{Fits, Short, QueuesFit}
use bora.Nacks.{append_ack}
use bora.Cookies.{Cookies, get_cookie_data}
use bora.Sender.{
  Sender, Origin, Outcome, plain, prio, retr, signal_puller, choose, take_send, take_queued, finish,
  packet_send, hit_treshold, completed, after_send, append_port, mark_consecutive, add_cookie,
}

-- The datagram that is due: the oldest of the first queue, by priority, that is not empty.
abbrev pub due : Queues → Option (Origin × SendData)
due q =
    if q.prio.f == 0
    then if q.retr.f == 0
      then if q.send.f == 0 then none else some (plain, q.send.buf (head q.send))
      else some (retr, q.retr.buf (head q.retr))
    else some (prio, q.prio.buf (head q.prio))

-- The variables after a datagram has been taken from a queue.
abbrev pub less : Ring → Ring
less r = record r { f = r.f - 1 }

abbrev pub without : Origin → Sender → Sender
without plain s = record s {
  lasthost = none;
  queues = record (s.queues) { send = less s.queues.send };
}
without prio s = record s {
  lasthost = none;
  queues = record (s.queues) { prio = less s.queues.prio };
}
without retr s = record s {
  lasthost = none;
  queues = record (s.queues) { retr = less s.queues.retr };
}

-- With `z` clear and no cookie to fetch, the datagram that is due is chosen.
pub choose-queued :
    (s : Sender) (c : Origin) (d : SendData)
    → s.z ≡ false
    → s.cookies.ck_full ≡ 0
    → due s.queues ≡ some (c, d)
    → choose s ≡ some (c, d, without c s)
unfolding choose take_send take_queued pop
choose-queued s plain d hz hc h = ground arith
choose-queued s prio d hz hc h = ground arith
choose-queued s retr d hz hc h = ground arith

choose-cookie :
    (s : Sender) {d : SendData} {ck : Cookies}
    → s.z ≡ false
    → 0 < s.cookies.ck_full
    → get_cookie_data (record (s.cookies) { ck_full = s.cookies.ck_full - 1 }) ≡ some (d, ck)
    → choose s ≡ some (plain, d, record s { lasthost = none; cookies = ck })
unfolding choose
choose-cookie s hz hc cookie = ground arith

pub due-none : (q : Queues) → due q ≡ none → queued q ≡ 0
due-none q h = ground arith

due-count : (q : Queues) (c : Origin) (d : SendData) → due q ≡ some (c, d) → 0 < queued q
due-count q c d h = ground arith

pub signal_puller-some :
    (s : Sender)
    → 0 < s.bandwidth
    → (n : ℕ) × (signal_puller s ≡ some (record s { produce_block = n }))
unfolding signal_puller
signal_puller-some s h = elim (Bool-cases (hit_treshold s)) [
  | inl hit ↦ (s.produce_block + 1, ground arith)
  | inr miss ↦ (s.produce_block, ground arith)
]

-- The variables when a datagram is chosen: the puller may have been signalled, and `sFull` is passed.
abbrev pub passed : ℕ → Sender → Sender
passed n s = record s {
  produce_block = n;
  queues = record (s.queues) { s_full = s.queues.s_full - 1 };
}

pub finish-sends :
    (t_start t_end : Timeval) (sendto_ok : Bool) (c : Origin) (d : SendData) (s : Sender)
    → finish t_start t_end sendto_ok c d s
      ≡ Outcome.sends (completed t_end d s) (after_send t_start t_end sendto_ok c d s)
unfolding finish
finish-sends t_start t_end sendto_ok c d s = refl

pub packet_send-waits :
    (t_start t_end : Timeval) (bw_locked sendto_ok : Bool) (s : Sender)
    → 0 < s.bandwidth
    → s.queues.s_full ≡ 0
    → packet_send t_start t_end bw_locked sendto_ok s ≡ Outcome.waits
unfolding packet_send
packet_send-waits t_start t_end bw_locked sendto_ok s hb h =
    let (n, e) = signal_puller-some s hb in rw (e, packet_send, h)

pub packet_send-chosen :
    (t_start t_end : Timeval) (bw_locked sendto_ok : Bool) (s : Sender) {c : Origin} {d : SendData}
    {s' : Sender} (n : ℕ)
    → signal_puller s ≡ some (record s { produce_block = n })
    → 0 < s.queues.s_full
    → choose (passed n s) ≡ some (c, d, s')
    → packet_send t_start t_end bw_locked sendto_ok s
      ≡ (if bw_locked then Outcome.holds c d s' else finish t_start t_end sendto_ok c d s')
unfolding packet_send
packet_send-chosen t_start t_end bw_locked sendto_ok s n e h chosen = ground arith

pub after_send-IsBalanced :
    (t_start t_end : Timeval) (sendto_ok : Bool) (c : Origin) (d : SendData) (n : ℕ) (s : Sender)
    → due s.queues ≡ some (c, d)
    → IsBalanced s.queues
    → IsBalanced (after_send t_start t_end sendto_ok c d (without c (passed n s))).queues
      × (queued s.queues
          ≡ queued (after_send t_start t_end sendto_ok c d (without c (passed n s))).queues + 1)
unfolding after_send
after_send-IsBalanced t_start t_end sendto_ok plain d n s h b = (ground arith, ground arith)
after_send-IsBalanced t_start t_end sendto_ok prio d n s h b = (ground arith, ground arith)
after_send-IsBalanced t_start t_end sendto_ok retr d n s h b = (ground arith, ground arith)

without-count :
    (c : Origin) (d : SendData) (n : ℕ) (s : Sender)
    → due s.queues ≡ some (c, d)
    → queued s.queues ≡ queued (without c (passed n s)).queues + 1
without-count plain d n s h = ground arith
without-count prio d n s h = ground arith
without-count retr d n s h = ground arith

due-Fits : (q : Queues) (c : Origin) (d : SendData) → QueuesFit q → due q ≡ some (c, d) → Fits d
due-Fits q plain d fit h = ground (arith, fit.send (head q.send))
due-Fits q prio d fit h = ground (arith, fit.prio (head q.prio))
due-Fits q retr d fit h = ground (arith, fit.retr (head q.retr))

pub completed-Short :
    (t_end : Timeval) (d : SendData) (s : Sender) → Fits d → Short (completed t_end d s)
unfolding completed append_port mark_consecutive add_cookie append_ack
completed-Short t_end d s h = ground arith

pub due-Short :
    (t_end : Timeval) (q : Queues) {c : Origin} {d : SendData} (taken : Sender)
    → QueuesFit q
    → due q ≡ some (c, d)
    → Short (completed t_end d taken)
due-Short t_end q {c} {d} taken fit h = completed-Short t_end d taken (due-Fits q c d fit h)

-- With the semaphores balanced and no cookie to fetch, `packet_send` outside of a consecutive pair
-- waits on `sFull` exactly if no datagram waits to be sent. Else it takes the one that is due: the
-- oldest of the priority queue, or if that is empty of the retransmissions, or if these are none of
-- the block data. While `bws_thread` holds `bwLock`, the call waits with that datagram in hand; else
-- it hands the datagram on, and the semaphores are balanced again. A bandwidth of 0 is ruled out, and so
-- are datagrams in the queues that are longer than a fragment of MTU bytes: with the number and the
-- port behind it, what is sent has room in the array.
pub packet_send_lem :
    (t_start t_end : Timeval) (bw_locked sendto_ok : Bool) (s : Sender)
    → 0 < s.bandwidth
    → s.z ≡ false
    → s.cookies.ck_full ≡ 0
    → IsBalanced s.queues
    → QueuesFit s.queues
    → let out = packet_send t_start t_end bw_locked sendto_ok s in
      ((out ≡ Outcome.waits) × (queued s.queues ≡ 0))
      ⊎ ((c : Origin) × (d : SendData) × (taken s' : Sender) × (due s.queues ≡ some (c, d))
          × (out ≡ (
              if bw_locked
              then Outcome.holds c d taken
              else Outcome.sends (completed t_end d taken) s'))
          × Short (completed t_end d taken)
          × (queued s.queues ≡ queued taken.queues + 1)
          × IsBalanced s'.queues
          × (queued s.queues ≡ queued s'.queues + 1))
packet_send_lem t_start t_end bw_locked sendto_ok s hb hz hc b fit =
    elim (Option-cases (due s.queues)) [
      | inl idle ↦
          let zero_queued = due-none s.queues idle in
          inl (packet_send-waits t_start t_end bw_locked sendto_ok s hb (omega arith), zero_queued)
      | inr (x, waiting) ↦
          let (n, e) = signal_puller-some s hb in
          let count = due-count s.queues x.0 x.1 waiting in
          let chosen = choose-queued (passed n s) x.0 x.1 hz hc waiting in
          let (balanced, less_queued) =
            after_send-IsBalanced t_start t_end sendto_ok x.0 x.1 n s waiting b in
          inr (
            x.0,
            x.1,
            without x.0 (passed n s),
            after_send t_start t_end sendto_ok x.0 x.1 (without x.0 (passed n s)),
            waiting,
            packet_send-chosen t_start t_end bw_locked sendto_ok s n e (omega arith) chosen
                ∙ ap
                    (λ (o : Outcome).
                      if bw_locked then Outcome.holds x.0 x.1 (without x.0 (passed n s)) else o)
                    (finish-sends t_start t_end sendto_ok x.0 x.1 (without x.0 (passed n s))),
            due-Short t_end s.queues (without x.0 (passed n s)) fit waiting,
            without-count x.0 x.1 n s waiting,
            balanced,
            less_queued,
          )
    ]

-- A cookie passes `sFull`, which counts the datagrams of the queues, and gives a place back to
-- `qEmpty`, though it stands in no queue: after one has been sent from balanced queues, `sFull` is
-- below the number of datagrams that wait, and `qEmpty` above the number of free places.
cookie_unbalances :
    (t_start t_end : Timeval) (sendto_ok : Bool) (s : Sender) {d : SendData} {ck : Cookies}
    → 0 < s.bandwidth
    → s.z ≡ false
    → 0 < s.cookies.ck_full
    → get_cookie_data (record (s.cookies) { ck_full = s.cookies.ck_full - 1 }) ≡ some (d, ck)
    → IsBalanced s.queues
    → 0 < queued s.queues
    → (out : SendData) × (s' : Sender) × (packet_send t_start t_end false sendto_ok s
        ≡ Outcome.sends out s')
      × (queued s'.queues ≡ queued s.queues)
      × (s'.queues.s_full + 1 ≡ queued s'.queues)
      × (s'.queues.q_empty + queued s'.queues ≡ capacity * 3 + 1)
unfolding after_send
cookie_unbalances t_start t_end sendto_ok s {d} {ck} hb hz hc cookie b h =
    let (n, e) = signal_puller-some s hb in
    let taken : Sender = record (passed n s) { lasthost = none; cookies = ck } in
    (
      completed t_end d taken,
      after_send t_start t_end sendto_ok plain d taken,
      packet_send-chosen t_start t_end false sendto_ok s n e (omega arith)
            (choose-cookie (passed n s) hz hc cookie)
          ∙ finish-sends t_start t_end sendto_ok plain d taken,
      refl,
      omega arith,
      omega arith,
    )
