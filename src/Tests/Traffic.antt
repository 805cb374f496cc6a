-- ===== src/Tests/Traffic.antt =====
-- The queues, the sending thread, the lists of waiting datagrams and the ring to the Python side.
use bora.Prelude.{
  List, ℕ, ◌≤◌, ◌+◌, ◌≡◌, ◌⊎◌, refl, true, false, none, some, [], ◌∷◌, if◌then◌else◌, u64, max,
  arith,
}
use bora.Prelude.Int.{pos}
use bora.Net.{SockaddrIn, SendData, addr_eq, send_data_size}
use bora.Net.Time.{timer_lt, time_to_usec}
use bora.Codec.{AckReceived}
use bora.Queues.{Ring, Queues, push, init_queues, send_data, lane}
use bora.Queues.Fifo.{IsValid}
use bora.Queues.Fit.{Short, QueuesFit, send_data-QueuesFit}
use bora.Queues.Routing.{
  IsBalanced, Sent, queued, init_queues-IsBalanced, send_data-IsBalanced, send_data_lem,
}
use bora.Nacks.{
  Ack, NackPeer, append_ack, pop_ack, strip_ack, nack_find_by_host, count, resend_ooo_nacks,
  resend_timeout_nacks,
}
use bora.Nacks.Cookie.{with_peer, pop_ack-append_ack}
use bora.Nacks.Purge.{keep}
use bora.Nacks.Resend.{
  passing, resent, send_all, in_time, late, resend_ooo_nacks_lem, resend_timeout_nacks_lem,
}
use bora.Cookies.{AckStore}
use bora.Sender.{Sender, Origin, Outcome, packet_send, completed}
use bora.Sender.Round.{Environment, send_with}
use bora.Sender.Drain.{waiting, send_calls, AllCompleted, IsReady, drain}
use bora.Sender.Choice.{due, packet_send_lem}
use bora.PeerAcks.{
  PeerAckStore, AckState, find_peer_by_host, first_heard, ack_received, get_timeout_value,
}
use bora.PeerAcks.Heard.{rtt_of, ack_received-next}
use bora.Biter.{IncomingData, Biter, init_biter}
use bora.Biter.Fifo.{init_biter-IsBalanced}
use bora.Tests.{
  blank, alice, bob, at, blank_datagram, asking, waiting_ack, two_waiting, no_cookies, no_answer,
  idle_sender,
}

abbrev no_queues : Queues
no_queues = init_queues (λ i. blank_datagram)

no_queues-IsBalanced : IsBalanced no_queues
no_queues-IsBalanced = init_queues-IsBalanced (λ i. blank_datagram)

abbrev one_queued : Queues
one_queued = send_data asking no_queues

one_queued-IsBalanced : IsBalanced one_queued
one_queued-IsBalanced = send_data-IsBalanced asking no_queues-IsBalanced

send_data_lem_example : Sent asking one_queued (send_data asking one_queued)
send_data_lem_example = send_data_lem asking one_queued-IsBalanced

no_queues-Fit : QueuesFit no_queues
unfolding init_queues
no_queues-Fit = record { prio = λ i. omega arith; retr = λ i. omega arith; send = λ i. omega arith }

one_queued-Fit : QueuesFit one_queued
one_queued-Fit = send_data-QueuesFit asking no_queues (omega arith) no_queues-Fit

-- the write has just gone round
abbrev one_item : Ring
one_item = record { buf = λ i. asking; c = 0; f = 1 }

one_item-IsValid : IsValid one_item
one_item-IsValid = omega arith

abbrev busy_sender : Sender
busy_sender = record idle_sender { queues = one_queued }

packet_send_lem_example :
    let out = packet_send (at 1) (at 2) true true busy_sender in
    ((out ≡ Outcome.waits) × (queued one_queued ≡ 0))
    ⊎ ((c : Origin) × (d : SendData) × (taken s' : Sender) × (due one_queued ≡ some (c, d))
        × (out ≡ (
            if true then Outcome.holds c d taken else Outcome.sends (completed (at 2) d taken) s'))
        × Short (completed (at 2) d taken)
        × (queued one_queued ≡ queued taken.queues + 1)
        × IsBalanced s'.queues
        × (queued one_queued ≡ queued s'.queues + 1))
packet_send_lem_example =
    packet_send_lem (at 1) (at 2) true true busy_sender (omega arith) refl refl
      one_queued-IsBalanced one_queued-Fit

abbrev one_call : List Environment
one_call = record { t_start = at 1; t_end = at 2; bw_locked = false; sendto_ok = true } ∷ []

busy_sender-IsReady : IsReady busy_sender
busy_sender-IsReady = record {
  bandwidth = omega arith;
  no_pair = refl;
  no_cookie = refl;
  balanced = one_queued-IsBalanced;
  room = one_queued-Fit;
}

drain_example :
    (sent : List SendData) × (s' : Sender) × (send_calls one_call busy_sender ≡ some (sent, s'))
    × AllCompleted busy_sender.nat_port one_call (waiting one_queued) sent
    × IsBalanced s'.queues
    × ((e : Environment) → send_with e s' ≡ Outcome.waits)
unfolding send_data init_queues push lane
drain_example = drain one_call busy_sender (refl, tt) busy_sender-IsReady refl

pop_ack-append_ack_example :
    let (d', l, st') = append_ack asking (at 60) 0 two_waiting in
    (l ≤ send_data_size)
    × (strip_ack d'.contents l ≡ st'.seq_num)
    × (pop_ack st'.seq_num bob st' ≡ (
      some (record { seq = st'.seq_num; sendtime = at 60; sleeptime = 0; d = asking }),
      record { peers = with_peer bob two_waiting.peers; seq_num = st'.seq_num },
    ))
pop_ack-append_ack_example = pop_ack-append_ack asking (at 60) 0 two_waiting (omega arith)

resend_ooo_nacks_lem_example :
    let older = λ (a : Ack). timer_lt a.sendtime (at 45) in
    let (n, st', q') = resend_ooo_nacks (waiting_ack 6 45) two_waiting no_queues in
    IsBalanced q'
    × (((nack_find_by_host bob two_waiting.peers ≡ none)
          × (n ≡ 0)
          × (st' ≡ two_waiting)
          × (q' ≡ no_queues))
        ⊎ ((p : NackPeer) × (nack_find_by_host bob two_waiting.peers ≡ some p)
            × (nack_find_by_host bob st'.peers ≡ some (record p { nacks = keep older p.nacks }))
            × ((other : SockaddrIn)
                → addr_eq bob other ≡ false
                → nack_find_by_host other st'.peers ≡ nack_find_by_host other two_waiting.peers)
            × (n ≡ count (passing older p.nacks))
            × (q' ≡ send_all (resent (passing older p.nacks)) no_queues)))
resend_ooo_nacks_lem_example =
    resend_ooo_nacks_lem (waiting_ack 6 45) two_waiting no_queues-IsBalanced

resend_timeout_nacks_lem_example :
    let (n, st', q') = resend_timeout_nacks (λ host. 5_000_000) (at 48) two_waiting no_queues in
    let gone = late (λ host. 5_000_000) (time_to_usec (at 48)) two_waiting.peers in
    (st' ≡ record two_waiting {
      peers = in_time (λ host. 5_000_000) (time_to_usec (at 48)) two_waiting.peers;
    })
    × (n ≡ count gone)
    × (q' ≡ send_all (resent gone) no_queues)
    × IsBalanced q'
resend_timeout_nacks_lem_example =
    resend_timeout_nacks_lem (λ host. 5_000_000) (at 48) two_waiting no_queues-IsBalanced

abbrev answer_from : SockaddrIn → AckStore
answer_from host = record no_answer { addr = host }

abbrev ack_state : AckState
ack_state = record {
  acks = record { peers = []; highest_seq = none };
  nacks = two_waiting;
  cookies = no_cookies;
  queues = no_queues;
}

abbrev reply : AckReceived
reply = record { flags = 2; seq = 5; sec = pos 51; usec = pos 0; cons = 1 }

abbrev known : PeerAckStore
known = first_heard (answer_from bob)

abbrev known_state : AckState
known_state = record ack_state { acks = record { peers = known ∷ []; highest_seq = none } }

ack_received-next_example :
    let after = ack_received true (waiting_ack 5 50) reply (at 53) bob known_state in
    let rtt = rtt_of (waiting_ack 5 50) reply (at 53) bob in
    ((p' : PeerAckStore) × (find_peer_by_host bob after.acks.peers ≡ some p')
      × (p'.total_acked ≡ u64 (known.total_acked + 1))
      × (p'.min_rtt ≡ (if timer_lt rtt known.min_rtt then rtt else known.min_rtt))
      × (p'.last_rtt ≡ time_to_usec rtt)
      × ((times_1_2 : ℕ → ℕ)
          → get_timeout_value times_1_2 bob after.acks.peers
            ≡ max (times_1_2 (time_to_usec rtt)) 10000))
    × ((other : SockaddrIn)
        → addr_eq bob other ≡ false
        → find_peer_by_host other after.acks.peers ≡ find_peer_by_host other (known ∷ []))
unfolding find_peer_by_host first_heard
ack_received-next_example =
    ack_received-next true (waiting_ack 5 50) reply (at 53) bob known_state refl

abbrev message : IncomingData
message = record { host = alice; fromlen = 16; buf = blank; buflen = 4; tv = at 1 }

abbrev empty_biter : Biter
empty_biter = init_biter (record {
  b_biter_s = λ i. pos 0;
  b_biter_b = λ i. pos 0;
  b_biter_d = λ i. message;
  s_biter_full = 0;
  s_biter_empty = 0;
  write_c = 0;
  read_c = 0;
})

empty_biter-IsBalanced : bora.Biter.Fifo.IsBalanced empty_biter
empty_biter-IsBalanced = (init_biter-IsBalanced _ refl refl).0
