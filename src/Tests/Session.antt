-- ===== src/Tests/Session.antt =====
-- A session: three messages are given to `send_raw`, two cookies are armed, and the sending thread sends
-- both cookies and the oldest message; then a message arrives and is handled.
use bora.Prelude.{ℕ, ◌<◌, ◌≡◌, refl, true, false, Array, some, List, [], ◌∷◌, ◌++◌, arith}
use bora.Prelude.Int.{pos}
use bora.Net.{SendData}
use bora.Queues.{init_queues, push, lane}
use bora.Queues.Routing.{queued}
use bora.Biter.{IncomingData}
use bora.Cookies.{get_cookie_data}
use bora.Sender.{Sender, choose, signal_puller, packet_send, finish, after_send}
use bora.Sender.Round.{Environment, Turn, send_with, send_consecutive, send_next}
use bora.Sender.Turns.{AllShort}
use bora.Sender.Progress.{GoesOn}
use bora.Receiver.{Receiver, Result, process}
use bora.Receiver.Buffers.{init_buffers, claim, fill, take, current, release}
use bora.Receiver.Buffers.Order.{pending}
use bora.Bindings.{Library, receiver_of, with_receiver}
use bora.Bindings.Messages.{send_raw}
use bora.Bindings.Session.{listen_on}
use bora.Bindings.CookieCall.{arm}
use bora.System.{
  Called, Trace, nothing, IsFresh, after_turn, Reached, starts, calls, sends_next, claims, fills,
  takes, handles,
}
use bora.System.Steps.{IsSafe}
use bora.System.Safety.{reached_safe, sent_short}
use bora.System.Order.{session_in_order, sender-GoesOn}
use bora.Tests.{alice, bob, at, blank_datagram}
use bora.Tests.Python.{pton, unread, closed, any_memory}

abbrev pub memory : Array IncomingData
memory = λ i. unread

closed-IsFresh : IsFresh memory closed
unfolding init_queues init_buffers bora.Biter.init_biter
closed-IsFresh = record {
  closed = refl;
  cache = tt;
  distinct = tt;
  prio = record { write_in = omega arith; count_in = omega arith };
  retr = record { write_in = omega arith; count_in = omega arith };
  send = record { write_in = omega arith; count_in = omega arith };
  empty = refl;
  room = record { prio = λ i. omega arith; retr = λ i. omega arith; send = λ i. omega arith };
  nacks_fit = ((omega arith, (omega arith, tt)), tt);
  cookies_fit = record { bogus = omega arith; first = omega arith; second = omega arith };
  write_at = refl;
  read_at = refl;
  buffers = refl;
}

abbrev pub listening : Library
listening = (listen_on (pos 3) true (some (pos 2000)) closed).1

pub listening-Reached : Reached memory nothing listening
listening-Reached =
    starts (pos 3) 2000 closed-IsFresh (λ e. ground (arith, e)) (λ e. ground (arith, e))
      (omega arith) (omega arith)

abbrev message_to_send : List ℕ
message_to_send = 104 ∷ 101 ∷ 121 ∷ []

abbrev with_message : Library → Library
with_message lib = (send_raw pton blank_datagram (some (message_to_send, 65 ∷ [], pos 2001)) lib).1

with_message-Reached :
    {h : Trace} {lib : Library} → Reached memory h lib → Reached memory h (with_message lib)
with_message-Reached r =
    calls r (Called.sends_raw pton blank_datagram (some (message_to_send, 65 ∷ [], pos 2001)))

abbrev armed : Library
armed = (arm alice bob (with_message (with_message (with_message listening)))).1

armed-Reached : Reached memory nothing armed
armed-Reached =
    calls (with_message-Reached (with_message-Reached (with_message-Reached listening-Reached)))
      (Called.arms_cookies alice bob)

abbrev environment : Environment
environment = record { t_start = at 1; t_end = at 2; bw_locked = false; sendto_ok = true }

abbrev out_of : Turn → List SendData
out_of (Turn.done out s) = out
out_of Turn.waits = []
out_of Turn.holds = []
out_of Turn.dies = []

abbrev sender_of : Turn → Sender → Sender
sender_of (Turn.done out s) s0 = s
sender_of Turn.waits s0 = s0
sender_of Turn.holds s0 = s0
sender_of Turn.dies s0 = s0

abbrev turn : Library → Turn
turn lib = send_next environment [] lib.sender

abbrev turned : Library → Library
turned lib = record lib { sender = sender_of (turn lib) lib.sender }

abbrev later : Trace → Library → Trace
later h lib = after_turn lib (out_of (turn lib)) (turned lib).sender.cookies.ck_full h

abbrev one_sent : Library
one_sent = turned armed

abbrev two_sent : Library
two_sent = turned one_sent

abbrev three_sent : Library
three_sent = turned two_sent

one_sent-Reached : Reached memory (later nothing armed) one_sent
unfolding send_next send_with packet_send signal_puller arm send_raw listen_on push lane init_queues
    choose get_cookie_data finish after_send
one_sent-Reached = sends_next environment armed-Reached refl

abbrev two_later : Trace
two_later = later (later nothing armed) one_sent

two_sent-Reached : Reached memory two_later two_sent
unfolding send_next send_with packet_send signal_puller arm send_raw listen_on push lane init_queues
    choose get_cookie_data finish after_send
two_sent-Reached = sends_next environment one_sent-Reached refl

abbrev three_later : Trace
three_later = later two_later two_sent

three_sent-Reached : Reached memory three_later three_sent
unfolding send_next send_with packet_send signal_puller arm send_raw listen_on push lane init_queues
    choose get_cookie_data finish after_send
three_sent-Reached = sends_next environment two_sent-Reached refl

two_cookies : three_later.cookies ≡ 2
unfolding send_next send_with packet_send signal_puller arm send_raw listen_on push lane init_queues
    choose get_cookie_data finish after_send
two_cookies = refl

two_left : queued three_sent.sender.queues ≡ 2
unfolding send_next send_with packet_send signal_puller arm send_raw listen_on push lane init_queues
    choose get_cookie_data finish after_send
two_left = refl

-- a message of four bytes behind the byte 0
abbrev incoming : IncomingData
incoming = record unread { buflen = 5; tv = at 9 }

abbrev taken : Library
taken = record three_sent { buffers = take (fill incoming (claim three_sent.buffers)) }

abbrev taken_later : Trace
taken_later = record three_later { arrived = incoming ∷ [] }

taken-Reached : Reached memory taken_later taken
unfolding send_next send_with packet_send signal_puller arm send_raw listen_on push lane init_queues
    choose get_cookie_data finish after_send claim fill take init_buffers
taken-Reached =
    takes (fills incoming (claims three_sent-Reached (omega arith) refl) refl) (omega arith) refl

abbrev result_of : Result Receiver → Receiver → Receiver
result_of (Result.done r) r0 = r
result_of Result.waits r0 = r0
result_of Result.faults r0 = r0

abbrev handled : Library
handled =
    record (with_receiver
      (result_of (process true any_memory (current taken.buffers) (receiver_of taken))
        (receiver_of taken))
      taken) { buffers = release taken.buffers }

abbrev handled_later : Trace
handled_later = record taken_later { processed = current taken.buffers ∷ [] }

handled-Reached : Reached memory handled_later handled
unfolding send_next send_with packet_send signal_puller arm send_raw listen_on push lane init_queues
    choose get_cookie_data finish after_send claim fill take process current init_buffers
handled-Reached = handles true any_memory taken-Reached refl refl

reached_safe_example : IsSafe handled_later.cookies handled
reached_safe_example = reached_safe handled-Reached

sent_short_example : AllShort handled_later.sent
sent_short_example = sent_short handled-Reached

session_in_order_example :
    handled_later.arrived ≡ handled_later.processed ++ pending handled.buffers
session_in_order_example = session_in_order handled-Reached

still_running : 0 < three_sent.sender.bandwidth
unfolding send_next send_with packet_send signal_puller arm send_raw listen_on push lane init_queues
    choose get_cookie_data finish after_send
still_running = omega arith

lock_free : environment.bw_locked ≡ three_sent.bws.bw_locked
unfolding listen_on arm send_raw bora.BwControl.init_bws
lock_free = refl

no_cookie_left : three_sent.sender.cookies.ck_full ≡ 0
unfolding send_next send_with packet_send signal_puller arm send_raw listen_on push lane init_queues
    choose get_cookie_data finish after_send
no_cookie_left = refl

sender-GoesOn_example :
    GoesOn three_sent.bws.bw_locked three_later.cookies three_sent.sender.queues
      (send_consecutive environment three_sent.sender)
    × GoesOn three_sent.bws.bw_locked three_later.cookies three_sent.sender.queues
        (send_next environment [] three_sent.sender)
sender-GoesOn_example =
    sender-GoesOn environment three_sent-Reached lock_free still_running no_cookie_left
