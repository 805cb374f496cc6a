-- ===== src/System/Order.antt =====
-- The buffers between the receiving threads, and the sending thread, in every state of a session.
use bora.Prelude.{◌<◌, ◌≡◌, subst, sym, ap, ◌∙◌, Array, [], ◌++◌}
use bora.Biter.{IncomingData}
use bora.Sender.Round.{Environment, send_consecutive, send_next}
use bora.Sender.Progress.{GoesOn, send_consecutive-GoesOn, send_next-GoesOn}
use bora.Receiver.Buffers as Buffers
use bora.Receiver.Buffers.Order.{pending, received_in_order}
use bora.Bindings.{Library}
use bora.Bindings.Session.{init_all}
use bora.Bindings.Guards.{listen_on-closed}
use bora.System.{
  Trace, Reached, starts, calls, sends_pair, sends_next, claims, fills, takes, handles, pulls,
  offers, accepts,
}
use bora.System.Calls.{Called-LibSafe}
use bora.System.Safety.{reached_safe}

-- The session is one of the two receiving threads, too.
Reached-buffers :
    {memory : Array IncomingData} {h : Trace} {lib : Library}
    → Reached memory h lib
    → Buffers.Reached memory h.arrived h.processed lib.buffers
unfolding init_all
Reached-buffers {memory} (starts {lib} new_sock port f made no_error low high) =
    subst (λ b. Buffers.Reached memory [] [] b)
      (sym (
        ap (λ c. c.1.buffers) (listen_on-closed lib new_sock port f.closed made no_error low high)
        ∙ f.buffers))
      Buffers.start
Reached-buffers {memory} {h} (calls r c) =
    subst (Buffers.Reached memory h.arrived h.processed)
      (sym (Called-LibSafe c (reached_safe r)).buffers) (Reached-buffers r)
Reached-buffers (sends_pair e r done) = Reached-buffers r
Reached-buffers (sends_next e r done) = Reached-buffers r
Reached-buffers (claims r room idle) = Buffers.claims (Reached-buffers r) room idle
Reached-buffers (fills d r filling) = Buffers.fills d (Reached-buffers r) filling
Reached-buffers (takes r full idle) = Buffers.takes (Reached-buffers r) full idle
Reached-buffers (handles retransmission m r working e) =
    Buffers.releases (Reached-buffers r) working
Reached-buffers (pulls r e) = Reached-buffers r
Reached-buffers (offers r e) = Reached-buffers r
Reached-buffers (accepts r e) = Reached-buffers r

-- Whatever Python calls and the other threads do in a session in which `send_block` is asked only
-- for blocks that are complete or not there, and `add_block` is given less than 2 ^ 31 bytes: the
-- datagrams that have been processed are the first of those that have arrived, in order and each
-- once, and the others are in the buffers.
pub session_in_order :
    {memory : Array IncomingData} {h : Trace} {lib : Library}
    → Reached memory h lib
    → h.arrived ≡ h.processed ++ pending lib.buffers
session_in_order r = received_in_order (Reached-buffers r)

-- In every state of a session in which `send_block` is asked only for blocks that are complete or
-- not there, and `add_block` is given less than 2 ^ 31 bytes, with a bandwidth above 0 and no
-- cookie to fetch: neither half of a round of the sending thread ends the process. It waits on `bwLock`
-- only while `bws_thread` holds it, which is until Python answers; and where it waits on `sFull`,
-- exactly as many datagrams are left in the queues as cookies have been sent.
pub sender-GoesOn :
    {memory : Array IncomingData} {h : Trace} {lib : Library} (e : Environment)
    → Reached memory h lib
    → e.bw_locked ≡ lib.bws.bw_locked
    → 0 < lib.sender.bandwidth
    → lib.sender.cookies.ck_full ≡ 0
    → GoesOn lib.bws.bw_locked h.cookies lib.sender.queues (send_consecutive e lib.sender)
      × GoesOn lib.bws.bw_locked h.cookies lib.sender.queues (send_next e [] lib.sender)
sender-GoesOn {h = h} {lib} e r lock running no_cookie =
    let counts = (reached_safe r).sender.counts in
    subst
      (λ l.
        GoesOn l h.cookies lib.sender.queues (send_consecutive e lib.sender)
        × GoesOn l h.cookies lib.sender.queues (send_next e [] lib.sender))
      lock
      (send_consecutive-GoesOn e _ running counts, send_next-GoesOn e [] _ running no_cookie counts)
