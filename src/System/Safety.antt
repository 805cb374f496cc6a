-- ===== src/System/Safety.antt =====
-- What holds in every state of a session.
use bora.Prelude.{subst, sym, refl, Array, []}
use bora.Biter.{IncomingData}
use bora.Sender.Round.{send_consecutive, send_next}
use bora.Sender.Turns.{AllShort, send_consecutive-IsOn, send_next-IsOn}
use bora.Receiver.Buffers.{current}
use bora.Bindings.{Library}
use bora.Bindings.Guards.{listen_on-closed}
use bora.System.Calls.{Called-LibSafe}
use bora.System.{
  Trace, Reached, starts, calls, sends_pair, sends_next, claims, fills, takes, handles, pulls,
  offers, accepts,
}
use bora.System.Steps.{
  IsSafe, same_safe, opened_safe, processed-LibSafe, pulled, TurnKept, turn-TurnKept,
}

-- Both statements below at once.
kept :
    {memory : Array IncomingData} {h : Trace} {lib : Library}
    → Reached memory h lib
    → IsSafe h.cookies lib × AllShort h.sent
kept (starts {lib} new_sock port f made no_error low high) = (
  subst (λ c. IsSafe 0 c.1)
      (sym (listen_on-closed lib new_sock port f.closed made no_error low high))
      (opened_safe new_sock lib f),
  tt,
)
kept (calls r c) = let (k, sent) = kept r in (same_safe (Called-LibSafe c k), sent)
kept (sends_pair {h} {lib} e r done) =
    let (k, sent) = kept r in
    subst (TurnKept h.cookies lib h) done (
      turn-TurnKept lib h (send_consecutive e lib.sender) k sent
        (send_consecutive-IsOn e lib.sender k.sender))
kept (sends_next {h} {lib} e r done) =
    let (k, sent) = kept r in
    subst (TurnKept h.cookies lib h) done (
      turn-TurnKept lib h (send_next e [] lib.sender) k sent
        (send_next-IsOn e [] lib.sender k.sender tt))
kept (claims r room idle) =
    let (k, sent) = kept r in
    (
      record {
        cache = k.cache;
        distinct = k.distinct;
        biter = k.biter;
        sender = k.sender;
        bpuller = k.bpuller;
        buffers = refl;
      },
      sent,
    )
kept (fills d r filling) =
    let (k, sent) = kept r in
    (
      record {
        cache = k.cache;
        distinct = k.distinct;
        biter = k.biter;
        sender = k.sender;
        bpuller = k.bpuller;
        buffers = refl;
      },
      sent,
    )
kept (takes r full idle) =
    let (k, sent) = kept r in
    (
      record {
        cache = k.cache;
        distinct = k.distinct;
        biter = k.biter;
        sender = k.sender;
        bpuller = k.bpuller;
        buffers = refl;
      },
      sent,
    )
kept (handles {h} {lib} retransmission m r working e) =
    let (k, sent) = kept r in
    let done = processed-LibSafe retransmission m (current lib.buffers) k e in
    (
      record {
        cache = done.cache;
        distinct = done.distinct;
        biter = done.biter;
        sender = done.sender;
        bpuller = done.bpuller;
        buffers = refl;
      },
      sent,
    )
kept (pulls {h} {lib} {goes_on} {p} r e) =
    let (k, sent) = kept r in
    (
      record {
        cache = k.cache;
        distinct = k.distinct;
        biter = k.biter;
        sender = k.sender;
        bpuller = pulled lib.kill_bora_threads goes_on lib.bpuller p k.bpuller e;
        buffers = refl;
      },
      sent,
    )
kept (offers r e) =
    let (k, sent) = kept r in
    (
      record {
        cache = k.cache;
        distinct = k.distinct;
        biter = k.biter;
        sender = k.sender;
        bpuller = k.bpuller;
        buffers = refl;
      },
      sent,
    )
kept (accepts r e) =
    let (k, sent) = kept r in
    (
      record {
        cache = k.cache;
        distinct = k.distinct;
        biter = k.biter;
        sender = k.sender;
        bpuller = k.bpuller;
        buffers = refl;
      },
      sent,
    )

-- In every state of a session in which `send_block` is asked only for blocks that are complete or
-- not there, and `add_block` is given less than 2 ^ 31 bytes: all blocks are sound and no two have
-- the same identifier. The rings of the queues and the ring to the Python side are valid, the
-- semaphores of the latter and of the puller add up, and those of the queues are off by exactly the
-- number of cookies that have been sent. All that waits to be sent or to be acknowledged is at most
-- a fragment of MTU bytes long.
pub reached_safe :
    {memory : Array IncomingData} {h : Trace} {lib : Library}
    → Reached memory h lib
    → IsSafe h.cookies lib
reached_safe r = (kept r).0

-- In a session in which `send_block` is asked only for blocks that are complete or not there, and
-- `add_block` is given less than 2 ^ 31 bytes: every datagram that has gone to the socket is at
-- most a fragment of MTU bytes, a number and a port long, so that it stands in the 1500 bytes of
-- the arrays of both sides.
pub sent_short :
    {memory : Array IncomingData} {h : Trace} {lib : Library}
    → Reached memory h lib
    → AllShort h.sent
sent_short r = (kept r).1
