-- ===== src/System/Steps.antt =====
-- What the steps of the threads keep.
use bora.Prelude.{
  ℕ, ◌+◌, ◌-◌, Bool, ◌≡◌, subst, sym, refl, some, inl, inr, Bool-cases, Array, List, [], ◌∷◌, ◌++◌,
  ◌==◌, arith,
}
use bora.Prelude.Int.{pos}
use bora.Cookies.Fit.{init_cksender-CookiesFit}
use bora.Biter.{IncomingData}
use bora.Biter.Fifo.{init_biter-IsBalanced}
use bora.Sender.{Sender}
use bora.Sender.Round.{Turn}
use bora.Sender.Drift.{IsOn, SenderSafe}
use bora.Sender.Turns.{AllShort, AllShort-append, TurnIsOn}
use bora.Receiver.{Receiver, Memory, Result, process}
use bora.Receiver.Keeps.{Processed, process-Kept}
use bora.BwControl.{Bpuller, n_bpuller, block_pull, send_pull}
use bora.Bindings.{Library, receiver_of, with_receiver}
use bora.Bindings.Session.{init_all, init_sender}
use bora.Bindings.Safe.{Known, LibSafe, Sendable, send_data-Sendable, sendable}
use bora.System.{Trace, IsFresh}

-- All that is safe in a state, whatever the buffers are, with the number of cookies that were sent.
abbrev pub IsSafe : ℕ → Library → Type 0
IsSafe n lib = LibSafe (record { cookies = n; buffers = lib.buffers }) lib

pub same_safe : {n : Known} {lib : Library} → LibSafe n lib → IsSafe n.cookies lib
same_safe k = record {
  cache = k.cache;
  distinct = k.distinct;
  biter = k.biter;
  sender = k.sender;
  bpuller = k.bpuller;
  buffers = refl;
}

init_all-LibSafe :
    {memory : Array IncomingData} (lib : Library) → IsFresh memory lib → IsSafe 0 (init_all lib)
unfolding init_all init_sender bora.Biter.init_biter bora.BwControl.init_bpuller
init_all-LibSafe lib f = record {
  cache = f.cache;
  distinct = f.distinct;
  biter = (init_biter-IsBalanced lib.biter f.write_at f.read_at).0;
  sender = record {
    counts = record {
      prio = f.prio;
      retr = f.retr;
      send = f.send;
      full = ground (arith, f.empty);
      empty = ground (arith, f.empty);
    };
    room = record { prio = f.room.prio; retr = f.room.retr; send = f.room.send };
    nacks_fit = f.nacks_fit;
    cookies_fit = init_cksender-CookiesFit lib.sender.cookies f.cookies_fit;
  };
  bpuller = ground arith;
  buffers = refl;
}

pub opened_safe :
    {memory : Array IncomingData} (new_sock : bora.Prelude.Int.ℤ) (lib : Library)
    → IsFresh memory lib
    → IsSafe 0 (init_all (record lib { sock = new_sock }))
unfolding init_all
opened_safe new_sock lib f =
    let k = init_all-LibSafe lib f in
    record {
      cache = k.cache;
      distinct = k.distinct;
      biter = k.biter;
      sender = k.sender;
      bpuller = k.bpuller;
      buffers = refl;
    }

-- A part of a round of the sending thread.
turned :
    {n : ℕ} (lib : Library) (s : Sender)
    → IsSafe n lib
    → IsOn n lib.sender s
    → IsSafe (n + (lib.sender.cookies.ck_full - s.cookies.ck_full)) (record lib { sender = s })
turned {n} lib s k on =
    let same : n + on.cookies ≡ n + (lib.sender.cookies.ck_full - s.cookies.ck_full) =
      omega (arith, on.fetched) in
    record {
      cache = k.cache;
      distinct = k.distinct;
      biter = k.biter;
      sender = subst (λ m. SenderSafe m s) same on.safe;
      bpuller = k.bpuller;
      buffers = refl;
    }

-- A round of the processing thread.
pub processed-LibSafe :
    {n : ℕ} {lib : Library} (retransmission : Bool) (m : Memory) (d : IncomingData) {r : Receiver}
    → IsSafe n lib
    → process retransmission m d (receiver_of lib) ≡ Result.done r
    → IsSafe n (with_receiver r lib)
processed-LibSafe {n} {lib} retransmission m d k e =
    let kept = subst (Processed (Sendable n) (send_data-Sendable n)) e (
      process-Kept (Sendable n) (send_data-Sendable n) retransmission m d (receiver_of lib)
        (record {
          cache = k.cache;
          distinct = k.distinct;
          biter = k.biter;
          ack_state = record {
            nacks = k.sender.nacks_fit;
            cookies = k.sender.cookies_fit;
            queues = sendable k;
          };
        })) in
    record {
      cache = kept.cache;
      distinct = kept.distinct;
      biter = kept.biter;
      sender = record {
        counts = kept.ack_state.queues.counts;
        room = kept.ack_state.queues.room;
        nacks_fit = kept.ack_state.nacks;
        cookies_fit = kept.ack_state.cookies;
      };
      bpuller = k.bpuller;
      buffers = refl;
    }

pub pulled :
    (kill goes_on : Bool) (p p' : Bpuller)
    → p.s_bpuller_full + p.s_bpuller_empty ≡ n_bpuller
    → send_pull kill p ≡ some (goes_on, p')
    → p'.s_bpuller_full + p'.s_bpuller_empty ≡ n_bpuller
unfolding send_pull block_pull
pulled kill goes_on p p' k e = ground arith

abbrev pub TurnKept : ℕ → Library → Trace → Turn → Type 0
TurnKept n lib h (Turn.done out s) =
    IsSafe (n + (lib.sender.cookies.ck_full - s.cookies.ck_full)) (record lib { sender = s })
    × AllShort (h.sent ++ out)
TurnKept n lib h Turn.waits = Unit
TurnKept n lib h Turn.holds = Unit
TurnKept n lib h Turn.dies = Unit

pub turn-TurnKept :
    {n : ℕ} (lib : Library) (h : Trace) (t : Turn)
    → IsSafe n lib
    → AllShort h.sent
    → TurnIsOn n lib.sender t
    → TurnKept n lib h t
turn-TurnKept lib h (Turn.done out s) k sent (on, short) =
    (turned lib s k on, AllShort-append h.sent out sent short)
turn-TurnKept lib h Turn.waits k sent on = tt
turn-TurnKept lib h Turn.holds k sent on = tt
turn-TurnKept lib h Turn.dies k sent on = tt
