-- ===== src/Bindings/Safe.antt =====
-- The state that is safe, and what the functions that Python calls keep of it.
pub mod Blocks
pub mod Messages
pub mod Counters
pub mod Control
use bora.Prelude.{
  ℕ, ◌+◌, ◌<◌, ◌≡◌, Bool, true, false, Bool-cases, Option-cases, inl, inr, Option, none, some,
  Array, List, length, bytes, ltb, ◌==◌, not, arith,
}
use bora.Prelude.Int.{ℤ, pos, to_u32, eqb_ℤ}
use bora.Net.{SockaddrIn, SendData}
use bora.Net.Time.{Timeval}
use bora.Queues.{Queues, send_data}
use bora.Queues.Drift.{IsOffBy, send_data-IsOffBy}
use bora.Queues.Fit.{Fits, QueuesFit, send_data-QueuesFit}
use bora.BlockCache.{Block, iscomplete}
use bora.BlockCache.Bounds.{AllSound}
use bora.BlockCache.Distinct.{AllDistinct}
use bora.BlockCache.Invariant.{addblock-AllSound, deleteblock-AllSound}
use bora.BlockCache.Handing.{sendblock_keeps}
use bora.Sender.Drift.{IsSafeAt, SenderSafe}
use bora.Biter.{biter_next}
use bora.Biter.Fifo.{IsBalanced, biter_next-IsBalanced}
use bora.Receiver.Buffers.{Buffers}
use bora.BwControl.{n_bpuller, bpuller_next}
use bora.Bindings.{
  Library, Reply, Call, none_value, value, raises, stops, waits, and_then, return, access, change,
  none_if_dead, need_sock, parsed, address, bad_port, raise_if, port_number_not_allowed,
  socket_address, true_or_none, to_u16, with_queues, ◌>>=◌, ◌>>◌,
}
use bora.Bindings.Blocks.{
  send_block, add_block, del_block, incomplete_block_list, complete_block_list, content_of,
  get_block_content,
}

-- The number of cookies that have been sent in this session, and the buffers of the receiving threads,
-- which no call touches.
pub record Known : Type 0 where
  pub cookies : ℕ
  pub buffers : Buffers

pub record LibSafe (n : Known) (lib : Library) : Type 0 where
  pub cache : AllSound lib.cache
  pub distinct : AllDistinct lib.cache
  pub biter : IsBalanced lib.biter
  pub sender : SenderSafe n.cookies lib.sender
  pub bpuller : lib.bpuller.s_bpuller_full + lib.bpuller.s_bpuller_empty ≡ n_bpuller
  pub buffers : lib.buffers ≡ n.buffers

-- What `send_data` keeps.
pub record Sendable (n : ℕ) (q : Queues) : Type 0 where
  pub counts : IsOffBy n q
  pub room : QueuesFit q

pub send_data-Sendable :
    (n : ℕ) (d : SendData) (q : Queues) → Fits d → Sendable n q → Sendable n (send_data d q)
send_data-Sendable n d q fits p = record {
  counts = send_data-IsOffBy d p.counts;
  room = send_data-QueuesFit d q fits p.room;
}

pub sendable : {n : Known} {lib : Library} → LibSafe n lib → Sendable n.cookies lib.sender.queues
sendable k = record { counts = k.sender.counts; room = k.sender.room }

pub with_queues-LibSafe :
    {n : Known} (q : Queues) (lib : Library)
    → Sendable n.cookies q
    → LibSafe n lib
    → LibSafe n (with_queues q lib)
with_queues-LibSafe q lib p k = record {
  cache = k.cache;
  distinct = k.distinct;
  biter = k.biter;
  sender = record {
    counts = p.counts;
    room = p.room;
    nacks_fit = k.sender.nacks_fit;
    cookies_fit = k.sender.cookies_fit;
  };
  bpuller = k.bpuller;
  buffers = k.buffers;
}

-- A statement and the rest of the function, and what both of them keep.
module _ (I : Library → Type 0) where
  and_then_keeps {ℓ κ} :
      {A : Type ℓ} {B : Type κ} (r : Reply A) (lib : Library) (f : A → Call B)
      → I lib
      → ((a : A) (lib : Library) → I lib → I (f a lib).1)
      → I (and_then r lib f).1
  and_then_keeps (value a) lib f k next = next a lib k
  and_then_keeps none_value lib f k next = k
  and_then_keeps (raises e) lib f k next = k
  and_then_keeps stops lib f k next = k
  and_then_keeps waits lib f k next = k

  pub bind_keeps {ℓ κ} :
      {A : Type ℓ} {B : Type κ} (m : Call A) (f : A → Call B) (lib : Library)
      → I (m lib).1
      → ((a : A) (lib : Library) → I lib → I (f a lib).1)
      → I ((m >>= f) lib).1
  bind_keeps m f lib k next = and_then_keeps (m lib).0 (m lib).1 f k next

  -- The checks that a call begins with change nothing.
  pub none_if_dead_keeps {ℓ} :
      {B : Type ℓ} (f : Unit → Call B) (lib : Library)
      → I lib
      → ((lib : Library) → I lib → I (f tt lib).1)
      → I ((none_if_dead >>= f) lib).1
  unfolding none_if_dead
  none_if_dead_keeps f lib k next = bind_keeps none_if_dead f lib k (λ a lib k. next lib k)

  pub need_sock_keeps {ℓ} :
      {B : Type ℓ} (f : Unit → Call B) (lib : Library)
      → I lib
      → ((lib : Library) → I lib → I (f tt lib).1)
      → I ((need_sock >>= f) lib).1
  unfolding need_sock
  need_sock_keeps f lib k next = bind_keeps need_sock f lib k (λ a lib k. next lib k)

  pub parsed_keeps {ℓ κ} :
      {A : Type ℓ} {B : Type κ} (args : Option A) (f : A → Call B) (lib : Library)
      → I lib
      → ((a : A) (lib : Library) → I lib → I (f a lib).1)
      → I ((parsed args >>= f) lib).1
  parsed_keeps none f lib k next = k
  parsed_keeps (some a) f lib k next = next a lib k

  pub address_keeps {ℓ} :
      {B : Type ℓ} (inet_pton : List ℕ → Option ℕ) (dest : List ℕ) (f : ℕ → Call B) (lib : Library)
      → I lib
      → ((a : ℕ) (lib : Library) → I lib → I (f a lib).1)
      → I ((address inet_pton dest >>= f) lib).1
  unfolding address
  address_keeps inet_pton dest f lib k next = bind_keeps (address inet_pton dest) f lib k next

  pub raise_if_keeps {ℓ} :
      {B : Type ℓ} (b : Bool) (e : bora.Bindings.Error) (f : Unit → Call B) (lib : Library)
      → I lib
      → ((lib : Library) → I lib → I (f tt lib).1)
      → I ((raise_if b e >>= f) lib).1
  raise_if_keeps b e f lib k next = bind_keeps (raise_if b e) f lib k (λ a lib k. next lib k)

  pub true_or_none_keeps : (b : Bool) (lib : Library) → I lib → I (true_or_none b lib).1
  true_or_none_keeps true lib k = k
  true_or_none_keeps false lib k = k
