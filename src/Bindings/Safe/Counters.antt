-- ===== src/Bindings/Safe/Counters.antt =====
-- The iterators' constructors, the counters and the iterator of the puller keep the state safe.
use bora.Prelude.{ℕ, Bool-cases, inl, inr, Option, List, ◌==◌, arith}
use bora.Prelude.Int.{ℤ, pos, eqb_ℤ}
use bora.BwControl.{bpuller_next}
use bora.Bindings.{Library, need_sock}
use bora.Bindings.Stats.{reset_if, long_of, get_in_stats, get_out_stats, get_bw_stats, get_que_size}
use bora.Bindings.Session.{new_iterator, take_bpuller, bpuller_wake, bpuller_iternext}
use bora.Bindings.Safe.{Known, LibSafe, bind_keeps, none_if_dead_keeps, need_sock_keeps}
use bora.Bindings.Safe.Messages.{stop_if_dead_keeps}

pub new_iterator-LibSafe :
    {n : Known} (lib : Library) → LibSafe n lib → LibSafe n (new_iterator lib).1
unfolding new_iterator need_sock
new_iterator-LibSafe lib k = k

reset_if-LibSafe :
    {n : Known} (rst : ℤ) (lib : Library) → LibSafe n lib → LibSafe n (reset_if rst lib)
unfolding reset_if
reset_if-LibSafe rst lib k = elim (Bool-cases (eqb_ℤ rst (pos 0))) [
  | inl zero_rst ↦ rw zero_rst k
  | inr other ↦ rw other (record {
    cache = k.cache;
    distinct = k.distinct;
    biter = k.biter;
    sender = k.sender;
    bpuller = k.bpuller;
    buffers = k.buffers;
  })
]

pub get_in_stats-LibSafe :
    {n : Known} (arg : Option ℤ) (lib : Library)
    → LibSafe n lib
    → LibSafe n (get_in_stats arg lib).1
unfolding get_in_stats
get_in_stats-LibSafe {n} arg lib k =
    none_if_dead_keeps (LibSafe n) _ lib k (λ lib k. reset_if-LibSafe (long_of arg) lib k)

pub get_out_stats-LibSafe :
    {n : Known} (arg : Option ℤ) (lib : Library)
    → LibSafe n lib
    → LibSafe n (get_out_stats arg lib).1
unfolding get_out_stats
get_out_stats-LibSafe {n} arg lib k =
    none_if_dead_keeps (LibSafe n) _ lib k (λ lib k. reset_if-LibSafe (long_of arg) lib k)

pub get_bw_stats-LibSafe :
    {n : Known} (inet_ntop : ℕ → List ℕ) (lib : Library)
    → LibSafe n lib
    → LibSafe n (get_bw_stats inet_ntop lib).1
unfolding get_bw_stats
get_bw_stats-LibSafe {n} inet_ntop lib k = none_if_dead_keeps (LibSafe n) _ lib k (λ lib k.
    need_sock_keeps (LibSafe n) _ lib k (λ lib k. record {
      cache = k.cache;
      distinct = k.distinct;
      biter = k.biter;
      sender = k.sender;
      bpuller = k.bpuller;
      buffers = k.buffers;
    }))

pub get_que_size-LibSafe :
    {n : Known} (lib : Library) → LibSafe n lib → LibSafe n (get_que_size lib).1
unfolding get_que_size
get_que_size-LibSafe {n} lib k = need_sock_keeps (LibSafe n) _ lib k (λ lib k. k)

take_bpuller-LibSafe : {n : Known} (lib : Library) → LibSafe n lib → LibSafe n (take_bpuller lib).1
unfolding take_bpuller bpuller_next
take_bpuller-LibSafe lib k = elim (Bool-cases (lib.bpuller.s_bpuller_full == 0)) [
  | inl empty ↦ rw (empty, take_bpuller) k
  | inr ready ↦
      rw (ready, take_bpuller)
        (record {
          cache = k.cache;
          distinct = k.distinct;
          biter = k.biter;
          sender = k.sender;
          bpuller = ground (arith, k.bpuller);
          buffers = k.buffers;
        })
]

pub bpuller_wake-LibSafe :
    {n : Known} (lib : Library) → LibSafe n lib → LibSafe n (bpuller_wake lib).1
unfolding bpuller_wake
bpuller_wake-LibSafe {n} lib k =
    bind_keeps (LibSafe n) take_bpuller _ lib (take_bpuller-LibSafe lib k)
      (λ _ lib k. stop_if_dead_keeps (LibSafe n) _ lib k (λ lib k. k))

pub bpuller_iternext-LibSafe :
    {n : Known} (lib : Library) → LibSafe n lib → LibSafe n (bpuller_iternext lib).1
unfolding bpuller_iternext
bpuller_iternext-LibSafe {n} lib k =
    stop_if_dead_keeps (LibSafe n) _ lib k (λ lib k. bpuller_wake-LibSafe lib k)
