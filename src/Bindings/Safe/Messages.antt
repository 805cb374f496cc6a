-- ===== src/Bindings/Safe/Messages.antt =====
-- The calls on messages, and the iterator over what the receiving thread tells, keep the state safe.
use bora.Prelude.{
  ℕ, Bool-cases, Option-cases, inl, inr, Option, none, some, List, [], ◌∷◌, length, ltb, arith,
}
use bora.Prelude.Int.{ℤ}
use bora.Net.{SendData}
use bora.Codec.{encode_bw}
use bora.Biter.{biter_next}
use bora.Biter.Fifo.{biter_next-IsBalanced}
use bora.BwMsgs.{send_bwmsg}
use bora.Bindings.{Library, Call, port_number_not_allowed, bad_port, ◌>>=◌}
use bora.Bindings.Messages.{
  send_raw, raw_message, stop_if_dead, take_biter, biter_wake, biter_iternext, get_bw_msg, BwArg,
  no_dict, dict, send_first, send_bw_msg,
}
use bora.Bindings.Safe.{
  Known, LibSafe, send_data-Sendable, sendable, with_queues-LibSafe, bind_keeps, none_if_dead_keeps,
  need_sock_keeps, address_keeps, raise_if_keeps,
}

-- A message of at most 1400 bytes has room behind it.
pub send_raw-LibSafe :
    {n : Known} (inet_pton : List ℕ → Option ℕ) (stack : SendData)
    (args : Option (List ℕ × List ℕ × ℤ)) (lib : Library)
    → LibSafe n lib
    → LibSafe n (send_raw inet_pton stack args lib).1
unfolding send_raw
send_raw-LibSafe {n} inet_pton stack none lib k =
    none_if_dead_keeps (LibSafe n) _ lib k
      (λ lib k. need_sock_keeps (LibSafe n) _ lib k (λ lib k. k))
send_raw-LibSafe {n} inet_pton stack (some (message, dest, port)) lib k =
    let I = LibSafe n in
    none_if_dead_keeps I _ lib k (λ lib k. need_sock_keeps I _ lib k (λ lib k.
      elim (Bool-cases (ltb 1400 (length message))) [
        | inl long ↦ rw long k
        | inr short ↦ rw short (
            address_keeps I inet_pton dest _ lib k (λ s_addr lib k.
              raise_if_keeps I (bad_port port) port_number_not_allowed _ lib k (λ lib k.
                with_queues-LibSafe _ lib
                  (send_data-Sendable n.cookies (raw_message stack message s_addr port)
                    lib.sender.queues (ground arith) (sendable k))
                  k)))
      ]))

pub stop_if_dead_keeps {ℓ} :
    {B : Type ℓ} (I : Library → Type 0) (f : Unit → Call B) (lib : Library)
    → I lib
    → ((lib : Library) → I lib → I (f tt lib).1)
    → I ((stop_if_dead >>= f) lib).1
unfolding stop_if_dead
stop_if_dead_keeps I f lib k next = bind_keeps I stop_if_dead f lib k (λ a lib k. next lib k)

take_biter-LibSafe : {n : Known} (lib : Library) → LibSafe n lib → LibSafe n (take_biter lib).1
unfolding take_biter
take_biter-LibSafe lib k = elim (Option-cases (biter_next lib.biter)) [
  | inl empty ↦ rw (empty, take_biter) k
  | inr ((entry, b), taken) ↦
      rw (taken, take_biter)
        (record {
          cache = k.cache;
          distinct = k.distinct;
          biter = biter_next-IsBalanced lib.biter k.biter taken;
          sender = k.sender;
          bpuller = k.bpuller;
          buffers = k.buffers;
        })
]

pub biter_wake-LibSafe :
    {n : Known} (inet_ntop : ℕ → List ℕ) (lib : Library)
    → LibSafe n lib
    → LibSafe n (biter_wake inet_ntop lib).1
unfolding biter_wake
biter_wake-LibSafe {n} inet_ntop lib k =
    bind_keeps (LibSafe n) take_biter _ lib (take_biter-LibSafe lib k)
      (λ entry lib k. stop_if_dead_keeps (LibSafe n) _ lib k (λ lib k. k))

pub biter_iternext-LibSafe :
    {n : Known} (inet_ntop : ℕ → List ℕ) (lib : Library)
    → LibSafe n lib
    → LibSafe n (biter_iternext inet_ntop lib).1
unfolding biter_iternext
biter_iternext-LibSafe {n} inet_ntop lib k =
    stop_if_dead_keeps (LibSafe n) _ lib k (λ lib k. biter_wake-LibSafe inet_ntop lib k)

pub get_bw_msg-LibSafe :
    {n : Known} (inet_ntop : ℕ → List ℕ) (lib : Library)
    → LibSafe n lib
    → LibSafe n (get_bw_msg inet_ntop lib).1
unfolding get_bw_msg
get_bw_msg-LibSafe {n} inet_ntop lib k = none_if_dead_keeps (LibSafe n) _ lib k (λ lib k.
    need_sock_keeps (LibSafe n) _ lib k (λ lib k. record {
      cache = k.cache;
      distinct = k.distinct;
      biter = k.biter;
      sender = k.sender;
      bpuller = k.bpuller;
      buffers = k.buffers;
    }))

send_first-LibSafe :
    {n : Known} (inet_pton : List ℕ → Option ℕ) (stack : SendData) (pad : ℕ) (args : List BwArg)
    (lib : Library)
    → LibSafe n lib
    → LibSafe n (send_first inet_pton stack pad args lib).1
unfolding send_first send_bwmsg encode_bw
send_first-LibSafe inet_pton stack pad [] lib k = k
send_first-LibSafe inet_pton stack pad (no_dict ∷ rest) lib k = k
send_first-LibSafe inet_pton stack pad (dict none port bw ∷ rest) lib k = k
send_first-LibSafe inet_pton stack pad (dict (some ip) none bw ∷ rest) lib k = k
send_first-LibSafe inet_pton stack pad (dict (some ip) (some port) none ∷ rest) lib k = k
send_first-LibSafe {n} inet_pton stack pad (dict (some ip) (some none) (some bw) ∷ rest) lib k =
    address_keeps (LibSafe n) inet_pton ip _ lib k (λ s_addr lib k. k)
send_first-LibSafe {n} inet_pton stack pad (dict (some ip) (some (some p)) (some none) ∷ rest) lib
      k =
    address_keeps (LibSafe n) inet_pton ip _ lib k (λ s_addr lib k. k)
send_first-LibSafe {n} inet_pton stack pad (dict (some ip) (some (some p)) (some (some b)) ∷ rest)
      lib k =
    address_keeps (LibSafe n) inet_pton ip _ lib k (λ s_addr lib k.
      with_queues-LibSafe _ lib
        (send_data-Sendable n.cookies _ lib.sender.queues (omega arith) (sendable k)) k)

pub send_bw_msg-LibSafe :
    {n : Known} (inet_pton : List ℕ → Option ℕ) (stack : SendData) (pad : ℕ)
    (args : Option (Option (List BwArg))) (lib : Library)
    → LibSafe n lib
    → LibSafe n (send_bw_msg inet_pton stack pad args lib).1
unfolding send_bw_msg
send_bw_msg-LibSafe {n} inet_pton stack pad none lib k =
    none_if_dead_keeps (LibSafe n) _ lib k
      (λ lib k. need_sock_keeps (LibSafe n) _ lib k (λ lib k. k))
send_bw_msg-LibSafe {n} inet_pton stack pad (some none) lib k =
    none_if_dead_keeps (LibSafe n) _ lib k
      (λ lib k. need_sock_keeps (LibSafe n) _ lib k (λ lib k. k))
send_bw_msg-LibSafe {n} inet_pton stack pad (some (some args)) lib k =
    none_if_dead_keeps (LibSafe n) _ lib k (λ lib k.
      need_sock_keeps (LibSafe n) _ lib k
        (λ lib k. send_first-LibSafe inet_pton stack pad args lib k))
