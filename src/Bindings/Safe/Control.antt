-- ===== src/Bindings/Safe/Control.antt =====
-- The control of the bandwidth, the port and the cookie keep the state safe.
use bora.Prelude.{
  ℕ, Bool, true, false, Bool-cases, Option-cases, inl, inr, Option, none, some, List, ◌==◌, ◌||◌,
}
use bora.Prelude.Int.{ℤ, pos, ltb_ℤ}
use bora.Net.{SockaddrIn}
use bora.Net.Time.{Timeval}
use bora.Nacks.Keeps.{resend_timeout_nacks_keeps}
use bora.Cookies.{send_cookie}
use bora.Cookies.Fit.{send_cookie-CookiesFit, cookie_cleanup-CookiesFit}
use bora.Sender.{get_idle, set_nat_port, set_bandwidth}
use bora.PeerAcks.{get_timeout_value}
use bora.BwControl.{fetch, bws_return_value, set_bws_interval}
use bora.Bindings.{Library, port_out_of_range}
use bora.Bindings.Session.{bwiter}
use bora.Bindings.Control.{
  take_bws, get_ack_store, report, bwiter_wake, bwiter_iternext, resend_late, answer_bws, bws_set,
  nat_port_call,
}
use bora.Bindings.CookieCall.{with_cookies, arm, results}
use bora.Bindings.Safe.{
  Known, LibSafe, Sendable, send_data-Sendable, sendable, bind_keeps, none_if_dead_keeps,
  need_sock_keeps, raise_if_keeps,
}
use bora.Bindings.Safe.Messages.{stop_if_dead_keeps}

pub bwiter-LibSafe :
    {n : Known} (arg : Option ℤ) (lib : Library) → LibSafe n lib → LibSafe n (bwiter arg lib).1
unfolding bwiter
bwiter-LibSafe {n} none lib k = need_sock_keeps (LibSafe n) _ lib k (λ lib k. k)
bwiter-LibSafe {n} (some i) lib k = need_sock_keeps (LibSafe n) _ lib k (λ lib k. record {
  cache = k.cache;
  distinct = k.distinct;
  biter = k.biter;
  sender = k.sender;
  bpuller = k.bpuller;
  buffers = k.buffers;
})

take_bws-LibSafe : {n : Known} (lib : Library) → LibSafe n lib → LibSafe n (take_bws lib).1
unfolding take_bws
take_bws-LibSafe lib k = elim (Option-cases (fetch lib.bws)) [
  | inl empty ↦ rw (empty, take_bws) k
  | inr (b, ready) ↦
      rw (ready, take_bws)
        (record {
          cache = k.cache;
          distinct = k.distinct;
          biter = k.biter;
          sender = k.sender;
          bpuller = k.bpuller;
          buffers = k.buffers;
        })
]

get_ack_store-LibSafe :
    {n : Known} (lib : Library) → LibSafe n lib → LibSafe n (get_ack_store lib).1
unfolding get_ack_store
get_ack_store-LibSafe lib k = elim (Bool-cases lib.ack_list) [
  | inl held ↦
      rw (held, get_ack_store)
        (record {
          cache = k.cache;
          distinct = k.distinct;
          biter = k.biter;
          sender = k.sender;
          bpuller = k.bpuller;
          buffers = k.buffers;
        })
  | inr free ↦
      rw (free, get_ack_store)
        (record {
          cache = k.cache;
          distinct = k.distinct;
          biter = k.biter;
          sender = k.sender;
          bpuller = k.bpuller;
          buffers = k.buffers;
        })
]

pub bwiter_wake-LibSafe :
    {n : Known} (inet_ntop : ℕ → List ℕ) (lib : Library)
    → LibSafe n lib
    → LibSafe n (bwiter_wake inet_ntop lib).1
unfolding bwiter_wake report get_idle
bwiter_wake-LibSafe {n} inet_ntop lib k =
    bind_keeps (LibSafe n) take_bws _ lib (take_bws-LibSafe lib k) (λ _ lib k.
      stop_if_dead_keeps (LibSafe n) _ lib k (λ lib k.
        bind_keeps (LibSafe n) get_ack_store _ lib (get_ack_store-LibSafe lib k) (λ _ lib k.
          record {
            cache = k.cache;
            distinct = k.distinct;
            biter = k.biter;
            sender = k.sender;
            bpuller = k.bpuller;
            buffers = k.buffers;
          })))

pub bwiter_iternext-LibSafe :
    {n : Known} (inet_ntop : ℕ → List ℕ) (lib : Library)
    → LibSafe n lib
    → LibSafe n (bwiter_iternext inet_ntop lib).1
unfolding bwiter_iternext
bwiter_iternext-LibSafe {n} inet_ntop lib k =
    stop_if_dead_keeps (LibSafe n) _ lib k (λ lib k. bwiter_wake-LibSafe inet_ntop lib k)

resend_late-LibSafe :
    {n : Known} (timeout : Bool) (times_1_2 : ℕ → ℕ) (now : Timeval) (lib : Library)
    → LibSafe n lib
    → LibSafe n (resend_late timeout times_1_2 now lib)
unfolding resend_late
resend_late-LibSafe {n} true times_1_2 now lib k =
    let (nacks, queues) =
      resend_timeout_nacks_keeps (Sendable n.cookies) (send_data-Sendable n.cookies)
        (λ host. get_timeout_value times_1_2 host lib.acks.peers) now lib.sender.nacks
        lib.sender.queues k.sender.nacks_fit (sendable k) in
    record {
      cache = k.cache;
      distinct = k.distinct;
      biter = k.biter;
      sender = record {
        counts = queues.counts;
        room = queues.room;
        nacks_fit = nacks;
        cookies_fit = k.sender.cookies_fit;
      };
      bpuller = k.bpuller;
      buffers = k.buffers;
    }
resend_late-LibSafe false times_1_2 now lib k = k

pub bws_set-LibSafe :
    {n : Known} (timeout : Bool) (times_1_2 : ℕ → ℕ) (now : Timeval) (args : Option (ℤ × ℤ))
    (lib : Library)
    → LibSafe n lib
    → LibSafe n (bws_set timeout times_1_2 now args lib).1
unfolding bws_set answer_bws bws_return_value set_bandwidth set_bws_interval
bws_set-LibSafe {n} timeout times_1_2 now none lib k =
    none_if_dead_keeps (LibSafe n) _ lib k (λ lib k. k)
bws_set-LibSafe {n} timeout times_1_2 now (some (rst, bws_time)) lib k =
    none_if_dead_keeps (LibSafe n) _ lib k (λ lib k.
      let late = resend_late-LibSafe timeout times_1_2 now lib k in
      record {
        cache = late.cache;
        distinct = late.distinct;
        biter = late.biter;
        sender = late.sender;
        bpuller = late.bpuller;
        buffers = late.buffers;
      })

pub nat_port_call-LibSafe :
    {n : Known} (args : Option ℤ) (lib : Library)
    → LibSafe n lib
    → LibSafe n (nat_port_call args lib).1
unfolding nat_port_call set_nat_port
nat_port_call-LibSafe {n} none lib k = need_sock_keeps (LibSafe n) _ lib k (λ lib k. k)
nat_port_call-LibSafe {n} (some port) lib k = need_sock_keeps (LibSafe n) _ lib k (λ lib k.
    raise_if_keeps (LibSafe n) (ltb_ℤ port (pos 0) || ltb_ℤ (pos 65535) port) port_out_of_range _
      lib k
      (λ lib k. record {
        cache = k.cache;
        distinct = k.distinct;
        biter = k.biter;
        sender = k.sender;
        bpuller = k.bpuller;
        buffers = k.buffers;
      }))

-- The two parts of the call for a cookie, before and after its wait.
pub arm-LibSafe :
    {n : Known} (addr1 addr2 : SockaddrIn) (lib : Library)
    → LibSafe n lib
    → LibSafe n (arm addr1 addr2 lib).1
unfolding arm
arm-LibSafe addr1 addr2 lib k = elim (Option-cases (send_cookie addr1 addr2 lib.sender.cookies)) [
  | inl busy ↦ rw (busy, arm) k
  | inr (ck, sent) ↦
      rw (sent, arm)
        (record {
          cache = k.cache;
          distinct = k.distinct;
          biter = k.biter;
          sender = record {
            counts = k.sender.counts;
            room = k.sender.room;
            nacks_fit = k.sender.nacks_fit;
            cookies_fit =
                send_cookie-CookiesFit addr1 addr2 lib.sender.cookies k.sender.cookies_fit sent;
          };
          bpuller = k.bpuller;
          buffers = k.buffers;
        })
]

pub results-LibSafe :
    {n : Known} (inet_ntop : ℕ → List ℕ) (lib : Library)
    → LibSafe n lib
    → LibSafe n (with_cookies (results inet_ntop lib.sender.cookies).1 lib)
unfolding results
results-LibSafe inet_ntop lib k = elim (Bool-cases (lib.sender.cookies.ck_empty == 0)) [
  | inl late ↦
      rw (late, results)
        (record {
          cache = k.cache;
          distinct = k.distinct;
          biter = k.biter;
          sender = record {
            counts = k.sender.counts;
            room = k.sender.room;
            nacks_fit = k.sender.nacks_fit;
            cookies_fit = cookie_cleanup-CookiesFit lib.sender.cookies k.sender.cookies_fit;
          };
          bpuller = k.bpuller;
          buffers = k.buffers;
        })
  | inr answered ↦
      rw (answered, results)
        (record {
          cache = k.cache;
          distinct = k.distinct;
          biter = k.biter;
          sender = record {
            counts = k.sender.counts;
            room = k.sender.room;
            nacks_fit = k.sender.nacks_fit;
            cookies_fit = record {
              bogus = k.sender.cookies_fit.bogus;
              first = k.sender.cookies_fit.first;
              second = k.sender.cookies_fit.second;
            };
          };
          bpuller = k.bpuller;
          buffers = k.buffers;
        })
]
