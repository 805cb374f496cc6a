-- ===== src/Cookies/Protocol.antt =====
-- A cookie from `send_cookie` to its two answers, and what a timeout leaves behind.
use bora.Prelude.{ℕ, ◌+◌, ◌<◌, ◌≡◌, refl, false, none, some, if◌then◌else◌, arith}
use bora.Net.{SockaddrIn, addr_eq}
use bora.Cookies.{
  AckStore, Slot, Cookies, armed_both, answered, send_cookie, get_cookie_data, cookie_received,
  cookie_cleanup,
}

abbrev pub waiting : Slot → ℕ
waiting s = if s.havecookie then 1 else 0

-- `ckFull` counts the datagrams that are still to be fetched.
abbrev pub IsCounted : Cookies → Type 0
IsCounted ck = ck.ck_full ≡ waiting ck.first + waiting ck.second

fetched_first : Cookies → Cookies
fetched_first ck = record ck { first = record (ck.first) { havecookie = false } }

fetched_both : Cookies → Cookies
unfolding fetched_first
fetched_both ck = record (fetched_first ck) { second = record (ck.second) { havecookie = false } }

-- When `send_cookie` has run with no datagram left from before, `ckFull` counts the two new ones;
-- fetching the first gives a copy of the bogus data addressed to the first peer, fetching the second
-- one to the second peer, and a third fetch ends the process.
pub fetch_both :
    (addr1 addr2 : SockaddrIn) (ck : Cookies)
    → 0 < ck.ck_empty
    → ck.ck_full ≡ 0
    → (sent one two : Cookies) × (send_cookie addr1 addr2 ck ≡ some sent)
      × IsCounted sent
      × (get_cookie_data sent ≡ some (record (ck.bogus_data) { to = addr1 }, one))
      × (get_cookie_data one ≡ some (record (ck.bogus_data) { to = addr2 }, two))
      × (get_cookie_data two ≡ none)
unfolding send_cookie get_cookie_data fetched_both
fetch_both addr1 addr2 ck h k =
    let sent = armed_both addr1 addr2 ck in
    (sent, fetched_first sent, fetched_both sent, ground arith, omega arith, refl, refl, refl)

both_back : AckStore → AckStore → Cookies → Cookies
both_back a b ck = record ck {
  first = answered a ck.first;
  second = answered b ck.second;
  ck_empty = ck.ck_empty + 1;
}

-- After `send_cookie` the answers of the two peers, in either order, fill the result of each peer's
-- own place, and `ckEmpty` is back at its value; an answer from anyone else changes nothing.
pub both_answers :
    (addr1 addr2 : SockaddrIn) (ck : Cookies) (a b other : AckStore)
    → 0 < ck.ck_empty
    → addr_eq addr1 addr2 ≡ false
    → a.addr ≡ addr1
    → b.addr ≡ addr2
    → addr_eq other.addr addr1 ≡ false
    → addr_eq other.addr addr2 ≡ false
    → (sent done : Cookies) × (send_cookie addr1 addr2 ck ≡ some sent)
      × ((cookie_received b (cookie_received a sent).1).1 ≡ done)
      × ((cookie_received a (cookie_received b sent).1).1 ≡ done)
      × (done.first.result ≡ a)
      × (done.second.result ≡ b)
      × (done.ck_empty ≡ ck.ck_empty)
      × (cookie_received other sent ≡ (false, sent))
unfolding send_cookie cookie_received both_back
both_answers addr1 addr2 ck a b other h ne ha hb h1 h2 =
    let sent = armed_both addr1 addr2 ck in
    (
      sent,
      both_back a b sent,
      ground arith,
      ground arith,
      ground arith,
      refl,
      refl,
      omega arith,
      ground arith,
    )

-- A timeout before the datagrams have been fetched leaves `ckFull` above zero with nothing to
-- fetch: the next fetch, which `packet_send` makes because of that count, ends the process.
pub cleanup_before_fetch :
    (addr1 addr2 : SockaddrIn) (ck : Cookies) {sent : Cookies}
    → send_cookie addr1 addr2 ck ≡ some sent
    → (1 < (cookie_cleanup sent).ck_full) × (get_cookie_data (cookie_cleanup sent) ≡ none)
unfolding send_cookie cookie_cleanup get_cookie_data
cleanup_before_fetch addr1 addr2 ck h = ground arith
