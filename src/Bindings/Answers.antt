-- ===== src/Bindings/Answers.antt =====
-- `bora_send_cookie`: answers in time, none, and too late.
use bora.Prelude.{
  Bool, if◌then◌else◌, ℕ, ◌+◌, ◌-◌, ◌<◌, ◌≡◌, ◌≢◌, refl, false, some, List, [], ◌∷◌, Option, ◌==◌,
  ◌||◌, arith,
}
use bora.Prelude.Int.{ℤ, pos, eqb_ℤ}
use bora.Net.{SockaddrIn, addr_eq}
use bora.Cookies.{AckStore, Cookies, armed_both, send_cookie, cookie_received, cookie_cleanup}
use bora.Bindings.{Library, value, need_sock, address, bad_port, socket_address}
use bora.Bindings.Control.{ack_dict}
use bora.Bindings.CookieCall.{with_cookies, arm, results, cookie_call}

-- What PyArg_ParseTuple gives for two hosts.
abbrev pub Hosts : Type 0
Hosts = (List ℕ × ℤ) × (List ℕ × ℤ)

-- Two addresses that inet_pton takes and ports in range, with the addresses that they make.
pub record AreHosts (inet_pton : List ℕ → Option ℕ) (hosts : Hosts) (addr1 addr2 : SockaddrIn)
    : Type 0 where
  pub s_addr1 : ℕ
  pub s_addr2 : ℕ
  pub found1 : inet_pton hosts.0.0 ≡ some s_addr1
  pub found2 : inet_pton hosts.1.0 ≡ some s_addr2
  pub port1 : bad_port hosts.0.1 ≡ false
  pub port2 : bad_port hosts.1.1 ≡ false
  pub made1 : socket_address s_addr1 hosts.0.1 ≡ addr1
  pub made2 : socket_address s_addr2 hosts.1.1 ≡ addr2

-- The two answers, one after the other.
abbrev pub take_answers : AckStore → AckStore → Cookies → Cookies
take_answers a b ck = (cookie_received b (cookie_received a ck).1).1

-- The sending thread has taken both datagrams.
abbrev pub fetched : Cookies → Cookies
fetched ck = record ck {
  first = record (ck.first) { havecookie = false };
  second = record (ck.second) { havecookie = false };
  ck_full = ck.ck_full - 2;
}

-- A change to the cookies alone.
abbrev pub on_cookies : (Cookies → Cookies) → Library → Library
on_cookies f lib = with_cookies (f lib.sender.cookies) lib

-- Both answers, after the datagrams have gone out or been given up.
answered-results :
    (a b : AckStore) (ck : Cookies)
    → ck.first.gotcookie ≡ false
    → ck.second.gotcookie ≡ false
    → ck.first.ck_data.to ≡ a.addr
    → ck.second.ck_data.to ≡ b.addr
    → addr_eq a.addr b.addr ≡ false
    → let after = take_answers a b ck in
      (after.first.result ≡ a) × (after.second.result ≡ b) × (after.ck_empty ≡ ck.ck_empty + 1)
unfolding cookie_received
answered-results a b ck h k first second distinct = ground arith

-- The two answers in the one order or in the other.
abbrev pub answers : Bool → AckStore → AckStore → Cookies → Cookies
answers first_before a b ck = if first_before then take_answers a b ck else take_answers b a ck

module _ (inet_pton : List ℕ → Option ℕ) (inet_ntop : ℕ → List ℕ) where
  cookie_call-runs :
      (during : Library → Library) (hosts : Hosts) (lib : Library) {addr1 addr2 : SockaddrIn}
      → lib.sock ≢ pos 0
      → AreHosts inet_pton hosts addr1 addr2
      → 0 < lib.sender.cookies.ck_empty
      → let after = during (on_cookies (armed_both addr1 addr2) lib) in
        let (res, ck) = results inet_ntop after.sender.cookies in
        cookie_call inet_pton inet_ntop during (some hosts) lib ≡ (value res, with_cookies ck after)
  unfolding cookie_call need_sock address arm send_cookie
  cookie_call-runs during hosts lib opened h free =
      let not_closed : eqb_ℤ lib.sock (pos 0) ≡ false = ground arith in
      let ports : (bad_port hosts.0.1 || bad_port hosts.1.1) ≡ false =
        ground (arith, h.port1, h.port2) in
      let place : (lib.sender.cookies.ck_empty == 0) ≡ false = ground arith in
      rw (not_closed, h.found1, h.found2, ports, h.made1, h.made2)
        (rw (place, arm, send_cookie) refl)

  results-some :
      (ck : Cookies)
      → ck.ck_empty ≢ 0
      → results inet_ntop ck ≡ (
        ack_dict inet_ntop ck.first.result ∷ ack_dict inet_ntop ck.second.result ∷ [],
        record ck { ck_empty = ck.ck_empty - 1 + 1 },
      )
  unfolding results
  results-some ck h =
      let posted : (ck.ck_empty == 0) ≡ false = ground arith in rw (posted, results) refl

  results-none : (ck : Cookies) → ck.ck_empty ≡ 0 → results inet_ntop ck ≡ ([], cookie_cleanup ck)
  unfolding results
  results-none ck h = rw (h, results) refl

  -- A call whose peers do not answer within the second returns an empty list. If they answer later,
  -- the next call, with any two hosts, does not wait for answers: it returns those of the first
  -- call's hosts.
  pub late_answers :
      (hosts others : Hosts) (lib : Library) (a b : AckStore) {o1 o2 : SockaddrIn}
      → lib.sock ≢ pos 0
      → AreHosts inet_pton hosts a.addr b.addr
      → AreHosts inet_pton others o1 o2
      → lib.sender.cookies.ck_empty ≡ 1
      → addr_eq a.addr b.addr ≡ false
      → let timed = cookie_call inet_pton inet_ntop (on_cookies fetched) (some hosts) lib in
        let late = on_cookies (take_answers a b) timed.1 in
        (timed.0 ≡ value [])
        × ((cookie_call inet_pton inet_ntop (on_cookies fetched) (some others) late).0
            ≡ value (ack_dict inet_ntop a ∷ ack_dict inet_ntop b ∷ []))
  unfolding cookie_cleanup
  late_answers hosts others lib a b {o1} {o2} opened h k one distinct =
      let sent = fetched (armed_both a.addr b.addr lib.sender.cookies) in
      let ck = cookie_cleanup sent in
      let late = with_cookies (take_answers a b ck) lib in
      let (first, second, posted) = answered-results a b ck refl refl refl refl distinct in
      rw
        (
          cookie_call-runs (on_cookies fetched) hosts lib opened h (omega arith),
          results-none sent (omega arith),
          cookie_call-runs (on_cookies fetched) others late opened k (omega (arith, posted)),
          results-some (fetched (armed_both o1 o2 (take_answers a b ck))) (omega (arith, posted)),
          first,
          second,
        )
        (refl, refl)
