-- ===== src/Cookies/Fit.antt =====
-- The datagrams of the cookies have room for what is put behind them.
use mathlib.Core.Option.{some-injective}
use bora.Prelude.{◌≡◌, subst, Bool-cases, inl, inr, none, some, ◌==◌, ◌&&◌, arith}
use bora.Net.{SockaddrIn, SendData}
use bora.Queues.Fit.{Fits}
use bora.Cookies.{
  AckStore, Cookies, send_cookie, check_answers, get_cookie_data, awaits, answered, cookie_received,
  cookie_cleanup, init_cksender,
}

pub record CookiesFit (ck : Cookies) : Type 0 where
  pub bogus : Fits ck.bogus_data
  pub first : Fits ck.first.ck_data
  pub second : Fits ck.second.ck_data

pub init_cksender-CookiesFit : (ck : Cookies) → CookiesFit ck → CookiesFit (init_cksender ck)
unfolding init_cksender
init_cksender-CookiesFit ck fit = record {
  bogus = omega arith;
  first = fit.first;
  second = fit.second;
}

pub send_cookie-CookiesFit :
    (addr1 addr2 : SockaddrIn) (ck : Cookies) {ck' : Cookies}
    → CookiesFit ck
    → send_cookie addr1 addr2 ck ≡ some ck'
    → CookiesFit ck'
unfolding send_cookie
send_cookie-CookiesFit addr1 addr2 ck fit e = elim (Bool-cases (ck.ck_empty == 0)) [
  | inl busy ↦ absurd (nothing (rw busy at e))
  | inr idle ↦
      subst CookiesFit (some-injective _ _ (rw idle at e))
        (record { bogus = fit.bogus; first = fit.bogus; second = fit.bogus })
]
  where
    nothing : {x : Cookies} → none ≡ some x → ⊥
    nothing e = cc

pub get_cookie_data-CookiesFit :
    (ck : Cookies) {d : SendData} {ck' : Cookies}
    → CookiesFit ck
    → get_cookie_data ck ≡ some (d, ck')
    → Fits d × CookiesFit ck'
unfolding get_cookie_data
get_cookie_data-CookiesFit ck fit e =
    let f1 = fit.first in
    let f2 = fit.second in
    let f3 = fit.bogus in
    (ground arith, record { bogus = ground arith; first = ground arith; second = ground arith })

check_answers-CookiesFit : (ck : Cookies) → CookiesFit ck → CookiesFit (check_answers ck)
unfolding check_answers
check_answers-CookiesFit ck fit = elim (Bool-cases (ck.second.gotcookie && ck.first.gotcookie)) [
  | inl both ↦ rw both (record { bogus = fit.bogus; first = fit.first; second = fit.second })
  | inr open_still ↦ rw open_still fit
]

pub cookie_received-CookiesFit :
    (ack : AckStore) (ck : Cookies) → CookiesFit ck → CookiesFit (cookie_received ack ck).1
unfolding cookie_received
cookie_received-CookiesFit ack ck fit = elim (Bool-cases (awaits ck.first ack)) [
  | inl one ↦ rw one (
      check_answers-CookiesFit (record ck { first = answered ack ck.first })
        (record { bogus = fit.bogus; first = fit.first; second = fit.second }))
  | inr not_one ↦ elim (Bool-cases (awaits ck.second ack)) [
    | inl two ↦
        rw (not_one, two)
          (check_answers-CookiesFit (record ck { second = answered ack ck.second })
            (record { bogus = fit.bogus; first = fit.first; second = fit.second }))
    | inr neither ↦ rw (not_one, neither) fit
  ]
]

pub cookie_cleanup-CookiesFit : (ck : Cookies) → CookiesFit ck → CookiesFit (cookie_cleanup ck)
unfolding cookie_cleanup
cookie_cleanup-CookiesFit ck fit = record {
  bogus = fit.bogus;
  first = fit.first;
  second = fit.second;
}
