-- ===== src/Cookies.antt =====
-- cookie_sender.c: a cookie is a datagram of full size that goes to two peers at once, to compare
-- their round-trip times. The two places of each array are fields. The semaphores `ckFull` and
-- `ckEmpty` are their counts. Nothing is locked in the source; each function is one step here.
pub mod Protocol
pub mod Fit
use bora.Prelude.{
  ℕ, ◌+◌, ◌-◌, Bool, true, false, Option, none, some, ltb, ◌==◌, ◌&&◌, not, set, if◌then◌else◌,
}
use bora.Net.{SockaddrIn, addr_eq, SendData, mtu}
use bora.Net.Time.{Timeval}
use bora.Net.Messages.{need_ack, cookie_msg}
use bora.Codec.{header_size}

-- `AckStore`: what is kept of an acknowledgement.
pub record AckStore : Type 0 where
  pub addr : SockaddrIn
  pub sent : Timeval
  pub rtt : Timeval
  pub stt : Timeval
  pub seq : ℕ
  pub sleeptime : ℕ

-- An entry of `ckData` with its `havecookie` and `gotcookie`, and the entry of `ckResult`, which
-- has the fields of `AckStore`.
pub record Slot : Type 0 where
  pub ck_data : SendData
  pub havecookie : Bool
  pub gotcookie : Bool
  pub result : AckStore

pub record Cookies : Type 0 where
  pub bogus_data : SendData
  pub first : Slot
  pub second : Slot
  pub ck_full : ℕ
  pub ck_empty : ℕ

-- The assignments that `send_cookie` makes for one address.
abbrev pub armed : SendData → SockaddrIn → Slot → Slot
armed bogus addr s = record s {
  ck_data = record bogus { to = addr };
  havecookie = true;
  gotcookie = false;
}

-- What `send_cookie` does once it has passed `ckEmpty`.
abbrev pub armed_both : SockaddrIn → SockaddrIn → Cookies → Cookies
armed_both addr1 addr2 ck = record ck {
  first = armed ck.bogus_data addr1 ck.first;
  second = armed ck.bogus_data addr2 ck.second;
  ck_full = ck.ck_full + 2;
  ck_empty = ck.ck_empty - 1;
}

-- `none` is a wait on `ckEmpty`.
unfoldable pub send_cookie : SockaddrIn → SockaddrIn → Cookies → Option Cookies
send_cookie addr1 addr2 ck = if ck.ck_empty == 0 then none else some (armed_both addr1 addr2 ck)

unfoldable pub check_answers : Cookies → Cookies
check_answers ck =
    if ck.second.gotcookie && ck.first.gotcookie
    then record ck { ck_empty = ck.ck_empty + 1 }
    else ck

-- `none` is the exit of the process with "NO COOKIES TO SEND!".
unfoldable pub get_cookie_data : Cookies → Option (SendData × Cookies)
get_cookie_data ck =
    if ck.first.havecookie
    then some (ck.first.ck_data, record ck { first = record (ck.first) { havecookie = false } })
    else if ck.second.havecookie
    then some (ck.second.ck_data, record ck { second = record (ck.second) { havecookie = false } })
    else none

-- A slot that waits for an answer from the address of the acknowledgement.
abbrev pub awaits : Slot → AckStore → Bool
awaits s ack = not s.gotcookie && addr_eq ack.addr s.ck_data.to

abbrev pub answered : AckStore → Slot → Slot
answered ack s = record s { gotcookie = true; result = ack }

-- 1 or 0, and the cookies.
unfoldable pub cookie_received : AckStore → Cookies → Bool × Cookies
unfolding check_answers
cookie_received ack ck =
    if awaits ck.first ack
    then (true, check_answers (record ck { first = answered ack ck.first }))
    else if awaits ck.second ack
    then (true, check_answers (record ck { second = answered ack ck.second }))
    else (false, ck)

unfoldable pub cookie_cleanup : Cookies → Cookies
cookie_cleanup ck = record ck {
  first = record (ck.first) { havecookie = false };
  second = record (ck.second) { havecookie = false };
  ck_empty = ck.ck_empty + 1;
}

unfoldable pub init_cksender : Cookies → Cookies
init_cksender ck = record ck {
  bogus_data = record (ck.bogus_data) {
    contents =
        set (λ i. if ltb i (mtu + header_size) then 1 else ck.bogus_data.contents i) 0
          (need_ack + cookie_msg);
    length = mtu + header_size;
  };
  first = record (ck.first) { havecookie = false };
  second = record (ck.second) { havecookie = false };
  ck_full = 0;
  ck_empty = 1;
}
