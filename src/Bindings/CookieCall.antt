-- ===== src/Bindings/CookieCall.antt =====
-- bora.c, `bora_send_cookie`: it arms the two cookies and waits a second for both answers.
use bora.Prelude.{ℕ, ◌+◌, ◌-◌, Option, none, some, List, [], ◌∷◌, ◌==◌, ◌||◌, if◌then◌else◌}
use bora.Prelude.Int.{ℤ}
use bora.Net.{SockaddrIn}
use bora.Cookies.{Cookies, send_cookie, cookie_cleanup}
use bora.Bindings.{
  Library, Call, Check, access, change, value, waits, need_sock, parsed, address, bad_port,
  raise_if, port_number_not_allowed, socket_address, ◌>>=◌, ◌>>◌,
}
use bora.Bindings.Control.{AckDict, ack_dict}

abbrev pub with_cookies : Cookies → Library → Library
with_cookies ck lib = record lib { sender = record (lib.sender) { cookies = ck } }

unfoldable pub arm : SockaddrIn → SockaddrIn → Check
unfolding send_cookie
arm addr1 addr2 lib = elim (send_cookie addr1 addr2 lib.sender.cookies) [
  | none ↦ (waits, lib)
  | some ck ↦ (value tt, with_cookies ck lib)
]

-- From sem_timedwait on: it times out exactly if `ckEmpty` is 0 then.
unfoldable pub results : (ℕ → List ℕ) → Cookies → List AckDict × Cookies
unfolding cookie_cleanup
results inet_ntop ck = if ck.ck_empty == 0 then ([], cookie_cleanup ck) else (
  ack_dict inet_ntop ck.first.result ∷ ack_dict inet_ntop ck.second.result ∷ [],
  record ck { ck_empty = ck.ck_empty - 1 + 1 },
)

-- The arguments are the two addresses with their ports. `during` is what the other threads do to the
-- state while the call waits.
unfoldable pub cookie_call :
    (List ℕ → Option ℕ)
    → (ℕ → List ℕ)
    → (Library → Library)
    → Option ((List ℕ × ℤ) × (List ℕ × ℤ))
    → Call (List AckDict)
unfolding need_sock address arm results
cookie_call inet_pton inet_ntop during args = do
  need_sock
  ((dest1, port1_num), (dest2, port2_num)) ← parsed args
  s_addr1 ← address inet_pton dest1
  s_addr2 ← address inet_pton dest2
  raise_if (bad_port port1_num || bad_port port2_num) port_number_not_allowed
  arm (socket_address s_addr1 port1_num) (socket_address s_addr2 port2_num)
  change during
  access (λ lib. let (res, ck) = results inet_ntop lib.sender.cookies in (res, with_cookies ck lib))
