-- ===== src/PeerAcks/Average.antt =====
-- ack_received.c, `compute_average`, which only comments call.
use bora.Prelude.{ℕ, suc, ◌+◌, ◌/◌, List, [], ◌∷◌, ltb, ◌==◌, if◌then◌else◌}
use bora.Prelude.Int.{ℤ, pos, negsuc, ◌+ℤ◌, sub_ℕ}
use bora.Net.Time.{Timeval, time_zero}
use bora.Cookies.{AckStore}

-- Division of an integer by an `int` above 0, towards 0.
abbrev pub quotient : ℤ → ℕ → ℤ
quotient (pos n) i = pos (n / i)
quotient (negsuc n) i = sub_ℕ 0 (suc n / i)

-- What the loop has added up: the number of entries, the seconds and the microseconds.
pub record Sum : Type 0 where
  pub i : ℕ
  pub sec : ℤ
  pub usec : ℤ

-- The time that is added: STT for 1, RTT for 2, else none.
abbrev pub trip_time : ℕ → AckStore → Timeval
trip_time trip cur = if trip == 1 then cur.stt else if trip == 2 then cur.rtt else time_zero

unfoldable pub sum_up : ℕ → List AckStore → Sum → Sum
unfolding ◌+ℤ◌
sum_up trip [] s = s
sum_up trip (cur ∷ ack_store) s = sum_up trip ack_store (record {
  i = s.i + 1;
  sec = s.sec +ℤ (trip_time trip cur).tv_sec;
  usec = s.usec +ℤ (trip_time trip cur).tv_usec;
})

unfoldable pub compute_average : List AckStore → ℕ → Timeval
unfolding sum_up
compute_average ack_store trip =
    let s = sum_up trip ack_store (record { i = 0; sec = pos 0; usec = pos 0 }) in
    if ltb s.i 1
    then time_zero
    else record { tv_sec = quotient s.sec s.i; tv_usec = quotient s.usec s.i }
