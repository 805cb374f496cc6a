-- ===== src/Net/Time.antt =====
-- bora_util.c: `struct timeval` and microseconds; and the macros of sys/time.h that the code uses.
use bora.Prelude.{ℕ, ◌+◌, ◌*◌, ◌/◌, ◌%◌, Bool, u64, if◌then◌else◌}
use bora.Prelude.Int.{ℤ, pos, ◌+ℤ◌, ◌-ℤ◌, ltb_ℤ, eqb_ℤ, to_u64}

-- `time_t` and `suseconds_t` are signed.
pub record Timeval : Type 0 where
  pub tv_sec : ℤ
  pub tv_usec : ℤ

abbrev pub million : ℕ
million = 1_000_000

abbrev pub time_zero : Timeval
time_zero = record { tv_sec = pos 0; tv_usec = pos 0 }

unfoldable pub time_to_usec : Timeval → ℕ
time_to_usec t = u64 (to_u64 t.tv_usec + u64 (to_u64 t.tv_sec * million))

-- Both parts of a `uint64_t` divided by a million fit `long`.
unfoldable pub time_from_usec : ℕ → Timeval
time_from_usec usec = record { tv_sec = pos (usec / million); tv_usec = pos (usec % million) }

-- `unsigned long` has 64 bits.
unfoldable pub time_multiply : Timeval → ℕ → Timeval
unfolding time_to_usec time_from_usec
time_multiply t mult = time_from_usec (u64 (time_to_usec t * mult))

-- timersub(a, b, &result)
unfoldable pub timersub : Timeval → Timeval → Timeval
unfolding ◌+ℤ◌ ◌-ℤ◌
timersub a b =
    let sec = a.tv_sec -ℤ b.tv_sec in
    let usec = a.tv_usec -ℤ b.tv_usec in
    if ltb_ℤ usec (pos 0)
    then record { tv_sec = sec -ℤ pos 1; tv_usec = usec +ℤ pos 1_000_000 }
    else record { tv_sec = sec; tv_usec = usec }

-- timeradd(a, b, &result)
unfoldable pub timeradd : Timeval → Timeval → Timeval
unfolding ◌+ℤ◌ ◌-ℤ◌
timeradd a b =
    let sec = a.tv_sec +ℤ b.tv_sec in
    let usec = a.tv_usec +ℤ b.tv_usec in
    if ltb_ℤ usec (pos 1_000_000)
    then record { tv_sec = sec; tv_usec = usec }
    else record { tv_sec = sec +ℤ pos 1; tv_usec = usec -ℤ pos 1_000_000 }

-- timercmp(a, b, <)
abbrev pub timer_lt : Timeval → Timeval → Bool
timer_lt a b =
    if eqb_ℤ a.tv_sec b.tv_sec then ltb_ℤ a.tv_usec b.tv_usec else ltb_ℤ a.tv_sec b.tv_sec
