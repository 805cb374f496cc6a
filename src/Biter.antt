-- ===== src/Biter.antt =====
-- biter_bridge.c, and its reader `bora_BIter_iternext` of bora.c: the ring by which the receiving
-- thread tells the Python side of completed blocks and of messages.
pub mod Fifo
use bora.Prelude.{ℕ, ◌+◌, ◌-◌, ◌%◌, Array, set, Option, none, some, ◌==◌, ◌&&◌, if◌then◌else◌}
use bora.Prelude.Int.{ℤ, negsuc, eqb_ℤ}
use bora.Net.{SockaddrIn}
use bora.Net.Time.{Timeval}

-- `IncomingData`
pub record IncomingData : Type 0 where
  pub host : SockaddrIn
  pub fromlen : ℕ
  pub buf : Array ℕ
  pub buflen : ℕ
  pub tv : Timeval

-- N_BITER
abbrev pub slots : ℕ
slots = 20

-- `c` of biter_bridge.c is the place of the next write, `c` of bora.c that of the next read.
pub record Biter : Type 0 where
  pub b_biter_s : Array ℤ
  pub b_biter_b : Array ℤ
  pub b_biter_d : Array IncomingData
  pub s_biter_full : ℕ
  pub s_biter_empty : ℕ
  pub write_c : ℕ
  pub read_c : ℕ

unfoldable pub init_biter : Biter → Biter
init_biter b = record b { s_biter_full = 0; s_biter_empty = slots }

-- `none` is a wait on `s_biter_empty`.
unfoldable pub block_completed : ℤ → ℤ → Option IncomingData → Biter → Option Biter
block_completed streamid blockid incoming b =
    if b.s_biter_empty == 0
    then none
    else some (record b {
      s_biter_empty = b.s_biter_empty - 1;
      b_biter_s = set b.b_biter_s b.write_c streamid;
      b_biter_b = set b.b_biter_b b.write_c blockid;
      b_biter_d = elim incoming [ none ↦ b.b_biter_d | some d ↦ set b.b_biter_d b.write_c d ];
      s_biter_full = b.s_biter_full + 1;
      write_c = (b.write_c + 1) % slots;
    })

abbrev pub minus_one : ℤ
minus_one = negsuc 0

-- What `bora_BIter_iternext` takes out: both numbers, with the message where they are -1. `none` is a
-- wait on `s_biter_full`.
unfoldable pub biter_next : Biter → Option ((ℤ × ℤ × Option IncomingData) × Biter)
biter_next b =
    if b.s_biter_full == 0
    then none
    else let s = b.b_biter_s b.read_c in
      let i = b.b_biter_b b.read_c in
      some (
        (
          s,
          i,
          if eqb_ℤ s minus_one && eqb_ℤ i minus_one then some (b.b_biter_d b.read_c) else none,
        ),
        record b {
          s_biter_full = b.s_biter_full - 1;
          s_biter_empty = b.s_biter_empty + 1;
          read_c = (b.read_c + 1) % slots;
        },
      )
