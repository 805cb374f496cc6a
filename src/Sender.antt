-- ===== src/Sender.antt =====
-- packet_sender.c, the sending thread: `packet_send` takes a datagram from a queue or a cookie,
-- completes it and hands it to the socket; `send_round` is one round of the loop of `send_packet`.
-- The clock, and whether sendto succeeds, are arguments. Built without BORA_DROP, which drops
-- datagrams at random.
pub mod Choice
pub mod Round
pub mod Pair
pub mod Drain
pub mod Drift
pub mod Turns
pub mod Progress
use bora.Prelude.{
  ℕ, ◌+◌, ◌-◌, ◌*◌, ◌/◌, Bool, Option, none, some, set, u16, u32, u64, le16, bit_or, has, ltb, ◌==◌,
  if◌then◌else◌,
}
use bora.Net.{SockaddrIn, SendData, mtu}
use bora.Net.Time.{Timeval, time_zero, timersub, timeradd, million}
use bora.Net.Messages.{need_ack, blk_block, block_consecutive}
use bora.Prelude.Int.{ℤ, to_u64}
use bora.Codec.{put}
use bora.Queues.{Queues, pop}
use bora.Nacks.{Nacks, append_ack}
use bora.Cookies.{Cookies, get_cookie_data}

-- `stats_s`.
pub record OutStats : Type 0 where
  pub o_data_counter : ℕ
  pub o_pkg_counter : ℕ
  pub o_ack_counter : ℕ
  pub o_ack_data_counter : ℕ
  pub o_retr_counter : ℕ
  pub o_retr_data_counter : ℕ

-- The static variables of packet_sender.c, with the lists and the cookies that it works on.
-- `lasthost` is NULL or points to `lhalloc`. `nat_port` is in network order, as a little-endian
-- number. `produce_block` counts the signals given on `produceBlock`.
pub record Sender : Type 0 where
  pub queues : Queues
  pub nacks : Nacks
  pub cookies : Cookies
  pub bandwidth : ℕ
  pub sleeptime : ℕ
  pub z : Bool
  pub lasthost : Option SockaddrIn
  pub nat_port : ℕ
  pub idle_time : Timeval
  pub stats_s : OutStats
  pub produce_block : ℕ

-- The local `c` of `packet_send`: 1 for the priority queue, 2 for retransmissions, 0 else.
pub data Origin : Type 0 where
  plain prio retr : Origin

-- S_TRESHOLD > MTU * f_send * 1000000L / bandwidth, where the bandwidth is not 0.
abbrev pub hit_treshold : Sender → Bool
hit_treshold s = ltb (mtu * s.queues.send.f * million / s.bandwidth) 50000

-- The signal on `produceBlock`; `none` is the division by a bandwidth of 0.
unfoldable pub signal_puller : Sender → Option Sender
signal_puller s =
    if s.bandwidth == 0
    then none
    else if hit_treshold s
    then some (record s { produce_block = s.produce_block + 1 })
    else some s

-- The datagram of the queue of block data.
unfoldable pub take_send : Sender → Option (Origin × SendData × Sender)
unfolding pop
take_send s = elim (pop s.queues.send) [
  | none ↦ none
  | some (d, r) ↦ some (plain, d, record s { queues = record (s.queues) { send = r } })
]

unfoldable pub take_queued : Sender → Option (Origin × SendData × Sender)
unfolding take_send pop
take_queued s = elim (pop s.queues.prio) [
  | some (d, r) ↦ some (prio, d, record s { queues = record (s.queues) { prio = r } })
  | none ↦ elim (pop s.queues.retr) [
    | some (d, r) ↦ some (retr, d, record s { queues = record (s.queues) { retr = r } })
    | none ↦ take_send s
  ]
]

-- The choice of the datagram, once `sFull` has been passed. `none` is the exit of the process, or a
-- read from an empty queue of block data.
unfoldable pub choose : Sender → Option (Origin × SendData × Sender)
unfolding take_send take_queued
choose s =
    if s.z
    then take_send s
    else let s' = record s { lasthost = none } in
      if s.cookies.ck_full == 0
      then take_queued s'
      else elim (get_cookie_data (record (s.cookies) { ck_full = s.cookies.ck_full - 1 })) [
        | none ↦ none
        | some (d, ck) ↦ some (plain, d, record s' { cookies = ck })
      ]

-- The number for the acknowledgement behind the datagram, where it asks for one.
unfoldable pub add_cookie : Timeval → ℕ → SendData → Nacks → SendData × Nacks
unfolding append_ack
add_cookie t_end sleeptime d nacks =
    if has (d.contents 0) need_ack
    then (let (d', l, nacks') = append_ack d t_end (u32 sleeptime) nacks in
        (record d' { length = l }, nacks'))
    else (d, nacks)

unfoldable pub mark_consecutive : Bool → SendData → SendData
mark_consecutive z d =
    if z
    then record d { contents = set d.contents 0 (bit_or (d.contents 0) block_consecutive) }
    else d

-- The port behind the datagram, unless its first byte is 0. As with the number of `append_ack`, the
-- array has room for it.
unfoldable pub append_port : ℕ → SendData → SendData
append_port nat_port d =
    if d.contents 0 == 0
    then d
    else record d { contents = put d.contents d.length (le16 nat_port); length = d.length + 2 }

-- `lasthost` after a datagram has been sent.
unfoldable pub next_lasthost : Origin → Bool → SendData → Option SockaddrIn → Option SockaddrIn
next_lasthost plain z d lasthost =
    if z then none else if has (d.contents 0) blk_block then some d.to else lasthost
next_lasthost prio z d lasthost = lasthost
next_lasthost retr z d lasthost = lasthost

abbrev pub count_origin : Origin → ℕ → OutStats → OutStats
count_origin plain l st = st
count_origin prio l st = record st {
  o_ack_counter = u64 (st.o_ack_counter + 1);
  o_ack_data_counter = u64 (st.o_ack_data_counter + l);
}
count_origin retr l st = record st {
  o_retr_counter = u64 (st.o_retr_counter + 1);
  o_retr_data_counter = u64 (st.o_retr_data_counter + l);
}

unfoldable pub count_sent : Origin → ℕ → OutStats → OutStats
count_sent c l st =
    let st' = count_origin c l st in
    record st' {
      o_pkg_counter = u64 (st'.o_pkg_counter + 1);
      o_data_counter = u64 (st'.o_data_counter + l);
    }

-- What `packet_send` comes to: it waits on `sFull`; it waits on `bwLock`, with the datagram that it has
-- taken and the variables then; the process ends or faults; or a datagram has been handed to sendto.
pub data Outcome : Type 0 where
  waits : Outcome
  holds : Origin → SendData → Sender → Outcome
  dies : Outcome
  sends : SendData → Sender → Outcome

-- `packet_send` from the label `send_d` on: `sleeptime`, from the length before anything is put
-- behind the datagram.
unfoldable pub pause : SendData → Sender → ℕ
pause d s = million * d.length / s.bandwidth

-- The datagram that goes to the socket.
unfoldable pub completed : Timeval → SendData → Sender → SendData
unfolding pause add_cookie mark_consecutive append_port
completed t_end d s =
    append_port s.nat_port (mark_consecutive s.z (add_cookie t_end (pause d s) d s.nacks).0)

-- The variables after that.
unfoldable pub after_send : Timeval → Timeval → Bool → Origin → SendData → Sender → Sender
unfolding pause completed add_cookie next_lasthost count_sent timersub timeradd
after_send t_start t_end sendto_ok c d s =
    let out = completed t_end d s in
    record s {
      queues = record (s.queues) { q_empty = s.queues.q_empty + 1 };
      nacks = (add_cookie t_end (pause d s) d s.nacks).1;
      sleeptime = pause d s;
      lasthost = if sendto_ok then next_lasthost c s.z out s.lasthost else s.lasthost;
      idle_time = timeradd (timersub t_end t_start) s.idle_time;
      stats_s = count_sent c out.length s.stats_s;
    }

unfoldable pub finish : Timeval → Timeval → Bool → Origin → SendData → Sender → Outcome
finish t_start t_end sendto_ok c d s =
    Outcome.sends (completed t_end d s) (after_send t_start t_end sendto_ok c d s)

-- `bw_locked` says that `bws_thread` holds `bwLock`. When that is given back, the call goes on with
-- `finish`.
unfoldable pub packet_send : Timeval → Timeval → Bool → Bool → Sender → Outcome
packet_send t_start t_end bw_locked sendto_ok s = elim (signal_puller s) [
  | none ↦ Outcome.dies
  | some s' ↦
      if s'.queues.s_full == 0
      then Outcome.waits
      else elim (choose
          (record s' { queues = record (s'.queues) { s_full = s'.queues.s_full - 1 } })) [
            | none ↦ Outcome.dies
            | some (c, d, s'') ↦
                if bw_locked then Outcome.holds c d s'' else finish t_start t_end sendto_ok c d s''
          ]
]

-- `set_bandwidth` takes `int`.
unfoldable pub set_bandwidth : ℤ → Sender → Sender
set_bandwidth bw s = record s { bandwidth = to_u64 bw }

unfoldable pub get_idle : Sender → ℕ × Sender
get_idle s = (
  u64 (u64 (to_u64 s.idle_time.tv_sec * million) + to_u64 s.idle_time.tv_usec),
  record s { idle_time = time_zero },
)

-- htons and ntohs of a little-endian host.
abbrev pub swap16 : ℕ → ℕ
swap16 n = u16 (n * 0x100) + u16 n / 0x100

unfoldable pub get_nat_port : Sender → ℕ
get_nat_port s = swap16 s.nat_port

unfoldable pub set_nat_port : ℕ → Sender → Sender
set_nat_port port_n s = record s { nat_port = swap16 port_n }

unfoldable pub get_send_size : Sender → ℕ
get_send_size s = s.queues.send.f
