-- ===== src/Bindings/Session.antt =====
-- bora.c, from the opening of the socket to its end: `listen_on`, the iterators that wait for nothing
-- but a semaphore, and `die`; with the functions of the other files that start and end a session. The
-- threads themselves, and what they still take from the semaphores as they end, are left out.
use bora.Prelude.{ℕ, ◌+◌, ◌*◌, Bool, true, false, Option, none, some, [], ◌||◌, not, if◌then◌else◌}
use bora.Prelude.Int.{ℤ, pos, negsuc, to_u32, int32, eqb_ℤ}
use bora.Queues.{capacity}
use bora.Cookies.{cookie_cleanup, init_cksender}
use bora.Sender.{Sender, set_nat_port}
use bora.Biter.{init_biter}
use bora.Receiver.Buffers.{Buffers, buf_n}
use bora.BwControl.{
  BwControl, reset_in_counters, reset_out_counters, init_bws, init_bpuller, bpuller_next,
}
use bora.Bindings.{
  Library, Call, Check, return, access, change, pure, raises, none_value, value, waits,
  sock_already_open, generators_not_running, not_an_int, port_has_to_be, cant_create_socket,
  cant_bind, need_sock, raise_if, bad_port, ◌>>=◌, ◌>>◌,
}
use bora.Bindings.Messages.{stop_if_dead}

-- `init_sender`, but for the threads. It leaves the queues as they are.
unfoldable pub init_sender : Sender → Sender
unfolding reset_out_counters
init_sender s = record s {
  stats_s = reset_out_counters s.stats_s;
  queues = record (s.queues) { s_full = 0; q_empty = capacity * 3 };
}

-- The semaphores of `init_receiver`.
abbrev pub init_receiver : Buffers → Buffers
init_receiver b = record b { b_full = 0; b_empty = buf_n }

-- `init_sender`, `init_receiver`, `init_biter`, `init_bpuller`, `init_recv_stats`, `init_cksender`.
unfoldable pub init_all : Library → Library
unfolding init_sender reset_in_counters init_biter init_bpuller init_cksender
init_all lib = record lib {
  sender = record (init_sender lib.sender) { cookies = init_cksender lib.sender.cookies };
  stats_r = reset_in_counters lib.stats_r;
  buffers = init_receiver lib.buffers;
  biter = init_biter lib.biter;
  bpuller = init_bpuller;
  estimations = [];
}

-- (int)PyInt_AsLong(value), with the test that follows it
abbrev pub int_of : Option ℤ → Call ℤ
int_of none = return (raises not_an_int)
int_of (some n) = return (value (int32 (to_u32 n)))

abbrev pub set_sock : ℤ → Call ℤ
set_sock s lib = (value s, record lib { sock = s })

-- `new_sock` is what socket returns, and `bound` whether bind succeeds.
unfoldable pub listen_on : ℤ → Bool → Option ℤ → Check
unfolding init_all
listen_on new_sock bound arg = do
  closed ← access (λ lib. (eqb_ℤ lib.sock (pos 0), lib))
  raise_if (not closed) sock_already_open
  port ← int_of arg
  raise_if (bad_port port) port_has_to_be
  sock ← set_sock new_sock
  raise_if (eqb_ℤ sock (pos 0) || eqb_ℤ sock (negsuc 0)) cant_create_socket
  set_sock (if bound then sock else pos 0)
  raise_if (not bound) cant_bind
  change init_all
  return none_value

-- `bora_bpuller` and `bora_biter`: an iterator without any state.
unfoldable pub new_iterator : Check
unfolding need_sock
new_iterator = need_sock

-- `bora_bwiter`
unfoldable pub bwiter : Option ℤ → Check
unfolding need_sock init_bws
bwiter arg = do
  need_sock
  interval ← int_of arg
  change (λ lib. record lib { bws = init_bws interval; bws_running = true })

unfoldable pub take_bpuller : Check
unfolding bpuller_next
take_bpuller lib = elim (bpuller_next lib.bpuller) [
  | none ↦ (waits, lib)
  | some p ↦ (value tt, record lib { bpuller = p })
]

-- `bora_BPuller_iternext` from sem_wait on, where a call that waited goes on.
unfoldable pub bpuller_wake : Call ℕ
unfolding take_bpuller stop_if_dead
bpuller_wake = do take_bpuller; stop_if_dead; pure 1

-- `bora_BPuller_iternext`
unfoldable pub bpuller_iternext : Call ℕ
unfolding stop_if_dead bpuller_wake
bpuller_iternext = do stop_if_dead; bpuller_wake

unfoldable pub bws_end_threads : BwControl → BwControl
bws_end_threads b = record b {
  s_bws_hasdata = b.s_bws_hasdata + 1;
  s_bws_processed = b.s_bws_processed + 1;
}

-- The two signals on `produceBlock`; nothing reads those on `blockProduced` here.
unfoldable pub sender_end_threads : Sender → Sender
sender_end_threads s = record s {
  queues = record (s.queues) { s_full = s.queues.s_full + 1; q_empty = s.queues.q_empty + 1 };
  produce_block = s.produce_block + 2;
}

unfoldable pub receiver_end_threads : Buffers → Buffers
receiver_end_threads b = record b { b_full = b.b_full + 1; b_empty = b.b_empty + 1 }

-- if (bws_running) { ... }
unfoldable pub end_bws : Library → Library
unfolding bws_end_threads
end_bws lib =
    if lib.bws_running
    then record lib {
      bws = bws_end_threads (record (lib.bws) { s_bws_hasdata = lib.bws.s_bws_hasdata + 1 });
      bws_running = false;
    }
    else lib

-- The statements of `die` after its test.
unfoldable pub end_session : Library → Library
unfolding set_nat_port end_bws sender_end_threads receiver_end_threads cookie_cleanup
end_session lib =
    let ended = end_bws lib in
    let s = set_nat_port 0 lib.sender in
    record ended {
      death = true;
      kill_bora_threads = false;
      sock = pos 0;
      sender = sender_end_threads (record s { cookies = cookie_cleanup s.cookies });
      bpuller = record (ended.bpuller) { s_bpuller_full = ended.bpuller.s_bpuller_full + 1 };
      biter = record (ended.biter) { s_biter_full = ended.biter.s_biter_full + 1 };
      buffers = receiver_end_threads ended.buffers;
    }

unfoldable pub die : Call Bool
unfolding end_session
die = do
  closed ← access (λ lib. (eqb_ℤ lib.sock (pos 0), lib))
  raise_if closed generators_not_running
  access (λ lib. (true, end_session lib))
