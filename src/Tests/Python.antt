-- ===== src/Tests/Python.antt =====
-- A library, and the calls of Python on it.
use bora.Prelude.{ℕ, false, Option, none, some, List, [], ◌∷◌, ◌==◌, if◌then◌else◌}
use bora.Prelude.Int.{pos}
use bora.Biter.{IncomingData, Biter, init_biter}
use bora.Receiver.{Memory, InStats}
use bora.Receiver.Buffers.{init_buffers}
use bora.BwControl.{init_bws, init_bpuller}
use bora.Bindings.{Library}
use bora.Tests.{blank, alice, at, blank_datagram, fresh_block, idle_sender}

-- inet_pton and inet_ntop of a world with one address, "A".
abbrev pub pton : List ℕ → Option ℕ
pton [] = none
pton (c ∷ []) = if c == 65 then some 0x0100_007f else none
pton (c ∷ d ∷ s) = none

abbrev pub ntop : ℕ → List ℕ
ntop a = 65 ∷ []

abbrev pub no_stats : InStats
no_stats = record {
  i_pkg_counter = 0;
  i_data_counter = 0;
  i_ack_data_counter = 0;
  i_ack_counter = 0;
  i_garbage = 0;
  i_dupe_counter = 0;
  i_dupe_data_counter = 0;
  i_bad_ack_counter = 0;
}

abbrev pub unread : IncomingData
unread = record { host = alice; fromlen = 16; buf = blank; buflen = 0; tv = at 0 }

abbrev pub zeroed_biter : Biter
zeroed_biter = record {
  b_biter_s = λ i. pos 0;
  b_biter_b = λ i. pos 0;
  b_biter_d = λ i. unread;
  s_biter_full = 0;
  s_biter_empty = 0;
  write_c = 0;
  read_c = 0;
}

-- A library with a socket, before anything is sent or received.
abbrev pub opened : Library
opened = record {
  sock = pos 3;
  death = false;
  bws_running = false;
  kill_bora_threads = false;
  cache = [];
  sender = idle_sender;
  acks = record { peers = []; highest_seq = none };
  ack_list = false;
  biter = init_biter zeroed_biter;
  estimations = [];
  bwmlist = [];
  stats_r = no_stats;
  buffers = init_buffers (λ i. unread);
  bws = init_bws (pos 500_000);
  bpuller = init_bpuller;
}

abbrev pub closed : Library
closed = record opened { sock = pos 0 }

abbrev pub any_memory : Memory
any_memory = record { heap = blank; fresh = fresh_block; stack = blank_datagram }
