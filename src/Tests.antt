-- ===== src/Tests.antt =====
-- Concrete hosts, blocks, datagrams and lists for the tests, and the theorems applied to them.
mod Addresses
mod Cache
mod Calls
mod Datagrams
mod Journeys
mod Python
mod Samples
mod Session
mod Deleting
mod Demo
mod Traffic
use bora.Prelude.{ℕ, ◌+◌, ◌==◌, if◌then◌else◌, true, false, none, Array, [], ◌∷◌}
use bora.Prelude.Int.{pos}
use bora.Net.{SockaddrIn, SendData}
use bora.Net.Time.{Timeval}
use bora.Codec.{FragmentData}
use bora.BlockCache.{Block}
use bora.Nacks.{Ack, Nacks}
use bora.Queues.{init_queues}
use bora.Cookies.{AckStore, Slot, Cookies}
use bora.Sender.{Sender}

abbrev pub blank : Array ℕ
blank = λ i. 0

abbrev pub alice : SockaddrIn
alice = record { sin_family = 2; sin_port = 4000; sin_addr = 7; sin_zero = 0 }

abbrev pub bob : SockaddrIn
bob = record { sin_family = 2; sin_port = 5000; sin_addr = 8; sin_zero = 0 }

abbrev pub at : ℕ → Timeval
at n = record { tv_sec = pos n; tv_usec = pos 0 }

abbrev pub blank_datagram : SendData
blank_datagram = record { contents = blank; length = 0; to = alice }

-- A block as malloc may return it.
abbrev pub fresh_block : Block
fresh_block = record {
  streamid = 0;
  blockid = 0;
  content = record { payload = blank; length = 0 };
  alloc = 0;
  f = λ i. record { have = false; host = bob; ts = at 0 };
  fs = record { fn = 0; lastlen = 0 };
}

-- A block of two fragments: MTU bytes, and 3 bytes.
abbrev pub two_fragments : Block
two_fragments = record {
  streamid = 1;
  blockid = 2;
  content = record { payload = λ i. i; length = 1403 };
  alloc = 1403;
  f = λ i. record { have = true; host = alice; ts = at 0 };
  fs = record { fn = 2; lastlen = 3 };
}

-- A block of one fragment of 5 bytes.
abbrev pub small_block : Block
small_block = record two_fragments {
  content = record { payload = λ i. i; length = 5 };
  alloc = 5;
  fs = record { fn = 1; lastlen = 5 };
}

abbrev pub second_fragment : FragmentData
second_fragment = record {
  streamid = 1;
  blockid = 2;
  fragmentid = 1;
  fragments = 2;
  length = 3;
  payload = λ i. i + 1400;
}

-- A datagram of three bytes that asks for an acknowledgement.
abbrev pub asking : SendData
asking = record { contents = λ i. if i == 0 then 0x81 else i; length = 3; to = bob }

abbrev pub waiting_ack : ℕ → ℕ → Ack
waiting_ack n t = record { seq = n; sendtime = at t; sleeptime = 0; d = asking }

-- Two datagrams wait for bob's acknowledgement.
abbrev pub two_waiting : Nacks
two_waiting = record {
  peers = record { addr = bob; nacks = waiting_ack 5 50 ∷ waiting_ack 4 40 ∷ [] } ∷ [];
  seq_num = 5;
}

abbrev pub no_answer : AckStore
no_answer = record { addr = alice; sent = at 0; rtt = at 0; stt = at 0; seq = 0; sleeptime = 0 }

abbrev pub empty_slot : Slot
empty_slot = record {
  ck_data = blank_datagram;
  havecookie = false;
  gotcookie = false;
  result = no_answer;
}

abbrev pub no_cookies : Cookies
no_cookies = record {
  bogus_data = blank_datagram;
  first = empty_slot;
  second = empty_slot;
  ck_full = 0;
  ck_empty = 1;
}

-- A sender with nothing to send, and no port of its own.
abbrev pub idle_sender : Sender
idle_sender = record {
  queues = init_queues (λ i. blank_datagram);
  nacks = two_waiting;
  cookies = no_cookies;
  bandwidth = 100_000;
  sleeptime = 0;
  z = false;
  lasthost = none;
  nat_port = 0;
  idle_time = at 0;
  stats_s = record {
    o_data_counter = 0;
    o_pkg_counter = 0;
    o_ack_counter = 0;
    o_ack_data_counter = 0;
    o_retr_counter = 0;
    o_retr_data_counter = 0;
  };
  produce_block = 0;
}
