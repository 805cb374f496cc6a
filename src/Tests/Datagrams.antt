-- ===== src/Tests/Datagrams.antt =====
-- Fragments, acknowledgements and messages on their way between two hosts.
use bora.Prelude.{
  ℕ, ◌<◌, ◌≡◌, refl, true, false, none, some, Array, List, [], ◌∷◌, ◌==◌, if◌then◌else◌, u64, set,
  arith,
}
use bora.Prelude.Int.{pos}
use bora.Net.{SockaddrIn, SendData}
use bora.Net.Time.{Timeval}
use bora.Net.Messages.{blk_ack}
use bora.Codec.{
  FragmentData, encode_fragment, decode_fragment, validate_block, validate_ack, get_fragment_id,
  get_fragment_size, decode_ack,
}
use bora.Codec.Fragment.{Fits, validate_block-encode_fragment}
use bora.Codec.Ack.{IsInt32}
use bora.Queues.{init_queues, send_data}
use bora.BlockCache.{Block, addfragment}
use bora.Nacks.{strip_ack}
use bora.Sender.{Sender}
use bora.Biter.{IncomingData}
use bora.Receiver.{
  Receiver, Memory, InStats, strip_port, sub64, answer, process, count_packet, garbage, done,
}
use bora.Receiver.Journey.{landed, fragment_journey}
use bora.Receiver.Reject.{process-garbage, answer-accepted}
use bora.Tests.{
  blank, alice, bob, at, blank_datagram, fresh_block, two_fragments, second_fragment, asking,
  two_waiting, no_cookies, idle_sender,
}

second_fragment-Fits : Fits second_fragment
second_fragment-Fits = omega arith

-- one byte too long
validate_block-encode_fragment_example :
    validate_block (set (encode_fragment blank_datagram second_fragment).contents 0 0x81) 17
    ≡ (17 == get_fragment_size second_fragment)
validate_block-encode_fragment_example =
    validate_block-encode_fragment blank_datagram second_fragment 0x81 17 second_fragment-Fits refl

abbrev fragment_bytes : Array ℕ
fragment_bytes = λ i. if i == 0 then 1 else if i == 12 then 3 else 0

pos-IsInt32 : (n : ℕ) → n < 0x8000_0000 → IsInt32 (pos n)
pos-IsInt32 n h = ground arith

-- a fragment of no bytes, sent from port 4000
abbrev bare_fragment : SendData
bare_fragment = record asking { contents = λ i. if i == 0 then 0x81 else 0; length = 13 }

abbrev natted_sender : Sender
natted_sender = record idle_sender { nat_port = 0xa00f }

fragment_journey_example :
    let w = landed (at 8) (at 9) alice bob blank_datagram idle_sender second_fragment in
    let l = sub64 w.buflen 2 in
    (validate_block w.buf l ≡ true)
    × (strip_ack w.buf w.buflen ≡ 6)
    × (g : FragmentData) × (decode_fragment blank w.buf l ≡ some g)
    × ((fresh : Block) (from_host : SockaddrIn) (ts : Timeval) (cache : List Block)
        → addfragment fresh g from_host ts cache
          ≡ addfragment fresh second_fragment from_host ts cache)
fragment_journey_example =
    fragment_journey (at 8) (at 9) alice bob blank_datagram idle_sender second_fragment
      second_fragment-Fits (omega arith) refl blank

abbrev no_stats : InStats
no_stats = record {
  i_pkg_counter = 0;
  i_data_counter = 0;
  i_ack_data_counter = 0;
  i_ack_counter = 0;
  i_garbage = 0;
  i_dupe_counter = 0;
  i_dupe_data_counter = 0;
  i_bad_ack_counter = 0;
}

abbrev stray : IncomingData
stray = record {
  host = alice;
  fromlen = 16;
  buf = λ i. if i == 0 then 0x81 else 0;
  buflen = 8;
  tv = at 3;
}

abbrev idle_receiver : Receiver
idle_receiver = record {
  cache = two_fragments ∷ [];
  ack_state = record {
    acks = record { peers = []; highest_seq = none };
    nacks = two_waiting;
    cookies = no_cookies;
    queues = init_queues (λ i. blank_datagram);
  };
  biter = record {
    b_biter_s = λ i. pos 0;
    b_biter_b = λ i. pos 0;
    b_biter_d = λ i. stray;
    s_biter_full = 0;
    s_biter_empty = 20;
    write_c = 0;
    read_c = 0;
  };
  estimations = [];
  bwmlist = [];
  stats_r = no_stats;
}

abbrev memory : Memory
memory = record { heap = blank; fresh = fresh_block; stack = blank_datagram }

process-garbage_example :
    process false memory stray idle_receiver
    ≡ done (count_packet (strip_port stray, record idle_receiver { stats_r = garbage 6 no_stats }))
unfolding strip_port validate_block
process-garbage_example =
    process-garbage false memory stray idle_receiver (omega arith) (omega arith) refl refl

-- a fragment of no bytes with its number, 0x0403, behind it
abbrev numbered : IncomingData
numbered = record stray {
  buf = λ i. if i == 0 then 0x81 else if i == 13 then 3 else if i == 14 then 4 else 0;
  buflen = 15;
}

numbered_bytes : (i : ℕ) → numbered.buf i < 256
numbered_bytes i = ground arith

answer-accepted_example :
    (s : SendData) × (s.to ≡ alice)
    × (validate_ack s.contents s.length ≡ true)
    × (decode_ack s.contents s.length
        ≡ some (record {
          flags = blk_ack;
          seq = strip_ack numbered.buf 15;
          sec = pos 3;
          usec = pos 0;
          cons = 0;
        }))
    × (answer memory (numbered, idle_receiver)
        ≡ done (
          record numbered { buflen = 13 },
          record idle_receiver {
            ack_state = record (idle_receiver.ack_state) {
              queues = send_data s idle_receiver.ack_state.queues;
            };
            stats_r = record no_stats { i_data_counter = u64 2 };
          },
        ))
unfolding validate_block bora.BlockCache.Queries.get_consecutives get_fragment_id
    bora.BlockCache.findblock
answer-accepted_example =
    answer-accepted memory numbered idle_receiver 0 refl refl refl (omega arith) numbered_bytes
      (omega arith) (pos-IsInt32 3 (omega arith)) (pos-IsInt32 0 (omega arith))
