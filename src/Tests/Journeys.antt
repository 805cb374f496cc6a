-- ===== src/Tests/Journeys.antt =====
-- Messages, bandwidths and a block from one library to another.
use bora.Prelude.{
  false, ℕ, ◌+◌, ◌<◌, ◌≡◌, refl, Bool, true, some, List, [], ◌∷◌, ◌++◌, length, tabulate, arith,
}
use bora.Prelude.Int.{pos}
use bora.Net.{SockaddrIn, SendData}
use bora.Net.Time.{Timeval}
use bora.Queues.{Queues, send_data, lane}
use bora.Queues.Fifo.{items}
use bora.Queues.Routing.{init_queues-IsBalanced, send_data-IsBalanced}
use bora.BlockCache.{findblock, calcfragments}
use bora.BlockCache.Add.{new_block}
use bora.BlockCache.Reassembly.Delivery.{arrives}
use bora.BlockCache.Sending.{datagrams}
use bora.Sender.{Sender, swap16, completed}
use bora.Sender.Round.{Environment, Turn, follows, send_consecutive}
use bora.Biter.{minus_one}
use bora.Biter.Fifo.{init_biter-IsBalanced}
use bora.Receiver.{Receiver, Memory, InStats, process, done}
use bora.Receiver.Port.{arriving}
use bora.Receiver.Transfer.{Trip, arrivals, process_all}
use bora.Bindings.{value, receiver_of, with_receiver, with_queues, socket_address}
use bora.Bindings.Blocks.{add_block, send_block, get_block_content}
use bora.Bindings.Messages.{BwArg, raw_message, send_raw, send_bw_msg, get_bw_msg, biter_iternext}
use bora.Bindings.Journey.{message_journey}
use bora.Bindings.Lost.{message_lost_in_pair}
use bora.Bindings.Bandwidths.{bw_address, bw_datagram, bw_msg_journey, bw_msg_lost}
use bora.Bindings.Content.{with_block}
use bora.Bindings.Transfer.{added_block, after_send_block, block_transfer}
use bora.Tests.{blank, alice, bob, at, blank_datagram, fresh_block, idle_sender}
use bora.Tests.Python.{pton, ntop, opened, zeroed_biter, any_memory}

abbrev hello : List ℕ
hello = 104 ∷ 101 ∷ 108 ∷ 108 ∷ 111 ∷ []

abbrev hello_datagram : SendData
hello_datagram = raw_message blank_datagram hello 0x0100_007f (pos 2001)

message_journey_example :
    (send_raw pton blank_datagram (some (hello, 65 ∷ [], pos 2001)) opened
      ≡ (value (0 ∷ hello), with_queues (send_data hello_datagram opened.sender.queues) opened))
    × ((r : Receiver) × (process true any_memory
            (arriving alice (at 9) (completed (at 8) hello_datagram idle_sender))
            (receiver_of opened)
          ≡ done r)
        × ((biter_iternext ntop (with_receiver r opened)).0
            ≡ value (
              minus_one,
              minus_one,
              some (record {
                host = ntop alice.sin_addr;
                port = swap16 alice.sin_port;
                message = hello;
                ts = at 9;
              }),
            )))
unfolding bora.Biter.init_biter
message_journey_example =
    message_journey pton ntop blank_datagram opened opened hello (65 ∷ []) (pos 2001) (at 8) (at 9)
      idle_sender alice true any_memory refl (ground arith) (omega arith) (omega arith) refl refl
      refl refl (init_biter-IsBalanced zeroed_biter refl refl).0 refl

-- a message is queued behind block data for the same host
abbrev hello_queued : Queues
hello_queued = send_data hello_datagram idle_sender.queues

abbrev paired_sender : Sender
paired_sender = record idle_sender { queues = hello_queued }

abbrev env : Environment
env = record { t_start = at 1; t_end = at 2; bw_locked = false; sendto_ok = true }

message_lost_in_pair_example :
    (out : SendData) × (s' : Sender) × (send_consecutive env
        (record paired_sender { lasthost = some hello_datagram.to })
      ≡ Turn.done (out ∷ []) s')
    × ((retransmission : Bool) (m : Memory) (host : SockaddrIn) (tv : Timeval) (r : Receiver)
        → (st : InStats) × (process retransmission m (arriving host tv out) r
            ≡ done (record r { stats_r = st })))
unfolding send_data lane follows bora.Queues.init_queues bora.Queues.push
message_lost_in_pair_example =
    message_lost_in_pair env paired_sender hello_datagram.to blank_datagram hello 0x0100_007f
      (pos 2001) refl (omega arith)
      (send_data-IsBalanced hello_datagram (init_queues-IsBalanced (λ i. blank_datagram))) refl refl

abbrev bw_dict : BwArg
bw_dict = BwArg.dict (some (65 ∷ [])) (some (some (pos 2001))) (some (some (pos 64_000)))

bw_msg_journey_example :
    let d = bw_datagram blank_datagram (bw_address 0x0100_007f (pos 2001) 0) (pos 64_000) in
    (send_bw_msg pton blank_datagram 0 (some (some (bw_dict ∷ bw_dict ∷ []))) opened
      ≡ (value true, with_queues (send_data d opened.sender.queues) opened))
    × ((r : Receiver) × (process true any_memory
            (arriving alice (at 9) (completed (at 8) d idle_sender))
            (receiver_of opened)
          ≡ done r)
        × (get_bw_msg ntop (with_receiver r opened) ≡ (
          value (
              record {
                ip = ntop alice.sin_addr;
                port = swap16 alice.sin_port;
                bw = 64_000;
                tv = at 9;
              }
              ∷ []),
          record (with_receiver r opened) { bwmlist = [] },
        )))
bw_msg_journey_example =
    bw_msg_journey pton ntop blank_datagram 0 opened opened (65 ∷ []) (pos 2001) (pos 64_000)
      (bw_dict ∷ []) (at 8) (at 9) idle_sender alice true any_memory refl (ground arith) refl refl
      refl refl (ground arith)

-- a port whose high byte is not 0
abbrev mapped_sender : Sender
mapped_sender = record idle_sender { nat_port = swap16 2001 }

bw_msg_lost_example :
    (st : InStats) × (process true any_memory
        (arriving alice
          (at 9)
          (completed (at 8) (bw_datagram blank_datagram bob (pos 64_000)) mapped_sender))
        (receiver_of opened)
      ≡ done (record (receiver_of opened) { stats_r = st }))
bw_msg_lost_example =
    bw_msg_lost blank_datagram bob (pos 64_000) (at 8) (at 9) mapped_sender alice true any_memory
      (receiver_of opened) refl (omega arith)

-- 1403 bytes
abbrev long_content : List ℕ
long_content = tabulate (λ i. 7) 1403

abbrev two_cut : bora.BlockCache.Block
two_cut = added_block fresh_block (pos 1) (pos 2) long_content

two_cut-count : two_cut.fs.fn ≡ 2
unfolding new_block calcfragments
two_cut-count = refl

none_waits : length (items opened.sender.queues.send) ≡ 0
unfolding bora.Queues.init_queues
none_waits = refl

abbrev trip : ℕ → Trip
trip i = record {
  arrival = record { index = i; host = alice; ts = at (9 + i) };
  t_end = at 8;
  to = bob;
  stack = blank_datagram;
  sender = idle_sender;
}

both_arrive : (k : ℕ) → k < 2 → arrives k (arrivals (trip 0 ∷ trip 1 ∷ trip 0 ∷ [])) ≡ true
both_arrive k h = ground arith

block_transfer_example :
    let added = with_block fresh_block (pos 1) (pos 2) long_content opened in
    let sent = after_send_block blank_datagram (pos 1) (pos 2) 0x0100_007f (pos 2001) added in
    (add_block fresh_block (some (pos 1, pos 2, long_content)) opened ≡ (value true, added))
    × (send_block pton blank_datagram (some (pos 1, pos 2, 65 ∷ [], pos 2001)) added
        ≡ (value true, sent))
    × (items sent.sender.queues.send
        ≡ items opened.sender.queues.send
          ++ datagrams blank_datagram
              (socket_address 0x0100_007f (pos 2001))
              1
              2
              two_cut
              two_cut.fs.fn
              0)
    × (r : Receiver) × (process_all true any_memory two_cut
          (trip 0 ∷ trip 1 ∷ trip 0 ∷ [])
          (receiver_of opened)
        ≡ done r)
    × (get_block_content blank (some (pos 1, pos 2)) (with_receiver r opened)
        ≡ (value long_content, with_receiver r opened))
unfolding findblock bora.Biter.init_biter
block_transfer_example =
    block_transfer fresh_block (pos 1) (pos 2) long_content pton blank_datagram (65 ∷ []) (pos 2001)
      opened opened true any_memory blank (trip 0) (trip 1 ∷ trip 0 ∷ []) (omega arith)
      (omega arith) refl (ground arith) refl refl refl
      (init_queues-IsBalanced (λ i. blank_datagram)) (omega (arith, two_cut-count, none_waits)) refl
      refl (ground arith) (omega (arith, two_cut-count))
      (omega (arith, two_cut-count), (omega (arith, two_cut-count), tt)) (refl, (refl, (refl, tt)))
      (λ k h. both_arrive k (omega (arith, two_cut-count)))
