-- ===== src/System.antt =====
-- The whole library in one session, from `listen_on` until `die`: the calls of Python and the loops of
-- the threads, in any order. A step is one function of the model; where the source would wait, the
-- step is not made. It is made more often than the program would where a condition of pthreads wakes
-- it (send_pull in packet_sender.c), or where `ack_list`, `bwLock` or the
-- interpreter's lock delays it: the sending thread takes its steps here without regard to `bwLock`.
pub mod Calls
pub mod Steps
pub mod Safety
pub mod Order
pub mod Blocks
use bora.Prelude.{
  ℕ, ◌+◌, ◌-◌, ◌<◌, ◌≡◌, ◌≢◌, false, true, Bool, Option, some, Array, List, [], ◌++◌, ◌∷◌,
}
use bora.Prelude.Int.{ℤ, pos, negsuc}
use bora.Net.{SockaddrIn, SendData}
use bora.Net.Time.{Timeval}
use bora.BlockCache.{Block}
use bora.BlockCache.Bounds.{AllSound}
use bora.BlockCache.Distinct.{AllDistinct}
use bora.Queues.Fifo.{IsValid}
use bora.Queues.Routing.{queued}
use bora.Queues.Fit.{QueuesFit}
use bora.Nacks.Fit.{NacksFit}
use bora.Cookies.Fit.{CookiesFit}
use bora.Biter.{IncomingData}
use bora.Sender.Round.{Environment, Turn, send_consecutive, send_next}
use bora.Receiver.{Receiver, Memory, Result, process}
use bora.Receiver.Buffers.{init_buffers, claim, fill, take, current, release}
use bora.BwControl.{BwControl, Bpuller, offer, accept, send_pull}
use bora.Bindings.{Library, receiver_of, with_receiver}
use bora.Bindings.Blocks.{
  send_block, add_block, del_block, incomplete_block_list, complete_block_list, get_block_content,
}
use bora.Bindings.Messages.{send_raw, biter_wake, biter_iternext, get_bw_msg, BwArg, send_bw_msg}
use bora.Bindings.Stats.{get_in_stats, get_out_stats, get_bw_stats, get_que_size}
use bora.Bindings.Session.{
  init_receiver, listen_on, new_iterator, bwiter, bpuller_wake, bpuller_iternext,
}
use bora.Bindings.Control.{bwiter_wake, bwiter_iternext, bws_set, nat_port_call}
use bora.Bindings.CookieCall.{with_cookies, arm, results}
use bora.Bindings.Safe.Blocks.{AsksComplete, GivesShort}

-- A call of Python, with what it is given. A call that waits is made again from its wait on: the
-- iterators at their `wake`, the call for a cookie at `results`.
pub data Called (lib : Library) : Library → Type 0 where
  send_blocks :
      (inet_pton : List ℕ → Option ℕ) (stack : SendData) (args : Option (ℤ × ℤ × List ℕ × ℤ))
      → AsksComplete args lib
      → Called lib (send_block inet_pton stack args lib).1
  add_blocks :
      (fresh : Block) (args : Option (ℤ × ℤ × List ℕ))
      → GivesShort args
      → Called lib (add_block fresh args lib).1
  del_blocks : (args : Option (ℤ × ℤ)) → Called lib (del_block args lib).1
  lists_incomplete : Called lib (incomplete_block_list lib).1
  lists_complete : Called lib (complete_block_list lib).1
  gets_content :
      (heap : Array ℕ) (args : Option (ℤ × ℤ)) → Called lib (get_block_content heap args lib).1
  sends_raw :
      (inet_pton : List ℕ → Option ℕ) (stack : SendData) (args : Option (List ℕ × List ℕ × ℤ))
      → Called lib (send_raw inet_pton stack args lib).1
  gets_bw_msg : (inet_ntop : ℕ → List ℕ) → Called lib (get_bw_msg inet_ntop lib).1
  sends_bw_msg :
      (inet_pton : List ℕ → Option ℕ) (stack : SendData) (pad : ℕ)
      (args : Option (Option (List BwArg)))
      → Called lib (send_bw_msg inet_pton stack pad args lib).1
  makes_iterator : Called lib (new_iterator lib).1
  biter_nexts : (inet_ntop : ℕ → List ℕ) → Called lib (biter_iternext inet_ntop lib).1
  biter_wakes : (inet_ntop : ℕ → List ℕ) → Called lib (biter_wake inet_ntop lib).1
  bpuller_nexts : Called lib (bpuller_iternext lib).1
  bpuller_wakes : Called lib (bpuller_wake lib).1
  gets_in_stats : (arg : Option ℤ) → Called lib (get_in_stats arg lib).1
  gets_out_stats : (arg : Option ℤ) → Called lib (get_out_stats arg lib).1
  gets_bw_stats : (inet_ntop : ℕ → List ℕ) → Called lib (get_bw_stats inet_ntop lib).1
  gets_que_size : Called lib (get_que_size lib).1
  makes_bwiter : (arg : Option ℤ) → Called lib (bwiter arg lib).1
  bwiter_nexts : (inet_ntop : ℕ → List ℕ) → Called lib (bwiter_iternext inet_ntop lib).1
  bwiter_wakes : (inet_ntop : ℕ → List ℕ) → Called lib (bwiter_wake inet_ntop lib).1
  sets_bws :
      (timeout : Bool) (times_1_2 : ℕ → ℕ) (now : Timeval) (args : Option (ℤ × ℤ))
      → Called lib (bws_set timeout times_1_2 now args lib).1
  sets_nat_port : (args : Option ℤ) → Called lib (nat_port_call args lib).1
  arms_cookies : (addr1 addr2 : SockaddrIn) → Called lib (arm addr1 addr2 lib).1
  takes_answers :
      (inet_ntop : ℕ → List ℕ)
      → Called lib (with_cookies (results inet_ntop lib.sender.cookies).1 lib)

-- What has happened in the session: the number of cookies that went to the socket, and the datagrams
-- that went there, that came from there and that have been processed.
pub record Trace : Type 0 where
  pub cookies : ℕ
  pub sent : List SendData
  pub arrived : List IncomingData
  pub processed : List IncomingData

abbrev pub nothing : Trace
nothing = record { cookies = 0; sent = []; arrived = []; processed = [] }

-- Before the first `listen_on`: nothing is queued or stored, and what the static arrays hold has room
-- behind it. Blocks may have been added.
pub record IsFresh (memory : Array IncomingData) (lib : Library) : Type 0 where
  pub closed : lib.sock ≡ pos 0
  pub cache : AllSound lib.cache
  pub distinct : AllDistinct lib.cache
  pub prio : IsValid lib.sender.queues.prio
  pub retr : IsValid lib.sender.queues.retr
  pub send : IsValid lib.sender.queues.send
  pub empty : queued lib.sender.queues ≡ 0
  pub room : QueuesFit lib.sender.queues
  pub nacks_fit : NacksFit lib.sender.nacks
  pub cookies_fit : CookiesFit lib.sender.cookies
  pub write_at : lib.biter.write_c ≡ 0
  pub read_at : lib.biter.read_c ≡ 0
  pub buffers : init_receiver lib.buffers ≡ init_buffers memory

-- The trace behind a part of a round of `send_packet`.
abbrev pub after_turn : Library → List SendData → ℕ → Trace → Trace
after_turn lib out ck_full h = record h {
  cookies = h.cookies + (lib.sender.cookies.ck_full - ck_full);
  sent = h.sent ++ out;
}

-- The states of a session. `starts` is listen_on with a socket that is bound; `sends_pair` and
-- `sends_next` are the two halves of a round of send_packet; `claims`, `fills`, `takes` and `handles`
-- those of packet_receiver and packet_processor; `pulls` is a round of send_pull; `offers` and
-- `accepts` are the halves of a round of bws_thread.
pub data Reached (memory : Array IncomingData) : Trace → Library → Type 0 where
  starts :
      {lib : Library} (new_sock : ℤ) (port : ℕ)
      → IsFresh memory lib
      → new_sock ≢ pos 0
      → new_sock ≢ negsuc 0
      → 0 < port
      → port < 65536
      → Reached memory nothing (listen_on new_sock true (some (pos port)) lib).1
  calls :
      {h : Trace} {lib lib' : Library}
      → Reached memory h lib
      → Called lib lib'
      → Reached memory h lib'
  sends_pair :
      {h : Trace} {lib : Library} (e : Environment) {out : List SendData} {s : bora.Sender.Sender}
      → Reached memory h lib
      → send_consecutive e lib.sender ≡ Turn.done out s
      → Reached memory (after_turn lib out s.cookies.ck_full h) (record lib { sender = s })
  sends_next :
      {h : Trace} {lib : Library} (e : Environment) {out : List SendData} {s : bora.Sender.Sender}
      → Reached memory h lib
      → send_next e [] lib.sender ≡ Turn.done out s
      → Reached memory (after_turn lib out s.cookies.ck_full h) (record lib { sender = s })
  claims :
      {h : Trace} {lib : Library}
      → Reached memory h lib
      → 0 < lib.buffers.b_empty
      → lib.buffers.filling ≡ false
      → Reached memory h (record lib { buffers = claim lib.buffers })
  fills :
      {h : Trace} {lib : Library} (d : IncomingData)
      → Reached memory h lib
      → lib.buffers.filling ≡ true
      → Reached memory
          (record h { arrived = h.arrived ++ (d ∷ []) })
          (record lib { buffers = fill d lib.buffers })
  takes :
      {h : Trace} {lib : Library}
      → Reached memory h lib
      → 0 < lib.buffers.b_full
      → lib.buffers.working ≡ false
      → Reached memory h (record lib { buffers = take lib.buffers })
  handles :
      {h : Trace} {lib : Library} (retransmission : Bool) (m : Memory) {r : Receiver}
      → Reached memory h lib
      → lib.buffers.working ≡ true
      → process retransmission m (current lib.buffers) (receiver_of lib) ≡ Result.done r
      → Reached memory
          (record h { processed = h.processed ++ (current lib.buffers ∷ []) })
          (record (with_receiver r lib) { buffers = release lib.buffers })
  pulls :
      {h : Trace} {lib : Library} {goes_on : Bool} {p : Bpuller}
      → Reached memory h lib
      → send_pull lib.kill_bora_threads lib.bpuller ≡ some (goes_on, p)
      → Reached memory h (record lib { bpuller = p })
  offers :
      {h : Trace} {lib : Library} {b : BwControl}
      → Reached memory h lib
      → offer lib.bws ≡ some b
      → Reached memory h (record lib { bws = b })
  accepts :
      {h : Trace} {lib : Library} {b : BwControl}
      → Reached memory h lib
      → accept lib.bws ≡ some b
      → Reached memory h (record lib { bws = b })
