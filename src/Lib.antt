-- ===== src/Lib.antt =====
-- bora sends blocks of bytes between hosts over UDP: a C library with a Python interface. A block is
-- cut into fragments, each datagram may ask for an acknowledgement, and what is not acknowledged is
-- sent again.
--
-- The parts of the program, and the files here that model them:
--   * messages.h, bora_util.c and the common structures: Net, Net/Messages, Net/Time.
--   * netencoder.c, the wire format: Codec. Its functions keep their names.
--   * blockcache.c, the blocks that are held: BlockCache. `addfragment` is split into the branch for
--     a block that is not there (`first_fragment`) and that for one that is (`next_fragment`).
--     `sendblock` stands in BlockCache/Outgoing, the lists and counts in BlockCache/Queries.
--   * packet_sender.c, the three queues and `send_data`: Queues. The sending thread: Sender, where
--     `packet_send` is composed of the choice of a datagram (`choose`) and its completion (`finish`),
--     and `send_round` (Sender/Round) is one round of the loop of `send_packet`.
--   * ack.c, the datagrams that wait for an acknowledgement: Nacks.
--   * ack_received.c, what is known of each peer: PeerAcks.
--   * cookie_sender.c: Cookies. recv_stats.c: RecvStats. bw_msgs.c: BwMsgs.
--   * biter_bridge.c and `bora_BIter_iternext` of bora.c, the ring to the Python side: Biter.
--   * packet_receiver.c, the handler of received datagrams: Receiver, where `process` is one round of
--     the loop of `packet_processor`, composed of one function for each of its parts. The ring of
--     buffers between the two receiving threads: Receiver/Buffers, a relation of steps.
--   * bw_stats.c, stats_bridge.c and bpuller_bridge.c, with their readers in bora.c: BwControl.
--   * bora.c, the functions that Python calls: Bindings, with their state `Library`, the errors they
--     raise and the checks they begin with, and its children Blocks, Messages, Session, Stats, Control
--     and CookieCall, each function under the name it has for Python, or with what it returns after it.
--     `compute_average` of ack_received.c: PeerAcks/Average.
--   * `win32_inet_aton` of bora.c, the address parser of the Windows build: InetAton.
--   * main.c and spam.c, which are demonstrations: Demo.
-- A datagram's way from one host to another is composed in Sender/Pair, Receiver/Arrive,
-- Receiver/Transfer and the modules of proofs under Bindings. The whole library in one session is
-- composed in System: the states that every call of Python (`Called`) and the loops of the threads
-- (`Reached`) lead to from `listen_on` on, in any order, with a trace of the datagrams that came and
-- went. The modules named Fit, Keeps, Drift and Safe hold what each part keeps of the invariant there.
-- Tests holds concrete data, and the theorems applied to it.
--
-- How they interact: `sendblock` cuts a block and calls `send_data`, which puts each datagram on one of
-- three rings. The sending thread takes the one that is due, puts a number (`append_ack`, which also
-- stores the datagram) and its port behind it, and hands it to the socket. The receiving thread takes
-- the port and the number off, answers with an acknowledgement through `send_data`, and gives the
-- fragment to `addfragment`; a complete block is told to the Python side. An acknowledgement takes
-- the stored datagram out (`pop_ack`), and `ack_received` removes or resends what it has overtaken.
--
-- The functions that Python calls read and change the parts of those states that they name: `Library`
-- puts them together, with the counts of the semaphores, the socket and `ack_list`.
--
-- How the state is modelled: the static variables of a file are a record, and a function that changes
-- them returns the new record. Semaphores are their counts; a function that would wait returns `none`
-- or `waits`. Arrays are functions from the index (Prelude/Arrays); an access outside of an allocation
-- is `none` or `faults`, and bytes that were never written are whatever the function says. The 1500
-- bytes of a `SendData` are the exception: `encode_fragment`, `append_ack` and `append_port` are what
-- the code does with a datagram that has room there, and the source writes a longer one past the end.
-- Theorems about single fragments take the room as a condition, and the sessions of System keep to
-- it. What malloc or the stack leaves uninitialised is an argument. The lists of queue.h are lists, newest
-- first. Numbers of w bits are natural numbers with the wrap-around written out; signed ones are
-- integers (Prelude/Int). Each function holds its locks throughout and is one step; the clock, and
-- whether sendto succeeds, are arguments. All loops are by structural recursion, so no fuel is needed.
-- A call from Python is a function of the `Library` into a reply, an error that is raised, or a wait;
-- its Python arguments come parsed, and inet_pton, inet_ntop, the results of socket and bind, and what
-- the other threads do while a call sleeps are arguments. The number times 1.2 of
-- `get_timeout_value`, which is computed in floating point, is a parameter.
--
-- In System a session ends before `die`, which posts the semaphores for the threads to end; `send_block`
-- is called only for blocks that are complete or not there, and `add_block` with less than 2 ^ 31 bytes;
-- each half of a round of the sending thread is one step, and so is a round of the puller thread
-- without its waits for a signal, since such a wait may end at any time. The thread of the bandwidths
-- holds `bwLock` from its post on `s_bws_hasdata` until Python answers with `bws_set`, and the sending
-- thread waits for that lock with a datagram in hand: `packet_send` then gives `holds`. In System the
-- steps of the sending thread are also made while the lock is held, so that the sessions there are
-- those of the program and more.
--
-- Not modelled: the start and the end of the threads themselves, with what they take from the
-- semaphores as they end; the tables of types and methods of the Python module and the reference counts
-- of its objects; the build with BORA_DROP; and queue.h, which is a copy of a system
-- header. A number that the code computes as a double is kept as its
-- operands, or as a Timeval, in place of the quotient.
pub mod Prelude
pub mod Net
pub mod Codec
pub mod Queues
pub mod BlockCache
pub mod Nacks
pub mod Cookies
pub mod Sender
pub mod PeerAcks
pub mod Biter
pub mod RecvStats
pub mod BwMsgs
pub mod Receiver
pub mod BwControl
pub mod InetAton
pub mod Bindings
pub mod System
pub mod Demo
pub mod Tests
