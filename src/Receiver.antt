-- ===== src/Receiver.antt =====
-- packet_receiver.c: what `packet_processor` does with a datagram that has been received. The
-- handler is one step, in the parts between its comments; it reads and writes the caches and lists
-- of the other files. Sizes are `size_t` and wrap.
mod State
pub mod Buffers
pub mod Port
pub mod Journey
pub mod Passing
pub mod BandwidthMessage
pub mod Arrive
pub mod Transfer
pub mod Reject
pub mod Keeps
pub use State.*
use bora.Prelude.{
  ℕ, ◌+◌, ◌-◌, ◌%◌, Bool, Option, none, some, Array, set, List, u64, has, ltb, ◌==◌, if◌then◌else◌,
}
use bora.Prelude.Int.{pos, int32}
use bora.Net.{SendData}
use bora.Net.Messages.{need_ack, blk_ack, bw_msg, blk_block}
use bora.Codec.{
  FragmentData, AckReceived, validate_ack, validate_bw, validate_block, decode_fragment, encode_ack,
  append_ack_cons, append_ack_ts, decode_ack, decode_bwmsg, get_fragment_id,
}
use bora.Queues.{send_data}
use bora.BlockCache.{Block, AddResult, addfragment, iscomplete}
use bora.BlockCache.Queries.{get_consecutives}
use bora.Nacks.{pop_ack, strip_ack}
use bora.PeerAcks.{AckState, ack_received}
use bora.Biter.{IncomingData, Biter, block_completed, minus_one}
use bora.RecvStats.{BwEstimation, fragment_received}
use bora.BwMsgs.{BwMsg, bwmsg_received}

-- A message without flags goes to the Python side.
unfoldable pub pass_message : Work → Result Work
unfolding block_completed
pass_message (d, r) =
    if ltb 3 d.buflen
    then (or_waits (block_completed minus_one minus_one (some d) r.biter) >>= λ biter.
        done (d, record r { biter = biter }))
    else done (d, r)

-- Any other has its sender's port at its end. One byte of it is read; if it is not 0 it becomes the
-- port, and two more bytes are taken off.
unfoldable pub strip_port : IncomingData → IncomingData
strip_port d =
    let l = d.buflen - 2 in
    if d.buf l == 0
    then record d { buflen = l }
    else record d { buflen = sub64 l 2; host = record (d.host) { sin_port = d.buf l } }

-- IF ACK IS REQUIRED SEND ACK IMMEDIATELY
unfoldable pub answer : Memory → Work → Result Work
unfolding strip_ack get_fragment_id encode_ack append_ack_cons append_ack_ts
answer m (d, r) =
    if has (d.buf 0) need_ack
    then if validate_block d.buf (sub64 d.buflen 2)
      then (let seq = strip_ack d.buf d.buflen in
          let l = sub64 d.buflen 2 in
          or_faults (get_consecutives (get_fragment_id d.buf l) r.cache) >>= λ cons.
          let s = append_ack_ts (append_ack_cons (encode_ack m.stack seq) cons) d.tv in
          let st = r.ack_state in
          done (
            record d { buflen = l },
            record r {
              ack_state = record st { queues = send_data (record s { to = d.host }) st.queues };
              stats_r = record (r.stats_r) { i_data_counter = u64 (r.stats_r.i_data_counter + 2) };
            },
          ))
      else done (reject (d, r))
    else done (d, r)

abbrev pub count_ack : ℕ → InStats → InStats
count_ack l st = record st {
  i_ack_counter = u64 (st.i_ack_counter + 1);
  i_ack_data_counter = u64 (st.i_ack_data_counter + l);
}

abbrev pub count_bad_ack : ℕ → InStats → InStats
count_bad_ack l st = record (garbage l st) { i_bad_ack_counter = u64 (st.i_bad_ack_counter + 1) }

-- A valid acknowledgement finds the datagram that it is for, or is garbage.
unfoldable pub match_ack : Bool → AckReceived → Work → Work
match_ack retransmission ack_r (d, r) =
    let st = r.ack_state in
    let counted = count_ack d.buflen r.stats_r in
    let (found, nacks) = pop_ack ack_r.seq d.host st.nacks in
    elim found [
      | none ↦ (d, record r { stats_r = count_bad_ack d.buflen counted })
      | some ack ↦ (
        d,
        record r {
          stats_r = counted;
          ack_state =
              ack_received retransmission ack ack_r d.tv d.host (record st { nacks = nacks });
        },
      )
    ]

-- IF PACKET IS AN ACK POP FROM ACK, GIVE TO ACK RECEIVER AND FREE. A datagram that `validate_ack`
-- accepts is decoded; the code does not test for NULL.
unfoldable pub take_ack : Bool → Work → Result Work
unfolding decode_ack match_ack
take_ack retransmission (d, r) =
    if has (d.buf 0) blk_ack
    then if validate_ack d.buf d.buflen
      then elim (decode_ack d.buf d.buflen) [
        | none ↦ faults
        | some ack_r ↦ done (match_ack retransmission ack_r (d, r))
      ]
      else done (reject (d, r))
    else done (d, r)

unfoldable pub take_bw : Work → Work
unfolding decode_bwmsg bwmsg_received
take_bw (d, r) =
    if has (d.buf 0) bw_msg
    then if validate_bw d.buf d.buflen
      then elim (decode_bwmsg d.buf d.buflen) [
        | none ↦ reject (d, r)
        | some bw ↦ (
          d,
          record r {
            bwmlist =
                bwmsg_received (record { bw = bw; recv_time = d.tv; addr = d.host }) r.bwmlist;
          },
        )
      ]
      else reject (d, r)
    else (d, r)

-- A sample for the bandwidth.
abbrev pub sampled : FragmentData → Work → Receiver
sampled g (d, r) = record r {
  estimations =
      fragment_received
        (record {
          host = d.host;
          fromlen = d.fromlen;
          streamid = g.streamid;
          blockid = g.blockid;
          fragmentid = g.fragmentid;
          buflen = d.buflen;
          tv = d.tv;
          flags = d.buf 0;
        })
        r.estimations;
}

-- The case F_ADDED: a sample, and word of a block that is now complete.
unfoldable pub fragment_added : FragmentData → Work → Result Work
unfolding block_completed
fragment_added g (d, r) =
    if iscomplete g.streamid g.blockid r.cache
    then (or_waits (block_completed (pos g.streamid) (int32 g.blockid) none r.biter) >>= λ biter.
        done (d, record (sampled g (d, r)) { biter = biter }))
    else done (d, sampled g (d, r))

abbrev pub count_dupe : ℕ → InStats → InStats
count_dupe l st = record st {
  i_dupe_counter = u64 (st.i_dupe_counter + 1);
  i_dupe_data_counter = u64 (st.i_dupe_data_counter + l);
}

-- The switch on the result of `addfragment`.
unfoldable pub act_on : AddResult → FragmentData → Work → Result Work
unfolding fragment_added
act_on AddResult.f_added g w = fragment_added g w
act_on AddResult.f_duplicate g (d, r) =
    done (d, record r { stats_r = count_dupe d.buflen r.stats_r })
act_on AddResult.f_fragments_mismatch g (d, r) =
    done (d, record r { stats_r = garbage d.buflen r.stats_r })
act_on AddResult.f_fragmentid_outofbounds g (d, r) =
    done (d, record r { stats_r = garbage d.buflen r.stats_r })
act_on AddResult.f_bad_len g (d, r) = done (d, record r { stats_r = garbage d.buflen r.stats_r })

-- IF PACKET CONTAINS BLOCK FRAGMENTS PROCESS IT AND SEND TO BLOCK CACHE
unfoldable pub take_fragment : Memory → Work → Result Work
unfolding act_on
take_fragment m (d, r) =
    if has (d.buf 0) blk_block
    then if validate_block d.buf d.buflen
      then elim (decode_fragment m.heap d.buf d.buflen) [
        | none ↦ done (reject (d, r))
        | some g ↦ or_faults (addfragment m.fresh g d.host d.tv r.cache) >>= λ out.
            act_on out.0 g (d, record r { cache = out.1 })
      ]
      else done (reject (d, r))
    else done (d, r)

-- The parts that follow for a datagram of more than one byte.
unfoldable pub handle : Bool → Memory → Work → Result Work
unfolding pass_message strip_port answer take_ack take_bw take_fragment
handle retransmission m (d, r) =
    (if d.buf 0 == 0 then pass_message (d, r) else done (strip_port d, r)) >>= λ w.
    answer m w >>= λ w. take_ack retransmission w >>= λ w. take_fragment m (take_bw w)

-- The last statements of a round.
unfoldable pub count_packet : Work → Receiver
count_packet (d, r) = record r {
  stats_r = record (r.stats_r) {
    i_data_counter = u64 (r.stats_r.i_data_counter + d.buflen);
    i_pkg_counter = u64 (r.stats_r.i_pkg_counter + 1);
  };
}

-- A round of the loop of `packet_processor`.
unfoldable pub process : Bool → Memory → IncomingData → Receiver → Result Receiver
unfolding handle count_packet
process retransmission m d r =
    (if ltb 1 d.buflen then handle retransmission m (d, r) else done (d, r)) >>= λ w.
    done (count_packet w)
