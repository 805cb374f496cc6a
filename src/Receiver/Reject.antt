-- ===== src/Receiver/Reject.antt =====
-- What `packet_processor` does with a datagram that asks for an acknowledgement.
use bora.Prelude.{
  ℕ, ◌+◌, ◌-◌, ◌<◌, ◌≡◌, ◌≢◌, refl, Bool, true, false, some, u64, has, ltb, ◌==◌, arith,
}
use bora.Net.{SendData}
use bora.Net.Messages.{need_ack, blk_ack}
use bora.Codec.{validate_block, get_fragment_id, decode_ack, validate_ack}
use bora.Codec.Ack.{IsInt32, make_ack, decode_ack-make_ack}
use bora.Queues.{send_data}
use bora.BlockCache.Queries.{get_consecutives}
use bora.Nacks.{strip_ack}
use bora.Biter.{IncomingData}
use bora.Receiver.{
  Receiver, Memory, done, sub64, garbage, reject, strip_port, answer, take_ack, take_bw,
  take_fragment, handle, count_packet, process,
}

answer-reject :
    (m : Memory) (d : IncomingData) (r : Receiver)
    → has (d.buf 0) need_ack ≡ true
    → validate_block d.buf (sub64 d.buflen 2) ≡ false
    → answer m (d, r) ≡ done (reject (d, r))
unfolding answer
answer-reject m d r need bad = rw (need, answer) (rw bad refl)

-- A datagram that asks for an acknowledgement and is no block fragment at the length without the
-- number is garbage: the block cache, the waiting lists, the queues, the ring to the Python side and
-- the estimations are as before, and only the counters of packets, of bytes and of garbage change.
pub process-garbage :
    (retransmission : Bool) (m : Memory) (d : IncomingData) (r : Receiver)
    → 1 < d.buflen
    → d.buf 0 ≢ 0
    → has ((strip_port d).buf 0) need_ack ≡ true
    → validate_block (strip_port d).buf (sub64 (strip_port d).buflen 2) ≡ false
    → process retransmission m d r
      ≡ done (
          count_packet
            (strip_port d, record r { stats_r = garbage (strip_port d).buflen r.stats_r }))
unfolding process handle take_ack take_bw take_fragment
process-garbage retransmission m d r hl hb need bad =
    let long : ltb 1 d.buflen ≡ true = ground arith in
    let flagged : (d.buf 0 == 0) ≡ false = ground arith in
    rw (long, process, handle) (rw flagged (rw (answer-reject m (strip_port d) r need bad) refl))

-- A datagram that is accepted is answered: one acknowledgement goes to the queues for the host it
-- came from, and what `decode_ack` reads of it is the datagram's number, its time of arrival and the
-- count of fragments that are there in front of it. Two bytes are taken off the datagram, and
-- nothing else changes but the count of bytes.
pub answer-accepted :
    (m : Memory) (d : IncomingData) (r : Receiver) (cons : ℕ)
    → has (d.buf 0) need_ack ≡ true
    → validate_block d.buf (sub64 d.buflen 2) ≡ true
    → get_consecutives (get_fragment_id d.buf (sub64 d.buflen 2)) r.cache ≡ some cons
    → 1 < d.buflen
    → ((i : ℕ) → d.buf i < 256)
    → cons < 0x1_0000
    → IsInt32 d.tv.tv_sec
    → IsInt32 d.tv.tv_usec
    → (s : SendData) × (s.to ≡ d.host)
      × (validate_ack s.contents s.length ≡ true)
      × (decode_ack s.contents s.length
          ≡ some (record {
            flags = blk_ack;
            seq = strip_ack d.buf d.buflen;
            sec = d.tv.tv_sec;
            usec = d.tv.tv_usec;
            cons = cons;
          }))
      × (answer m (d, r)
          ≡ done (
            record d { buflen = sub64 d.buflen 2 },
            record r {
              ack_state = record (r.ack_state) { queues = send_data s r.ack_state.queues };
              stats_r = record (r.stats_r) { i_data_counter = u64 (r.stats_r.i_data_counter + 2) };
            },
          ))
unfolding answer strip_ack make_ack
answer-accepted m d r cons need ok hc hl bytes hcons hs hu =
    let seq = strip_ack d.buf d.buflen in
    let (valid, decoded) =
      decode_ack-make_ack m.stack seq cons d.tv
        (omega (arith, bytes (d.buflen - 2), bytes (d.buflen - 2 + 1))) hcons hs hu in
    (
      record (make_ack m.stack seq cons d.tv) { to = d.host },
      refl,
      valid,
      decoded,
      rw (need, answer) (rw ok (rw hc refl)),
    )
