-- ===== src/Receiver/BandwidthMessage.antt =====
-- A bandwidth message goes through the parts of the handler.
use bora.Prelude.{
  ℕ, ◌<◌, ◌≡◌, ◌≢◌, refl, ap, ◌∙◌, Bool, true, false, some, Array, ◌∷◌, ltb, ◌==◌, has, arith,
}
use bora.Net.Messages.{need_ack, blk_ack, blk_block}
use bora.Net.Messages
use bora.Codec.{decode_bwmsg, validate_bw}
use bora.Biter.{IncomingData}
use bora.BwMsgs.{bwmsg_received}
use bora.Receiver.{
  Memory, Receiver, InStats, done, process, handle, answer, strip_port, take_ack, take_bw,
  take_fragment, count_packet, ◌>>=◌, reject,
}

pub bw-same :
    (a b : Array ℕ)
    → ((i : ℕ) → i < 5 → a i ≡ b i)
    → (validate_bw a 5 ≡ validate_bw b 5) × (decode_bwmsg a 5 ≡ decode_bwmsg b 5)
unfolding validate_bw decode_bwmsg
bw-same a b same = (
  rw (same 0 (omega arith)) refl,
  rw (same 1 (omega arith), same 2 (omega arith), same 3 (omega arith), same 4 (omega arith)) refl,
)

-- A datagram with the flag BW_MSG goes to `take_bw` alone.
bw_passes :
    (retransmission : Bool) (m : Memory) (d d' : IncomingData) (r r' : Receiver)
    → d.buf 0 ≡ Messages.bw_msg
    → take_bw (d, r) ≡ (d', r')
    → has (d'.buf 0) blk_block ≡ false
    → (answer m (d, r) >>= λ w. take_ack retransmission w >>= λ w. take_fragment m (take_bw w))
      ≡ done (d', r')
unfolding answer take_ack take_fragment
bw_passes retransmission m d d' r r' flags taken no_block =
    let a : has (d.buf 0) need_ack ≡ false = rw flags refl in
    let b : has (d.buf 0) blk_ack ≡ false = rw flags refl in
    rw (a, answer) (rw b (rw (taken, take_fragment) (rw no_block refl)))

take_bw-valid :
    (d : IncomingData) (r : Receiver) {bw : ℕ}
    → d.buf 0 ≡ Messages.bw_msg
    → validate_bw d.buf d.buflen ≡ true
    → decode_bwmsg d.buf d.buflen ≡ some bw
    → take_bw (d, r)
      ≡ (d, record r { bwmlist = record { bw = bw; recv_time = d.tv; addr = d.host } ∷ r.bwmlist })
unfolding take_bw bwmsg_received
take_bw-valid d r flags valid decoded =
    let a : has (d.buf 0) Messages.bw_msg ≡ true = rw flags refl in
    rw (a, take_bw) (rw (valid, decoded) refl)

take_bw-bad :
    (d : IncomingData) (r : Receiver)
    → d.buf 0 ≡ Messages.bw_msg
    → validate_bw d.buf d.buflen ≡ false
    → take_bw (d, r) ≡ reject (d, r)
unfolding take_bw
take_bw-bad d r flags bad =
    let a : has (d.buf 0) Messages.bw_msg ≡ true = rw flags refl in rw (a, take_bw) (rw bad refl)

strip_port-zero :
    (d : IncomingData) → d.buflen ≡ 7 → d.buf 5 ≡ 0 → strip_port d ≡ record d { buflen = 5 }
unfolding strip_port
strip_port-zero d long port = ground arith

strip_port-nonzero :
    (d : IncomingData)
    → d.buflen ≡ 7
    → d.buf 5 ≢ 0
    → ((strip_port d).buflen ≡ 3) × ((strip_port d).buf ≡ d.buf)
unfolding strip_port
strip_port-nonzero d long port = (ground arith, ground arith)

-- A datagram with the flag goes through the parts that way.
process-flagged :
    (retransmission : Bool) (m : Memory) (d d' : IncomingData) (r r' : Receiver)
    → d.buf 0 ≡ Messages.bw_msg
    → d.buflen ≡ 7
    → (strip_port d).buf 0 ≡ Messages.bw_msg
    → take_bw (strip_port d, r) ≡ (d', r')
    → has (d'.buf 0) blk_block ≡ false
    → process retransmission m d r ≡ done (count_packet (d', r'))
unfolding process handle
process-flagged retransmission m d d' r r' flags long kept taken no_block =
    let a : ltb 1 d.buflen ≡ true = ground arith in
    let b : (d.buf 0 == 0) ≡ false = rw flags refl in
    rw (a, b)
      (ap (λ w. w >>= λ w. done (count_packet w))
        (bw_passes retransmission m (strip_port d) d' r r' kept taken no_block))

-- A bandwidth message is put in front of the list.
pub process-bw :
    (retransmission : Bool) (m : Memory) (d : IncomingData) (r : Receiver) {bw : ℕ}
    → d.buf 0 ≡ Messages.bw_msg
    → d.buflen ≡ 7
    → d.buf 5 ≡ 0
    → validate_bw d.buf 5 ≡ true
    → decode_bwmsg d.buf 5 ≡ some bw
    → process retransmission m d r
      ≡ done (
          count_packet (
            record d { buflen = 5 },
            record r { bwmlist = record { bw = bw; recv_time = d.tv; addr = d.host } ∷ r.bwmlist },
          ))
process-bw retransmission m d r {bw} flags long port valid decoded =
    let stripped = strip_port-zero d long port in
    process-flagged retransmission m d (record d { buflen = 5 }) r _ flags long (rw stripped flags)
      (rw stripped (take_bw-valid (record d { buflen = 5 }) r flags valid decoded)) (rw flags refl)

-- One that is two bytes too short is garbage.
pub process-bw_short :
    (retransmission : Bool) (m : Memory) (d : IncomingData) (r : Receiver)
    → d.buf 0 ≡ Messages.bw_msg
    → d.buflen ≡ 7
    → d.buf 5 ≢ 0
    → (st : InStats) × (process retransmission m d r ≡ done (record r { stats_r = st }))
unfolding count_packet validate_bw
process-bw_short retransmission m d r flags long port =
    let (short, same) = strip_port-nonzero d long port in
    let kept = ap (λ buf. buf 0) same ∙ flags in
    let (d', r') = reject (strip_port d, r) in
    (
      (count_packet (d', r')).stats_r,
      process-flagged retransmission m d d' r r' flags long kept
          (take_bw-bad (strip_port d) r kept (ground arith)) refl,
    )
