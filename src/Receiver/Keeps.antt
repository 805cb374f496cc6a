-- ===== src/Receiver/Keeps.antt =====
-- What every datagram that is received keeps: the blocks are sound, the ring to the Python side is
-- balanced, what waits for an acknowledgement has room behind it, and so is what `send_data` keeps of
-- the queues.
use bora.Prelude.{
  ℕ, Bool, Bool-cases, Option-cases, inl, inr, none, some, has, ltb, ◌==◌, if◌then◌else◌, arith,
}
use bora.Prelude.Int.{pos, int32}
use bora.Net.{SockaddrIn, SendData}
use bora.Net.Messages.{need_ack, blk_ack, bw_msg, blk_block}
use bora.Codec.{
  FragmentData, AckReceived, validate_ack, validate_bw, validate_block, decode_fragment, decode_ack,
  decode_bwmsg, get_fragment_id, encode_ack, append_ack_cons, append_ack_ts,
}
use bora.Queues.{Queues, send_data}
use bora.BlockCache.{AddResult, addfragment, iscomplete}
use bora.BlockCache.Bounds.{AllSound}
use bora.BlockCache.Invariant.{addfragment-AllSound}
use bora.BlockCache.Distinct.{AllDistinct, addfragment-AllDistinct}
use bora.BlockCache.Queries.{get_consecutives}
use bora.Nacks.{pop_ack}
use bora.Nacks.Fit.{pop_ack-NacksFit}
use bora.Queues.Fit.{Fits}
use bora.PeerAcks.{AckState}
use bora.PeerAcks.Keeps.{AckKept, ack_received_keeps}
use bora.Biter.{IncomingData, block_completed, minus_one}
use bora.Biter.Fifo.{IsBalanced, block_completed-IsBalanced}
use bora.Receiver.{
  Memory, Receiver, Result, done, waits, faults, ◌>>=◌, Work, sub64, reject, pass_message,
  strip_port, answer, match_ack, take_ack, take_bw, fragment_added, act_on, take_fragment, handle,
  count_packet, process,
}

module _ (P : Queues → Type 0)
    (keeps : (d : SendData) (q : Queues) → Fits d → P q → P (send_data d q)) where
  pub record IsKept (r : Receiver) : Type 0 where
    pub cache : AllSound r.cache
    pub distinct : AllDistinct r.cache
    pub biter : IsBalanced r.biter
    pub ack_state : AckKept P keeps r.ack_state

  -- The state behind a part of the handler that comes to its end.
  abbrev Kept : Result Work → Type 0
  Kept (done w) = IsKept w.1
  Kept waits = Unit
  Kept faults = Unit

  bind-Kept :
      (x : Result Work) (f : Work → Result Work)
      → Kept x
      → ((w : Work) → IsKept w.1 → Kept (f w))
      → Kept (x >>= f)
  bind-Kept (done w) f k next = next w k
  bind-Kept waits f k next = tt
  bind-Kept faults f k next = tt

  pass_message-Kept : (w : Work) → IsKept w.1 → Kept (pass_message w)
  unfolding pass_message
  pass_message-Kept (d, r) k = elim (Bool-cases (ltb 3 d.buflen)) [
    | inl long ↦ elim (Option-cases (block_completed minus_one minus_one (some d) r.biter)) [
      | inl full ↦ rw (long, full) tt
      | inr (b, told) ↦
          rw (long, told)
            (record {
              cache = k.cache;
              distinct = k.distinct;
              biter = block_completed-IsBalanced minus_one minus_one (some d) r.biter k.biter told;
              ack_state = k.ack_state;
            })
    ]
    | inr short ↦ rw short k
  ]

  reject-IsKept : (w : Work) → IsKept w.1 → IsKept (reject w).1
  reject-IsKept (d, r) k = record {
    cache = k.cache;
    distinct = k.distinct;
    biter = k.biter;
    ack_state = k.ack_state;
  }

  answer-Kept : (m : Memory) (w : Work) → IsKept w.1 → Kept (answer m w)
  unfolding answer append_ack_ts append_ack_cons encode_ack
  answer-Kept m (d, r) k = elim (Bool-cases (has (d.buf 0) need_ack)) [
    | inr quiet ↦ rw (quiet, answer) k
    | inl asks ↦ elim (Bool-cases (validate_block d.buf (sub64 d.buflen 2))) [
      | inr bad ↦ rw (asks, answer, bad) (reject-IsKept (d, r) k)
      | inl good ↦
          elim (Option-cases
            (get_consecutives (get_fragment_id d.buf (sub64 d.buflen 2)) r.cache)) [
              | inl outside ↦ rw (asks, answer, good, outside) tt
              | inr (cons, counted) ↦
                  rw (asks, answer, good, counted)
                    (record {
                      cache = k.cache;
                      distinct = k.distinct;
                      biter = k.biter;
                      ack_state = record {
                        nacks = k.ack_state.nacks;
                        cookies = k.ack_state.cookies;
                        queues = keeps _ r.ack_state.queues (omega arith) k.ack_state.queues;
                      };
                    })
            ]
    ]
  ]

  popped-AckKept :
      (seq : ℕ) (host : SockaddrIn) (st : AckState)
      → AckKept P keeps st
      → AckKept P keeps (record st { nacks = (pop_ack seq host st.nacks).1 })
  popped-AckKept seq host st k = record {
    nacks = (pop_ack-NacksFit seq host st.nacks k.nacks).0;
    cookies = k.cookies;
    queues = k.queues;
  }

  match_ack-IsKept :
      (retransmission : Bool) (ack_r : AckReceived) (w : Work)
      → IsKept w.1
      → IsKept (match_ack retransmission ack_r w).1
  unfolding match_ack
  match_ack-IsKept retransmission ack_r (d, r) k =
      let st = r.ack_state in
      elim (Option-cases (pop_ack ack_r.seq d.host st.nacks).0) [
        | inl unknown ↦
            rw (unknown, match_ack)
              (record {
                cache = k.cache;
                distinct = k.distinct;
                biter = k.biter;
                ack_state = k.ack_state;
              })
        | inr (ack, found) ↦
            rw (found, match_ack)
              (record {
                cache = k.cache;
                distinct = k.distinct;
                biter = k.biter;
                ack_state =
                    ack_received_keeps P keeps retransmission ack ack_r d.tv d.host
                      (record st { nacks = (pop_ack ack_r.seq d.host st.nacks).1 })
                      (popped-AckKept ack_r.seq d.host st k.ack_state);
              })
      ]

  take_ack-Kept : (retransmission : Bool) (w : Work) → IsKept w.1 → Kept (take_ack retransmission w)
  unfolding take_ack
  take_ack-Kept retransmission (d, r) k = elim (Bool-cases (has (d.buf 0) blk_ack)) [
    | inr other ↦ rw (other, take_ack) k
    | inl ack ↦ elim (Bool-cases (validate_ack d.buf d.buflen)) [
      | inr bad ↦ rw (ack, take_ack, bad) (reject-IsKept (d, r) k)
      | inl good ↦ elim (Option-cases (decode_ack d.buf d.buflen)) [
        | inl null ↦ rw (ack, take_ack, good, null) tt
        | inr (ack_r, decoded) ↦
            rw (ack, take_ack, good, decoded) (match_ack-IsKept retransmission ack_r (d, r) k)
      ]
    ]
  ]

  take_bw-IsKept : (w : Work) → IsKept w.1 → IsKept (take_bw w).1
  unfolding take_bw
  take_bw-IsKept (d, r) k = elim (Bool-cases (has (d.buf 0) bw_msg)) [
    | inr other ↦ rw (other, take_bw) k
    | inl bw ↦ elim (Bool-cases (validate_bw d.buf d.buflen)) [
      | inr bad ↦ rw (bw, take_bw, bad) (reject-IsKept (d, r) k)
      | inl good ↦ elim (Option-cases (decode_bwmsg d.buf d.buflen)) [
        | inl null ↦ rw (bw, take_bw, good, null) (reject-IsKept (d, r) k)
        | inr (n, decoded) ↦
            rw (bw, take_bw, good, decoded)
              (record {
                cache = k.cache;
                distinct = k.distinct;
                biter = k.biter;
                ack_state = k.ack_state;
              })
      ]
    ]
  ]

  fragment_added-Kept : (g : FragmentData) (w : Work) → IsKept w.1 → Kept (fragment_added g w)
  unfolding fragment_added
  fragment_added-Kept g (d, r) k = elim (Bool-cases (iscomplete g.streamid g.blockid r.cache)) [
    | inr part ↦
        rw (part, fragment_added)
          (record {
            cache = k.cache;
            distinct = k.distinct;
            biter = k.biter;
            ack_state = k.ack_state;
          })
    | inl whole ↦
        elim (Option-cases (block_completed (pos g.streamid) (int32 g.blockid) none r.biter)) [
          | inl full ↦ rw (whole, fragment_added, full) tt
          | inr (b, told) ↦
              rw (whole, fragment_added, told)
                (record {
                  cache = k.cache;
                  distinct = k.distinct;
                  biter =
                      block_completed-IsBalanced (pos g.streamid) (int32 g.blockid) none r.biter
                        k.biter told;
                  ack_state = k.ack_state;
                })
        ]
  ]

  act_on-Kept :
      (code : AddResult) (g : FragmentData) (w : Work) → IsKept w.1 → Kept (act_on code g w)
  unfolding act_on
  act_on-Kept AddResult.f_added g w k = fragment_added-Kept g w k
  act_on-Kept AddResult.f_duplicate g (d, r) k = record {
    cache = k.cache;
    distinct = k.distinct;
    biter = k.biter;
    ack_state = k.ack_state;
  }
  act_on-Kept AddResult.f_fragments_mismatch g (d, r) k = record {
    cache = k.cache;
    distinct = k.distinct;
    biter = k.biter;
    ack_state = k.ack_state;
  }
  act_on-Kept AddResult.f_fragmentid_outofbounds g (d, r) k = record {
    cache = k.cache;
    distinct = k.distinct;
    biter = k.biter;
    ack_state = k.ack_state;
  }
  act_on-Kept AddResult.f_bad_len g (d, r) k = record {
    cache = k.cache;
    distinct = k.distinct;
    biter = k.biter;
    ack_state = k.ack_state;
  }

  take_fragment-Kept : (m : Memory) (w : Work) → IsKept w.1 → Kept (take_fragment m w)
  unfolding take_fragment
  take_fragment-Kept m (d, r) k = elim (Bool-cases (has (d.buf 0) blk_block)) [
    | inr other ↦ rw (other, take_fragment) k
    | inl block ↦ elim (Bool-cases (validate_block d.buf d.buflen)) [
      | inr bad ↦ rw (block, take_fragment, bad) (reject-IsKept (d, r) k)
      | inl good ↦ elim (Option-cases (decode_fragment m.heap d.buf d.buflen)) [
        | inl null ↦ rw (block, take_fragment, good, null) (reject-IsKept (d, r) k)
        | inr (g, decoded) ↦ elim (Option-cases (addfragment m.fresh g d.host d.tv r.cache)) [
          | inl outside ↦ rw (block, take_fragment, good, decoded, outside) tt
          | inr ((code, cache'), added) ↦
              rw (block, take_fragment, good, decoded, added)
                (act_on-Kept code g (d, record r { cache = cache' })
                  (record {
                    cache = addfragment-AllSound m.fresh g d.host d.tv r.cache k.cache added;
                    distinct =
                        addfragment-AllDistinct m.fresh g d.host d.tv r.cache k.distinct added;
                    biter = k.biter;
                    ack_state = k.ack_state;
                  }))
        ]
      ]
    ]
  ]

  handle-Kept :
      (retransmission : Bool) (m : Memory) (w : Work)
      → IsKept w.1
      → Kept (handle retransmission m w)
  unfolding handle
  handle-Kept retransmission m (d, r) k =
      bind-Kept (if d.buf 0 == 0 then pass_message (d, r) else done (strip_port d, r)) _ first
        (λ w k. bind-Kept (answer m w) _ (answer-Kept m w k) (λ w k.
          bind-Kept (take_ack retransmission w) _ (take_ack-Kept retransmission w k)
            (λ w k. take_fragment-Kept m (take_bw w) (take_bw-IsKept w k))))
    where
      first : Kept (if d.buf 0 == 0 then pass_message (d, r) else done (strip_port d, r))
      first = elim (Bool-cases (d.buf 0 == 0)) [
        | inl message ↦ rw message (pass_message-Kept (d, r) k)
        | inr flagged ↦ rw flagged k
      ]

  -- A round of the loop of `packet_processor`.
  abbrev pub Processed : Result Receiver → Type 0
  Processed (done r) = IsKept r
  Processed waits = Unit
  Processed faults = Unit

  counted-Kept : (x : Result Work) → Kept x → Processed (x >>= λ w. done (count_packet w))
  unfolding count_packet
  counted-Kept (done w) k = record {
    cache = k.cache;
    distinct = k.distinct;
    biter = k.biter;
    ack_state = k.ack_state;
  }
  counted-Kept waits k = tt
  counted-Kept faults k = tt

  pub process-Kept :
      (retransmission : Bool) (m : Memory) (d : IncomingData) (r : Receiver)
      → IsKept r
      → Processed (process retransmission m d r)
  unfolding process
  process-Kept retransmission m d r k = elim (Bool-cases (ltb 1 d.buflen)) [
    | inl long ↦
        rw long
          (counted-Kept (handle retransmission m (d, r)) (handle-Kept retransmission m (d, r) k))
    | inr short ↦ rw short (counted-Kept (done (d, r)) k)
  ]
