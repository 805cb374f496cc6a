-- ===== src/Receiver/Passing.antt =====
-- The parts of the handler that a fragment goes through behind `strip_port`.
use bora.Prelude.{
  ℕ, ◌+◌, ◌≡◌, ◌≢◌, refl, ◌⊎◌, inl, inr, Bool, true, false, Bool-cases, Option-cases, none, some,
  List, u64, has, arith,
}
use bora.Prelude.Int.{ℤ, pos, int32}
use bora.Net.Messages.{need_ack, blk_ack, bw_msg, blk_block}
use bora.Codec.{
  FragmentData, validate_block, decode_fragment, get_fragment_id, encode_ack, append_ack_cons,
  append_ack_ts,
}
use bora.Queues.{send_data}
use bora.BlockCache.{Block, AddResult, addfragment, iscomplete}
use bora.BlockCache.Queries.{get_consecutives}
use bora.Nacks.{strip_ack}
use bora.Biter.{IncomingData, Biter, block_completed}
use bora.Receiver.{
  Memory, Receiver, done, ◌>>=◌, sub64, answer, take_ack, take_bw, take_fragment, act_on,
  fragment_added, sampled, count_dupe, garbage,
}

-- A fragment that is answered: the parts up to `take_fragment`, which then sees it without its number.
pub fragment_passes :
    (retransmission : Bool) (m : Memory) (d : IncomingData) (r : Receiver) (cons : ℕ)
    → has (d.buf 0) need_ack ≡ true
    → has (d.buf 0) blk_ack ≡ false
    → has (d.buf 0) bw_msg ≡ false
    → validate_block d.buf (sub64 d.buflen 2) ≡ true
    → get_consecutives (get_fragment_id d.buf (sub64 d.buflen 2)) r.cache ≡ some cons
    → (r' : Receiver) × (r'.cache ≡ r.cache)
      × (r'.biter ≡ r.biter)
      × ((answer m (d, r) >>= λ w. take_ack retransmission w >>= λ w. take_fragment m (take_bw w))
          ≡ take_fragment m (record d { buflen = sub64 d.buflen 2 }, r'))
unfolding answer take_ack take_bw strip_ack
fragment_passes retransmission m d r cons need no_ack no_bw ok counted =
    let seq = strip_ack d.buf d.buflen in
    let s = append_ack_ts (append_ack_cons (encode_ack m.stack seq) cons) d.tv in
    let st = r.ack_state in
    let r' = record r {
      ack_state = record st { queues = send_data (record s { to = d.host }) st.queues };
      stats_r = record (r.stats_r) { i_data_counter = u64 (r.stats_r.i_data_counter + 2) };
    } in
    (r', refl, refl, rw (need, answer) (rw ok (rw counted (rw no_ack (rw no_bw refl)))))

block_completed-room :
    (s i : ℤ) (b : Biter)
    → b.s_biter_empty ≢ 0
    → (b' : Biter) × (block_completed s i none b ≡ some b')
unfolding block_completed
block_completed-room s i b room = elim (Option-cases (block_completed s i none b)) [
  | inl full ↦ absurd (ground arith)
  | inr told ↦ told
]

fragment_added-told :
    (g : FragmentData) (d : IncomingData) (r : Receiver)
    → r.biter.s_biter_empty ≢ 0
    → (r' : Receiver) × (fragment_added g (d, r) ≡ done (d, r'))
      × (r'.cache ≡ r.cache)
      × ((r'.biter ≡ r.biter) ⊎ (iscomplete g.streamid g.blockid r.cache ≡ true))
unfolding fragment_added
fragment_added-told g d r room =
    let (b, told) = block_completed-room (pos g.streamid) (int32 g.blockid) r.biter room in
    elim (Bool-cases (iscomplete g.streamid g.blockid r.cache)) [
      | inl whole ↦
          (record (sampled g (d, r)) { biter = b }, rw (whole) (rw told refl), refl, inr whole)
      | inr part ↦ (sampled g (d, r), rw part refl, refl, inl refl)
    ]

-- The switch on the code of `addfragment`: with room in the ring, or for a duplicate, it does not wait,
-- keeps the cache, and tells the Python side only if the block is complete.
act_on-told :
    (code : AddResult) (g : FragmentData) (d : IncomingData) (r : Receiver)
    → (code ≡ AddResult.f_duplicate) ⊎ (r.biter.s_biter_empty ≢ 0)
    → (r' : Receiver) × (act_on code g (d, r) ≡ done (d, r'))
      × (r'.cache ≡ r.cache)
      × ((r'.biter ≡ r.biter) ⊎ (iscomplete g.streamid g.blockid r.cache ≡ true))
unfolding act_on
act_on-told AddResult.f_added g d r (inl other) = ground arith
act_on-told AddResult.f_added g d r (inr room) = fragment_added-told g d r room
act_on-told AddResult.f_duplicate g d r h =
    (record r { stats_r = count_dupe d.buflen r.stats_r }, refl, refl, inl refl)
act_on-told AddResult.f_fragments_mismatch g d r h =
    (record r { stats_r = garbage d.buflen r.stats_r }, refl, refl, inl refl)
act_on-told AddResult.f_fragmentid_outofbounds g d r h =
    (record r { stats_r = garbage d.buflen r.stats_r }, refl, refl, inl refl)
act_on-told AddResult.f_bad_len g d r h =
    (record r { stats_r = garbage d.buflen r.stats_r }, refl, refl, inl refl)

-- The last part, for a fragment that is accepted.
pub take_fragment-told :
    (m : Memory) (d : IncomingData) (r : Receiver) {g : FragmentData} {code : AddResult}
    {cache' : List Block}
    → has (d.buf 0) blk_block ≡ true
    → validate_block d.buf d.buflen ≡ true
    → decode_fragment m.heap d.buf d.buflen ≡ some g
    → addfragment m.fresh g d.host d.tv r.cache ≡ some (code, cache')
    → (code ≡ AddResult.f_duplicate) ⊎ (r.biter.s_biter_empty ≢ 0)
    → (r' : Receiver) × (take_fragment m (d, r) ≡ done (d, r'))
      × (r'.cache ≡ cache')
      × ((r'.biter ≡ r.biter) ⊎ (iscomplete g.streamid g.blockid cache' ≡ true))
unfolding take_fragment
take_fragment-told m d r {g} {code} {cache'} block ok decoded added room =
    let (r', told, kept, biter) = act_on-told code g d (record r { cache = cache' }) room in
    (r', rw (block, take_fragment) (rw (ok, decoded, added) told), kept, biter)
