-- ===== src/Receiver/Arrive.antt =====
-- A fragment goes through all parts of the handler.
use bora.Prelude.{
  ℕ, ◌+◌, ◌-◌, ◌<◌, ◌≡◌, ◌≢◌, refl, ap, ◌∙◌, ◌⊎◌, inl, inr, Bool, true, false, Bool-cases, some,
  Array, List, memcpy, from, u8, has, ltb, ◌==◌, arith,
}
use bora.Net.{SockaddrIn, SendData}
use bora.Net.Time.{Timeval}
use bora.Net.Messages.{need_ack, blk_ack, bw_msg, blk_block}
use bora.Codec.{
  FragmentData, validate_block, decode_fragment, get_fragment_id, header_size, encode_fragment,
}
use bora.Codec.Fragment.{Fits, header_of}
use bora.BlockCache.{Block, AddResult, addfragment, iscomplete}
use bora.BlockCache.Queries.{get_consecutives}
use bora.BlockCache.Outgoing.{datagram_of}
use bora.Sender.{Sender, completed}
use bora.Biter.{IncomingData}
use bora.Receiver.{
  Memory, Receiver, done, ◌>>=◌, sub64, strip_port, answer, take_ack, take_bw, take_fragment,
  handle, process, count_packet,
}
use bora.Receiver.Port.{arriving, strip_port-completed, completed-Frame}
use bora.Receiver.Journey.{
  addfragment_payload, landed, landed_lem, landed-header, validate_block-header,
  decode_fragment-header,
}
use bora.Receiver.Passing.{take_fragment-told, fragment_passes}

strip_port-tv : (d : IncomingData) → (strip_port d).tv ≡ d.tv
unfolding strip_port
strip_port-tv d = elim (Bool-cases (d.buf (d.buflen - 2) == 0)) [
  | inl zero_port ↦ rw zero_port refl
  | inr other_port ↦ rw other_port refl
]

-- `addfragment` of the fragment that was decoded, under equal addresses, times and caches.
addfragment_at :
    (fresh : Block) (f : FragmentData) (p : Array ℕ) {host host' : SockaddrIn} {tv tv' : Timeval}
    {cache cache' : List Block} {out : AddResult × List Block}
    → ((i : ℕ) → i < f.length → p i ≡ f.payload i)
    → host' ≡ host
    → tv' ≡ tv
    → cache' ≡ cache
    → addfragment fresh f host tv cache ≡ some out
    → addfragment fresh (record f { payload = p }) host' tv' cache' ≡ some out
addfragment_at fresh f p {host} {tv = tv} {cache = cache} same a b c added =
    rw (a, b, c) (addfragment_payload fresh f p host tv cache same ∙ added)

addfragment_host :
    (fresh : Block) (f : FragmentData) {host host' : SockaddrIn} {tv tv' : Timeval}
    (cache : List Block) {out : AddResult × List Block}
    → host' ≡ host
    → tv' ≡ tv
    → addfragment fresh f host tv cache ≡ some out
    → addfragment fresh f host' tv' cache ≡ some out
addfragment_host fresh f cache a b added = rw (a, b) added

process_passes :
    (retransmission : Bool) (m : Memory) (d w' : IncomingData) (r r' : Receiver)
    → ltb 1 d.buflen ≡ true
    → (d.buf 0 == 0) ≡ false
    → (answer m (strip_port d, r) >>= λ w.
        take_ack retransmission w >>= λ w. take_fragment m (take_bw w))
      ≡ done (w', r')
    → (out : Receiver) × (process retransmission m d r ≡ done out)
      × (out.cache ≡ r'.cache)
      × (out.biter ≡ r'.biter)
unfolding process handle count_packet
process_passes retransmission m d w' r r' long flagged told = (
  count_packet (w', r'),
  rw (long, flagged) (ap (λ w. w >>= λ w. done (count_packet w)) told),
  refl,
  refl,
)

-- What the handler finds of a fragment, its port taken off.
record Accepted (w : IncomingData) (f : FragmentData) : Type 0 where
  need : has (w.buf 0) need_ack ≡ true
  no_ack : has (w.buf 0) blk_ack ≡ false
  no_bw : has (w.buf 0) bw_msg ≡ false
  block : has (w.buf 0) blk_block ≡ true
  valid : validate_block w.buf (sub64 w.buflen 2) ≡ true
  id : get_fragment_id w.buf (sub64 w.buflen 2) ≡ header_of f
  decoded :
      (heap : Array ℕ)
      → (p : Array ℕ) × (decode_fragment heap w.buf (sub64 w.buflen 2)
          ≡ some (record f { payload = p }))
        × ((i : ℕ) → i < f.length → p i ≡ f.payload i)

-- The parts of the handler behind `strip_port`.
Accepted-told :
    (retransmission : Bool) (m : Memory) (w : IncomingData) (f : FragmentData) (r : Receiver)
    (cons : ℕ) {code : AddResult} {cache' : List Block}
    → Accepted w f
    → get_consecutives (header_of f) r.cache ≡ some cons
    → addfragment m.fresh f w.host w.tv r.cache ≡ some (code, cache')
    → (code ≡ AddResult.f_duplicate) ⊎ (r.biter.s_biter_empty ≢ 0)
    → (w' : IncomingData) × (r' : Receiver) × ((answer m (w, r) >>= λ w.
          take_ack retransmission w >>= λ w. take_fragment m (take_bw w))
        ≡ done (w', r'))
      × (r'.cache ≡ cache')
      × ((r'.biter ≡ r.biter) ⊎ (iscomplete f.streamid f.blockid cache' ≡ true))
Accepted-told retransmission m w f r cons {code} {cache'} x counted added room =
    let (mid, same_cache, same_biter, passes) =
      fragment_passes retransmission m w r cons x.need x.no_ack x.no_bw x.valid (rw x.id counted) in
    let (p, decoded, same) = x.decoded m.heap in
    let cut = record w { buflen = sub64 w.buflen 2 } in
    let (r', told, kept, biter) =
      take_fragment-told m cut mid {code = code} {cache' = cache'} x.block x.valid decoded
        (addfragment_at m.fresh f p same refl refl same_cache added) (rw same_biter room) in
    (
      cut,
      r',
      passes ∙ told,
      kept,
      elim biter [ inl same ↦ inl (same ∙ same_biter) | inr whole ↦ inr whole ],
    )

module _ (t_end tv : Timeval) (host to : SockaddrIn) (stack : SendData) (s : Sender) where
  -- The fragment on the wire.
  abbrev pub wired : FragmentData → IncomingData
  wired f = arriving host tv (completed t_end (datagram_of stack to f) s)

  -- The flags of a fragment on the wire.
  landed-flags :
      (f : FragmentData)
      → u8 s.nat_port ≡ 0
      → let w = landed t_end tv host to stack s f in
        (has (w.buf 0) need_ack ≡ true)
        × (has (w.buf 0) blk_ack ≡ false)
        × (has (w.buf 0) bw_msg ≡ false)
        × (w.host ≡ host)
        × (((wired f).buf 0 == 0) ≡ false)
        × (ltb 1 (wired f).buflen ≡ true)
  unfolding datagram_of encode_fragment
  landed-flags f hp =
      let d = datagram_of stack to f in
      let (_, same, _, flags, _) =
        strip_port-completed t_end tv host d s (ground arith) (ground arith) refl hp in
      let frame = completed-Frame t_end d s (ground arith) (ground arith) refl in
      let long : ltb 1 (wired f).buflen ≡ true = rw (frame.length) (ground arith) in
      elim (Bool-cases s.z) [
        | inl z ↦ (
          rw (flags, z) refl,
          rw (flags, z) refl,
          rw (flags, z) refl,
          same,
          rw (frame.flags, z) refl,
          long,
        )
        | inr z ↦ (
          rw (flags, z) refl,
          rw (flags, z) refl,
          rw (flags, z) refl,
          same,
          rw (frame.flags, z) refl,
          long,
        )
      ]

  landed-Accepted :
      (f : FragmentData)
      → Fits f
      → u8 s.nat_port ≡ 0
      → Accepted (landed t_end tv host to stack s f) f
  unfolding get_fragment_id datagram_of encode_fragment
  landed-Accepted f fits hp =
      let w = landed t_end tv host to stack s f in
      let (len, _, flags, block, body) = landed_lem t_end tv host to stack s f hp in
      let (need, no_ack, no_bw, _, _, _) = landed-flags f hp in
      let header = landed-header t_end tv host to stack s f fits hp in
      let l : sub64 w.buflen 2 ≡ header_size + f.length = rw len (ground (arith, fits.length)) in
      let long : ltb (header_size + f.length) header_size ≡ false = ground arith in
      record {
        need = need;
        no_ack = no_ack;
        no_bw = no_bw;
        block = block;
        valid = validate_block-header w.buf (sub64 w.buflen 2) f header flags l;
        id = rw (l, long, block, header) refl;
        decoded = λ heap. (
          memcpy heap 0 (from w.buf header_size) f.length,
          decode_fragment-header heap w.buf (sub64 w.buflen 2) f header block l,
          λ i h. ground (arith, body (header_size + i) (omega arith) (omega arith)),
        );
      }

  -- A fragment whose fields fit, from `sendblock` through the sending thread to the handler of the
  -- receiving thread: where the counts can be read, `addfragment` takes or refuses it, and it is a
  -- duplicate or there is room in the ring, the handler does not wait, and leaves the cache that
  -- `addfragment` gives for the fragment sent. It tells the Python side only if the block is complete.
  pub process_fragment :
      (retransmission : Bool) (m : Memory) (f : FragmentData) (r : Receiver) (cons : ℕ)
      {code : AddResult} {cache' : List Block}
      → Fits f
      → u8 s.nat_port ≡ 0
      → get_consecutives (header_of f) r.cache ≡ some cons
      → addfragment m.fresh f host tv r.cache ≡ some (code, cache')
      → (code ≡ AddResult.f_duplicate) ⊎ (r.biter.s_biter_empty ≢ 0)
      → (r' : Receiver) × (process retransmission m (wired f) r ≡ done r')
        × (r'.cache ≡ cache')
        × ((r'.biter ≡ r.biter) ⊎ (iscomplete f.streamid f.blockid cache' ≡ true))
  process_fragment retransmission m f r cons {code} {cache'} fits hp counted added room =
      let w = landed t_end tv host to stack s f in
      let (_, _, _, same_host, flagged, long) = landed-flags f hp in
      let (w', r', told, kept, biter) =
        Accepted-told retransmission m w f r cons {code = code} {cache' = cache'}
          (landed-Accepted f fits hp) counted
          (addfragment_host m.fresh f r.cache same_host (strip_port-tv (wired f)) added) room in
      let (out, run, same_cache, same_biter) =
        process_passes retransmission m (wired f) w' r r' long flagged told in
      (
        out,
        run,
        same_cache ∙ kept,
        elim biter [ inl same ↦ inl (same_biter ∙ same) | inr whole ↦ inr whole ],
      )
