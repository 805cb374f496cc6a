-- ===== src/Receiver/Journey.antt =====
-- A fragment from `sendblock` through the sending thread, the network and the receiving thread into
-- the block cache.
use bora.Prelude.{
  ℕ, ◌+◌, ◌-◌, ◌*◌, ◌<◌, ◌≤◌, ◌≡◌, refl, ap, ◌∙◌, fun_ext, true, Bool-cases, Option-cases, inl, inr,
  none, some, Array, List, from, memcpy, u8, u16, has, ltb, leb, ◌&&◌, if◌then◌else◌, arith,
}
use bora.Net.{SockaddrIn, SendData, send_data_size, mtu}
use bora.Net.Time.{Timeval}
use bora.Net.Messages.{blk_block}
use bora.Codec.{
  FragmentData, block_flags, read_header, validate_block, encode_fragment, decode_fragment,
  header_size,
}
use bora.Codec.Fragment.{Fits, header_of, read_header-encode_fragment}
use bora.BlockCache.{Block, copy_in, addfragment, first_fragment, next_fragment, findblock}
use bora.BlockCache.Outgoing.{datagram_of}
use bora.Nacks.{strip_ack}
use bora.Sender.{Sender, completed}
use bora.Biter.{IncomingData}
use bora.Receiver.{strip_port, sub64}
use bora.Receiver.Port.{arriving, sent_flags-block_flags, strip_port-completed}

memcpy-ext :
    (dst : Array ℕ) (off : ℕ) (a b : Array ℕ) (n : ℕ)
    → ((i : ℕ) → i < n → a i ≡ b i)
    → memcpy dst off a n ≡ memcpy dst off b n
memcpy-ext dst off a b n h = fun_ext (λ i. elim (Bool-cases (leb off i && ltb i (off + n))) [
  | inl inside ↦ rw inside (h (i - off) (ground arith))
  | inr outside ↦ rw outside refl
])

copy_in-ext :
    (alloc : ℕ) (dst : Array ℕ) (off : ℕ) (a b : Array ℕ) (n : ℕ)
    → ((i : ℕ) → i < n → a i ≡ b i)
    → copy_in alloc dst off a n ≡ copy_in alloc dst off b n
copy_in-ext alloc dst off a b n h =
    ap (λ m. if leb (off + n) alloc then some m else none) (memcpy-ext dst off a b n h)

first_fragment_payload :
    (fresh : Block) (f : FragmentData) (p : Array ℕ) (host : SockaddrIn) (ts : Timeval)
    → ((i : ℕ) → i < f.length → p i ≡ f.payload i)
    → first_fragment fresh (record f { payload = p }) host ts ≡ first_fragment fresh f host ts
unfolding first_fragment
first_fragment_payload fresh f p host ts h =
    let zeroed : Array ℕ = λ i. if ltb i (mtu * f.fragments) then 0 else fresh.content.payload i in
    ground
      (arith, copy_in-ext (mtu * f.fragments) zeroed (mtu * f.fragmentid) p f.payload f.length h)

next_fragment_payload :
    (b : Block) (f : FragmentData) (p : Array ℕ) (host : SockaddrIn) (ts : Timeval)
    → ((i : ℕ) → i < f.length → p i ≡ f.payload i)
    → next_fragment b (record f { payload = p }) host ts ≡ next_fragment b f host ts
unfolding next_fragment
next_fragment_payload b f p host ts h =
    ground
      (arith, copy_in-ext b.alloc b.content.payload (mtu * f.fragmentid) p f.payload f.length h)

-- `addfragment` reads the payload of a fragment only up to its length.
pub addfragment_payload :
    (fresh : Block) (f : FragmentData) (p : Array ℕ) (host : SockaddrIn) (ts : Timeval)
    (cache : List Block)
    → ((i : ℕ) → i < f.length → p i ≡ f.payload i)
    → addfragment fresh (record f { payload = p }) host ts cache ≡ addfragment fresh f host ts cache
unfolding addfragment
addfragment_payload fresh f p host ts cache h =
    elim (Option-cases (findblock f.streamid f.blockid cache)) [
      | inl missing ↦ rw (missing, addfragment, first_fragment_payload fresh f p host ts h) refl
      | inr (b, found) ↦ rw (found, addfragment, next_fragment_payload b f p host ts h) refl
    ]

read_header-ext :
    (a b : Array ℕ)
    → ((i : ℕ) → 0 < i → i < header_size → a i ≡ b i)
    → read_header a ≡ read_header b
read_header-ext a b h =
    let e : (i : ℕ) → ltb i 12 ≡ true → a (i + 1) ≡ b (i + 1) =
      λ i k. h (i + 1) (omega arith) (ground arith) in
    rw
      (
        e 0 refl,
        e 1 refl,
        e 2 refl,
        e 3 refl,
        e 4 refl,
        e 5 refl,
        e 6 refl,
        e 7 refl,
        e 8 refl,
        e 9 refl,
        e 10 refl,
        e 11 refl,
      )
      refl

pub validate_block-header :
    (a : Array ℕ) (l : ℕ) (f : FragmentData)
    → read_header a ≡ header_of f
    → block_flags (a 0) ≡ true
    → l ≡ header_size + f.length
    → validate_block a l ≡ true
unfolding validate_block header_of
validate_block-header a l f h flags e = ground (arith, ap (λ x. x.length) h)

pub decode_fragment-header :
    (heap a : Array ℕ) (l : ℕ) (f : FragmentData)
    → read_header a ≡ header_of f
    → has (a 0) blk_block ≡ true
    → l ≡ header_size + f.length
    → decode_fragment heap a l
      ≡ some (record f { payload = memcpy heap 0 (from a header_size) f.length })
unfolding decode_fragment header_of
decode_fragment-header heap a l f h block e = ground (
  arith,
  ap (λ x. x.length) h,
  ap (λ x. x.streamid) h,
  ap (λ x. x.blockid) h,
  ap (λ x. x.fragmentid) h,
  ap (λ x. x.fragments) h,
)

module _ (t_end tv : Timeval) (host to : SockaddrIn) (stack : SendData) (s : Sender) where
  -- The fragment as it stands in the receiver's buffer, its port taken off.
  abbrev pub landed : FragmentData → IncomingData
  landed f = strip_port (arriving host tv (completed t_end (datagram_of stack to f) s))

  pub landed_lem :
      (f : FragmentData)
      → u8 s.nat_port ≡ 0
      → ((landed f).buflen ≡ header_size + f.length + 2)
        × (strip_ack (landed f).buf (landed f).buflen ≡ u16 (s.nacks.seq_num + 1))
        × (block_flags ((landed f).buf 0) ≡ true)
        × (has ((landed f).buf 0) blk_block ≡ true)
        × ((i : ℕ)
            → 0 < i
            → i < header_size + f.length
            → (landed f).buf i ≡ (datagram_of stack to f).contents i)
  unfolding datagram_of encode_fragment
  landed_lem f hp =
      let d = datagram_of stack to f in
      let (len, _, seq, flags, body) =
        strip_port-completed t_end tv host d s (ground arith) (ground arith) refl hp in
      (
        len,
        seq,
        rw flags (sent_flags-block_flags d s (ground arith) refl),
        rw flags (elim (Bool-cases s.z) [ inl z ↦ ground arith | inr z ↦ ground arith ]),
        body,
      )

  pub landed-header :
      (f : FragmentData) → Fits f → u8 s.nat_port ≡ 0 → read_header (landed f).buf ≡ header_of f
  unfolding datagram_of
  landed-header f fits hp =
      let (_, _, _, _, body) = landed_lem f hp in
      read_header-ext (landed f).buf (datagram_of stack to f).contents
        (λ i hi hj. body i hi (omega arith))
      ∙ read_header-encode_fragment stack f fits

  -- A fragment whose fields fit their types, and whose bytes have room in the 1500 of a datagram with
  -- the header before them and the number and the port behind, is encoded as `sendblock` does, completed by the sending thread with
  -- its number and the port, and arrives. If the first byte of the port on the wire is 0, then the
  -- receiving thread accepts it at the length without the number; it reads the number that the
  -- sender stored for it; and the fragment it decodes changes every block cache exactly as the
  -- fragment sent would.
  pub fragment_journey :
      (f : FragmentData)
      → Fits f
      → header_size + f.length + 4 ≤ send_data_size
      → u8 s.nat_port ≡ 0
      → (heap : Array ℕ)
      → let w = landed f in
        let l = sub64 w.buflen 2 in
        (validate_block w.buf l ≡ true)
        × (strip_ack w.buf w.buflen ≡ u16 (s.nacks.seq_num + 1))
        × (g : FragmentData) × (decode_fragment heap w.buf l ≡ some g)
        × ((fresh : Block) (from_host : SockaddrIn) (ts : Timeval) (cache : List Block)
            → addfragment fresh g from_host ts cache ≡ addfragment fresh f from_host ts cache)
  unfolding datagram_of encode_fragment
  fragment_journey f fits room hp heap =
      let (len, seq, flags, block, body) = landed_lem f hp in
      let header = landed-header f fits hp in
      let p = memcpy heap 0 (from (landed f).buf header_size) f.length in
      let l : sub64 (landed f).buflen 2 ≡ header_size + f.length =
        rw len (ground (arith, fits.length)) in
      let same : (i : ℕ) → i < f.length → p i ≡ f.payload i =
        λ i h. ground (arith, body (header_size + i) (omega arith) (omega arith)) in
      (
        validate_block-header (landed f).buf _ f header flags l,
        seq,
        record f { payload = p },
        decode_fragment-header heap (landed f).buf _ f header block l,
        λ fresh from_host ts cache. addfragment_payload fresh f p from_host ts cache same,
      )
