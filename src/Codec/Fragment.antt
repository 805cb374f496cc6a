-- ===== src/Codec/Fragment.antt =====
-- Fragments: encoding, validation and decoding agree.
use bora.Prelude.{
  ℕ, ◌+◌, ◌<◌, ◌≤◌, ◌≡◌, refl, true, some, arith, Array, set, memcpy, from, read_be16, read_be32,
  has, ◌==◌,
}
use bora.Net.{SendData, send_data_size}
use bora.Net.Messages.{blk_block}
use bora.Codec.{
  FragmentData, FragmentId, header_size, validate_block, block_flags, encode_fragment,
  decode_fragment, get_fragment_id, get_fragment_size, read_header,
}

-- The fields of a fragment fit the types that the structure gives them, and its bytes have room
-- behind the header in the array of a datagram.
pub record Fits (f : FragmentData) : Type 0 where
  pub streamid : f.streamid < 0x1_0000
  pub blockid : f.blockid < 0x1_0000_0000
  pub fragmentid : f.fragmentid < 0x1_0000
  pub fragments : f.fragments < 0x1_0000
  pub length : header_size + f.length ≤ send_data_size

unfoldable pub header_of : FragmentData → FragmentId
header_of f = record {
  flags = 0;
  streamid = f.streamid;
  blockid = f.blockid;
  fragmentid = f.fragmentid;
  fragments = f.fragments;
  length = f.length;
}

pub read_header-encode_fragment :
    (s : SendData) (f : FragmentData)
    → Fits f
    → read_header (encode_fragment s f).contents ≡ header_of f
unfolding encode_fragment header_of
read_header-encode_fragment s f fits = ground arith

-- A fragment encoded by `encode_fragment`, its flag byte then replaced by any that has BLK_BLOCK
-- set, and read back at the length that `encode_fragment` gives, decodes to the same header fields
-- and the same payload.
pub decode_fragment-encode_fragment :
    (heap : Array ℕ) (s : SendData) (f : FragmentData) (flags : ℕ)
    → Fits f
    → has flags blk_block ≡ true
    → (g : FragmentData) × (decode_fragment heap
          (set (encode_fragment s f).contents 0 flags)
          (encode_fragment s f).length
        ≡ some g)
      × (header_of g ≡ header_of f)
      × ((i : ℕ) → i < f.length → g.payload i ≡ f.payload i)
unfolding encode_fragment decode_fragment header_of
decode_fragment-encode_fragment heap s f flags fits set_flag = (
  record f {
    payload =
        memcpy heap 0 (from (set (encode_fragment s f).contents 0 flags) header_size) f.length;
  },
  ground arith,
  refl,
  λ i h. ground arith,
)

-- What `encode_fragment` makes of a fragment whose fields fit their types, and whose bytes have room
-- behind the header in the 1500 bytes of a datagram, passes `validate_block` under every flag byte that the block masks
-- allow at exactly the length that `get_fragment_size` computes.
pub validate_block-encode_fragment :
    (s : SendData) (f : FragmentData) (flags l : ℕ)
    → Fits f
    → block_flags flags ≡ true
    → validate_block (set (encode_fragment s f).contents 0 flags) l ≡ (l == get_fragment_size f)
unfolding encode_fragment validate_block get_fragment_size
validate_block-encode_fragment s f flags l fits ok = ground arith

-- A datagram that `validate_block` accepts and that has BLK_BLOCK set is decoded, and the fragment
-- has the header that `get_fragment_id` reads.
pub decode_fragment-validate_block :
    (heap blob : Array ℕ) (l : ℕ)
    → validate_block blob l ≡ true
    → has (blob 0) blk_block ≡ true
    → (g : FragmentData) × (decode_fragment heap blob l ≡ some g)
      × (get_fragment_id blob l ≡ header_of g)
      × (l ≡ get_fragment_size g)
unfolding validate_block decode_fragment get_fragment_id header_of get_fragment_size
decode_fragment-validate_block heap blob l valid block = (
  record {
    streamid = read_be16 blob 1;
    blockid = read_be32 blob 3;
    fragmentid = read_be16 blob 7;
    fragments = read_be16 blob 9;
    length = read_be16 blob 11;
    payload = memcpy heap 0 (from blob header_size) (read_be16 blob 11);
  },
  ground arith,
  ground arith,
  ground arith,
)
