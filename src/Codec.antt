-- ===== src/Codec.antt =====
-- netencoder.c, with the structures of blockcache.h, ack_received.h and bw_msgs.h that it fills in:
-- fragments, acknowledgements and bandwidth messages as they stand in a datagram. A struct cast
-- onto a buffer is a write or a read at the offset of its field in the packed layout. A function
-- that fills a local `SendData` takes that local's indeterminate value as its first argument.
pub mod Fragment
pub mod Ack
use bora.Prelude.{
  ℕ, ◌+◌, Bool, true, false, Option, none, some, Array, set, memcpy, from, bytes, List, length,
  be16, be32, le16, read_be16, read_be32, read_le16, bit_and, bit_xor, has, ltb, leb, ◌==◌, not,
  ◌&&◌, if◌then◌else◌,
}
use bora.Prelude.Int.{ℤ, to_u32, int32}
use bora.Net.{SendData, mtu}
use bora.Net.Time.{Timeval}
use bora.Net.Messages.{
  blk_empty, blk_block, blk_ack, need_ack, cookie_msg, bw_msg, mask_block_ack,
  block_mask_consecutive, block_mask_retransmission,
}

pub record FragmentData : Type 0 where
  pub streamid : ℕ
  pub blockid : ℕ
  pub fragmentid : ℕ
  pub fragments : ℕ
  pub length : ℕ
  pub payload : Array ℕ

pub record FragmentId : Type 0 where
  pub flags : ℕ
  pub streamid : ℕ
  pub blockid : ℕ
  pub fragmentid : ℕ
  pub fragments : ℕ
  pub length : ℕ

-- `sec` and `usec` are `int32_t`. The code never sets `port_n`.
pub record AckReceived : Type 0 where
  pub flags : ℕ
  pub seq : ℕ
  pub sec : ℤ
  pub usec : ℤ
  pub cons : ℕ

-- sizeof(FragmentHeader): flags at 0, streamid at 1, blockid at 3, fragmentid at 7, fragments at 9,
-- length at 11.
abbrev pub header_size : ℕ
header_size = 13

-- sizeof(AckPacket): flags at 0, seq at 1, sec at 3, usec at 7, cons at 11.
abbrev pub ack_size : ℕ
ack_size = 13

-- sizeof(BWPacket): flags at 0, bw at 1.
abbrev pub bw_size : ℕ
bw_size = 5

-- A field of a packed struct, written at its offset.
abbrev pub put : Array ℕ → ℕ → List ℕ → Array ℕ
put a off xs = memcpy a off (bytes xs) (length xs)

unfoldable pub get_fragment_size : FragmentData → ℕ
get_fragment_size fragment = header_size + fragment.length

unfoldable pub get_header_size : ℕ
get_header_size = header_size

unfoldable pub get_flags : Array ℕ → ℕ
get_flags fragment = fragment 0

unfoldable pub set_flags : Array ℕ → ℕ → Array ℕ
set_flags fragment flags = set fragment 0 flags

unfoldable pub validate_ack : Array ℕ → ℕ → Bool
validate_ack blob l = l == ack_size && bit_xor (blob 0) blk_ack == 0

unfoldable pub validate_bw : Array ℕ → ℕ → Bool
validate_bw blob l = l == bw_size && bit_xor (blob 0) bw_msg == 0

-- The flags that may stand in a block fragment: none outside of `BLK_BLOCK_ACK`,
-- `BLOCK_CONSECUTIVE` and `BLOCK_RETRANSMISSION`.
abbrev pub block_flags : ℕ → Bool
block_flags f =
    bit_xor
      (bit_and (bit_and (bit_and f mask_block_ack) block_mask_consecutive)
        block_mask_retransmission)
      blk_empty
    == 0

unfoldable pub validate_block : Array ℕ → ℕ → Bool
validate_block blob l =
    if leb header_size l && (l == header_size + read_be16 blob 11 && block_flags (blob 0))
    then true
    else if l == header_size + mtu && blob 0 == need_ack + cookie_msg
    then true
    else false

-- The source copies the bytes into the 1500 of a `SendData`. This is what it does with a fragment that
-- has room there; a longer one is written past the end of the array.
unfoldable pub encode_fragment : SendData → FragmentData → SendData
encode_fragment s fragment =
    let flags = set s.contents 0 blk_block in
    let streamid = put flags 1 (be16 fragment.streamid) in
    let blockid = put streamid 3 (be32 fragment.blockid) in
    let fragmentid = put blockid 7 (be16 fragment.fragmentid) in
    let fragments = put fragmentid 9 (be16 fragment.fragments) in
    let header = put fragments 11 (be16 fragment.length) in
    record s {
      contents = memcpy header header_size fragment.payload fragment.length;
      length = header_size + fragment.length;
    }

-- The header's fields, each in host order.
abbrev pub read_header : Array ℕ → FragmentId
read_header a = record {
  flags = 0;
  streamid = read_be16 a 1;
  blockid = read_be32 a 3;
  fragmentid = read_be16 a 7;
  fragments = read_be16 a 9;
  length = read_be16 a 11;
}

-- `heap` is what the allocated payload holds before the copy.
unfoldable pub decode_fragment : Array ℕ → Array ℕ → ℕ → Option FragmentData
decode_fragment heap fragmentstring size =
    let h = read_header fragmentstring in
    if ltb size header_size
    then none
    else if not (has (fragmentstring 0) blk_block)
    then none
    else if not (size == h.length + header_size)
    then none
    else some (record {
      streamid = h.streamid;
      blockid = h.blockid;
      fragmentid = h.fragmentid;
      fragments = h.fragments;
      length = h.length;
      payload = memcpy heap 0 (from fragmentstring header_size) h.length;
    })

abbrev pub no_fragment_id : FragmentId
no_fragment_id = record {
  flags = 0;
  streamid = 0;
  blockid = 0;
  fragmentid = 0;
  fragments = 0;
  length = 0;
}

-- The header is returned with a length that does not match, too.
unfoldable pub get_fragment_id : Array ℕ → ℕ → FragmentId
get_fragment_id fragmentstring size =
    if ltb size header_size
    then no_fragment_id
    else if not (has (fragmentstring 0) blk_block)
    then no_fragment_id
    else read_header fragmentstring

-- `seq` is stored in host order, read here as little-endian.
unfoldable pub encode_ack : SendData → ℕ → SendData
encode_ack s seq = record s {
  contents = put (set s.contents 0 blk_ack) 1 (le16 seq);
  length = ack_size;
}

unfoldable pub encode_bw : SendData → ℕ → SendData
encode_bw s bw = record s { contents = put (set s.contents 0 bw_msg) 1 (be32 bw); length = bw_size }

unfoldable pub append_ack_cons : SendData → ℕ → SendData
append_ack_cons s cons = record s { contents = put s.contents 11 (be16 cons) }

unfoldable pub append_ack_ts : SendData → Timeval → SendData
append_ack_ts s ts = record s {
  contents = put (put s.contents 3 (be32 (to_u32 ts.tv_sec))) 7 (be32 (to_u32 ts.tv_usec));
}

unfoldable pub decode_ack : Array ℕ → ℕ → Option AckReceived
decode_ack ack_r size =
    if ltb size ack_size
    then none
    else some (record {
      flags = ack_r 0;
      seq = read_le16 ack_r 1;
      sec = int32 (read_be32 ack_r 3);
      usec = int32 (read_be32 ack_r 7);
      cons = read_be16 ack_r 11;
    })

unfoldable pub decode_bwmsg : Array ℕ → ℕ → Option ℕ
decode_bwmsg bw_r size = if ltb size bw_size then none else some (read_be32 bw_r 1)
