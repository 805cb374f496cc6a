-- ===== src/Net/Messages.antt =====
-- messages.h: the flags in the first byte of a datagram.
use bora.Prelude.{ℕ}

abbrev pub blk_empty : ℕ
blk_empty = 0x00

abbrev pub blk_block : ℕ
blk_block = 0x01

abbrev pub blk_block_ack : ℕ
blk_block_ack = 0x81

abbrev pub blk_ack : ℕ
blk_ack = 0x02

abbrev pub need_ack : ℕ
need_ack = 0x80

abbrev pub cookie_msg : ℕ
cookie_msg = 0x08

abbrev pub bw_msg : ℕ
bw_msg = 0x40

abbrev pub mask_block_ack : ℕ
mask_block_ack = 0x7e

abbrev pub block_consecutive : ℕ
block_consecutive = 0x04

abbrev pub block_mask_consecutive : ℕ
block_mask_consecutive = 0xfb

abbrev pub block_retransmission : ℕ
block_retransmission = 0x10

abbrev pub block_mask_retransmission : ℕ
block_mask_retransmission = 0xef
