-- ===== src/Codec/Ack.antt =====
-- Acknowledgements and bandwidth messages: encoding, validation and decoding agree.
use bora.Prelude.{ℕ, ◌<◌, ◌≡◌, true, some, arith}
use bora.Prelude.Int.{ℤ, pos, negsuc, ◌≤ℤ◌}
use bora.Net.{SendData}
use bora.Net.Time.{Timeval}
use bora.Net.Messages.{blk_ack}
use bora.Codec.{
  encode_ack, append_ack_cons, append_ack_ts, decode_ack, validate_ack, encode_bw, decode_bwmsg,
  validate_bw,
}

-- A number that `int32_t` holds.
pub record IsInt32 (n : ℤ) : Type 0 where
  pub above : negsuc 0x7fff_ffff ≤ℤ n
  pub below : n ≤ℤ pos 0x7fff_ffff

-- The acknowledgement that the receiver builds.
unfoldable pub make_ack : SendData → ℕ → ℕ → Timeval → SendData
unfolding encode_ack append_ack_cons append_ack_ts
make_ack s seq cons ts = append_ack_ts (append_ack_cons (encode_ack s seq) cons) ts

-- An acknowledgement built as `packet_processor` builds it passes `validate_ack`, and `decode_ack`
-- gives back the sequence number, the count of consecutive fragments and the time stamp, if these
-- fit the fields of `AckPacket`.
pub decode_ack-make_ack :
    (s : SendData) (seq cons : ℕ) (ts : Timeval)
    → seq < 0x1_0000
    → cons < 0x1_0000
    → IsInt32 ts.tv_sec
    → IsInt32 ts.tv_usec
    → let d = make_ack s seq cons ts in
      (validate_ack d.contents d.length ≡ true)
      × (decode_ack d.contents d.length
          ≡ some (record {
            flags = blk_ack;
            seq = seq;
            sec = ts.tv_sec;
            usec = ts.tv_usec;
            cons = cons;
          }))
unfolding make_ack encode_ack append_ack_cons append_ack_ts decode_ack validate_ack
decode_ack-make_ack s seq cons ts hseq hcons hsec husec = ground arith

-- A bandwidth message passes `validate_bw`, and `decode_bwmsg` gives back its 32-bit value.
pub decode_bwmsg-encode_bw :
    (s : SendData) (bw : ℕ)
    → bw < 0x1_0000_0000
    → let d = encode_bw s bw in
      (validate_bw d.contents d.length ≡ true) × (decode_bwmsg d.contents d.length ≡ some bw)
unfolding encode_bw decode_bwmsg validate_bw
decode_bwmsg-encode_bw s bw h = ground arith
