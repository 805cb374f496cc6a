-- ===== src/Receiver/Port.antt =====
-- The bytes that the sending thread puts behind a datagram, and what the receiving thread makes of
-- them: the number for the acknowledgement and the port.
use bora.Prelude.{
  ℕ, ◌+◌, ◌/◌, ◌<◌, ◌≡◌, ◌≢◌, refl, true, Bool-cases, inl, inr, u8, u16, bit_or, has, ◌==◌, not,
  ◌||◌, holds_up_to, holds_up_to_at, if◌then◌else◌, arith,
}
use bora.Net.{SockaddrIn, SendData}
use bora.Net.Time.{Timeval}
use bora.Net.Messages.{need_ack, block_consecutive}
use bora.Codec.{block_flags}
use bora.Nacks.{append_ack, strip_ack}
use bora.Sender.{Sender, completed}
use bora.Biter.{IncomingData}
use bora.Receiver.{strip_port}

-- A datagram as it arrives.
abbrev pub arriving : SockaddrIn → Timeval → SendData → IncomingData
arriving host tv d = record {
  host = host;
  fromlen = 16;
  buf = d.contents;
  buflen = d.length;
  tv = tv;
}

-- The first byte of a datagram, once it is sent.
abbrev pub sent_flags : Sender → SendData → ℕ
sent_flags s d = if s.z then bit_or (d.contents 0) block_consecutive else d.contents 0

consecutive_nonzero : holds_up_to (λ f. f == 0 || not (bit_or f block_consecutive == 0)) 256 ≡ true
unfolding holds_up_to
consecutive_nonzero = refl

flags_nonzero :
    (f : ℕ) → f < 256 → has f need_ack ≡ true → (bit_or f block_consecutive ≢ 0) × (f ≢ 0)
flags_nonzero f h k = (
  ground (
    arith,
    holds_up_to_at (λ f. f == 0 || not (bit_or f block_consecutive == 0)) 256 f h
        consecutive_nonzero,
  ),
  ground arith,
)

-- The bytes of a datagram that asks for an acknowledgement, when it is sent.
pub record Frame (s : Sender) (d out : SendData) : Type 0 where
  pub length : out.length ≡ d.length + 4
  pub flags : out.contents 0 ≡ sent_flags s d
  pub body : (i : ℕ) → 0 < i → i < d.length → out.contents i ≡ d.contents i
  pub seq_low : out.contents d.length ≡ u8 (u16 (s.nacks.seq_num + 1))
  pub seq_high : out.contents (d.length + 1) ≡ u8 (u16 (s.nacks.seq_num + 1) / 0x100)
  pub port_low : out.contents (d.length + 2) ≡ u8 s.nat_port

pub completed-Frame :
    (t_end : Timeval) (d : SendData) (s : Sender)
    → 0 < d.length
    → d.contents 0 < 256
    → has (d.contents 0) need_ack ≡ true
    → Frame s d (completed t_end d s)
unfolding completed append_ack
completed-Frame t_end d s hl hb hf =
    let (marked, plain) = flags_nonzero (d.contents 0) hb hf in
    elim (Bool-cases s.z) [
      | inl z ↦ record {
        length = ground arith;
        flags = ground arith;
        body = λ i hi hj. ground arith;
        seq_low = ground arith;
        seq_high = ground arith;
        port_low = ground arith;
      }
      | inr z ↦ record {
        length = ground arith;
        flags = ground arith;
        body = λ i hi hj. ground arith;
        seq_low = ground arith;
        seq_high = ground arith;
        port_low = ground arith;
      }
    ]

-- A datagram that asks for an acknowledgement is sent with its number and the port behind it. If
-- the first byte of the port on the wire is 0, `strip_port` takes off just the port, `strip_ack`
-- reads the number that was stored for the datagram, and the bytes in front of it are the
-- datagram's, with BLOCK_CONSECUTIVE set in the first one for the second of a pair.
pub strip_port-completed :
    (t_end tv : Timeval) (host : SockaddrIn) (d : SendData) (s : Sender)
    → 0 < d.length
    → d.contents 0 < 256
    → has (d.contents 0) need_ack ≡ true
    → u8 s.nat_port ≡ 0
    → let w = strip_port (arriving host tv (completed t_end d s)) in
      (w.buflen ≡ d.length + 2)
      × (w.host ≡ host)
      × (strip_ack w.buf w.buflen ≡ u16 (s.nacks.seq_num + 1))
      × (w.buf 0 ≡ sent_flags s d)
      × ((i : ℕ) → 0 < i → i < d.length → w.buf i ≡ d.contents i)
unfolding strip_port strip_ack
strip_port-completed t_end tv host d s hl hb hf hp =
    let f = completed-Frame t_end d s hl hb hf in
    (
      ground arith,
      ground arith,
      ground arith,
      ground arith,
      λ i hi hj. ground (arith, f.body i hi hj),
    )

consecutive_block_flags :
    holds_up_to (λ f. not (block_flags f) || block_flags (bit_or f block_consecutive)) 256 ≡ true
unfolding holds_up_to
consecutive_block_flags = refl

pub sent_flags-block_flags :
    (d : SendData) (s : Sender)
    → d.contents 0 < 256
    → block_flags (d.contents 0) ≡ true
    → block_flags (sent_flags s d) ≡ true
sent_flags-block_flags d s h ok = elim (Bool-cases s.z) [
  | inl z ↦ ground (
    arith,
    holds_up_to_at (λ f. not (block_flags f) || block_flags (bit_or f block_consecutive)) 256
        (d.contents 0) h consecutive_block_flags,
  )
  | inr z ↦ ground arith
]
