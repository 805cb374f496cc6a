-- ===== src/Receiver/Buffers.antt =====
-- The two threads of packet_receiver.c and the ring of buffers between them: `packet_receiver` fills
-- a buffer and `packet_processor` works on it, in any interleaving. The semaphores `bEmpty` and
-- `bFull` are their counts. `filling` says that the receiving thread has passed `bEmpty` and not yet
-- posted `bFull`, `working` that the processing thread has passed `bFull` and not yet posted
-- `bEmpty`. An error of recvfrom ends the receiving thread, which then makes no more steps.
pub mod Order
use bora.Prelude.{ℕ, ◌+◌, ◌-◌, ◌%◌, ◌<◌, ◌≡◌, Bool, true, false, Array, set, List, [], ◌∷◌, ◌++◌}
use bora.Biter.{IncomingData}

-- BUF_N
abbrev pub buf_n : ℕ
buf_n = 256

-- Each thread's own `c`, an `uint8_t`, is `write_c` or `read_c`.
pub record Buffers : Type 0 where
  pub buffer : Array IncomingData
  pub b_empty : ℕ
  pub b_full : ℕ
  pub write_c : ℕ
  pub read_c : ℕ
  pub filling : Bool
  pub working : Bool

-- `init_receiver`, with what the buffers hold before the first write.
unfoldable pub init_buffers : Array IncomingData → Buffers
init_buffers memory = record {
  buffer = memory;
  b_empty = buf_n;
  b_full = 0;
  write_c = 0;
  read_c = 0;
  filling = false;
  working = false;
}

-- (BUF_N+1+c)%BUF_N
abbrev pub next : ℕ → ℕ
next c = (buf_n + 1 + c) % buf_n

-- `packet_receiver` up to recvfrom.
unfoldable pub claim : Buffers → Buffers
claim b = record b { b_empty = b.b_empty - 1; filling = true }

-- `packet_receiver` from recvfrom to the end of its round.
unfoldable pub fill : IncomingData → Buffers → Buffers
fill d b = record b {
  buffer = set b.buffer b.write_c d;
  write_c = next b.write_c;
  b_full = b.b_full + 1;
  filling = false;
}

-- `packet_processor` passes `bFull`.
unfoldable pub take : Buffers → Buffers
take b = record b { b_full = b.b_full - 1; working = true }

-- The datagram that `packet_processor` works on.
unfoldable pub current : Buffers → IncomingData
current b = b.buffer b.read_c

-- The end of a round of `packet_processor`.
unfoldable pub release : Buffers → Buffers
release b = record b { read_c = next b.read_c; b_empty = b.b_empty + 1; working = false }

-- The states that the two threads reach, with the datagrams received and those processed.
pub data Reached (memory : Array IncomingData)
    : List IncomingData → List IncomingData → Buffers → Type 0 where
  start : Reached memory [] [] (init_buffers memory)
  claims :
      {arrived processed : List IncomingData} {b : Buffers}
      → Reached memory arrived processed b
      → 0 < b.b_empty
      → b.filling ≡ false
      → Reached memory arrived processed (claim b)
  fills :
      {arrived processed : List IncomingData} {b : Buffers} (d : IncomingData)
      → Reached memory arrived processed b
      → b.filling ≡ true
      → Reached memory (arrived ++ (d ∷ [])) processed (fill d b)
  takes :
      {arrived processed : List IncomingData} {b : Buffers}
      → Reached memory arrived processed b
      → 0 < b.b_full
      → b.working ≡ false
      → Reached memory arrived processed (take b)
  releases :
      {arrived processed : List IncomingData} {b : Buffers}
      → Reached memory arrived processed b
      → b.working ≡ true
      → Reached memory arrived (processed ++ (current b ∷ [])) (release b)
