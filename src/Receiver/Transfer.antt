-- ===== src/Receiver/Transfer.antt =====
-- The fragments of a block, from `sendblock` of one host through its sending thread to the receiving
-- thread of another one.
use bora.Prelude.{
  ℕ, ◌+◌, ◌<◌, ◌≡◌, ◌≢◌, refl, sym, subst, ◌⊎◌, inl, inr, Bool, true, Bool-cases, none, some, Array,
  List, [], ◌∷◌, ◌==◌, ◌||◌, u8, leb, arith,
}
use bora.Net.{SockaddrIn, SendData}
use bora.Net.Time.{Timeval}
use bora.Codec.Fragment.{Fits, header_of}
use bora.BlockCache.{Block, BlockData, get_block_data, AddResult, f_added, findblock, iscomplete}
use bora.BlockCache.Outgoing.{fragment_of}
use bora.BlockCache.Queries.{consecutive_below, get_consecutives}
use bora.BlockCache.Reassembly.{IsCut, own_fragment}
use bora.BlockCache.Reassembly.Delivery.{
  Arrival, AllIn, arrives, Holds, Holds-ext, or_assoc, or-false, addfragment-Holds,
  addfragment-first-Holds,
}
use bora.BlockCache.Reassembly.Whole.{Holds-missing, Holds-whole}
use bora.Sender.{Sender}
use bora.Biter.{IncomingData}
use bora.Receiver.{Memory, Receiver, Result, done, process, ◌>>=◌}
use bora.Receiver.Arrive.{wired, process_fragment}

-- A datagram on its way: the fragment with its origin and time of arrival, the time of sending, the
-- address it was sent to, and the variables of the sending thread and of its stack.
pub record Trip : Type 0 where
  pub arrival : Arrival
  pub t_end : Timeval
  pub to : SockaddrIn
  pub stack : SendData
  pub sender : Sender

abbrev pub arrivals : List Trip → List Arrival
arrivals [] = []
arrivals (t ∷ trips) = t.arrival ∷ arrivals trips

-- The first byte of the sender's port on the wire is 0.
abbrev pub PortZero : List Trip → Type 0
PortZero [] = Unit
PortZero (t ∷ trips) = (u8 t.sender.nat_port ≡ 0) × PortZero trips

-- The datagram as it arrives.
abbrev pub datagram : Block → Trip → IncomingData
datagram s t =
    wired t.t_end t.arrival.ts t.arrival.host t.to t.stack t.sender (own_fragment s t.arrival.index)

-- Rounds of `packet_processor`, one for each datagram.
pub process_all : Bool → Memory → Block → List Trip → Receiver → Result Receiver
process_all retransmission m s [] r = done r
process_all retransmission m s (t ∷ trips) r =
    process retransmission m (datagram s t) r >>= process_all retransmission m s trips

-- A block whose identifier fits its fields.
pub record IsNamed (s : Block) : Type 0 where
  pub streamid : s.streamid < 0x1_0000
  pub blockid : s.blockid < 0x1_0000_0000

own_fragment-Fits :
    {s : Block} → IsCut s → IsNamed s → (i : ℕ) → i < s.fs.fn → Fits (own_fragment s i)
unfolding fragment_of
own_fragment-Fits {s} cut named i h = record {
  streamid = named.streamid;
  blockid = named.blockid;
  fragmentid = omega (arith, cut.count_fits);
  fragments = cut.count_fits;
  length = ground (arith, cut.last_fits);
}

-- Every fragment is there, or there is a free place in the ring.
abbrev Ready : Block → (ℕ → Bool) → Receiver → Type 0
Ready s got r = ((k : ℕ) → k < s.fs.fn → got k ≡ true) ⊎ (r.biter.s_biter_empty ≢ 0)

counted-found :
    (s : Block) (i : ℕ) (cache : List Block) {b : Block}
    → i < s.fs.fn
    → findblock s.streamid s.blockid cache ≡ some b
    → b.fs.fn ≡ s.fs.fn
    → (n : ℕ) × (get_consecutives (header_of (own_fragment s i)) cache ≡ some n)
unfolding get_consecutives header_of fragment_of
counted-found s i cache {b} h found count =
    let inside : leb i b.fs.fn ≡ true = ground arith in
    (consecutive_below b.f i, rw (found, get_consecutives) (rw inside refl))

counted-absent :
    (s : Block) (i : ℕ) (cache : List Block)
    → findblock s.streamid s.blockid cache ≡ none
    → get_consecutives (header_of (own_fragment s i)) cache ≡ some 0
unfolding get_consecutives header_of fragment_of
counted-absent s i cache absent = rw (absent, get_consecutives) refl

-- A cache that holds all of a block that is complete.
Holds-all :
    {s : Block} {cache : List Block} {got : ℕ → Bool}
    → Holds s cache got
    → iscomplete s.streamid s.blockid cache ≡ true
    → (k : ℕ) → k < s.fs.fn
    → got k ≡ true
Holds-all {s} {cache} {got} held whole k hk = elim (Bool-cases (got k)) [
  | inl there ↦ there
  | inr missing ↦ absurd (let part = Holds-missing held k hk missing in ground arith)
]

module _ {s : Block} (cut : IsCut s) (named : IsNamed s) (retransmission : Bool) (m : Memory) where
  -- A further fragment.
  process-next :
      (t : Trip) (r : Receiver) {got : ℕ → Bool}
      → t.arrival.index < s.fs.fn
      → u8 t.sender.nat_port ≡ 0
      → Holds s r.cache got
      → Ready s got r
      → (r' : Receiver) × (process retransmission m (datagram s t) r ≡ done r')
        × Holds s r'.cache (λ k. got k || k == t.arrival.index)
        × Ready s (λ k. got k || k == t.arrival.index) r'
  unfolding fragment_of
  process-next t r {got} h hp held ready =
      let i = t.arrival.index in
      let f = own_fragment s i in
      let (n, counted) = counted-found s i r.cache h held.found held.part.count in
      let (code, cache', added, held', old) = addfragment-Holds cut m.fresh t.arrival h held in
      let room : (code ≡ AddResult.f_duplicate) ⊎ (r.biter.s_biter_empty ≢ 0) = elim ready [
        | inl all ↦ inl (old (all i h))
        | inr place ↦ inr place
      ] in
      let (r', run, kept, biter) =
        process_fragment t.t_end t.arrival.ts t.arrival.host t.to t.stack t.sender retransmission m
          f r n {code = code} {cache' = cache'} (own_fragment-Fits cut named i h) hp counted added
          room in
      (
        r',
        run,
        subst (λ c. Holds s c (λ k. got k || k == i)) (sym kept) held',
        elim biter [
          | inl same ↦ elim ready [
            | inl all ↦ inl (λ k hk. rw (all k hk) refl)
            | inr place ↦ inr (rw same place)
          ]
          | inr whole ↦ inl (Holds-all held' whole)
        ],
      )

  -- The first fragment, which is not the last of its block.
  process-first :
      (t : Trip) (r : Receiver)
      → t.arrival.index + 1 < s.fs.fn
      → u8 t.sender.nat_port ≡ 0
      → findblock s.streamid s.blockid r.cache ≡ none
      → r.biter.s_biter_empty ≢ 0
      → (r' : Receiver) × (process retransmission m (datagram s t) r ≡ done r')
        × Holds s r'.cache (λ k. k == t.arrival.index)
        × Ready s (λ k. k == t.arrival.index) r'
  unfolding fragment_of
  process-first t r h hp absent place =
      let i = t.arrival.index in
      let f = own_fragment s i in
      let (cache', added, held') = addfragment-first-Holds cut m.fresh t.arrival r.cache h absent in
      let (r', run, kept, biter) =
        process_fragment t.t_end t.arrival.ts t.arrival.host t.to t.stack t.sender retransmission m
          f r 0 {code = f_added} {cache' = cache'} (own_fragment-Fits cut named i (omega arith)) hp
          (counted-absent s i r.cache absent) added (inr place) in
      (
        r',
        run,
        subst (λ c. Holds s c (λ k. k == i)) (sym kept) held',
        elim biter [ inl same ↦ inr (rw same place) | inr whole ↦ inl (Holds-all held' whole) ],
      )

  process-rest :
      (trips : List Trip) (r : Receiver) {got : ℕ → Bool}
      → AllIn s (arrivals trips)
      → PortZero trips
      → Holds s r.cache got
      → Ready s got r
      → (r' : Receiver) × (process_all retransmission m s trips r ≡ done r')
        × Holds s r'.cache (λ k. got k || arrives k (arrivals trips))
  unfolding process_all
  process-rest [] r {got} inside ports held ready =
      (r, refl, Holds-ext held (λ k. or-false (got k)))
  process-rest (t ∷ trips) r {got} inside ports held ready =
      let (mid, step, held', ready') = process-next t r inside.0 ports.0 held ready in
      let (last, run, held'') = process-rest trips mid inside.1 ports.1 held' ready' in
      (
        last,
        rw step run,
        Holds-ext held''
            (λ k. or_assoc (got k) (k == t.arrival.index) (arrives k (arrivals trips))),
      )

  -- The datagrams of a block reach a library that has no block of its identifier and a free place in
  -- its ring: each fragment at least once, in any order and with any repetition, but the last fragment
  -- not first; from senders in any state, the first byte of whose port on the wire is 0. No round
  -- waits or faults, and then the block is complete, and `get_block_data` returns the block that was
  -- cut, in length and in each byte.
  pub transfer :
      (heap : Array ℕ) (t : Trip) (trips : List Trip) (r : Receiver)
      → t.arrival.index + 1 < s.fs.fn
      → AllIn s (arrivals trips)
      → PortZero (t ∷ trips)
      → findblock s.streamid s.blockid r.cache ≡ none
      → r.biter.s_biter_empty ≢ 0
      → ((k : ℕ) → k < s.fs.fn → arrives k (arrivals (t ∷ trips)) ≡ true)
      → (r' : Receiver) × (d : BlockData) × (process_all retransmission m s (t ∷ trips) r ≡ done r')
        × (iscomplete s.streamid s.blockid r'.cache ≡ true)
        × (get_block_data heap s.streamid s.blockid r'.cache ≡ some d)
        × (d.length ≡ s.content.length)
        × ((j : ℕ) → j < s.content.length → d.payload j ≡ s.content.payload j)
  unfolding process_all
  transfer heap t trips r h inside ports absent place all =
      let (mid, step, held, ready) = process-first t r h ports.0 absent place in
      let (r', run, held') = process-rest trips mid inside ports.1 held ready in
      let (whole, d, data_of, length, bytes) = Holds-whole cut heap held' all in
      (r', d, rw step run, whole, data_of, length, bytes)
