-- ===== src/Bindings/Journey.antt =====
-- A message from `send_raw` of one host to the iterator of another one.
use bora.Prelude.{
  ℕ, suc, ◌-◌, ◌<◌, ◌≤◌, ◌≡◌, ◌≢◌, refl, ap, ◌∙◌, inl, inr, Bool, true, false, Bool-cases, Option,
  some, from, List, [], ◌∷◌, ◌++◌, length, tabulate, tabulate-ext, tabulate-get_or, get_or, ltb,
  ◌==◌, has, arith,
}
use bora.Prelude.Int.{ℤ, pos, eqb_ℤ}
use bora.Net.{SockaddrIn, SendData}
use bora.Net.Time.{Timeval}
use bora.Net.Messages.{need_ack, blk_ack, bw_msg, blk_block}
use bora.Queues.{send_data}
use bora.Sender.{Sender, swap16, completed}
use bora.Biter.{Biter, IncomingData, block_completed, biter_next, minus_one}
use bora.Biter.Fifo.{
  Entry, entry, waiting-empty, IsBalanced, waiting, block_completed_refines, biter_next_refines,
}
use bora.Receiver.{
  Memory, Receiver, done, process, handle, pass_message, answer, take_ack, take_bw, take_fragment,
  count_packet, ◌>>=◌,
}
use bora.Receiver.Port.{arriving}
use bora.Bindings.{
  Library, value, none_if_dead, need_sock, address, bad_port, with_queues, receiver_of,
  with_receiver,
}
use bora.Bindings.Messages.{
  told_of, raw_message, send_raw, stop_if_dead, take_biter, biter_wake, biter_iternext,
}

-- The bytes behind the first one.
raw_message-body :
    (stack : SendData) (m : List ℕ) (s_addr : ℕ) (port_num : ℤ)
    → let d = raw_message stack m s_addr port_num in tabulate (from d.contents 1) (d.length - 1) ≡ m
raw_message-body stack m s_addr port_num =
    let d = raw_message stack m s_addr port_num in
    let rest : d.length - 1 ≡ length m = omega arith in
    ap (tabulate (from d.contents 1)) rest
    ∙ tabulate-ext _ (λ i. get_or m i 0) (length m) (λ k hk. ground arith)
    ∙ tabulate-get_or m 0

raw_message-contents :
    (stack : SendData) (m : List ℕ) (s_addr : ℕ) (port_num : ℤ)
    → let d = raw_message stack m s_addr port_num in tabulate d.contents d.length ≡ 0 ∷ m
raw_message-contents stack m s_addr port_num =
    let d = raw_message stack m s_addr port_num in
    let whole : d.length ≡ suc (length m) = omega arith in
    ap (tabulate d.contents) whole
    ∙ ap (λ xs. 0 ∷ xs)
        (tabulate-ext _ (λ i. get_or m i 0) (length m) (λ k hk. ground arith) ∙ tabulate-get_or m 0)

-- An open library sends the datagram, and gives back its bytes.
send_raw-sends :
    (inet_pton : List ℕ → Option ℕ) (stack : SendData) (lib : Library) (m dest : List ℕ)
    (port_num : ℤ) {s_addr : ℕ}
    → lib.death ≡ false
    → lib.sock ≢ pos 0
    → length m ≤ 1400
    → inet_pton dest ≡ some s_addr
    → bad_port port_num ≡ false
    → send_raw inet_pton stack (some (m, dest, port_num)) lib ≡ (
      value (0 ∷ m),
      with_queues (send_data (raw_message stack m s_addr port_num) lib.sender.queues) lib,
    )
unfolding send_raw none_if_dead need_sock address
send_raw-sends inet_pton stack lib m dest port_num {s_addr} alive opened short found good =
    let not_closed : eqb_ℤ lib.sock (pos 0) ≡ false = ground arith in
    let fits : ltb 1400 (length m) ≡ false = ground arith in
    rw (alive, not_closed, fits, found, good, raw_message-contents stack m s_addr port_num) refl

-- A message leaves the sending thread as it is, outside of a consecutive pair.
pub completed-message :
    (t_end : Timeval) (d : SendData) (s : Sender)
    → s.z ≡ false
    → d.contents 0 ≡ 0
    → completed t_end d s ≡ d
unfolding completed
completed-message t_end d s hz h = ground arith

-- A datagram with none of the four flags passes the parts that look for them.
pub unflagged-passes :
    (retransmission : Bool) (m : Memory) (d : IncomingData) (r : Receiver)
    → has (d.buf 0) need_ack ≡ false
    → has (d.buf 0) blk_ack ≡ false
    → has (d.buf 0) bw_msg ≡ false
    → has (d.buf 0) blk_block ≡ false
    → (answer m (d, r) >>= λ w. take_ack retransmission w >>= λ w. take_fragment m (take_bw w))
      ≡ done (d, r)
unfolding answer take_ack take_bw take_fragment
unflagged-passes retransmission m d r a b c e = rw (a, answer) (rw (b) (rw c (rw e refl)))

-- Where there is room in the ring, the receiving thread tells of a message of at least three bytes.
process-message :
    (retransmission : Bool) (m : Memory) (d : IncomingData) (r : Receiver) {b : Biter}
    → d.buf 0 ≡ 0
    → 3 < d.buflen
    → block_completed minus_one minus_one (some d) r.biter ≡ some b
    → process retransmission m d r ≡ done (count_packet (d, record r { biter = b }))
unfolding process handle pass_message
process-message retransmission m d r {b} h k told =
    let long : ltb 1 d.buflen ≡ true = ground arith in
    let whole : ltb 3 d.buflen ≡ true = ground arith in
    let flags : (d.buf 0 == 0) ≡ true = ground arith in
    rw (long, flags, whole, told)
      (ap (λ w. w >>= λ w. done (count_packet w))
        (unflagged-passes retransmission m d (record r { biter = b }) (rw h refl) (rw h refl)
          (rw h refl) (rw h refl)))

-- It passes over a shorter one.
pub process-short :
    (retransmission : Bool) (m : Memory) (d : IncomingData) (r : Receiver)
    → d.buf 0 ≡ 0
    → d.buflen ≤ 3
    → process retransmission m d r ≡ done (count_packet (d, r))
unfolding process handle pass_message
process-short retransmission m d r h k =
    let whole : ltb 3 d.buflen ≡ false = ground arith in
    let flags : (d.buf 0 == 0) ≡ true = ground arith in
    elim (Bool-cases (ltb 1 d.buflen)) [
      | inl long ↦
          rw (long, flags, whole)
            (ap (λ w. w >>= λ w. done (count_packet w))
              (unflagged-passes retransmission m d r (rw h refl) (rw h refl) (rw h refl)
                (rw h refl)))
      | inr one ↦ rw one refl
    ]

biter_iternext-taken :
    (inet_ntop : ℕ → List ℕ) (lib : Library) {e : Entry} {b : Biter}
    → lib.death ≡ false
    → biter_next lib.biter ≡ some (e, b)
    → (biter_iternext inet_ntop lib).0 ≡ value (told_of inet_ntop e)
unfolding biter_iternext biter_wake stop_if_dead take_biter
biter_iternext-taken inet_ntop lib alive taken = rw alive (rw (taken, biter_wake, take_biter) refl)

-- The iterator takes the one entry that waits.
biter_iternext-single :
    (inet_ntop : ℕ → List ℕ) (lib : Library) {e : Entry}
    → lib.death ≡ false
    → IsBalanced lib.biter
    → waiting lib.biter ≡ e ∷ []
    → (biter_iternext inet_ntop lib).0 ≡ value (told_of inet_ntop e)
biter_iternext-single inet_ntop lib {e} alive balanced one =
    elim (biter_next_refines lib.biter balanced) [
      | inl (none_waits, _) ↦ ground arith
      | inr (e', b', taken, _, first) ↦
          biter_iternext-taken inet_ntop lib {e = e} {b = b'} alive
            (taken ∙ ap (λ e. some (e, b')) (ground arith))
    ]

-- A message of 3 to 1400 bytes, given to `send_raw` with an address and a port that are valid, by a
-- library with an open socket: one datagram goes to the queues, and the call returns its bytes. The
-- sending thread leaves it as it is, outside of a consecutive pair. When it arrives at a library
-- whose ring is empty, the receiving thread accepts it, and the iterator there gives -1 and -1, with
-- the message, byte for byte, the host and port that it came from and the time.
pub message_journey :
    (inet_pton : List ℕ → Option ℕ) (inet_ntop : ℕ → List ℕ) (stack : SendData) (lib peer : Library)
    (message dest : List ℕ) (port_num : ℤ) {s_addr : ℕ} (t_end tv : Timeval) (s : Sender)
    (host : SockaddrIn) (retransmission : Bool) (m : Memory)
    → lib.death ≡ false
    → lib.sock ≢ pos 0
    → 3 ≤ length message
    → length message ≤ 1400
    → inet_pton dest ≡ some s_addr
    → bad_port port_num ≡ false
    → s.z ≡ false
    → peer.death ≡ false
    → IsBalanced peer.biter
    → peer.biter.s_biter_full ≡ 0
    → let d = raw_message stack message s_addr port_num in
      (send_raw inet_pton stack (some (message, dest, port_num)) lib
        ≡ (value (0 ∷ message), with_queues (send_data d lib.sender.queues) lib))
      × ((r : Receiver) × (process retransmission m
              (arriving host tv (completed t_end d s))
              (receiver_of peer)
            ≡ done r)
          × ((biter_iternext inet_ntop (with_receiver r peer)).0
              ≡ value (
                minus_one,
                minus_one,
                some (record {
                  host = inet_ntop host.sin_addr;
                  port = swap16 host.sin_port;
                  message = message;
                  ts = tv;
                }),
              )))
unfolding count_packet
message_journey inet_pton inet_ntop stack lib peer message dest port_num {s_addr} t_end tv s host
      retransmission m alive opened long short found good hz peer_alive balanced idle =
    let d = raw_message stack message s_addr port_num in
    let a = arriving host tv d in
    let plain = completed-message t_end d s hz refl in
    let body = raw_message-body stack message s_addr port_num in
    (
      send_raw-sends inet_pton stack lib message dest port_num alive opened short found good,
      elim (block_completed_refines minus_one minus_one (some a) peer.biter balanced) [
        | inl (full, _) ↦ absurd (omega (arith, balanced.count))
        | inr (b, told, ready, waits) ↦
            let r = count_packet (a, record (receiver_of peer) { biter = b }) in
            let one : waiting b ≡ entry minus_one minus_one a ∷ [] =
              waits
              ∙ ap (λ es. es ++ (entry minus_one minus_one a ∷ []))
                  (waiting-empty peer.biter idle) in
            (
              r,
              rw plain
                  (process-message retransmission m a (receiver_of peer) refl (omega arith) told),
              biter_iternext-single inet_ntop (with_receiver r peer) peer_alive ready one
                  ∙ ap
                      (λ text. value (
                        minus_one,
                        minus_one,
                        some (record {
                          host = inet_ntop host.sin_addr;
                          port = swap16 host.sin_port;
                          message = text;
                          ts = tv;
                        }),
                      ))
                      body,
            )
      ],
    )
