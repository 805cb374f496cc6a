-- ===== src/Bindings/Bandwidths.antt =====
-- A bandwidth message from `send_bw_msg` of one host to `get_bw_msg` of another one.
use bora.Prelude.{
  ℕ, ◌<◌, ◌≡◌, ◌≢◌, refl, ◌∙◌, Bool, true, false, Option, some, List, [], ◌∷◌, map, u8, arith,
}
use bora.Prelude.Int.{ℤ, pos, eqb_ℤ, to_u32}
use bora.Net.{SockaddrIn, SendData}
use bora.Net.Time.{Timeval}
use bora.Codec.{encode_bw}
use bora.Codec.Ack.{decode_bwmsg-encode_bw}
use bora.Queues.{send_data}
use bora.Sender.{Sender, swap16, completed}
use bora.BwMsgs.{send_bwmsg, get_bwmsg_list}
use bora.Receiver.{Memory, Receiver, InStats, done, process, count_packet}
use bora.Receiver.Port.{arriving}
use bora.Bindings.{
  Library, value, none_if_dead, need_sock, address, with_queues, af_inet, receiver_of,
  with_receiver,
}
use bora.Bindings.Messages.{BwArg, bw_entry, send_bw_msg, send_first, get_bw_msg}
use bora.Receiver.BandwidthMessage.{bw-same, process-bw, process-bw_short}

-- The address for a dictionary.
abbrev pub bw_address : ℕ → ℤ → ℕ → SockaddrIn
bw_address s_addr port pad = record {
  sin_family = af_inet;
  sin_port = swap16 (to_u32 port);
  sin_addr = s_addr;
  sin_zero = pad;
}

-- The datagram for a bandwidth.
abbrev pub bw_datagram : SendData → SockaddrIn → ℤ → SendData
bw_datagram stack addr bw = record (encode_bw stack (to_u32 bw)) { to = addr }

-- Only the first dictionary of the list is sent.
send_bw_msg-sends :
    (inet_pton : List ℕ → Option ℕ) (stack : SendData) (pad : ℕ) (lib : Library) (ip : List ℕ)
    (port bw : ℤ) (rest : List BwArg) {s_addr : ℕ}
    → lib.death ≡ false
    → lib.sock ≢ pos 0
    → inet_pton ip ≡ some s_addr
    → send_bw_msg inet_pton stack pad
        (some (some (BwArg.dict (some ip) (some (some port)) (some (some bw)) ∷ rest)))
        lib
      ≡ (
        value true,
        with_queues
            (send_data (bw_datagram stack (bw_address s_addr port pad) bw) lib.sender.queues)
            lib,
      )
unfolding send_bw_msg send_first send_bwmsg none_if_dead need_sock address
send_bw_msg-sends inet_pton stack pad lib ip port bw rest alive opened found =
    let not_closed : eqb_ℤ lib.sock (pos 0) ≡ false = ground arith in
    rw (alive, not_closed, found) refl

-- The datagram, as it arrives from a sender with this port.
completed-bw :
    (t_end : Timeval) (stack : SendData) (addr : SockaddrIn) (bw : ℤ) (s : Sender)
    → s.z ≡ false
    → let d = bw_datagram stack addr bw in
      let out = completed t_end d s in
      (out.length ≡ 7)
      × ((i : ℕ) → i < 5 → out.contents i ≡ d.contents i)
      × (out.contents 5 ≡ u8 s.nat_port)
unfolding completed encode_bw
completed-bw t_end stack addr bw s hz = (ground arith, λ i hi. ground arith, ground arith)

to_u32_below : (n : ℤ) → to_u32 n < 0x1_0000_0000
to_u32_below n = ground arith

-- `get_bw_msg` of an open library.
get_bw_msg-all :
    (inet_ntop : ℕ → List ℕ) (lib : Library)
    → lib.death ≡ false
    → lib.sock ≢ pos 0
    → get_bw_msg inet_ntop lib
      ≡ (value (map (bw_entry inet_ntop) lib.bwmlist), record lib { bwmlist = [] })
unfolding get_bw_msg none_if_dead need_sock get_bwmsg_list
get_bw_msg-all inet_ntop lib alive opened =
    let not_closed : eqb_ℤ lib.sock (pos 0) ≡ false = ground arith in rw (alive, not_closed) refl

module _ (inet_pton : List ℕ → Option ℕ) (inet_ntop : ℕ → List ℕ) (stack : SendData) where
  -- A list whose first element has an address that inet_pton takes, a port and a bandwidth, given to
  -- `send_bw_msg` of an open library: one datagram goes to the queues, for the first element, and
  -- the others are passed over. If the first byte of the sender's port on the wire is 0, and the
  -- datagram is not sent as the second one of a consecutive pair, then a peer
  -- that receives the datagram keeps the message, and its `get_bw_msg` returns the host and the port
  -- that it came from, the low 32 bits of the bandwidth and the time, in front of the messages that
  -- were there, and leaves none.
  pub bw_msg_journey :
      (pad : ℕ) (lib peer : Library) (ip : List ℕ) (port bw : ℤ) (rest : List BwArg) {s_addr : ℕ}
      (t_end tv : Timeval) (s : Sender) (host : SockaddrIn) (retransmission : Bool) (m : Memory)
      → lib.death ≡ false
      → lib.sock ≢ pos 0
      → inet_pton ip ≡ some s_addr
      → s.z ≡ false
      → u8 s.nat_port ≡ 0
      → peer.death ≡ false
      → peer.sock ≢ pos 0
      → let d = bw_datagram stack (bw_address s_addr port pad) bw in
        (send_bw_msg inet_pton stack pad
            (some (some (BwArg.dict (some ip) (some (some port)) (some (some bw)) ∷ rest)))
            lib
          ≡ (value true, with_queues (send_data d lib.sender.queues) lib))
        × ((r : Receiver) × (process retransmission m
                (arriving host tv (completed t_end d s))
                (receiver_of peer)
              ≡ done r)
            × (get_bw_msg inet_ntop (with_receiver r peer) ≡ (
              value (
                  record {
                    ip = inet_ntop host.sin_addr;
                    port = swap16 host.sin_port;
                    bw = to_u32 bw;
                    tv = tv;
                  }
                  ∷ map (bw_entry inet_ntop) peer.bwmlist),
              record (with_receiver r peer) { bwmlist = [] },
            )))
  unfolding count_packet encode_bw
  bw_msg_journey pad lib peer ip port bw rest {s_addr} t_end tv s host retransmission m alive opened
        found hz hp peer_alive peer_open =
      let addr = bw_address s_addr port pad in
      let d = bw_datagram stack addr bw in
      let a = arriving host tv (completed t_end d s) in
      let (long, body, last) = completed-bw t_end stack addr bw s hz in
      let (valid, decoded) = bw-same a.buf d.contents body in
      let (ok, number) = decode_bwmsg-encode_bw stack (to_u32 bw) (to_u32_below bw) in
      let r = count_packet (
        record a { buflen = 5 },
        record (receiver_of peer) {
          bwmlist = record { bw = to_u32 bw; recv_time = tv; addr = host } ∷ peer.bwmlist;
        },
      ) in
      (
        send_bw_msg-sends inet_pton stack pad lib ip port bw rest alive opened found,
        (
          r,
          process-bw retransmission m a (receiver_of peer) (body 0 (omega arith)) long (last ∙ hp)
              (valid ∙ ok) (decoded ∙ number),
          get_bw_msg-all inet_ntop (with_receiver r peer) peer_alive peer_open,
        ),
      )

-- A bandwidth message that is sent outside of a consecutive pair is lost if the first byte of the
-- sender's port on the wire is not 0: whoever receives it changes nothing but the counters.
pub bw_msg_lost :
    (stack : SendData) (addr : SockaddrIn) (bw : ℤ) (t_end tv : Timeval) (s : Sender)
    (host : SockaddrIn) (retransmission : Bool) (m : Memory) (r : Receiver)
    → s.z ≡ false
    → u8 s.nat_port ≢ 0
    → (st : InStats) × (process retransmission m
          (arriving host tv (completed t_end (bw_datagram stack addr bw) s))
          r
        ≡ done (record r { stats_r = st }))
unfolding encode_bw
bw_msg_lost stack addr bw t_end tv s host retransmission m r hz hp =
    let (long, body, last) = completed-bw t_end stack addr bw s hz in
    process-bw_short retransmission m
      (arriving host tv (completed t_end (bw_datagram stack addr bw) s)) r (body 0 (omega arith))
      long (rw last hp)
