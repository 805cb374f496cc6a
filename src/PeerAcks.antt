-- ===== src/PeerAcks.antt =====
-- ack_received.c: what is known of each peer from its acknowledgements. `ack_received` holds
-- `ack_list` throughout and is one step. `retransmission` says whether BORA_RETRANSMISSION is
-- defined. `highest_seq` points to an entry that no function changes, and is a copy of it here.
pub mod Average
pub mod Heard
pub mod Keeps
use bora.Prelude.{
  ℕ, ◌+◌, Bool, true, false, Option, none, some, List, [], ◌∷◌, u64, ltb, ◌==◌, max, if◌then◌else◌,
}
use bora.Net.{SockaddrIn, addr_eq}
use bora.Net.Time.{Timeval, time_zero, timersub, timer_lt, time_to_usec}
use bora.Net.Messages.{need_ack, cookie_msg}
use bora.Codec.{AckReceived}
use bora.Queues.{Queues}
use bora.Nacks.{Ack, Nacks, remove_ooo_nacks, remove_lost_acks, resend_ooo_nacks}
use bora.Cookies.{AckStore, Cookies, cookie_received}

pub record PeerAckStore : Type 0 where
  pub addr : SockaddrIn
  pub min_stt : Timeval
  pub min_rtt : Timeval
  pub avg_rtt : Timeval
  pub avg_stt : Timeval
  pub err_rtt : Timeval
  pub err_stt : Timeval
  pub last_rtt : ℕ
  pub ack_store : List AckStore
  pub total_acked : ℕ
  pub total_errors : ℕ
  pub last_acked : ℕ
  pub last_error : ℕ

-- `peeracklist` and `highest_seq`.
pub record PeerAcks : Type 0 where
  pub peers : List PeerAckStore
  pub highest_seq : Option AckStore

unfoldable pub find_peer_by_host : SockaddrIn → List PeerAckStore → Option PeerAckStore
find_peer_by_host host [] = none
find_peer_by_host host (p ∷ peers) =
    if addr_eq p.addr host then some p else find_peer_by_host host peers

-- A write through the pointer that `find_peer_by_host` returns.
unfoldable pub store_peer : SockaddrIn → PeerAckStore → List PeerAckStore → List PeerAckStore
store_peer host new [] = []
store_peer host new (p ∷ peers) =
    if addr_eq p.addr host then new ∷ peers else p ∷ store_peer host new peers

-- `times_1_2` is the conversion to `uint64_t` of a number times 1.2, in floating point. Whether
-- the product exceeds 10000 is then read off the maximum.
unfoldable pub get_timeout_value : (ℕ → ℕ) → SockaddrIn → List PeerAckStore → ℕ
unfolding find_peer_by_host
get_timeout_value times_1_2 host peers = elim (find_peer_by_host host peers) [
  | none ↦ 0
  | some peer ↦ max (times_1_2 peer.last_rtt) 10000
]

-- The entry for an acknowledgement that was received at a time, sent back by the peer at `ack_recv_t`.
unfoldable pub new_entry : SockaddrIn → Ack → Timeval → Timeval → AckStore
unfolding timersub
new_entry addr ack_s ack_recv_t received = record {
  addr = addr;
  sent = ack_s.sendtime;
  rtt = timersub received ack_s.sendtime;
  stt = timersub ack_recv_t ack_s.sendtime;
  seq = ack_s.seq;
  sleeptime = ack_s.sleeptime;
}

unfoldable pub raise_highest : AckStore → Option AckStore → Option AckStore
raise_highest entry none = some entry
raise_highest entry (some high) = if ltb high.seq entry.seq then some entry else some high

-- The record of a peer that is heard of for the first time.
unfoldable pub first_heard : AckStore → PeerAckStore
unfolding time_to_usec
first_heard entry = record {
  addr = entry.addr;
  min_stt = entry.stt;
  min_rtt = entry.rtt;
  avg_rtt = entry.rtt;
  avg_stt = entry.stt;
  err_rtt = time_zero;
  err_stt = time_zero;
  last_rtt = time_to_usec entry.rtt;
  ack_store = entry ∷ [];
  total_acked = 1;
  total_errors = 0;
  last_acked = 1;
  last_error = 0;
}

-- The record of a known peer with one more entry.
unfoldable pub heard_again : AckStore → PeerAckStore → PeerAckStore
unfolding time_to_usec
heard_again entry peer = record peer {
  min_rtt = if timer_lt entry.rtt peer.min_rtt then entry.rtt else peer.min_rtt;
  min_stt = if timer_lt entry.stt peer.min_stt then entry.stt else peer.min_stt;
  ack_store = entry ∷ peer.ack_store;
  avg_rtt = entry.rtt;
  avg_stt = entry.stt;
  last_rtt = time_to_usec entry.rtt;
  total_acked = u64 (peer.total_acked + 1);
  last_acked = peer.last_acked + 1;
}

-- The entry before this one, whose times stand for an error: this one itself, if there is none.
abbrev pub previous : AckStore → List AckStore → AckStore
previous entry [] = entry
previous entry (p ∷ entries) = p

-- The errors that have been found, written to the peer's record.
unfoldable pub blame : AckStore → ℕ → PeerAckStore → PeerAckStore
blame prev errors peer = if errors == 0 then peer else record peer {
  err_stt = prev.stt;
  err_rtt = prev.rtt;
  total_errors = u64 (peer.total_errors + errors);
  last_error = peer.last_error + errors;
}

-- The call that finds the datagrams which the acknowledged one has overtaken.
unfoldable pub overtaken : Bool → Ack → ℕ → Nacks → Queues → ℕ × Nacks × Queues
unfolding remove_lost_acks resend_ooo_nacks remove_ooo_nacks
overtaken true ack_s cons nacks q = resend_ooo_nacks ack_s (remove_lost_acks ack_s cons nacks).1 q
overtaken false ack_s cons nacks q =
    let (n, nacks') = remove_ooo_nacks ack_s nacks in (n, nacks', q)

-- What `ack_received` works on.
pub record AckState : Type 0 where
  pub acks : PeerAcks
  pub nacks : Nacks
  pub cookies : Cookies
  pub queues : Queues

-- The first branch, for a peer that is not known: overtaken datagrams are removed and not counted.
unfoldable pub receive_first : AckStore → Ack → AckState → AckState
unfolding first_heard raise_highest remove_ooo_nacks
receive_first entry ack_s st = record st {
  nacks = (remove_ooo_nacks ack_s st.nacks).1;
  acks = record {
    peers = first_heard entry ∷ st.acks.peers;
    highest_seq = raise_highest entry st.acks.highest_seq;
  };
}

-- The second branch, for a known peer.
unfoldable pub receive_next : Bool → PeerAckStore → AckStore → Ack → ℕ → AckState → AckState
unfolding heard_again raise_highest overtaken blame store_peer
receive_next retransmission peer entry ack_s cons st =
    let (errors, nacks, q) = overtaken retransmission ack_s cons st.nacks st.queues in
    let peer' = blame (previous entry peer.ack_store) errors (heard_again entry peer) in
    record st {
      nacks = nacks;
      queues = q;
      acks = record {
        peers = store_peer entry.addr peer' st.acks.peers;
        highest_seq = raise_highest entry st.acks.highest_seq;
      };
    }

-- The last statement: an acknowledged cookie goes to `cookie_received`.
unfoldable pub notice_cookie : AckStore → Ack → AckState → AckState
unfolding cookie_received
notice_cookie entry ack_s st =
    if ack_s.d.contents 0 == need_ack + cookie_msg
    then record st { cookies = (cookie_received entry st.cookies).1 }
    else st

unfoldable pub ack_received : Bool → Ack → AckReceived → Timeval → SockaddrIn → AckState → AckState
unfolding find_peer_by_host new_entry receive_first receive_next notice_cookie
ack_received retransmission ack_s ack_r received host st =
    let entry =
      new_entry host ack_s (record { tv_sec = ack_r.sec; tv_usec = ack_r.usec }) received in
    notice_cookie entry ack_s (elim (find_peer_by_host host st.acks.peers) [
      | none ↦ receive_first entry ack_s st
      | some peer ↦ receive_next retransmission peer entry ack_s ack_r.cons st
    ])

-- The loop of `release_ack_store`.
unfoldable pub clear_last : List PeerAckStore → List PeerAckStore
clear_last [] = []
clear_last (p ∷ peers) = record p { last_acked = 0; last_error = 0 } ∷ clear_last peers

unfoldable pub release_ack_store : PeerAcks → PeerAcks
unfolding clear_last
release_ack_store acks = record { peers = clear_last acks.peers; highest_seq = none }
