-- ===== src/Bindings/Control.antt =====
-- bora.c, the control of the bandwidth: the statistics that the iterator gives, and the answer to
-- them; and the port.
use bora.Prelude.{
  ℕ, suc, ◌-◌, ◌*◌, Bool, true, false, Option, none, some, List, [], ◌∷◌, map, ltb, ◌||◌,
  if◌then◌else◌,
}
use bora.Prelude.Int.{ℤ, pos, negsuc, ◌+ℤ◌, int32, ltb_ℤ}
use bora.Net.Time.{Timeval, million}
use bora.Nacks.{get_seq, resend_timeout_nacks}
use bora.Cookies.{AckStore}
use bora.Sender.{swap16, get_idle, set_nat_port}
use bora.PeerAcks.{PeerAcks, PeerAckStore, get_timeout_value}
use bora.BwControl.{fetch, set_bws_interval, bws_return_value}
use bora.Bindings.{
  Library, Call, Check, return, access, change, value, none_value, waits, none_if_dead, need_sock,
  parsed, raise_if, port_out_of_range, to_u16, ◌>>=◌, ◌>>◌,
}
use bora.Bindings.Stats.{OutDict, out_dict}
use bora.Bindings.Messages.{stop_if_dead}

-- t.tv_sec * 1000000L + t.tv_usec
unfoldable pub usec_of : Timeval → ℤ
unfolding ◌+ℤ◌
usec_of t = times_million t.tv_sec +ℤ t.tv_usec
  where
    times_million : ℤ → ℤ
    times_million (pos n) = pos (n * million)
    times_million (negsuc n) = negsuc (suc n * million - 1)

-- A `uint64_t` converted to `long`.
abbrev pub int64 : ℕ → ℤ
int64 w = if ltb w 0x8000_0000_0000_0000 then pos w else negsuc (0xffff_ffff_ffff_ffff - w)

-- An element of `values`. `sent` is a double in the source.
pub record Value : Type 0 where
  pub sent : Timeval
  pub rtt : ℤ
  pub stt : ℤ
  pub seq : ℕ
  pub sleep : ℤ

abbrev pub value_of : AckStore → Value
value_of a = record {
  sent = a.sent;
  rtt = usec_of a.rtt;
  stt = usec_of a.stt;
  seq = a.seq;
  sleep = int32 a.sleeptime;
}

-- `last_seq_dict`, and an element of the result of `bora_send_cookie`.
pub record AckDict : Type 0 where
  pub host : List ℕ
  pub port : ℕ
  pub answer : Value

abbrev pub ack_dict : (ℕ → List ℕ) → AckStore → AckDict
ack_dict inet_ntop a = record {
  host = inet_ntop a.addr.sin_addr;
  port = swap16 a.addr.sin_port;
  answer = value_of a;
}

pub record PeerDict : Type 0 where
  pub host : List ℕ
  pub port : ℕ
  pub min_stt : ℤ
  pub min_rtt : ℤ
  pub avg_rtt : ℤ
  pub avg_stt : ℤ
  pub err_rtt : ℤ
  pub err_stt : ℤ
  pub acked_total : ℤ
  pub error_total : ℤ
  pub acked_last : ℕ
  pub error_last : ℕ
  pub values : List Value

abbrev pub peer_dict : (ℕ → List ℕ) → PeerAckStore → PeerDict
peer_dict inet_ntop p = record {
  host = inet_ntop p.addr.sin_addr;
  port = swap16 p.addr.sin_port;
  min_stt = usec_of p.min_stt;
  min_rtt = usec_of p.min_rtt;
  avg_rtt = usec_of p.avg_rtt;
  avg_stt = usec_of p.avg_stt;
  err_rtt = usec_of p.err_rtt;
  err_stt = usec_of p.err_stt;
  acked_total = int64 p.total_acked;
  error_total = int64 p.total_errors;
  acked_last = p.last_acked;
  error_last = p.last_error;
  values = map value_of p.ack_store;
}

-- MYSLIST_REMOVE of every entry, as it is read.
abbrev pub emptied : PeerAckStore → PeerAckStore
emptied p = record p { ack_store = [] }

-- The entry with the highest number, unless there is no peer.
abbrev pub last_ack_of : (ℕ → List ℕ) → PeerAcks → Option AckDict
last_ack_of inet_ntop acks = last acks.peers acks.highest_seq
  where
    last : List PeerAckStore → Option AckStore → Option AckDict
    last [] high = none
    last (p ∷ peers) none = none
    last (p ∷ peers) (some a) = some (ack_dict inet_ntop a)

pub record BwsDict : Type 0 where
  pub sent_data : OutDict
  pub peer_stats : List PeerDict
  pub last_ack : Option AckDict
  pub last_nack : ℕ
  pub idle : ℤ

unfoldable pub take_bws : Check
unfolding fetch
take_bws lib = elim (fetch lib.bws) [
  | none ↦ (waits, lib)
  | some b ↦ (value tt, record lib { bws = b })
]

-- `get_ack_store` locks `ack_list`. If it is held, the call waits for good, since it keeps the
-- interpreter's lock, too.
unfoldable pub get_ack_store : Check
get_ack_store lib =
    if lib.ack_list then (waits, lib) else (value tt, record lib { ack_list = true })

-- The dictionary, and the state that is left: no peer has an entry. `highest_seq` still points to
-- the entry, which is freed.
unfoldable pub report : (ℕ → List ℕ) → Library → BwsDict × Library
unfolding usec_of get_seq get_idle
report inet_ntop lib =
    let (idle, s) = get_idle lib.sender in
    (
      record {
        sent_data = out_dict lib.sender.stats_s;
        peer_stats = map (peer_dict inet_ntop) lib.acks.peers;
        last_ack = last_ack_of inet_ntop lib.acks;
        last_nack = get_seq lib.sender.nacks;
        idle = int64 idle;
      },
      record lib { sender = s; acks = record (lib.acks) { peers = map emptied lib.acks.peers } },
    )

-- `bora_BWIter_iternext` from sem_wait on, where a call that waited goes on.
unfoldable pub bwiter_wake : (ℕ → List ℕ) → Call BwsDict
unfolding take_bws stop_if_dead get_ack_store report
bwiter_wake inet_ntop = do take_bws; stop_if_dead; get_ack_store; access (report inet_ntop)

-- `bora_BWIter_iternext`
unfoldable pub bwiter_iternext : (ℕ → List ℕ) → Call BwsDict
unfolding stop_if_dead bwiter_wake
bwiter_iternext inet_ntop = do stop_if_dead; bwiter_wake inet_ntop

-- `timeout` says whether BORA_TIMEOUT is defined.
unfoldable pub resend_late : Bool → (ℕ → ℕ) → Timeval → Library → Library
unfolding get_timeout_value resend_timeout_nacks
resend_late timeout times_1_2 now lib =
    let (n, nacks, q) =
      resend_timeout_nacks (λ host. get_timeout_value times_1_2 host lib.acks.peers) now
        lib.sender.nacks lib.sender.queues in
    if timeout
    then record lib { sender = record (lib.sender) { nacks = nacks; queues = q } }
    else lib

-- `set_bws_interval` and `bws_return_value`, where `release_ack_store` unlocks `ack_list`.
unfoldable pub answer_bws : ℤ → ℤ → Library → Library
unfolding set_bws_interval bws_return_value
answer_bws rst bws_time lib =
    let (s, acks, b) =
      bws_return_value rst (lib.sender, lib.acks, set_bws_interval bws_time lib.bws) in
    record lib { sender = s; acks = acks; ack_list = false; bws = b }

-- `bora_bws_set`
unfoldable pub bws_set : Bool → (ℕ → ℕ) → Timeval → Option (ℤ × ℤ) → Check
unfolding none_if_dead resend_late answer_bws
bws_set timeout times_1_2 now args = do
  none_if_dead
  (rst, bws_time) ← parsed args
  change (λ lib. answer_bws rst bws_time (resend_late timeout times_1_2 now lib))
  return none_value

-- `bora_set_nat_port`
unfoldable pub nat_port_call : Option ℤ → Check
unfolding need_sock set_nat_port
nat_port_call args = do
  need_sock
  port_num ← parsed args
  raise_if (ltb_ℤ port_num (pos 0) || ltb_ℤ (pos 65535) port_num) port_out_of_range
  change (λ lib. record lib { sender = set_nat_port (to_u16 port_num) lib.sender })
  return none_value
