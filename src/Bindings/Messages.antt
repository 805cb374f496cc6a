-- ===== src/Bindings/Messages.antt =====
-- bora.c, the calls that send and receive messages: raw ones and bandwidths.
use bora.Prelude.{
  ℕ, ◌+◌, ◌-◌, Bool, true, Option, none, some, set, from, List, [], ◌∷◌, length, map, tabulate, ltb,
  if◌then◌else◌,
}
use bora.Prelude.Int.{ℤ, to_u32}
use bora.Net.{SendData, SockaddrIn}
use bora.Net.Time.{Timeval}
use bora.Net.Messages.{blk_empty}
use bora.Codec.{put}
use bora.Queues.{send_data}
use bora.Sender.{swap16}
use bora.Biter.{IncomingData, biter_next}
use bora.BwMsgs.{BwMsg, get_bwmsg_list, send_bwmsg}
use bora.Bindings.{
  Call, Check, return, access, value, none_value, raises, stops, waits, message_too_long,
  port_number_not_allowed, not_a_list, no_dict_objects, bad_dict_entries, port_is_not_int,
  bw_is_not_int, none_if_dead, need_sock, parsed, address, bad_port, raise_if, af_inet, with_queues,
  ◌>>=◌, ◌>>◌,
}

-- The datagram that `send_raw` makes.
abbrev pub raw_message : SendData → List ℕ → ℕ → ℤ → SendData
raw_message stack message_string s_addr port_num = record {
  contents = put (set stack.contents 0 blk_empty) 1 message_string;
  length = length message_string + 1;
  to = record (stack.to) {
    sin_family = af_inet;
    sin_port = swap16 (to_u32 port_num);
    sin_addr = s_addr;
  };
}

-- The arguments are the message, the address and the port. `stack` is the local `message`, whose
-- address keeps its padding.
unfoldable pub send_raw :
    (List ℕ → Option ℕ) → SendData → Option (List ℕ × List ℕ × ℤ) → Call (List ℕ)
unfolding none_if_dead need_sock address send_data
send_raw inet_pton stack args = do
  none_if_dead
  need_sock
  (message_string, dest, port_num) ← parsed args
  raise_if (ltb 1400 (length message_string)) message_too_long
  s_addr ← address inet_pton dest
  raise_if (bad_port port_num) port_number_not_allowed
  access (λ lib.
      let message = raw_message stack message_string s_addr port_num in
      (
        tabulate message.contents message.length,
        with_queues (send_data message lib.sender.queues) lib,
      ))

-- The dictionary for a message. `ts` is a double in the source.
pub record Incoming : Type 0 where
  pub host : List ℕ
  pub port : ℕ
  pub message : List ℕ
  pub ts : Timeval

abbrev pub incoming_of : (ℕ → List ℕ) → IncomingData → Incoming
incoming_of inet_ntop d = record {
  host = inet_ntop d.host.sin_addr;
  port = swap16 d.host.sin_port;
  message = tabulate (from d.buf 1) (d.buflen - 1);
  ts = d.tv;
}

-- The tuple that the iterator gives, which has the dictionary where both numbers are -1.
abbrev pub Told : Type 0
Told = ℤ × ℤ × Option Incoming

abbrev pub told_of : (ℕ → List ℕ) → ℤ × ℤ × Option IncomingData → Told
told_of inet_ntop (s, b, none) = (s, b, none)
told_of inet_ntop (s, b, some d) = (s, b, some (incoming_of inet_ntop d))

unfoldable pub stop_if_dead : Check
stop_if_dead lib = (if lib.death then stops else value tt, lib)

unfoldable pub take_biter : Call (ℤ × ℤ × Option IncomingData)
unfolding biter_next
take_biter lib = elim (biter_next lib.biter) [
  | none ↦ (waits, lib)
  | some (entry, b) ↦ (value entry, record lib { biter = b })
]

-- `bora_BIter_iternext` from sem_wait on, where a call that waited goes on.
unfoldable pub biter_wake : (ℕ → List ℕ) → Call Told
unfolding take_biter stop_if_dead
biter_wake inet_ntop = do entry ← take_biter; stop_if_dead; return (value (told_of inet_ntop entry))

-- `bora_BIter_iternext`
unfoldable pub biter_iternext : (ℕ → List ℕ) → Call Told
unfolding stop_if_dead biter_wake
biter_iternext inet_ntop = do stop_if_dead; biter_wake inet_ntop

-- The dictionary for a bandwidth message. `tv` is a double in the source.
pub record BwEntry : Type 0 where
  pub ip : List ℕ
  pub port : ℕ
  pub bw : ℕ
  pub tv : Timeval

abbrev pub bw_entry : (ℕ → List ℕ) → BwMsg → BwEntry
bw_entry inet_ntop b = record {
  ip = inet_ntop b.addr.sin_addr;
  port = swap16 b.addr.sin_port;
  bw = b.bw;
  tv = b.recv_time;
}

-- `bora_get_bw_msg`
unfoldable pub get_bw_msg : (ℕ → List ℕ) → Call (List BwEntry)
unfolding none_if_dead need_sock get_bwmsg_list
get_bw_msg inet_ntop = do
  none_if_dead
  need_sock
  access (λ lib.
      let (bwlist, left) = get_bwmsg_list lib.bwmlist in
      (map (bw_entry inet_ntop) bwlist, record lib { bwmlist = left }))

-- What PyDict_GetItemString finds of an element: not a dictionary; or its `ip`, `port` and `bw`, each
-- `none` where it is missing. A `port` or `bw` that is no int is `none` in turn.
pub data BwArg : Type 0 where
  no_dict : BwArg
  dict : Option (List ℕ) → Option (Option ℤ) → Option (Option ℤ) → BwArg

abbrev pub entries : BwArg → Call (List ℕ × Option ℤ × Option ℤ)
entries no_dict = return (raises no_dict_objects)
entries (dict (some ip) (some port) (some bw)) = return (value (ip, port, bw))
entries (dict none port bw) = return (raises bad_dict_entries)
entries (dict (some ip) none bw) = return (raises bad_dict_entries)
entries (dict (some ip) (some port) none) = return (raises bad_dict_entries)

abbrev pub int_entry : Option ℤ → bora.Bindings.Error → Call ℤ
int_entry none e = return (raises e)
int_entry (some n) e = return (value n)

-- The argument of PyList_Check: `none` if it is not a list.
abbrev pub list_arg : Option (List BwArg) → Call (List BwArg)
list_arg none = return (raises not_a_list)
list_arg (some xs) = return (value xs)

-- The loop, which returns in its first round. `pad` is the padding of the local `addr`.
unfoldable pub send_first : (List ℕ → Option ℕ) → SendData → ℕ → List BwArg → Call Bool
unfolding address send_bwmsg
send_first inet_pton stack pad [] = return none_value
send_first inet_pton stack pad (dict_cur ∷ rest) = do
  (ip, port, bw) ← entries dict_cur
  s_addr ← address inet_pton ip
  port ← int_entry port port_is_not_int
  bw ← int_entry bw bw_is_not_int
  access (λ lib.
      let addr : SockaddrIn = record {
        sin_family = af_inet;
        sin_port = swap16 (to_u32 port);
        sin_addr = s_addr;
        sin_zero = pad;
      } in
      (true, with_queues (send_bwmsg stack addr (to_u32 bw) lib.sender.queues) lib))

-- `bora_send_bw_msg`
unfoldable pub send_bw_msg :
    (List ℕ → Option ℕ) → SendData → ℕ → Option (Option (List BwArg)) → Call Bool
unfolding none_if_dead need_sock send_first
send_bw_msg inet_pton stack pad args = do
  none_if_dead
  need_sock
  arg ← parsed args
  pylist ← list_arg arg
  send_first inet_pton stack pad pylist
