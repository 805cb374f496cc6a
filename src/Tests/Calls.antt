-- ===== src/Tests/Calls.antt =====
-- The calls of Python, one by one.
use bora.Prelude.{
  ℕ, ◌+◌, ◌<◌, ◌≡◌, ◌⊎◌, refl, true, false, Option, none, some, List, [], ◌∷◌, map, arith,
}
use bora.Prelude.Int.{ℤ, pos, to_u64}
use bora.Net.{SockaddrIn}
use bora.Net.Time.{time_zero}
use bora.BlockCache.{findblock}
use bora.Sender.{swap16}
use bora.PeerAcks.{PeerAckStore, first_heard}
use bora.BwControl.{BwControl, offer, accept, init_bws, reset_out_counters}
use bora.Cookies.{AckStore}
use bora.Bindings.{
  Library, value, none_value, raises, socket_address, sock_not_open, generators_not_running,
  bad_port, not_in_presentation_format, port_number_not_allowed,
}
use bora.Bindings.Blocks.{send_block, add_block, del_block, get_block_content}
use bora.Bindings.Messages.{BwArg, send_raw, send_bw_msg, get_bw_msg}
use bora.Bindings.Session.{listen_on, die, new_iterator, bwiter}
use bora.Bindings.Stats.{get_in_stats, get_out_stats, get_bw_stats, get_que_size, in_dict, out_dict}
use bora.Bindings.Control.{
  BwsDict, PeerDict, ack_dict, value_of, bwiter_iternext, bws_set, nat_port_call,
}
use bora.Bindings.CookieCall.{cookie_call}
use bora.Bindings.Guards.{Refused, IsSilent, closed_sock, reopened_is_dead}
use bora.Bindings.Ports.{handed_on, true_if_sent, send_block_lem}
use bora.Bindings.Content.{content_kept}
use bora.Bindings.Answers.{Hosts, AreHosts, on_cookies, take_answers, fetched, late_answers}
use bora.Bindings.Round.{AllReported, python_round}
use bora.Bindings.Counters.{zero_dict, get_out_stats_resets_in}
use bora.Tests.{blank, at, blank_datagram, fresh_block, no_answer}
use bora.Tests.Python.{pton, ntop, opened, closed}

closed_sock_example :
    ((args : Option (ℤ × ℤ × List ℕ × ℤ))
      → Refused (send_block pton blank_datagram args) (raises sock_not_open) closed)
    × ((args : Option (List ℕ × List ℕ × ℤ))
        → Refused (send_raw pton blank_datagram args) (raises sock_not_open) closed)
    × ((pad : ℕ) (args : Option (Option (List BwArg)))
        → Refused (send_bw_msg pton blank_datagram pad args) (raises sock_not_open) closed)
    × Refused (get_bw_msg ntop) (raises sock_not_open) closed
    × Refused (get_bw_stats ntop) (raises sock_not_open) closed
    × Refused get_que_size (raises sock_not_open) closed
    × Refused new_iterator (raises sock_not_open) closed
    × ((arg : Option ℤ) → Refused (bwiter arg) (raises sock_not_open) closed)
    × ((during : Library → Library) (args : Option ((List ℕ × ℤ) × (List ℕ × ℤ)))
        → Refused (cookie_call pton ntop during args) (raises sock_not_open) closed)
    × ((args : Option ℤ) → Refused (nat_port_call args) (raises sock_not_open) closed)
    × Refused die (raises generators_not_running) closed
closed_sock_example = closed_sock pton ntop blank_datagram closed refl refl

reopened_is_dead_example :
    let ended = (die opened).1 in
    let reopened = (listen_on (pos 4) true (some (pos 2001)) ended).1 in
    ((die opened).0 ≡ value true)
    × Refused die (raises generators_not_running) ended
    × IsSilent pton ntop blank_datagram blank fresh_block ended
    × ((listen_on (pos 4) true (some (pos 2001)) ended).0 ≡ none_value)
    × (reopened.sock ≡ pos 4)
    × IsSilent pton ntop blank_datagram blank fresh_block reopened
reopened_is_dead_example =
    reopened_is_dead pton ntop blank_datagram blank fresh_block opened (pos 4) 2001 (ground arith)
      (ground arith) (ground arith) (omega arith) (omega arith)

send_block_lem_example :
    let out = send_block pton blank_datagram (some (pos 1, pos 2, 65 ∷ [], pos 2001)) opened in
    ((pton (65 ∷ []) ≡ none) × (out ≡ (raises not_in_presentation_format, opened)))
    ⊎ ((bad_port (pos 2001) ≡ true) × (out ≡ (raises port_number_not_allowed, opened)))
    ⊎ ((a n : ℕ) × (pton (65 ∷ []) ≡ some a)
        × (pos 2001 ≡ pos n)
        × (0 < n)
        × (n < 65536)
        × (swap16 (socket_address a (pos 2001)).sin_port ≡ n)
        × (let sent = handed_on blank_datagram (pos 1) (pos 2) a (pos 2001) opened in
            out ≡ (true_if_sent sent.0, sent.1)))
send_block_lem_example =
    send_block_lem pton blank_datagram opened (pos 1) (pos 2) (65 ∷ []) (pos 2001) refl
      (ground arith)

content_kept_example :
    let (reply, after) = add_block fresh_block (some (pos 1, pos 2, 7 ∷ 8 ∷ [])) opened in
    (reply ≡ value true)
    × (get_block_content blank (some (pos 1, pos 2)) after ≡ (value (7 ∷ 8 ∷ []), after))
    × (add_block fresh_block (some (pos 1, pos 2, 9 ∷ [])) after ≡ (none_value, after))
    × (del_block (some (pos 1, pos 2)) after ≡ (none_value, after))
    × ((get_block_content blank (some (pos 1, pos 3)) after).0
        ≡ (get_block_content blank (some (pos 1, pos 3)) opened).0)
unfolding findblock
content_kept_example =
    content_kept blank fresh_block (pos 1) (pos 2) (7 ∷ 8 ∷ []) (9 ∷ []) opened (pos 1) (pos 3) refl
      refl refl

-- the addresses of "A" with the ports 2001 and 2002
abbrev host_1 : SockaddrIn
host_1 = socket_address 0x0100_007f (pos 2001)

abbrev host_2 : SockaddrIn
host_2 = socket_address 0x0100_007f (pos 2002)

abbrev both_hosts : Hosts
both_hosts = ((65 ∷ [], pos 2001), (65 ∷ [], pos 2002))

both_hosts-AreHosts : AreHosts pton both_hosts host_1 host_2
both_hosts-AreHosts = record {
  s_addr1 = 0x0100_007f;
  s_addr2 = 0x0100_007f;
  found1 = refl;
  found2 = refl;
  port1 = refl;
  port2 = refl;
  made1 = refl;
  made2 = refl;
}

abbrev answer_1 : AckStore
answer_1 = record no_answer { addr = host_1 }

abbrev answer_2 : AckStore
answer_2 = record no_answer { addr = host_2; seq = 7 }

late_answers_example :
    let timed = cookie_call pton ntop (on_cookies fetched) (some both_hosts) opened in
    let late = on_cookies (take_answers answer_1 answer_2) timed.1 in
    (timed.0 ≡ value [])
    × ((cookie_call pton ntop (on_cookies fetched) (some both_hosts) late).0
        ≡ value (ack_dict ntop answer_1 ∷ ack_dict ntop answer_2 ∷ []))
late_answers_example =
    late_answers pton ntop both_hosts both_hosts opened answer_1 answer_2 (ground arith)
      both_hosts-AreHosts both_hosts-AreHosts refl refl

-- one peer has acknowledged a datagram
abbrev heard : Library
heard = record opened {
  acks = record { peers = first_heard answer_1 ∷ []; highest_seq = some answer_1 };
}

python_round_example :
    (offered : BwControl) × (dict : BwsDict) × (given after : Library) × (offer heard.bws
      ≡ some offered)
    × (bwiter_iternext ntop (record heard { bws = offered }) ≡ (value dict, given))
    × (map (λ (p : PeerDict). p.values) dict.peer_stats
        ≡ map (λ (p : PeerAckStore). map value_of p.ack_store) heard.acks.peers)
    × (accept given.bws ≡ none)
    × (given.ack_list ≡ true)
    × (bws_set false (λ n. n + n) (at 9) (some (pos 64_000, pos 400_000)) given
        ≡ (none_value, after))
    × (accept after.bws ≡ some (record (heard.bws) { bws_timer = pos 400_000 }))
    × (after.ack_list ≡ false)
    × (after.sender.bandwidth ≡ to_u64 (pos 64_000))
    × (after.sender.idle_time ≡ time_zero)
    × (after.sender.stats_s ≡ reset_out_counters heard.sender.stats_s)
    × AllReported after.acks.peers
unfolding init_bws
python_round_example =
    python_round ntop false (λ n. n + n) (at 9) (pos 64_000) (pos 400_000) heard refl refl refl refl
      refl

get_out_stats_resets_in_example :
    let (received, after_in) = get_in_stats (some (pos 1)) opened in
    let (sent, after_out) = get_out_stats (some (pos 1)) opened in
    (received ≡ value (in_dict opened.stats_r))
    × ((get_in_stats (some (pos 1)) after_in).0 ≡ value zero_dict)
    × (sent ≡ value (out_dict opened.sender.stats_s))
    × ((get_in_stats (some (pos 1)) after_out).0 ≡ value zero_dict)
    × ((get_out_stats (some (pos 1)) after_out).0 ≡ sent)
get_out_stats_resets_in_example = get_out_stats_resets_in opened (pos 1) refl refl
