-- ===== src/System/Calls.antt =====
-- What every call of Python keeps.
use bora.Bindings.{Library}
use bora.Bindings.Safe.{Known, LibSafe}
use bora.Bindings.Safe.Blocks.{
  send_block-LibSafe, add_block-LibSafe, del_block-LibSafe, incomplete_block_list-LibSafe,
  complete_block_list-LibSafe, get_block_content-LibSafe,
}
use bora.Bindings.Safe.Messages.{
  send_raw-LibSafe, biter_wake-LibSafe, biter_iternext-LibSafe, get_bw_msg-LibSafe,
  send_bw_msg-LibSafe,
}
use bora.Bindings.Safe.Counters.{
  new_iterator-LibSafe, get_in_stats-LibSafe, get_out_stats-LibSafe, get_bw_stats-LibSafe,
  get_que_size-LibSafe, bpuller_wake-LibSafe, bpuller_iternext-LibSafe,
}
use bora.Bindings.Safe.Control.{
  bwiter-LibSafe, bwiter_wake-LibSafe, bwiter_iternext-LibSafe, bws_set-LibSafe,
  nat_port_call-LibSafe, arm-LibSafe, results-LibSafe,
}
use bora.System.{Called}

pub Called-LibSafe :
    {n : Known} {lib lib' : Library} → Called lib lib' → LibSafe n lib → LibSafe n lib'
Called-LibSafe {lib = lib} (Called.send_blocks inet_pton stack args whole) k =
    send_block-LibSafe inet_pton stack args lib whole k
Called-LibSafe {lib = lib} (Called.add_blocks fresh args short) k =
    add_block-LibSafe fresh args lib short k
Called-LibSafe {lib = lib} (Called.del_blocks args) k = del_block-LibSafe args lib k
Called-LibSafe {lib = lib} Called.lists_incomplete k = incomplete_block_list-LibSafe lib k
Called-LibSafe {lib = lib} Called.lists_complete k = complete_block_list-LibSafe lib k
Called-LibSafe {lib = lib} (Called.gets_content heap args) k =
    get_block_content-LibSafe heap args lib k
Called-LibSafe {lib = lib} (Called.sends_raw inet_pton stack args) k =
    send_raw-LibSafe inet_pton stack args lib k
Called-LibSafe {lib = lib} (Called.gets_bw_msg inet_ntop) k = get_bw_msg-LibSafe inet_ntop lib k
Called-LibSafe {lib = lib} (Called.sends_bw_msg inet_pton stack pad args) k =
    send_bw_msg-LibSafe inet_pton stack pad args lib k
Called-LibSafe {lib = lib} Called.makes_iterator k = new_iterator-LibSafe lib k
Called-LibSafe {lib = lib} (Called.biter_nexts inet_ntop) k = biter_iternext-LibSafe inet_ntop lib k
Called-LibSafe {lib = lib} (Called.biter_wakes inet_ntop) k = biter_wake-LibSafe inet_ntop lib k
Called-LibSafe {lib = lib} Called.bpuller_nexts k = bpuller_iternext-LibSafe lib k
Called-LibSafe {lib = lib} Called.bpuller_wakes k = bpuller_wake-LibSafe lib k
Called-LibSafe {lib = lib} (Called.gets_in_stats arg) k = get_in_stats-LibSafe arg lib k
Called-LibSafe {lib = lib} (Called.gets_out_stats arg) k = get_out_stats-LibSafe arg lib k
Called-LibSafe {lib = lib} (Called.gets_bw_stats inet_ntop) k = get_bw_stats-LibSafe inet_ntop lib k
Called-LibSafe {lib = lib} Called.gets_que_size k = get_que_size-LibSafe lib k
Called-LibSafe {lib = lib} (Called.makes_bwiter arg) k = bwiter-LibSafe arg lib k
Called-LibSafe {lib = lib} (Called.bwiter_nexts inet_ntop) k =
    bwiter_iternext-LibSafe inet_ntop lib k
Called-LibSafe {lib = lib} (Called.bwiter_wakes inet_ntop) k = bwiter_wake-LibSafe inet_ntop lib k
Called-LibSafe {lib = lib} (Called.sets_bws timeout times_1_2 now args) k =
    bws_set-LibSafe timeout times_1_2 now args lib k
Called-LibSafe {lib = lib} (Called.sets_nat_port args) k = nat_port_call-LibSafe args lib k
Called-LibSafe {lib = lib} (Called.arms_cookies addr1 addr2) k = arm-LibSafe addr1 addr2 lib k
Called-LibSafe {lib = lib} (Called.takes_answers inet_ntop) k = results-LibSafe inet_ntop lib k
