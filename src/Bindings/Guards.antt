-- ===== src/Bindings/Guards.antt =====
-- The checks that the calls begin with: without a socket, and after `die`.
use bora.Prelude.{ℕ, ◌≡◌, refl, Bool, true, false, Option, some, Array, List, ◌<◌, ◌≢◌, ◌||◌, arith}
use bora.Prelude.Int.{ℤ, pos, negsuc, eqb_ℤ, int32, to_u32}
use bora.Net.{SendData}
use bora.Net.Time.{Timeval}
use bora.BlockCache.{Block}
use bora.Bindings.{
  Library, Call, Reply, raises, none_value, stops, sock_not_open, generators_not_running,
  none_if_dead, need_sock, value, bad_port,
}
use bora.Bindings.Blocks.{
  send_block, add_block, del_block, incomplete_block_list, complete_block_list, get_block_content,
}
use bora.Bindings.Messages.{BwArg, send_raw, send_bw_msg, get_bw_msg, biter_iternext, stop_if_dead}
use bora.Bindings.Session.{
  listen_on, die, end_session, end_bws, init_all, new_iterator, bwiter, bpuller_iternext,
}
use bora.Bindings.Stats.{get_in_stats, get_out_stats, get_bw_stats, get_que_size}
use bora.Bindings.Control.{bwiter_iternext, bws_set, nat_port_call}
use bora.Bindings.CookieCall.{cookie_call}

-- A call that gives back at once, and leaves the state as it is.
abbrev pub Refused {ℓ} : {A : Type ℓ} → Call A → Reply A → Library → Type ℓ
Refused call r lib = call lib ≡ (r, lib)

die-open : (lib : Library) → lib.sock ≢ pos 0 → die lib ≡ (value true, end_session lib)
unfolding die
die-open lib was_open =
    let not_closed : eqb_ℤ lib.sock (pos 0) ≡ false = ground arith in rw not_closed refl

pub listen_on-closed :
    (lib : Library) (new_sock : ℤ) (port : ℕ)
    → lib.sock ≡ pos 0
    → new_sock ≢ pos 0
    → new_sock ≢ negsuc 0
    → 0 < port
    → port < 65536
    → listen_on new_sock true (some (pos port)) lib
      ≡ (none_value, init_all (record lib { sock = new_sock }))
unfolding listen_on
listen_on-closed lib new_sock port closed h k low high =
    let no_sock : eqb_ℤ lib.sock (pos 0) ≡ true = rw closed refl in
    let fine : bad_port (int32 (to_u32 (pos port))) ≡ false = ground arith in
    let made : (eqb_ℤ new_sock (pos 0) || eqb_ℤ new_sock (negsuc 0)) ≡ false = ground arith in
    rw (no_sock, fine, made) refl

module _ (inet_pton : List ℕ → Option ℕ) (inet_ntop : ℕ → List ℕ) (stack : SendData) where
  -- Without a socket, and before any `die`, each call that needs the socket raises, whatever its
  -- arguments are, and changes nothing: those that send, the lists of messages and of samples, the
  -- iterators' constructors, the cookie, the port and `die` itself.
  pub closed_sock :
      (lib : Library)
      → lib.death ≡ false
      → lib.sock ≡ pos 0
      → ((args : Option (ℤ × ℤ × List ℕ × ℤ))
          → Refused (send_block inet_pton stack args) (raises sock_not_open) lib)
        × ((args : Option (List ℕ × List ℕ × ℤ))
            → Refused (send_raw inet_pton stack args) (raises sock_not_open) lib)
        × ((pad : ℕ) (args : Option (Option (List BwArg)))
            → Refused (send_bw_msg inet_pton stack pad args) (raises sock_not_open) lib)
        × Refused (get_bw_msg inet_ntop) (raises sock_not_open) lib
        × Refused (get_bw_stats inet_ntop) (raises sock_not_open) lib
        × Refused get_que_size (raises sock_not_open) lib
        × Refused new_iterator (raises sock_not_open) lib
        × ((arg : Option ℤ) → Refused (bwiter arg) (raises sock_not_open) lib)
        × ((during : Library → Library) (args : Option ((List ℕ × ℤ) × (List ℕ × ℤ)))
            → Refused (cookie_call inet_pton inet_ntop during args) (raises sock_not_open) lib)
        × ((args : Option ℤ) → Refused (nat_port_call args) (raises sock_not_open) lib)
        × Refused die (raises generators_not_running) lib
  unfolding send_block send_raw send_bw_msg get_bw_msg get_bw_stats get_que_size new_iterator bwiter
      cookie_call nat_port_call die none_if_dead need_sock
  closed_sock lib alive closed =
      let no_sock : eqb_ℤ lib.sock (pos 0) ≡ true = rw closed refl in
      (
        λ args. rw (alive, no_sock) refl,
        λ args. rw (alive, no_sock) refl,
        λ pad args. rw (alive, no_sock) refl,
        rw (alive, no_sock) refl,
        rw (alive, no_sock) refl,
        rw no_sock refl,
        rw no_sock refl,
        λ arg. rw no_sock refl,
        λ during args. rw no_sock refl,
        λ args. rw no_sock refl,
        rw no_sock refl,
      )

  -- Every call that looks at `death`, when it is set: it gives None and does nothing; the
  -- iterators stop.
  pub record IsSilent (heap : Array ℕ) (fresh : Block) (lib : Library) : Type 0 where
    send_block :
        (args : Option (ℤ × ℤ × List ℕ × ℤ))
        → Refused (bora.Bindings.Blocks.send_block inet_pton stack args) none_value lib
    send_raw :
        (args : Option (List ℕ × List ℕ × ℤ))
        → Refused (bora.Bindings.Messages.send_raw inet_pton stack args) none_value lib
    send_bw_msg :
        (pad : ℕ) (args : Option (Option (List BwArg)))
        → Refused (bora.Bindings.Messages.send_bw_msg inet_pton stack pad args) none_value lib
    add_block :
        (args : Option (ℤ × ℤ × List ℕ))
        → Refused (bora.Bindings.Blocks.add_block fresh args) none_value lib
    del_block :
        (args : Option (ℤ × ℤ)) → Refused (bora.Bindings.Blocks.del_block args) none_value lib
    get_block_content :
        (args : Option (ℤ × ℤ))
        → Refused (bora.Bindings.Blocks.get_block_content heap args) none_value lib
    incomplete : Refused incomplete_block_list none_value lib
    complete : Refused complete_block_list none_value lib
    get_bw_msg : Refused (bora.Bindings.Messages.get_bw_msg inet_ntop) none_value lib
    get_bw_stats : Refused (bora.Bindings.Stats.get_bw_stats inet_ntop) none_value lib
    get_in_stats : (arg : Option ℤ) → Refused (bora.Bindings.Stats.get_in_stats arg) none_value lib
    get_out_stats :
        (arg : Option ℤ) → Refused (bora.Bindings.Stats.get_out_stats arg) none_value lib
    bws_set :
        (timeout : Bool) (times_1_2 : ℕ → ℕ) (now : Timeval) (args : Option (ℤ × ℤ))
        → Refused (bora.Bindings.Control.bws_set timeout times_1_2 now args) none_value lib
    biter : Refused (biter_iternext inet_ntop) stops lib
    bpuller : Refused bpuller_iternext stops lib
    bwiter : Refused (bwiter_iternext inet_ntop) stops lib

  dead-IsSilent :
      (heap : Array ℕ) (fresh : Block) (lib : Library) → lib.death ≡ true → IsSilent heap fresh lib
  unfolding send_block send_raw send_bw_msg add_block del_block get_block_content
      incomplete_block_list complete_block_list get_bw_msg get_bw_stats get_in_stats get_out_stats
      bws_set biter_iternext bpuller_iternext bwiter_iternext none_if_dead stop_if_dead
  dead-IsSilent heap fresh lib dead = record {
    send_block = λ args. rw dead refl;
    send_raw = λ args. rw dead refl;
    send_bw_msg = λ pad args. rw dead refl;
    add_block = λ args. rw dead refl;
    del_block = λ args. rw dead refl;
    get_block_content = λ args. rw dead refl;
    incomplete = rw dead refl;
    complete = rw dead refl;
    get_bw_msg = rw dead refl;
    get_bw_stats = rw dead refl;
    get_in_stats = λ arg. rw dead refl;
    get_out_stats = λ arg. rw dead refl;
    bws_set = λ timeout times_1_2 now args. rw dead refl;
    biter = rw dead refl;
    bpuller = rw dead refl;
    bwiter = rw dead refl;
  }

  -- `die` ends an open session: the socket is closed, a second `die` raises, and every call that
  -- looks at `death` gives None and does nothing. `listen_on` then opens the new socket on any port
  -- from 1 to 65535, but `death` stays set: the library is as silent as before.
  pub reopened_is_dead :
      (heap : Array ℕ) (fresh : Block) (lib : Library) (new_sock : ℤ) (port : ℕ)
      → lib.sock ≢ pos 0
      → new_sock ≢ pos 0
      → new_sock ≢ negsuc 0
      → 0 < port
      → port < 65536
      → let ended = (die lib).1 in
        let reopened = (listen_on new_sock true (some (pos port)) ended).1 in
        ((die lib).0 ≡ value true)
        × Refused die (raises generators_not_running) ended
        × IsSilent heap fresh ended
        × ((listen_on new_sock true (some (pos port)) ended).0 ≡ none_value)
        × (reopened.sock ≡ new_sock)
        × IsSilent heap fresh reopened
  unfolding die end_session end_bws listen_on init_all
  reopened_is_dead heap fresh lib new_sock port was_open h k low high =
      let ended = end_session lib in
      rw (die-open lib was_open, listen_on-closed ended new_sock port refl h k low high)
        (
          refl,
          refl,
          dead-IsSilent heap fresh ended refl,
          refl,
          refl,
          dead-IsSilent heap fresh (init_all (record ended { sock = new_sock })) refl,
        )
