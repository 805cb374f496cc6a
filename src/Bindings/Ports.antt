-- ===== src/Bindings/Ports.antt =====
-- The addresses and ports that `send_block` lets through.
use bora.Prelude.{
  ℕ, ◌<◌, ◌≡◌, ◌≢◌, ◌⊎◌, inl, inr, refl, Bool, true, false, Bool-cases, Option-cases, Option, none,
  some, List, ◌==◌, not, if◌then◌else◌, arith,
}
use bora.Prelude.Int.{ℤ, pos, negsuc, eqb_ℤ, to_u32}
use bora.Net.{SendData}
use bora.BlockCache.Outgoing.{sendblock}
use bora.Sender.{swap16}
use bora.Bindings.{
  Library, Reply, value, none_value, raises, not_in_presentation_format, port_number_not_allowed,
  none_if_dead, need_sock, address, bad_port, socket_address, true_or_none, to_u16, with_queues,
}
use bora.Bindings.Blocks.{send_block}

-- What `send_block` hands to `sendblock`.
abbrev pub handed_on : SendData → ℤ → ℤ → ℕ → ℤ → Library → ℕ × Library
handed_on stack s_id b_id s_addr port_num lib =
    let (n, q) =
      sendblock stack (to_u16 s_id) (to_u32 b_id) (socket_address s_addr port_num) lib.cache
        lib.sender.queues in
    (n, with_queues q lib)

abbrev pub true_if_sent : ℕ → Reply Bool
true_if_sent n = if n == 0 then none_value else value true

true_or_none-sent :
    (n : ℕ) (lib : Library) → true_or_none (not (n == 0)) lib ≡ (true_if_sent n, lib)
true_or_none-sent n lib = elim (Bool-cases (n == 0)) [ inl e ↦ rw e refl | inr e ↦ rw e refl ]

good_port :
    (port_num : ℤ)
    → bad_port port_num ≡ false
    → (n : ℕ) × (port_num ≡ pos n) × (0 < n) × (n < 65536)
good_port (pos n) h = (n, refl, ground arith, ground arith)
good_port (negsuc n) h = absurd (ground arith)

port_on_wire : (a n : ℕ) → n < 65536 → swap16 (socket_address a (pos n)).sin_port ≡ n
port_on_wire a n h = ground arith

-- `send_block` of an open library, by its arguments: an address that inet_pton does not take, or a port
-- outside of 1 to 65535, raises and changes nothing. Else the block goes out with the low 16 and 32
-- bits of the identifiers, to the address that inet_pton gives and the port, which ntohs reads from
-- the address; and the call returns True if some fragment was sent, else None.
pub send_block_lem :
    (inet_pton : List ℕ → Option ℕ) (stack : SendData) (lib : Library) (s_id b_id : ℤ)
    (dest : List ℕ) (port_num : ℤ)
    → lib.death ≡ false
    → lib.sock ≢ pos 0
    → let out = send_block inet_pton stack (some (s_id, b_id, dest, port_num)) lib in
      ((inet_pton dest ≡ none) × (out ≡ (raises not_in_presentation_format, lib)))
      ⊎ ((bad_port port_num ≡ true) × (out ≡ (raises port_number_not_allowed, lib)))
      ⊎ ((a n : ℕ) × (inet_pton dest ≡ some a)
          × (port_num ≡ pos n)
          × (0 < n)
          × (n < 65536)
          × (swap16 (socket_address a port_num).sin_port ≡ n)
          × (let sent = handed_on stack s_id b_id a port_num lib in
              out ≡ (true_if_sent sent.0, sent.1)))
unfolding send_block none_if_dead need_sock address
send_block_lem inet_pton stack lib s_id b_id dest port_num alive opened =
    let not_closed : eqb_ℤ lib.sock (pos 0) ≡ false = ground arith in
    elim (Option-cases (inet_pton dest)) [
      | inl no_address ↦ inl (no_address, rw (alive, not_closed, no_address) refl)
      | inr (a, found) ↦ elim (Bool-cases (bad_port port_num)) [
        | inl bad ↦ inr (inl (bad, rw (alive, not_closed, found, bad) refl))
        | inr good ↦
            let (n, e, low, high) = good_port port_num good in
            let sent = handed_on stack s_id b_id a port_num (record lib { death = false }) in
            inr (
              inr (
                a,
                n,
                found,
                e,
                low,
                high,
                rw e (port_on_wire a n high),
                rw (alive, not_closed, found, good) (true_or_none-sent sent.0 sent.1),
              ))
      ]
    ]
