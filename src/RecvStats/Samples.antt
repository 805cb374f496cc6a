-- ===== src/RecvStats/Samples.antt =====
-- The samples of a host are those of the pairs of its fragments that follow each other.
use bora.Prelude.{
  ℕ, ◌≡◌, refl, sym, ap, ◌∙◌, Bool, true, false, Bool-cases, Option-cases, inl, inr, Option, none,
  some, List, [], ◌∷◌, ◌==◌, ◌&&◌, if◌then◌else◌, arith,
}
use bora.Net.{SockaddrIn, addr_eq}
use bora.Net.Time.{timersub}
use bora.Nacks.Peers.{addr_eq→eq, addr_eq_refl}
use bora.RecvStats.{
  RecvFragment, Bw, BwEstimation, is_host, is_next, bw_find_by_host, store_estimation,
  fragment_received,
}

abbrev pub is_from : SockaddrIn → ℕ → RecvFragment → Bool
is_from host fromlen f = f.fromlen == fromlen && addr_eq f.host host

-- The fragments from one host, in their order.
unfoldable pub from_host : SockaddrIn → ℕ → List RecvFragment → List RecvFragment
from_host host fromlen [] = []
from_host host fromlen (f ∷ fs) =
    let rest = from_host host fromlen fs in if is_from host fromlen f then f ∷ rest else rest

-- The sample of two fragments.
abbrev pub sample : RecvFragment → RecvFragment → Bw
sample last f = record { buflen = f.buflen; delta = timersub f.tv last.tv; tv = f.tv }

-- The samples of a fragment and those before it, the newest first.
unfoldable pub samples : RecvFragment → List RecvFragment → List Bw
samples f [] = []
samples f (last ∷ fs) =
    let rest = samples last fs in if is_next last f then sample last f ∷ rest else rest

-- What is known of a host that has sent these fragments, the newest first.
unfoldable pub known : SockaddrIn → ℕ → List RecvFragment → Option BwEstimation
unfolding samples
known host fromlen [] = none
known host fromlen (f ∷ fs) =
    some (record { host = host; fromlen = fromlen; bandwidth = samples f fs; lastfragment = f })

-- The list after these fragments, the newest first, from an empty one.
unfoldable pub receive_all : List RecvFragment → List BwEstimation
unfolding fragment_received
receive_all [] = []
receive_all (f ∷ fs) = fragment_received f (receive_all fs)

find_first :
    (host : SockaddrIn) (fromlen : ℕ) (e : BwEstimation) (es : List BwEstimation)
    → is_host host fromlen e ≡ true
    → bw_find_by_host host fromlen (e ∷ es) ≡ some e
unfolding bw_find_by_host
find_first host fromlen e es h = rw h refl

find_later :
    (host : SockaddrIn) (fromlen : ℕ) (e : BwEstimation) (es : List BwEstimation)
    → is_host host fromlen e ≡ false
    → bw_find_by_host host fromlen (e ∷ es) ≡ bw_find_by_host host fromlen es
unfolding bw_find_by_host
find_later host fromlen e es h = rw h refl

bw_find_by_host-is_host :
    (host : SockaddrIn) (fromlen : ℕ) (es : List BwEstimation) {e : BwEstimation}
    → bw_find_by_host host fromlen es ≡ some e
    → is_host host fromlen e ≡ true
unfolding bw_find_by_host
bw_find_by_host-is_host host fromlen [] h = ground arith
bw_find_by_host-is_host host fromlen (q ∷ es) {e} h =
    ground (arith, bw_find_by_host-is_host host fromlen es {e = e})

bw_find_by_host-store_estimation :
    (new : BwEstimation) (es : List BwEstimation) {e : BwEstimation}
    → bw_find_by_host new.host new.fromlen es ≡ some e
    → bw_find_by_host new.host new.fromlen (store_estimation new es) ≡ some new
unfolding bw_find_by_host store_estimation
bw_find_by_host-store_estimation new [] h = ground arith
bw_find_by_host-store_estimation new (q ∷ es) {e} h =
    ground (arith, addr_eq_refl new.host, bw_find_by_host-store_estimation new es {e = e})

bw_find_by_host-store_estimation_ne :
    (new : BwEstimation) (host : SockaddrIn) (fromlen : ℕ) (es : List BwEstimation)
    → is_host host fromlen new ≡ false
    → bw_find_by_host host fromlen (store_estimation new es) ≡ bw_find_by_host host fromlen es
unfolding bw_find_by_host store_estimation
bw_find_by_host-store_estimation_ne new host fromlen [] h = refl
bw_find_by_host-store_estimation_ne new host fromlen (q ∷ es) h =
    elim (Bool-cases (is_host new.host new.fromlen q)) [
      | inl here ↦ rw here (ground (arith, addr_eq→eq q.host new.host))
      | inr there ↦
          rw there (ground (arith, bw_find_by_host-store_estimation_ne new host fromlen es h))
    ]

-- What a fragment makes of what is known of its host.
abbrev heard : RecvFragment → Option BwEstimation → BwEstimation
heard f none = record { host = f.host; fromlen = f.fromlen; bandwidth = []; lastfragment = f }
heard f (some e) = record e {
  bandwidth =
      if is_next e.lastfragment f then sample e.lastfragment f ∷ e.bandwidth else e.bandwidth;
  lastfragment = f;
}

is_host→eq :
    (host : SockaddrIn) (fromlen : ℕ) (e : BwEstimation)
    → is_host host fromlen e ≡ true
    → (e.host ≡ host) × (e.fromlen ≡ fromlen)
is_host→eq host fromlen e h = (addr_eq→eq e.host host (ground arith), ground arith)

store_at :
    (new : BwEstimation) (host : SockaddrIn) (fromlen : ℕ) (es : List BwEstimation)
    {e : BwEstimation}
    → new.host ≡ host
    → new.fromlen ≡ fromlen
    → bw_find_by_host host fromlen es ≡ some e
    → bw_find_by_host host fromlen (store_estimation new es) ≡ some new
store_at new host fromlen es {e} a b h =
    rw (sym a, sym b) (bw_find_by_host-store_estimation new es {e = e} (rw (a, b) h))

fragment_received-new :
    (f : RecvFragment) (es : List BwEstimation)
    → bw_find_by_host f.host f.fromlen es ≡ none
    → fragment_received f es ≡ heard f none ∷ es
unfolding fragment_received
fragment_received-new f es new = rw (new, fragment_received) refl

fragment_received-old :
    (f : RecvFragment) (es : List BwEstimation) {e : BwEstimation}
    → bw_find_by_host f.host f.fromlen es ≡ some e
    → fragment_received f es ≡ store_estimation (heard f (some e)) es
unfolding fragment_received
fragment_received-old f es old = rw (old, fragment_received) refl

fragment_received-own :
    (f : RecvFragment) (es : List BwEstimation)
    → bw_find_by_host f.host f.fromlen (fragment_received f es)
      ≡ some (heard f (bw_find_by_host f.host f.fromlen es))
fragment_received-own f es = elim (Option-cases (bw_find_by_host f.host f.fromlen es)) [
  | inl new ↦
      rw (new, fragment_received-new f es new)
        (find_first f.host f.fromlen (heard f none) es (ground (arith, addr_eq_refl f.host)))
  | inr (e, old) ↦
      let (a, b) =
        is_host→eq f.host f.fromlen e (bw_find_by_host-is_host f.host f.fromlen es old) in
      rw (old, fragment_received-old f es old)
        (store_at (heard f (some e)) f.host f.fromlen es a b old)
]

fragment_received-other :
    (f : RecvFragment) (host : SockaddrIn) (fromlen : ℕ) (es : List BwEstimation)
    → is_from host fromlen f ≡ false
    → bw_find_by_host host fromlen (fragment_received f es) ≡ bw_find_by_host host fromlen es
fragment_received-other f host fromlen es other =
    elim (Option-cases (bw_find_by_host f.host f.fromlen es)) [
      | inl new ↦
          rw (fragment_received-new f es new) (find_later host fromlen (heard f none) es other)
      | inr (e, old) ↦
          let (a, b) =
            is_host→eq f.host f.fromlen e (bw_find_by_host-is_host f.host f.fromlen es old) in
          rw (fragment_received-old f es old) (
            bw_find_by_host-store_estimation_ne (heard f (some e)) host fromlen es
              (rw (a, b) other))
    ]

heard-known :
    (f : RecvFragment) (fs : List RecvFragment)
    → some (heard f (known f.host f.fromlen fs)) ≡ known f.host f.fromlen (f ∷ fs)
unfolding known samples
heard-known f [] = refl
heard-known f (g ∷ fs) = refl

receive-known :
    (f : RecvFragment) (fs : List RecvFragment) (es : List BwEstimation) {host : SockaddrIn}
    {fromlen : ℕ}
    → f.host ≡ host
    → f.fromlen ≡ fromlen
    → bw_find_by_host host fromlen es ≡ known host fromlen fs
    → bw_find_by_host host fromlen (fragment_received f es) ≡ known host fromlen (f ∷ fs)
receive-known f fs es a b before =
    let own : bw_find_by_host f.host f.fromlen es ≡ known f.host f.fromlen fs = rw (a, b) before in
    rw (sym a, sym b)
      (fragment_received-own f es ∙ ap (λ e. some (heard f e)) own ∙ heard-known f fs)

-- After any sequence of fragments, from an empty list, a host that has sent none is not known, and
-- any other one is known by its last fragment, and has one sample, the newest first, for each two of
-- its fragments one behind the other of which the second has the next number in the same block and is
-- marked as consecutive. Fragments of other hosts in between do not count.
pub receive_all_lem :
    (host : SockaddrIn) (fromlen : ℕ) (fs : List RecvFragment)
    → bw_find_by_host host fromlen (receive_all fs) ≡ known host fromlen (from_host host fromlen fs)
unfolding receive_all from_host known
receive_all_lem host fromlen [] = refl
receive_all_lem host fromlen (f ∷ fs) = elim (Bool-cases (is_from host fromlen f)) [
  | inl own ↦ rw own (
      receive-known f (from_host host fromlen fs) (receive_all fs)
        (addr_eq→eq f.host host (ground arith)) (ground arith) (receive_all_lem host fromlen fs))
  | inr other ↦ rw other (
      fragment_received-other f host fromlen (receive_all fs) other
      ∙ receive_all_lem host fromlen fs)
]
