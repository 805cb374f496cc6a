-- ===== src/Tests/Samples.antt =====
-- Three fragments from two hosts, and the sample that they give.
use bora.Prelude.{ℕ, ◌≡◌, some, List, [], ◌∷◌}
use bora.Net.{SockaddrIn}
use bora.RecvStats.{RecvFragment, bw_find_by_host}
use bora.RecvStats.Samples.{receive_all, receive_all_lem, samples, known, from_host}
use bora.Tests.{alice, bob, at}

-- A fragment with this number, from this host, at this time, marked as consecutive.
abbrev heard : SockaddrIn → ℕ → ℕ → RecvFragment
heard host n time = record {
  host = host;
  fromlen = 16;
  streamid = 1;
  blockid = 2;
  fragmentid = n;
  buflen = 1408;
  tv = at time;
  flags = 0xa4;
}

-- The newest first.
abbrev three_heard : List RecvFragment
three_heard = heard alice 1 9 ∷ heard bob 5 8 ∷ heard alice 0 7 ∷ []

receive_all_lem_example :
    bw_find_by_host alice 16 (receive_all three_heard)
    ≡ some (record {
      host = alice;
      fromlen = 16;
      bandwidth = record { buflen = 1408; delta = at 2; tv = at 9 } ∷ [];
      lastfragment = heard alice 1 9;
    })
unfolding known samples from_host bora.Net.Time.timersub
receive_all_lem_example = receive_all_lem alice 16 three_heard
