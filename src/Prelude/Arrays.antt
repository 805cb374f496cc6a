-- ===== src/Prelude/Arrays.antt =====
-- C arrays as functions from the index: what lies past the part that the code has written is
-- indeterminate, and a read or write past the allocated size is the caller's to rule out.
use Prim.Native.Nat.{ℕ, ◌+◌, ◌-◌}
use mathlib.Core.Bool.{◌&&◌}
use mathlib.Core.List.{List}
use bora.Prelude.Tests.{ltb, leb, ◌==◌, if◌then◌else◌}
use bora.Prelude.Lists.{get_or}

abbrev pub Array {ℓ} : Type ℓ → Type ℓ
Array A = ℕ → A

module _ {ℓ} {A : Type ℓ} where
  -- a[i] = v
  abbrev pub set : Array A → ℕ → A → Array A
  set a i v j = if j == i then v else a j

  -- memcpy(dst + off, src, n), the two arrays being disjoint
  abbrev pub memcpy : Array A → ℕ → Array A → ℕ → Array A
  memcpy dst off src n i = if leb off i && ltb i (off + n) then src (i - off) else dst i

-- a + off, as the array that starts there
abbrev pub from {ℓ} : {A : Type ℓ} → Array A → ℕ → Array A
from a off i = a (off + i)

-- The bytes of a list as an array.
abbrev pub bytes : List ℕ → Array ℕ
bytes xs i = get_or xs i 0
