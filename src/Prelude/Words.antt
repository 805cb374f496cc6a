-- ===== src/Prelude/Words.antt =====
-- Words of fixed width: the wrap-around of unsigned conversions, and byte order.
use Prim.Native.Nat.{ℕ, zero, suc, ◌+◌, ◌*◌, ◌/◌, ◌%◌, ◌<◌, bit_and}
use mathlib.Core.Path.{◌≡◌}
use mathlib.Core.Bool.{Bool, true, not, ◌&&◌}
use mathlib.Core.List.{List, [], ◌∷◌}
use native.Mathlib.Omega.{arith}
use bora.Prelude.Tests.{◌==◌}
use bora.Prelude.Arrays.{Array}

abbrev pub u8 : ℕ → ℕ
u8 n = n % 0x100

abbrev pub u16 : ℕ → ℕ
u16 n = n % 0x1_0000

abbrev pub u32 : ℕ → ℕ
u32 n = n % 0x1_0000_0000

abbrev pub u64 : ℕ → ℕ
u64 n = n % 0x1_0000_0000_0000_0000

-- The bytes of a word in network order, as htons and htonl leave them in memory.
abbrev pub be16 : ℕ → List ℕ
be16 n = u8 (n / 0x100) ∷ u8 n ∷ []

abbrev pub be32 : ℕ → List ℕ
be32 n = u8 (n / 0x100_0000) ∷ u8 (n / 0x1_0000) ∷ u8 (n / 0x100) ∷ u8 n ∷ []

-- The bytes of a word in the order of a little-endian host.
abbrev pub le16 : ℕ → List ℕ
le16 n = u8 n ∷ u8 (n / 0x100) ∷ []

-- A word read from memory at an offset, as ntohs and ntohl give it.
abbrev pub read_be16 : Array ℕ → ℕ → ℕ
read_be16 a i = a i * 0x100 + a (i + 1)

abbrev pub read_be32 : Array ℕ → ℕ → ℕ
read_be32 a i = a i * 0x100_0000 + a (i + 1) * 0x1_0000 + a (i + 2) * 0x100 + a (i + 3)

abbrev pub read_le16 : Array ℕ → ℕ → ℕ
read_le16 a i = a i + a (i + 1) * 0x100

-- f & mask, as a condition
abbrev pub has : ℕ → ℕ → Bool
has f mask = not (bit_and f mask == 0)

-- A law that is tested at each value below a bound.
unfoldable pub holds_up_to : (ℕ → Bool) → ℕ → Bool
holds_up_to law zero = true
holds_up_to law (suc m) = holds_up_to law m && law m

pub holds_up_to_at : (law : ℕ → Bool) (m i : ℕ) → i < m → holds_up_to law m ≡ true → law i ≡ true
unfolding holds_up_to
holds_up_to_at law zero i below tested = absurd (omega arith)
holds_up_to_at law (suc m) i below tested = ground (arith, holds_up_to_at law m i)
