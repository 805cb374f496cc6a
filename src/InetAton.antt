-- ===== src/InetAton.antt =====
-- bora.c, `win32_inet_aton`: the address parser of the Windows build. A string is the list of its
-- characters before the NUL; `unsigned int` has 32 bits. The address is returned in host order.
pub mod Dotted
use bora.Prelude.{
  ℕ, zero, suc, ◌+◌, ◌-◌, ◌*◌, Bool, true, Option, none, some, List, [], ◌∷◌, u32, bit_or, ltb, leb,
  ◌==◌, ◌&&◌, ◌||◌, if◌then◌else◌,
}

abbrev pub isdigit : ℕ → Bool
isdigit c = leb 48 c && leb c 57

abbrev pub islower : ℕ → Bool
islower c = leb 97 c && leb c 122

abbrev pub isxdigit : ℕ → Bool
isxdigit c = isdigit c || (leb 97 c && leb c 102) || (leb 65 c && leb c 70)

abbrev pub isspace : ℕ → Bool
isspace c = c == 32 || (leb 9 c && leb c 13)

-- The inner loop: the value of the digits, and what follows them.
unfoldable pub digits : ℕ → ℕ → List ℕ → ℕ × List ℕ
digits base val [] = (val, [])
digits base val (c ∷ s) =
    let decimal = digits base (u32 (u32 (val * base) + (c - 48))) s in
    let hexadecimal =
      digits base (bit_or (u32 (val * 16)) (c + 10 - (if islower c then 97 else 65))) s in
    if isdigit c then decimal else if base == 16 && isxdigit c then hexadecimal else (val, c ∷ s)

-- What follows a leading 0.
unfoldable pub after_zero : List ℕ → ℕ × List ℕ
unfolding digits
after_zero [] = digits 8 0 []
after_zero (c ∷ s) = if c == 120 || c == 88 then digits 16 0 s else digits 8 0 (c ∷ s)

-- A number as in C: 0x=hex, 0=octal, isdigit=decimal.
unfoldable pub number : List ℕ → Option (ℕ × List ℕ)
unfolding digits after_zero
number [] = none
number (c ∷ s) =
    if isdigit c then some (if c == 48 then after_zero s else digits 10 0 (c ∷ s)) else none

-- What the outer loop finds: the parts in front of a dot, the last value, and what follows it.
pub record Parts : Type 0 where
  pub parts : List ℕ
  pub val : ℕ
  pub rest : List ℕ

-- What a part in front of a dot adds.
unfoldable pub with_part : ℕ → Option Parts → Option Parts
with_part val none = none
with_part val (some p) = some (record p { parts = val ∷ p.parts })

-- The outer loop, with the places of `parts` that are left.
unfoldable pub collect : ℕ → List ℕ → Option Parts
unfolding number with_part
-- A number that is followed by no dot ends the loop.
collect zero s = elim (number s) [
  | none ↦ none
  | some (val, []) ↦ some (record { parts = []; val = val; rest = [] })
  | some (val, c ∷ s') ↦
      if c == 46 then none else some (record { parts = []; val = val; rest = c ∷ s' })
]
collect (suc left) s = elim (number s) [
  | none ↦ none
  | some (val, []) ↦ some (record { parts = []; val = val; rest = [] })
  | some (val, c ∷ s') ↦
      if c == 46
      then with_part val (collect left s')
      else some (record { parts = []; val = val; rest = c ∷ s' })
]

-- No characters but a blank may follow.
unfoldable pub trailing_ok : List ℕ → Bool
trailing_ok [] = true
trailing_ok (c ∷ s) = ltb c 128 && isspace c

-- The address according to the number of parts.
unfoldable pub concoct : List ℕ → ℕ → Option ℕ
concoct [] val = some val
concoct (a ∷ []) val =
    if ltb 0xff_ffff val || ltb 0xff a then none else some (bit_or val (a * 0x100_0000))
concoct (a ∷ b ∷ []) val =
    if ltb 0xffff val || ltb 0xff a || ltb 0xff b
    then none
    else some (bit_or val (bit_or (a * 0x100_0000) (b * 0x1_0000)))
concoct (a ∷ b ∷ c ∷ []) val =
    if ltb 0xff val || ltb 0xff a || ltb 0xff b || ltb 0xff c
    then none
    else some (bit_or val (bit_or (bit_or (a * 0x100_0000) (b * 0x1_0000)) (c * 0x100)))
concoct (a ∷ b ∷ c ∷ d ∷ more) val = some val

unfoldable pub win32_inet_aton : List ℕ → Option ℕ
unfolding collect trailing_ok concoct
win32_inet_aton s = elim (collect 3 s) [
  | none ↦ none
  | some p ↦ if trailing_ok p.rest then concoct p.parts p.val else none
]
