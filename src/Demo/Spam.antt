-- ===== src/Demo/Spam.antt =====
-- spam.c: an iterator that counts to a limit, and a function that counts its calls. Objects and sleep
-- are left out. `long int` and `int` are integers; what happens past their range is undefined in C.
use bora.Prelude.{
  ℕ, zero, suc, ◌+◌, ◌≡◌, ap, ◌∙◌, Option, none, some, List, [], ◌∷◌, if◌then◌else◌, arith,
}
use bora.Prelude.Int.{ℤ, pos, ltb_ℤ, ◌+ℤ◌}

-- `spam_MyIter`
pub record MyIter : Type 0 where
  pub m : ℤ
  pub i : ℤ

-- `spam_myiter`
unfoldable pub myiter : ℤ → MyIter
myiter m = record { m = m; i = pos 0 }

-- `spam_MyIter_iternext`; `none` is StopIteration.
unfoldable pub iternext : MyIter → Option ℤ × MyIter
unfolding ◌+ℤ◌
iternext p = if ltb_ℤ p.i p.m then (some p.i, record p { i = p.i +ℤ pos 1 }) else (none, p)

-- `bora`: what it returns, and `bubba` then.
unfoldable pub bora_call : ℤ → ℤ × ℤ
unfolding ◌+ℤ◌
bora_call bubba = (bubba, bubba +ℤ pos 1)

-- What `n` calls return.
collect : ℕ → MyIter → List (Option ℤ)
collect zero p = []
collect (suc n) p = let (r, p') = iternext p in r ∷ collect n p'

-- The numbers that are still to come, from `i` on, and then StopIteration.
counted : ℕ → ℕ → List (Option ℤ)
counted i zero = none ∷ []
counted i (suc n) = some (pos i) ∷ counted (i + 1) n

iternext-below :
    (i n : ℕ)
    → iternext (record { m = pos (i + suc n); i = pos i })
      ≡ (some (pos i), record { m = pos (i + 1 + n); i = pos (i + 1) })
unfolding iternext ◌+ℤ◌
iternext-below i n = ground arith

-- An iterator at `i`, `n` below its limit, gives the `n` numbers from `i` on, and then it stops.
collect-counted : (i n : ℕ) → collect (suc n) (record { m = pos (i + n); i = pos i }) ≡ counted i n
unfolding collect counted iternext
collect-counted i zero = ground arith
collect-counted i (suc n) =
    ap (λ out. out.0 ∷ collect (suc n) out.1) (iternext-below i n)
    ∙ ap (λ xs. some (pos i) ∷ xs) (collect-counted (i + 1) n)
