-- ===== src/Prelude/Lists.antt =====
-- Lists measured and indexed by native numbers, under the library's names.
use Prim.Native.Nat.{ℕ, zero, suc, ◌+◌, ◌<◌}
use mathlib.Core.Path.{◌≡◌, refl, ap, ap₂}
use mathlib.Core.List.{List, [], ◌∷◌, ◌++◌}
use native.Mathlib.Omega.{arith}

module _ {ℓ} {A : Type ℓ} where
  abbrev pub length : List A → ℕ
  length [] = 0
  length (x ∷ xs) = suc (length xs)

  abbrev pub get_or : List A → ℕ → A → A
  get_or [] i d = d
  get_or (x ∷ xs) zero d = x
  get_or (x ∷ xs) (suc i) d = get_or xs i d

  pub length-append : (xs ys : List A) → length (xs ++ ys) ≡ length xs + length ys
  length-append [] ys = omega arith
  length-append (x ∷ xs) ys = omega (arith, length-append xs ys)

  -- f 0 ∷ f 1 ∷ ..., n elements
  abbrev pub tabulate : (ℕ → A) → ℕ → List A
  tabulate f zero = []
  tabulate f (suc n) = f 0 ∷ tabulate (λ k. f (suc k)) n

  pub tabulate-ext :
      (f g : ℕ → A) (n : ℕ) → ((k : ℕ) → k < n → f k ≡ g k) → tabulate f n ≡ tabulate g n
  tabulate-ext f g zero h = refl
  tabulate-ext f g (suc n) h =
      ap₂ ◌∷◌ (h 0 (omega arith))
        (tabulate-ext (λ k. f (suc k)) (λ k. g (suc k)) n (λ k hk. h (suc k) (omega arith)))

  pub tabulate_snoc : (f : ℕ → A) (n : ℕ) → tabulate f (suc n) ≡ tabulate f n ++ (f n ∷ [])
  tabulate_snoc f zero = refl
  tabulate_snoc f (suc n) = ap (λ xs. f 0 ∷ xs) (tabulate_snoc (λ k. f (suc k)) n)

pub tabulate-get_or {ℓ} :
    {A : Type ℓ} (xs : List A) (d : A) → tabulate (λ i. get_or xs i d) (length xs) ≡ xs
tabulate-get_or [] d = refl
tabulate-get_or (x ∷ xs) d = ap (λ ys. x ∷ ys) (tabulate-get_or xs d)
