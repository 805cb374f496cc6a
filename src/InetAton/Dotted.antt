-- ===== src/InetAton/Dotted.antt =====
-- An address printed with four decimal numbers is read back.
use bora.Prelude.{
  ℕ, suc, ap, ◌∙◌, ◌+◌, ◌*◌, ◌/◌, ◌%◌, ◌<◌, ◌≡◌, refl, false, none, some, List, [], ◌∷◌, bit_or,
  ltb, if◌then◌else◌, arith,
}
use bora.InetAton.{
  digits, after_zero, number, with_part, collect, trailing_ok, concoct, win32_inet_aton,
}

-- A number below 1000 in decimal.
abbrev pub decimal : ℕ → List ℕ → List ℕ
decimal n s =
    if ltb n 10
    then (n + 48) ∷ s
    else if ltb n 100
    then (n / 10 + 48) ∷ (n % 10 + 48) ∷ s
    else (n / 100 + 48) ∷ (n / 10 % 10 + 48) ∷ (n % 10 + 48) ∷ s

abbrev pub dotted : ℕ → ℕ → ℕ → ℕ → List ℕ
dotted a b c d = decimal a (46 ∷ decimal b (46 ∷ decimal c (46 ∷ decimal d [])))

number-decimal_dot : (n : ℕ) (s : List ℕ) → n < 256 → number (decimal n (46 ∷ s)) ≡ some (n, 46 ∷ s)
unfolding number digits after_zero
number-decimal_dot n s h = ground arith

number-decimal_end : (n : ℕ) → n < 256 → number (decimal n []) ≡ some (n, [])
unfolding number digits after_zero
number-decimal_end n h = ground arith

collect-dot :
    (left : ℕ) (s s' : List ℕ) (val : ℕ)
    → number s ≡ some (val, 46 ∷ s')
    → collect (suc left) s ≡ with_part val (collect left s')
unfolding collect
collect-dot left s s' val h = rw (h, collect) refl

collect-end :
    (s : List ℕ) (val : ℕ)
    → number s ≡ some (val, [])
    → collect 0 s ≡ some (record { parts = []; val = val; rest = [] })
unfolding collect
collect-end s val h = rw (h, collect) refl

collect-too_many : (s s' : List ℕ) (val : ℕ) → number s ≡ some (val, 46 ∷ s') → collect 0 s ≡ none
unfolding collect
collect-too_many s s' val h = rw (h, collect) refl

-- Three numbers with dots behind them, and what `collect` finds then.
collect-three :
    (a b c : ℕ) (s : List ℕ)
    → a < 256
    → b < 256
    → c < 256
    → collect 3 (decimal a (46 ∷ decimal b (46 ∷ decimal c (46 ∷ s))))
      ≡ with_part a (with_part b (with_part c (collect 0 s)))
collect-three a b c s ha hb hc =
    let s2 = decimal c (46 ∷ s) in
    let s1 = decimal b (46 ∷ s2) in
    collect-dot 2 (decimal a (46 ∷ s1)) s1 a (number-decimal_dot a s1 ha)
    ∙ ap (with_part a) (collect-dot 1 s1 s2 b (number-decimal_dot b s2 hb))
    ∙ ap (λ p. with_part a (with_part b p)) (collect-dot 0 s2 s c (number-decimal_dot c s hc))

small : (n : ℕ) → n < 256 → ltb 0xff n ≡ false
small n h = ground arith

-- An address of four numbers below 256, printed in decimal with dots, is parsed to the number that
-- holds the four in its bytes, the first one highest.
pub win32_inet_aton-dotted :
    (a b c d : ℕ)
    → a < 256
    → b < 256
    → c < 256
    → d < 256
    → win32_inet_aton (dotted a b c d)
      ≡ some (bit_or d (bit_or (bit_or (a * 0x100_0000) (b * 0x1_0000)) (c * 0x100)))
unfolding win32_inet_aton collect trailing_ok concoct with_part
win32_inet_aton-dotted a b c d ha hb hc hd =
    let found =
      collect-three a b c (decimal d []) ha hb hc
      ∙ ap (λ p. with_part a (with_part b (with_part c p)))
          (collect-end (decimal d []) d (number-decimal_end d hd)) in
    rw (found, win32_inet_aton) (rw (small d hd, small a ha, small b hb, small c hc) refl)

-- Five numbers with dots are refused, whatever they are.
pub five_parts :
    (a b c d : ℕ) (s : List ℕ)
    → a < 256
    → b < 256
    → c < 256
    → d < 256
    → win32_inet_aton (decimal a (46 ∷ decimal b (46 ∷ decimal c (46 ∷ decimal d (46 ∷ s))))) ≡ none
unfolding win32_inet_aton collect with_part
five_parts a b c d s ha hb hc hd =
    let last = decimal d (46 ∷ s) in
    let found =
      collect-three a b c last ha hb hc
      ∙ ap (λ p. with_part a (with_part b (with_part c p)))
          (collect-too_many last s d (number-decimal_dot d s hd)) in
    rw (found, win32_inet_aton) refl
