-- ===== src/Tests/Addresses.antt =====
-- Printed addresses.
use bora.Prelude.{◌≡◌, refl, some, none, [], ◌∷◌, arith}
use bora.InetAton.{win32_inet_aton}
use bora.InetAton.Dotted.{dotted, win32_inet_aton-dotted}

win32_inet_aton-dotted_example : win32_inet_aton (dotted 127 0 0 1) ≡ some 0x7f00_0001
win32_inet_aton-dotted_example =
    win32_inet_aton-dotted 127 0 0 1 (omega arith) (omega arith) (omega arith) (omega arith)

-- "10.1"
two_parts : win32_inet_aton (49 ∷ 48 ∷ 46 ∷ 49 ∷ []) ≡ some 0x0a00_0001
unfolding win32_inet_aton
two_parts = refl

-- "0x1F"
one_hexadecimal : win32_inet_aton (48 ∷ 120 ∷ 49 ∷ 70 ∷ []) ≡ some 31
unfolding win32_inet_aton
one_hexadecimal = refl

-- "1.2."
dot_at_end : win32_inet_aton (49 ∷ 46 ∷ 50 ∷ 46 ∷ []) ≡ none
unfolding win32_inet_aton
dot_at_end = refl
