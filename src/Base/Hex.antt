-- ===== src/Base/Hex.antt =====
-- Hexadecimal numbers, as `sprintf` prints them and as the debugger reads them.
use windbg_agent.Base.Decimal.{is_digit}
use windbg_agent.Base.Lists.{length, length-append}
use windbg_agent.Base.Tests.{ltb, leb, if◌then◌else◌}
use windbg_agent.Base.Text.{Bytes}
use windbg_agent.Base.{
  ℕ, zero, suc, ◌+◌, ◌-◌, ◌*◌, ◌/◌, ◌%◌, ◌≤◌, ◌<◌, ◌≡◌, refl, ◌∙◌, ◌&&◌, [], ◌∷◌, ◌++◌, Option,
  none, some, arith,
}

abbrev pub hex_digit : ℕ → ℕ
hex_digit n = if ltb n 10 then b'0' + n else b'a' + (n - 10)

-- `%08x` and `%016I64x`, with the width as the first argument: the lowest digits.
unfoldable pub hex_digits : ℕ → ℕ → Bytes
hex_digits zero n = []
hex_digits (suc k) n = hex_digits k (n / 16) ++ hex_digit (n % 16) ∷ []

-- The digits in front of `out`; `fuel` bounds the number of digits.
unfoldable pub hex_onto : ℕ → ℕ → Bytes → Bytes
hex_onto zero n out = out
hex_onto (suc fuel) n out =
    let out' = hex_digit (n % 16) ∷ out in
    let rest = hex_onto fuel (n / 16) out' in if ltb n 16 then out' else rest

-- `%x` and `%I64x`: no more digits than the number has.
unfoldable pub to_hex : ℕ → Bytes
unfolding hex_onto
to_hex n = hex_onto (suc n) n []

abbrev pub hex_digit_value : ℕ → Option ℕ
hex_digit_value c =
    if is_digit c
    then some (c - b'0')
    else if leb b'a' c && leb c b'f'
    then some (c - b'a' + 10)
    else if leb b'A' c && leb c b'F'
    then some (c - b'A' + 10)
    else none

-- The number that hexadecimal digits behind `n` stand for, if there is nothing but digits.
unfoldable pub hex_value : ℕ → Bytes → Option ℕ
hex_value n [] = some n
hex_value n (c ∷ s) = elim (hex_digit_value c) [ none ↦ none | some d ↦ hex_value (n * 16 + d) s ]

pub hex_digit_value-hex_digit : (n : ℕ) → n < 16 → hex_digit_value (hex_digit n) ≡ some n
hex_digit_value-hex_digit n h = ground arith

pub length-hex_digits : (k n : ℕ) → length (hex_digits k n) ≡ k
unfolding hex_digits
length-hex_digits zero n = refl
length-hex_digits (suc k) n = omega (
  arith,
  length-append (hex_digits k (n / 16)) (hex_digit (n % 16) ∷ []),
  length-hex_digits k (n / 16),
)

-- Printing in front of digits, and reading back.
hex_value-hex_onto :
    (fuel n : ℕ) (out : Bytes) → n < fuel → hex_value 0 (hex_onto fuel n out) ≡ hex_value n out
unfolding hex_onto hex_value
hex_value-hex_onto zero n out h = absurd (omega arith)
hex_value-hex_onto (suc f) n out h = ground (
  arith,
  hex_value-hex_onto f (n / 16) (hex_digit (n % 16) ∷ out),
  hex_digit_value-hex_digit (n % 16),
)

pub hex_value-to_hex : (n : ℕ) → hex_value 0 (to_hex n) ≡ some n
unfolding to_hex
hex_value-to_hex n = hex_value-hex_onto (suc n) n [] (omega arith) ∙ (unfold hex_value in refl)

-- 16 ^ k, digit by digit.
abbrev pub pow_sixteen : ℕ → ℕ
pow_sixteen zero = 1
pow_sixteen (suc k) = 16 * pow_sixteen k

length-hex_onto :
    (k fuel n : ℕ) (out : Bytes)
    → n < pow_sixteen (suc k)
    → length (hex_onto fuel n out) ≤ suc k + length out
unfolding hex_onto
length-hex_onto k zero n out h = omega arith
length-hex_onto zero (suc f) n out h = ground arith
length-hex_onto (suc k) (suc f) n out h =
    ground (arith, length-hex_onto k f (n / 16) (hex_digit (n % 16) ∷ out))

-- A number below 16 ^ k has at most k digits.
pub length-to_hex : (k n : ℕ) → n < pow_sixteen (suc k) → length (to_hex n) ≤ suc k
unfolding to_hex
length-to_hex k n h = omega (arith, length-hex_onto k (suc n) n [] h)
