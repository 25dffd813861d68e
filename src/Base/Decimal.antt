-- ===== src/Base/Decimal.antt =====
-- `std::to_string` and `std::stoi`.
use windbg_agent.Base.Int.{ℤ, pos, negsuc}
use windbg_agent.Base.{
  ℕ, zero, suc, ◌+◌, ◌-◌, ◌*◌, ◌/◌, ◌%◌, ◌^◌, ◌≤◌, ◌<◌, ◌≡◌, Bool, true, false, ◌&&◌, ◌||◌, [], ◌∷◌,
  ◌++◌, Option, none, some, Bytes, codes, ◌==◌, leb, ltb, if◌then◌else◌, arith, All, length,
}

-- The digits in front of `out`; `fuel` bounds the number of digits.
unfoldable pub digits : ℕ → ℕ → Bytes → Bytes
digits zero n out = out
digits (suc fuel) n out =
    let out' = (b'0' + n % 10) ∷ out in
    let rest = digits fuel (n / 10) out' in if ltb n 10 then out' else rest

-- A number has at most as many digits as its value, plus one.
unfoldable pub to_string : ℕ → Bytes
unfolding digits
to_string n = digits (suc n) n []

unfoldable pub to_string_ℤ : ℤ → Bytes
unfolding to_string
to_string_ℤ (pos n) = to_string n
to_string_ℤ (negsuc n) = codes "-" ++ to_string (suc n)

unfoldable pub filled : ℕ → ℕ → Bytes → Bytes
filled fill zero s = s
filled fill (suc k) s = fill ∷ filled fill k s

-- `%5d`, `%3s` and `%04d`: a fill byte in front, up to a width.
unfoldable pub padded : ℕ → ℕ → Bytes → Bytes
unfolding filled
padded fill w s = filled fill (w - length s) s

abbrev pub is_digit : ℕ → Bool
is_digit c = leb b'0' c && leb c b'9'

-- The value of the leading digits of a text behind `n`.
unfoldable pub digits_value : ℕ → Bytes → ℕ
digits_value n [] = n
digits_value n (c ∷ s) = elim (is_digit c) [
  | true ↦ digits_value (n * 10 + (c - b'0')) s
  | false ↦ n
]

abbrev pub starts_digit : Bytes → Bool
starts_digit [] = false
starts_digit (c ∷ s) = is_digit c

-- The whitespace of `isspace`.
abbrev pub is_space : ℕ → Bool
is_space c = c == b' ' || (leb 9 c && leb c 13)

unfoldable pub skip_space : Bytes → Bytes
skip_space [] = []
skip_space (c ∷ s) = let rest = skip_space s in if is_space c then rest else c ∷ s

abbrev pub int_max : ℕ
int_max = 2 ^ 31 - 1

-- The `int` of a sign and a magnitude, if it is one: `stoi` throws outside the range.
abbrev in_range : Bool → ℕ → Option ℤ
in_range false v = if leb v int_max then some (pos v) else none
in_range true zero = some (pos 0)
in_range true (suc v) = if leb v int_max then some (negsuc v) else none

abbrev magnitude : Bool → Bytes → Option ℤ
magnitude negative s = if starts_digit s then in_range negative (digits_value 0 s) else none

abbrev signed : Bytes → Option ℤ
signed [] = none
signed (c ∷ s) =
    if c == b'-'
    then magnitude true s
    else if c == b'+'
    then magnitude false s
    else magnitude false (c ∷ s)

-- `std::stoi`, with `none` for its exceptions. Text behind the digits is ignored.
unfoldable pub stoi : Bytes → Option ℤ
unfolding digits_value skip_space
stoi s = signed (skip_space s)

abbrev pub IsDigit : ℕ → Type 0
IsDigit c = (b'0' ≤ c) × (c ≤ b'9')

abbrev pub AllDigits : Bytes → Type 0
AllDigits = All IsDigit

digits-AllDigits : (fuel n : ℕ) (out : Bytes) → AllDigits out → AllDigits (digits fuel n out)
unfolding digits
digits-AllDigits zero n out h = h
digits-AllDigits (suc f) n out h =
    ground (arith, digits-AllDigits f (n / 10) ((b'0' + n % 10) ∷ out))

-- A printed number consists of digits.
pub to_string-AllDigits : (n : ℕ) → AllDigits (to_string n)
unfolding to_string
to_string-AllDigits n = digits-AllDigits (suc n) n [] tt

filled-AllDigits : (k : ℕ) (s : Bytes) → AllDigits s → AllDigits (filled b'0' k s)
unfolding filled
filled-AllDigits zero s h = h
filled-AllDigits (suc k) s h = ((omega arith, omega arith), filled-AllDigits k s h)

pub padded-AllDigits : (w n : ℕ) → AllDigits (padded b'0' w (to_string n))
unfolding padded
padded-AllDigits w n =
    filled-AllDigits (w - length (to_string n)) (to_string n) (to_string-AllDigits n)

-- Reading what was printed: the digits of n, then `out`, are worth n followed by `out`.
digits_value-digits :
    (fuel n : ℕ) (out : Bytes) → n < fuel → digits_value 0 (digits fuel n out) ≡ digits_value n out
unfolding digits digits_value
digits_value-digits zero n out h = absurd (omega arith)
digits_value-digits (suc f) n out h =
    ground (arith, digits_value-digits f (n / 10) ((b'0' + n % 10) ∷ out))

starts_digit-digits :
    (fuel n : ℕ) (out : Bytes) → n < fuel → starts_digit (digits fuel n out) ≡ true
unfolding digits
starts_digit-digits zero n out h = absurd (omega arith)
starts_digit-digits (suc f) n out h =
    ground (arith, starts_digit-digits f (n / 10) ((b'0' + n % 10) ∷ out))

stoi-plain : (s : Bytes) → starts_digit s ≡ true → stoi s ≡ in_range false (digits_value 0 s)
unfolding stoi skip_space
stoi-plain [] h = cc
stoi-plain (c ∷ s) h = ground arith

-- `stoi` reads back what `to_string` printed, for every non-negative `int`.
pub stoi-to_string : (n : ℕ) → n ≤ int_max → stoi (to_string n) ≡ some (pos n)
unfolding to_string
stoi-to_string n h =
    rw
      (
        stoi-plain (digits (suc n) n []) (starts_digit-digits (suc n) n [] (omega arith)),
        digits_value-digits (suc n) n [] (omega arith),
      )
      (unfold digits_value in ground arith)

length-filled : (fill k : ℕ) (s : Bytes) → length (filled fill k s) ≡ k + length s
unfolding filled
length-filled fill zero s = omega arith
length-filled fill (suc k) s = omega (arith, length-filled fill k s)

pub length-padded : (fill w b : ℕ) (s : Bytes) → length s ≤ b → w ≤ b → length (padded fill w s) ≤ b
unfolding padded
length-padded fill w b s h k = omega (arith, length-filled fill (w - length s) s)

-- 10 ^ k, digit by digit.
abbrev pub pow_ten : ℕ → ℕ
pow_ten zero = 1
pow_ten (suc k) = 10 * pow_ten k

length-digits :
    (k fuel n : ℕ) (out : Bytes)
    → n < pow_ten (suc k)
    → length (digits fuel n out) ≤ suc k + length out
unfolding digits
length-digits k zero n out h = omega arith
length-digits zero (suc f) n out h = ground arith
length-digits (suc k) (suc f) n out h =
    ground (arith, length-digits k f (n / 10) ((b'0' + n % 10) ∷ out))

-- A number below 10 ^ k has at most k digits.
pub length-to_string : (k n : ℕ) → n < pow_ten (suc k) → length (to_string n) ≤ suc k
unfolding to_string
length-to_string k n h = omega (arith, length-digits k (suc n) n [] h)
