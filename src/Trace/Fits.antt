-- ===== src/Trace/Fits.antt =====
-- The buffers into which dbg_trace.cpp prints with `sprintf_s`, which ends the program where a text
-- and its final zero do not fit.
use windbg_agent.Base.Decimal.{to_string, length-to_string, padded, length-padded}
use windbg_agent.Base.Hex.{hex_digits, length-hex_digits, length-to_hex}
use windbg_agent.Base.Int.{ℤ, pos, negsuc}
use windbg_agent.Base.{
  ℕ, ◌+◌, ◌-◌, ◌/◌, ◌%◌, ◌^◌, ◌≤◌, ◌<◌, ◌≡◌, Bool, ◌++◌, Bytes, codes, List, All, All-mono, length,
  length-append, arith,
}
use windbg_agent.Trace.KernelTrace.{set_counter}
use windbg_agent.Trace.LogFile.{SystemTime, time_stamp, fmt}
use windbg_agent.Trace.Registers.{reg_text, x64_groups, x86_groups}

-- The text and its final zero fit into a buffer of this size.
abbrev pub Fits : ℕ → Bytes → Type 0
Fits size s = length s + 1 ≤ size

pub record IsSystemTime (st : SystemTime) : Type 0 where
  pub year_word : st.year < 2 ^ 16
  pub month_word : st.month < 2 ^ 16
  pub day_word : st.day < 2 ^ 16
  pub hour_word : st.hour < 2 ^ 16
  pub minute_word : st.minute < 2 ^ 16
  pub second_word : st.second < 2 ^ 16

length-fmt : (a : ℕ) → length (fmt a) ≡ 17
unfolding fmt
length-fmt a = omega (
  arith,
  length-append (hex_digits 8 (a / 2 ^ 32 % 2 ^ 32)) (codes "`" ++ hex_digits 8 (a % 2 ^ 32)),
  length-hex_digits 8 (a / 2 ^ 32 % 2 ^ 32),
  length-hex_digits 8 (a % 2 ^ 32),
)

-- A register's name of at most three letters.
length-reg_text :
    (is_x64 : Bool) (name : Bytes) (val : ℕ)
    → length name ≤ 3
    → length (reg_text is_x64 name val) ≤ 20
unfolding reg_text
length-reg_text is_x64 name val h =
    let n = length-padded b' ' 3 3 name h (omega arith) in
    ground (
      arith,
      n,
      length-append (padded b' ' 3 name) (codes "=" ++ hex_digits 16 val),
      length-append (padded b' ' 3 name) (codes "=" ++ hex_digits 8 (val % 2 ^ 32)),
      length-hex_digits 16 val,
      length-hex_digits 8 (val % 2 ^ 32),
    )

length-two : (w n : ℕ) → w ≤ 5 → n < 2 ^ 16 → length (padded b'0' w (to_string n)) ≤ 5
length-two w n b h = length-padded b'0' w 5 (to_string n) (length-to_string 4 n (omega arith)) b

length-time_stamp : (st : SystemTime) → IsSystemTime st → length (time_stamp st) ≤ 31
unfolding time_stamp
length-time_stamp st v =
    let two = λ (n : ℕ). padded b'0' 2 (to_string n) in
    omega (
      arith,
      v,
      length-two 4 st.year,
      length-two 2 st.month,
      length-two 2 st.day,
      length-two 2 st.hour,
      length-two 2 st.minute,
      length-two 2 st.second,
      length-append {0},
    )

abbrev AllShort : List Bytes → Type 0
AllShort = All (λ name. length name ≤ 3)

-- The printed register fits, whatever it holds.
abbrev pub AllFit : List Bytes → Type 0
AllFit = All (λ name. (is_x64 : Bool) (val : ℕ) → Fits 32 (reg_text is_x64 name val))

AllShort-AllFit : (names : List Bytes) → AllShort names → AllFit names
AllShort-AllFit names =
    All-mono (λ name. length name ≤ 3)
      (λ name. (is_x64 : Bool) (val : ℕ) → Fits 32 (reg_text is_x64 name val)) names
      (λ name h is_x64 val. omega (arith, length-reg_text is_x64 name val h))

groups-AllShort : All AllShort (x64_groups ++ x86_groups)
groups-AllShort = omega arith

-- An `int`.
abbrev pub IsInt : ℤ → Type 0
IsInt (pos n) = n < 2 ^ 31
IsInt (negsuc n) = n < 2 ^ 31

length-set_counter : (max_steps : ℤ) → IsInt max_steps → length (set_counter max_steps) ≤ 18
unfolding set_counter
length-set_counter (pos n) h = omega (arith, length-to_hex 7 n)
length-set_counter (negsuc n) h = omega (arith, length-to_hex 7 (2 ^ 32 - 1 - n))

-- No `sprintf_s` of the traces can end the program: each printed address, register, time and counter
-- fits into its buffer with its final zero, for every 64-bit value, every register of both tables, every
-- time that a `SYSTEMTIME` can hold, and every `int`.
pub sprintf-Fits :
    (a : ℕ) (st : SystemTime) (max_steps : ℤ)
    → IsSystemTime st
    → IsInt max_steps
    → Fits 20 (fmt a)
      × Fits 24 (fmt a)
      × All AllFit (x64_groups ++ x86_groups)
      × Fits 32 (time_stamp st)
      × Fits 64 (set_counter max_steps)
sprintf-Fits a st max_steps v h = (
  omega (arith, length-fmt a),
  omega (arith, length-fmt a),
  All-mono AllShort AllFit (x64_groups ++ x86_groups) AllShort-AllFit groups-AllShort,
  omega (arith, length-time_stamp st v),
  omega (arith, length-set_counter max_steps h),
)
