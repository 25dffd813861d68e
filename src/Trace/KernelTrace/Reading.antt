-- ===== src/Trace/KernelTrace/Reading.antt =====
-- What JavaScript reads from the globals that dbg_trace.cpp writes: a reader for statements
-- `var name = value;` whose values are strings, numbers and arrays of strings, and for the addresses
-- in them (`host.parseInt64`).
use windbg_agent.Base.Decimal.{stoi}
use windbg_agent.Base.Hex.{hex_value}
use windbg_agent.Base.Int.{ℤ}
use windbg_agent.Base.{
  ℕ, zero, suc, ◌+◌, true, false, List, [], ◌∷◌, Option, none, some, Bytes, codes, find, take, drop,
  length, ◌==◌,
}
use windbg_agent.Trace.LogFile.Paths.{read_literal}

infixl 5 ◌>>=◌
abbrev pub ◌>>=◌ {ℓ κ} : {A : Type ℓ} {B : Type κ} → Option A → (A → Option B) → Option B
none >>= f = none
some a >>= f = f a

-- The text behind a token that must stand in front.
unfoldable pub expect : Bytes → Bytes → Option Bytes
expect [] s = some s
expect (t ∷ token) [] = none
expect (t ∷ token) (c ∷ s) = elim (t == c) [ true ↦ expect token s | false ↦ none ]

-- The text up to a byte, and the text behind it.
unfoldable pub cut : ℕ → Bytes → Option (Bytes × Bytes)
unfolding find
cut c s = elim (find c s) [ none ↦ none | some i ↦ some (take i s, drop (i + 1) s) ]

-- `host.parseInt64` of a text with the prefix `0x`.
unfoldable pub parse_int64 : Bytes → Option ℕ
unfolding expect hex_value
parse_int64 s = do digits ← expect (codes "0x") s; hex_value 0 digits

unfoldable pub read_string : Bytes → Option (Bytes × Bytes)
unfolding expect read_literal
read_string s = do behind ← expect (codes "\"") s; read_literal false behind

unfoldable pub read_address : Bytes → Option (ℕ × Bytes)
unfolding read_string parse_int64
read_address s = do (literal, rest) ← read_string s; a ← parse_int64 literal; some (a, rest)

-- The elements of an array behind the first one, with fuel for their number.
unfoldable pub read_more : ℕ → Bytes → Option (List ℕ × Bytes)
unfolding expect read_address
read_more zero s = none
read_more (suc fuel) s = elim (expect (codes "]") s) [
  | some rest ↦ some ([], rest)
  | none ↦ (do
    item ← expect (codes ", ") s
    (a, behind) ← read_address item
    (later, rest) ← read_more fuel behind
    some (a ∷ later, rest))
]

-- An array of addresses behind its bracket.
unfoldable pub read_array : Bytes → Option (List ℕ × Bytes)
unfolding expect read_address read_more
read_array s = elim (expect (codes "]") s) [
  | some rest ↦ some ([], rest)
  | none ↦ (do
    (a, behind) ← read_address s
    (later, rest) ← read_more (length s) behind
    some (a ∷ later, rest))
]

pub record Globals : Type 0 where
  pub end_ip : ℕ
  pub max_steps : ℤ
  pub log_path : Bytes
  pub script_path : Bytes
  pub skip_addrs : List ℕ

-- The globals, and the text of the script behind them. A line that starts with `//` is a comment.
unfoldable pub read_globals : Bytes → Option (Globals × Bytes)
read_globals s = do
  comment ← expect (codes "//") s
  (_, s1) ← cut b'\n' comment
  s2 ← expect (codes "var g_endIp      = ") s1
  (end_ip, s3) ← read_address s2
  s4 ← expect (codes ";\nvar g_maxSteps   = ") s3
  (number, s5) ← cut b';' s4
  max_steps ← stoi number
  s6 ← expect (codes "\nvar g_logPath    = ") s5
  (log_path, s7) ← read_string s6
  s8 ← expect (codes ";\nvar g_scriptPath = ") s7
  (script_path, s9) ← read_string s8
  s10 ← expect (codes ";\nvar g_skipAddrs  = [") s9
  (skip_addrs, s11) ← read_array s10
  body ← expect (codes ";\n") s11
  some (
    record {
      end_ip = end_ip;
      max_steps = max_steps;
      log_path = log_path;
      script_path = script_path;
      skip_addrs = skip_addrs;
    },
    body,
  )
