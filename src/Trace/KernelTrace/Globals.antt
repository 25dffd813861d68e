-- ===== src/Trace/KernelTrace/Globals.antt =====
-- The globals of StepTraceAuto.js that dbg_trace.cpp writes are those that the script reads.
use windbg_agent.Base.Decimal.{to_string, to_string_ℤ, digits, int_max, stoi-to_string}
use windbg_agent.Base.Hex.{hex_digit, hex_onto, to_hex, hex_value-to_hex}
use windbg_agent.Base.Int.{pos}
use windbg_agent.Base.{
  ℕ, zero, suc, ◌+◌, ◌/◌, ◌%◌, ◌≤◌, ◌<◌, ◌≡◌, ◌≢◌, refl, Bool, true, false, List, [], ◌∷◌, ◌++◌,
  some, Bytes, codes, joined, find-append, append_assoc, take-append, drop-append_cons, length,
  length-append, All, Lacks, arith,
}
use windbg_agent.Trace.KernelTrace.Reading.{
  expect, cut, parse_int64, read_string, read_address, read_more, read_array, read_globals,
}
use windbg_agent.Trace.KernelTrace.{globals, skip_items}
use windbg_agent.Trace.LogFile.Paths.{read_literal, read_literal-js_str, IsPath}
use windbg_agent.Trace.LogFile.{js_str}

pub cut-append : (c : ℕ) (s t : Bytes) → Lacks c s → cut c (s ++ c ∷ t) ≡ some (s, t)
unfolding cut
cut-append c s t h =
    rw (find-append c s t h, take-append s (c ∷ t), drop-append_cons s c t, cut) refl

-- What a string literal holds as it is.
abbrev IsPlain : ℕ → Type 0
IsPlain c = (c ≢ b'"') × (c ≢ b'\\') × (c ≢ b'\n') × (c ≢ b'\r')

read_literal-plain :
    (s rest : Bytes) → All IsPlain s → read_literal false (s ++ b'"' ∷ rest) ≡ some (s, rest)
unfolding read_literal
read_literal-plain [] rest h = ground arith
read_literal-plain (c ∷ s) rest h = ground (arith, read_literal-plain s rest h.1)

hex_onto-IsPlain : (fuel n : ℕ) (out : Bytes) → All IsPlain out → All IsPlain (hex_onto fuel n out)
unfolding hex_onto
hex_onto-IsPlain zero n out h = h
hex_onto-IsPlain (suc f) n out h =
    ground (arith, hex_onto-IsPlain f (n / 16) (hex_digit (n % 16) ∷ out))

digits-Lacks : (fuel n : ℕ) (out : Bytes) → Lacks b';' out → Lacks b';' (digits fuel n out)
unfolding digits
digits-Lacks zero n out h = h
digits-Lacks (suc f) n out h = ground (arith, digits-Lacks f (n / 10) ((b'0' + n % 10) ∷ out))

-- An address between quotes.
read_address-to_hex :
    (a : ℕ) (rest : Bytes)
    → read_address (codes "\"0x" ++ (to_hex a ++ b'"' ∷ rest)) ≡ some (a, rest)
unfolding read_address read_string parse_int64 expect
read_address-to_hex a rest =
    rw
      (
        read_literal-plain (codes "0x" ++ to_hex a) rest
            (unfold to_hex in (ground arith, (ground arith, hex_onto-IsPlain (suc a) a [] tt))),
        hex_value-to_hex a,
      )
      refl

-- Elements behind the first one, and the bracket.
read_more-skip_items :
    (fuel : ℕ) (later : List ℕ) (rest : Bytes)
    → length later < fuel
    → read_more fuel (skip_items false later ++ b']' ∷ rest) ≡ some (later, rest)
unfolding read_more skip_items expect
read_more-skip_items zero later rest h = absurd (omega arith)
read_more-skip_items (suc f) [] rest h = refl
read_more-skip_items (suc f) (a ∷ later) rest h =
    rw (append_assoc, read_address-to_hex, read_more-skip_items f later rest (omega arith)) refl

length-skip_items : (first : Bool) (later : List ℕ) → length later ≤ length (skip_items first later)
unfolding skip_items
length-skip_items first [] = omega arith
length-skip_items first (a ∷ later) =
    let ih = length-skip_items false later in
    let quoted = length-append (to_hex a) (b'"' ∷ skip_items false later) in
    ground (arith, ih, quoted)

read_array-skip_items :
    (later : List ℕ) (rest : Bytes)
    → read_array (skip_items true later ++ b']' ∷ rest) ≡ some (later, rest)
unfolding read_array skip_items expect
read_array-skip_items [] rest = refl
read_array-skip_items (a ∷ later) rest =
    let behind : Bytes = skip_items false later ++ b']' ∷ rest in
    let enough : length later < length (skip_items true (a ∷ later) ++ b']' ∷ rest) = omega (
      arith,
      length-append (skip_items true (a ∷ later)) (b']' ∷ rest),
      length-skip_items true (a ∷ later),
    ) in
    rw
      (
        append_assoc,
        read_address-to_hex a behind,
        read_more-skip_items (length (skip_items true (a ∷ later) ++ b']' ∷ rest)) later rest
            enough,
      )
      refl

-- The comment behind its two slashes.
abbrev banner_line : Bytes
banner_line =
    codes " Auto-generated by windbg_agent " ++ (0xe2 ∷ 0x80 ∷ 0x94 ∷ codes " do not edit.")

banner_line-Lacks : Lacks b'\n' banner_line
banner_line-Lacks = ground arith

to_string-Lacks : (n : ℕ) → Lacks b';' (to_string n)
unfolding to_string
to_string-Lacks n = digits-Lacks (suc n) n [] tt

read_string-js_str :
    (s rest : Bytes) → IsPath s → read_string (b'"' ∷ (js_str s ++ b'"' ∷ rest)) ≡ some (s, rest)
unfolding read_string expect
read_string-js_str s rest h = read_literal-js_str s rest h

-- The globals that are written at the head of the script are read by it as they were: the end address,
-- the number of steps, both paths and the addresses to skip, in their order; and what is behind them is
-- the script itself. The paths hold no quote and no end of a line, as no path does, and the number of
-- steps is not negative and fits an `int`.
pub read_globals-globals :
    (end_ip n : ℕ) (log_path js_path template : Bytes) (skip_addrs : List ℕ)
    → n ≤ int_max
    → IsPath log_path
    → IsPath js_path
    → read_globals (globals end_ip (pos n) log_path js_path skip_addrs ++ template)
      ≡ some (
        record {
          end_ip = end_ip;
          max_steps = pos n;
          log_path = log_path;
          script_path = js_path;
          skip_addrs = skip_addrs;
        },
        template,
      )
unfolding read_globals globals joined expect to_string_ℤ
read_globals-globals end_ip n log_path js_path template skip_addrs h hl hs =
    rw
      (
        append_assoc,
        cut-append b'\n' banner_line _ banner_line-Lacks,
        append_assoc,
        read_address-to_hex,
        append_assoc,
        cut-append b';' (to_string n) _ (to_string-Lacks n),
        stoi-to_string n h,
        append_assoc,
        read_string-js_str log_path _ hl,
        append_assoc,
        read_string-js_str js_path _ hs,
        append_assoc,
        read_array-skip_items,
      )
      refl
