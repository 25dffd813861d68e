-- ===== src/Trace/LogFile/Paths.antt =====
-- The paths that dbg_trace.cpp writes into scripts and reads from the debugger.
use windbg_agent.Base.{
  ℕ, ◌≡◌, ◌≢◌, refl, Bool, true, false, ◌||◌, [], ◌∷◌, ◌++◌, Option, none, some, Bytes, is_empty,
  find-append, find-none, Bool-cases, inl, inr, drop-append_cons, take-append, ◌==◌, if◌then◌else◌,
  arith, All, Lacks,
}
use windbg_agent.Trace.LogFile.{opened_path, js_str}

-- A byte in front of what was read.
abbrev pub put : ℕ → Option (Bytes × Bytes) → Option (Bytes × Bytes)
put c none = none
put c (some (s, rest)) = some (c ∷ s, rest)

-- What JavaScript reads from a string literal behind its opening quote, and the rest behind its closing
-- quote: `none` where the literal does not end, or has an escape other than that of a backslash.
-- `escaped` is whether the last byte began an escape.
unfoldable pub read_literal : Bool → Bytes → Option (Bytes × Bytes)
read_literal escaped [] = none
read_literal true (c ∷ s) =
    let rest = read_literal false s in if c == b'\\' then put b'\\' rest else none
read_literal false (c ∷ s) = elim (c == b'"') [
  | true ↦ some ([], s)
  | false ↦ elim (c == b'\\') [
    | true ↦ read_literal true s
    | false ↦
        let rest = read_literal false s in if c == b'\n' || c == b'\r' then none else put c rest
  ]
]

-- No quote and no end of a line.
abbrev pub IsPath : Bytes → Type 0
IsPath = All (λ c. (c ≢ b'"') × (c ≢ b'\n') × (c ≢ b'\r'))

-- A path that `js_str` has escaped, written between quotes in the script, is read back by JavaScript
-- as it was, whatever follows.
pub read_literal-js_str :
    (s rest : Bytes) → IsPath s → read_literal false (js_str s ++ b'"' ∷ rest) ≡ some (s, rest)
unfolding read_literal js_str
read_literal-js_str [] rest h = ground arith
read_literal-js_str (c ∷ s) rest h = elim (Bool-cases (c == b'\\')) [
  | inl e ↦ ground (arith, read_literal-js_str s rest h.1)
  | inr e ↦ ground (arith, read_literal-js_str s rest h.1)
]

-- From the message of `.logopen` the code takes the text between the first two apostrophes: the path
-- of the log, if the path holds none; else the path up to its first apostrophe. Without two
-- apostrophes, or with nothing between them, it falls back to the guess.
pub opened_path_lem :
    (base before path behind : Bytes)
    → Lacks b'\'' before
    → Lacks b'\'' path
    → (opened_path base (before ++ b'\'' ∷ (path ++ b'\'' ∷ behind))
        ≡ (if is_empty path then base else path))
      × (opened_path base before ≡ base)
      × (opened_path base (before ++ b'\'' ∷ path) ≡ base)
unfolding opened_path
opened_path_lem base before path behind hb hp = (
  rw
      (
        find-append b'\'' before (path ++ b'\'' ∷ behind) hb,
        drop-append_cons before b'\'' (path ++ b'\'' ∷ behind),
        find-append b'\'' path behind hp,
        drop-append_cons before b'\'' (path ++ b'\'' ∷ behind),
        take-append path (b'\'' ∷ behind),
      )
      refl,
  rw (find-none b'\'' before hb) refl,
  rw (find-append b'\'' before path hb, drop-append_cons before b'\'' path, find-none b'\'' path hp)
      refl,
)
