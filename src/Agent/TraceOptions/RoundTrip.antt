-- ===== src/Agent/TraceOptions/RoundTrip.antt =====
-- Trace options that were written out are read back by main.cpp.
use windbg_agent.Agent.Args.{IsToken, spaced, tokens-spaced}
use windbg_agent.Agent.TraceOptions.{
  TraceParams, next, apply_key, apply_option, parse_options, default_params, tracing, parse_tokens,
  trace_command,
}
use windbg_agent.Base.Decimal.{
  to_string, to_string-AllDigits, IsDigit, stoi-to_string, int_max, is_space,
}
use windbg_agent.Base.Int.{pos}
use windbg_agent.Base.Split.{
  getlines, non_empty, IsEntry, separated, is_empty-append_left, getlines_from-separated,
}
use Prim.Native.String.{String}
use windbg_agent.Base.{
  ℕ, ◌≤◌, ◌≡◌, refl, ap, ◌∙◌, Bool, true, false, not, ◌&&◌, List, [], ◌∷◌, ◌++◌, Option, none, some,
  Bytes, codes, if◌then◌else◌, is_empty, find, equals, arith, All, All-append, All-mono,
}

abbrev option : String → Bytes → Bytes
option key val = codes key ++ val

-- The symbols with commas between them.
abbrev commas : List Bytes → Bytes
commas [] = []
commas (s ∷ ss) = s ++ separated b',' ss

abbrev if_some : String → Option Bytes → List Bytes
if_some key none = []
if_some key (some val) = option key val ∷ []

-- The options that give these parameters, with numbers of steps and milliseconds that are not
-- negative.
pub record Request : Type 0 where
  pub end_address : Bytes
  pub start_address : Option Bytes
  pub max_steps : ℕ
  pub skip_symbols : List Bytes
  pub timeout_ms : ℕ
  pub eprocess_addr : Option Bytes
  pub more_verbose : Bool

abbrev pub options : Request → List Bytes
options r =
    option "steps=" (to_string r.max_steps)
    ∷ option "timeout=" (to_string r.timeout_ms)
    ∷ option "skip=" (commas r.skip_symbols)
    ∷ option "more_verbose=" (if r.more_verbose then codes "1" else codes "0")
    ∷ (if_some "start_addr=" r.start_address ++ if_some "eprocess=" r.eprocess_addr)

-- The text behind `!agent trace`.
abbrev pub written : Request → Bytes
written r = r.end_address ++ spaced (options r)

abbrev pub params : Request → TraceParams
params r = record {
  end_address = r.end_address;
  start_address = r.start_address;
  max_steps = pos r.max_steps;
  skip_symbols = r.skip_symbols;
  timeout_ms = pos r.timeout_ms;
  eprocess_addr = r.eprocess_addr;
  more_verbose = r.more_verbose;
}

abbrev pub NoSpace : Bytes → Type 0
NoSpace = All (λ c. is_space c ≡ false)

-- A value that is there has no whitespace in it.
abbrev pub IsValue : Option Bytes → Type 0
IsValue none = Unit
IsValue (some val) = NoSpace val

-- A symbol is not empty and has neither a comma nor whitespace in it.
abbrev pub IsSymbol : Bytes → Type 0
IsSymbol s = IsEntry b',' s × NoSpace s

pub record IsWritable (r : Request) : Type 0 where
  pub end_IsToken : IsToken r.end_address
  pub start_IsValue : IsValue r.start_address
  pub eprocess_IsValue : IsValue r.eprocess_addr
  pub symbols : All IsSymbol r.skip_symbols
  pub steps_bound : r.max_steps ≤ int_max
  pub timeout_bound : r.timeout_ms ≤ int_max

IsSymbol-IsEntry : (ss : List Bytes) → All IsSymbol ss → All (IsEntry b',') ss
IsSymbol-IsEntry [] h = tt
IsSymbol-IsEntry (s ∷ ss) h = (h.0.0, IsSymbol-IsEntry ss h.1)

NoSpace-append : (s t : Bytes) → NoSpace s → NoSpace t → NoSpace (s ++ t)
NoSpace-append = All-append (λ c. is_space c ≡ false)

separated-NoSpace : (ss : List Bytes) → All IsSymbol ss → NoSpace (separated b',' ss)
separated-NoSpace [] h = tt
separated-NoSpace (s ∷ ss) h =
    (refl, NoSpace-append s (separated b',' ss) h.0.1 (separated-NoSpace ss h.1))

commas-NoSpace : (ss : List Bytes) → All IsSymbol ss → NoSpace (commas ss)
commas-NoSpace [] h = tt
commas-NoSpace (s ∷ ss) h = NoSpace-append s (separated b',' ss) h.0.1 (separated-NoSpace ss h.1)

non_empty-all : (ss : List Bytes) → All (IsEntry b',') ss → non_empty ss ≡ ss
unfolding non_empty
non_empty-all [] h = refl
non_empty-all (s ∷ ss) h = rw (h.0.0, non_empty-all ss h.1)

getlines-commas :
    (ss : List Bytes) → All (IsEntry b',') ss → non_empty (getlines b',' (commas ss)) ≡ ss
getlines-commas [] h = unfold getlines in unfold non_empty in refl
getlines-commas (s ∷ ss) h =
    unfold getlines in
    (ap non_empty (getlines_from-separated b',' ss s [] h.0.1 h.0.0 h.1) ∙ non_empty-all (s ∷ ss) h)

parse_options-next :
    (tok : Bytes) (toks : List Bytes) (p q : TraceParams)
    → apply_option tok p ≡ next [] q
    → parse_options (tok ∷ toks) p ≡ parse_options toks q
unfolding parse_options
parse_options-next tok toks p q h = rw (h, parse_options) refl

steps_lem :
    (n : ℕ) (p : TraceParams)
    → n ≤ int_max
    → apply_option (option "steps=" (to_string n)) p ≡ next [] (record p { max_steps = pos n })
unfolding apply_option apply_key find equals
steps_lem n p h = rw (stoi-to_string n h)

timeout_lem :
    (n : ℕ) (p : TraceParams)
    → n ≤ int_max
    → apply_option (option "timeout=" (to_string n)) p ≡ next [] (record p { timeout_ms = pos n })
unfolding apply_option apply_key find equals
timeout_lem n p h = rw (stoi-to_string n h)

skip_lem :
    (ss : List Bytes) (p : TraceParams)
    → All (IsEntry b',') ss
    → apply_option (option "skip=" (commas ss)) p
      ≡ next [] (record p { skip_symbols = p.skip_symbols ++ ss })
unfolding apply_option apply_key find equals
skip_lem ss p h = rw (getlines-commas ss h)

verbose_lem :
    (b : Bool) (p : TraceParams)
    → apply_option (option "more_verbose=" (if b then codes "1" else codes "0")) p
      ≡ next [] (record p { more_verbose = b })
unfolding apply_option apply_key find equals
verbose_lem true p = refl
verbose_lem false p = refl

if_some_lem :
    (start eprocess : Option Bytes) (p : TraceParams)
    → parse_options
        (if_some "start_addr=" start ++ if_some "eprocess=" eprocess)
        (record p { start_address = none; eprocess_addr = none })
      ≡ ([], some (record p { start_address = start; eprocess_addr = eprocess }))
unfolding parse_options apply_option apply_key find equals
if_some_lem none none p = refl
if_some_lem (some a) none p = refl
if_some_lem none (some b) p = refl
if_some_lem (some a) (some b) p = refl

options_lem :
    (r : Request)
    → IsWritable r
    → parse_options (options r) (default_params r.end_address) ≡ ([], some (params r))
options_lem r w =
    parse_options-next _ _ _ _ (steps_lem r.max_steps _ w.steps_bound)
    ∙ parse_options-next _ _ _ _ (timeout_lem r.timeout_ms _ w.timeout_bound)
    ∙ parse_options-next _ _ _ _
        (skip_lem r.skip_symbols _ (IsSymbol-IsEntry r.skip_symbols w.symbols))
    ∙ parse_options-next _ _ _ _ (verbose_lem r.more_verbose _)
    ∙ if_some_lem r.start_address r.eprocess_addr (params r)

-- The test that the keys pass.
abbrev no_space : Bytes → Bool
no_space [] = true
no_space (c ∷ s) = not (is_space c) && no_space s

no_space-NoSpace : (s : Bytes) → no_space s ≡ true → NoSpace s
no_space-NoSpace [] h = tt
no_space-NoSpace (c ∷ s) h = ground (arith, no_space-NoSpace s)

option-IsToken :
    (key : String) (val : Bytes)
    → is_empty (codes key) ≡ false
    → no_space (codes key) ≡ true
    → NoSpace val
    → IsToken (option key val)
option-IsToken key val n h v = (
  is_empty-append_left 0 (codes key) val n,
  NoSpace-append (codes key) val (no_space-NoSpace (codes key) h) v,
)

IsDigit-NoSpace : (c : ℕ) → IsDigit c → is_space c ≡ false
IsDigit-NoSpace c h = ground arith

to_string-NoSpace : (n : ℕ) → NoSpace (to_string n)
to_string-NoSpace n = All-mono IsDigit _ (to_string n) IsDigit-NoSpace (to_string-AllDigits n)

verbose-NoSpace : (b : Bool) → NoSpace (if b then codes "1" else codes "0")
verbose-NoSpace true = (refl, tt)
verbose-NoSpace false = (refl, tt)

if_some-IsToken :
    (start eprocess : Option Bytes)
    → IsValue start
    → IsValue eprocess
    → All IsToken (if_some "start_addr=" start ++ if_some "eprocess=" eprocess)
if_some-IsToken none none hs he = tt
if_some-IsToken (some a) none hs he = (option-IsToken "start_addr=" a refl refl hs, tt)
if_some-IsToken none (some b) hs he = (option-IsToken "eprocess=" b refl refl he, tt)
if_some-IsToken (some a) (some b) hs he =
    (option-IsToken "start_addr=" a refl refl hs, (option-IsToken "eprocess=" b refl refl he, tt))

options-IsToken : (r : Request) → IsWritable r → All IsToken (options r)
options-IsToken r w = (
  option-IsToken "steps=" _ refl refl (to_string-NoSpace r.max_steps),
  (
    option-IsToken "timeout=" _ refl refl (to_string-NoSpace r.timeout_ms),
    (
      option-IsToken "skip=" _ refl refl (commas-NoSpace r.skip_symbols w.symbols),
      (
        option-IsToken "more_verbose=" _ refl refl (verbose-NoSpace r.more_verbose),
        if_some-IsToken r.start_address r.eprocess_addr w.start_IsValue w.eprocess_IsValue,
      ),
    ),
  ),
)

-- The options of a trace that are written out with blanks between them are read back as they were:
-- no message, and the same parameters. The end address is not empty, no text holds whitespace, the
-- skipped symbols are not empty and hold no comma, and the numbers are non-negative `int`s.
pub trace_command-written :
    (r : Request) → IsWritable r → trace_command (written r) ≡ tracing [] (params r)
unfolding trace_command parse_tokens
trace_command-written r w =
    rw
      (tokens-spaced r.end_address (options r) w.end_IsToken (options-IsToken r w), options_lem r w)
      (rw (is_empty-append_left 0 r.end_address (spaced (options r)) w.end_IsToken.0) refl)
