-- ===== src/Agent/TraceOptions.antt =====
-- main.cpp: the arguments of `!agent trace`.
pub mod Recognised
pub mod RoundTrip
pub mod Tests
use windbg_agent.Agent.Args.{tokens}
use windbg_agent.Base.{
  ◌+◌, Bool, false, List, [], ◌∷◌, ◌++◌, Option, none, some, Bytes, codes, if◌then◌else◌, is_empty,
  find, take, drop, equals,
}
use windbg_agent.Base.Decimal.{stoi}
use windbg_agent.Base.Int.{ℤ, pos}
use windbg_agent.Base.Split.{getlines, non_empty}
use windbg_agent.DmlOutput.{Mask, error}

-- `TraceParams` of windbg_client.hpp.
pub record TraceParams : Type 0 where
  pub end_address : Bytes
  pub start_address : Option Bytes
  pub max_steps : ℤ
  pub skip_symbols : List Bytes
  pub timeout_ms : ℤ
  pub eprocess_addr : Option Bytes
  pub more_verbose : Bool

-- A call of `control->Output`, with its text formatted.
pub record Message : Type 0 where
  pub mask : Mask
  pub text : Bytes

-- What becomes of one option: the messages and the new parameters, or the end of the command with
-- the text that was not recognised.
pub data Step : Type 0 where
  next : List Message → TraceParams → Step
  refuse : Bytes → Step

abbrev pub complain : Bytes → Bytes → Message
complain what val = record { mask = error; text = what ++ (val ++ codes "\n") }

-- `try { … = std::stoi(val); } catch (...) { control->Output(…); }`
abbrev pub number_or_complain : Option ℤ → (ℤ → TraceParams) → TraceParams → Message → Step
number_or_complain (some n) set p m = next [] (set n)
number_or_complain none set p m = next (m ∷ []) p

unfoldable pub apply_key : Bytes → Bytes → TraceParams → Step
unfolding stoi getlines non_empty equals
apply_key key val p =
    if equals key (codes "start_addr")
    then next [] (record p { start_address = some val })
    else if equals key (codes "steps")
    then number_or_complain (stoi val) (λ n. record p { max_steps = n }) p
        (complain (codes "Invalid steps value: ") val)
    else if equals key (codes "timeout")
    then number_or_complain (stoi val) (λ n. record p { timeout_ms = n }) p
        (complain (codes "Invalid timeout value: ") val)
    else if equals key (codes "skip")
    then next [] (record p { skip_symbols = p.skip_symbols ++ non_empty (getlines b',' val) })
    else if equals key (codes "eprocess")
    then next [] (record p { eprocess_addr = some val })
    else if equals key (codes "more_verbose")
    then next [] (record p { more_verbose = equals val (codes "1") })
    else refuse key

unfoldable pub apply_option : Bytes → TraceParams → Step
unfolding apply_key find
apply_option tok p = elim (find b'=' tok) [
  | none ↦ refuse tok
  | some eq ↦ apply_key (take eq tok) (drop (eq + 1) tok) p
]

-- The loop over the options: the messages, and the parameters or `none` for `E_INVALIDARG`.
unfoldable pub parse_options : List Bytes → TraceParams → List Message × Option TraceParams
unfolding apply_option
parse_options [] p = ([], some p)
parse_options (tok ∷ toks) p = elim (apply_option tok p) [
  | refuse what ↦ (complain (codes "Unknown trace option: ") what ∷ [], none)
  | next ms p' ↦ let (ms', r) = parse_options toks p' in (ms ++ ms', r)
]

-- What `!agent trace` does with its arguments: it shows its usage, it reads `tokens[0]` of an empty
-- vector, it refuses an option, or it traces.
pub data TraceCommand : Type 0 where
  usage out_of_range : TraceCommand
  refused : List Message → TraceCommand
  tracing : List Message → TraceParams → TraceCommand

-- `DEFAULT_TRACE_MAX_STEPS` and `DEFAULT_TRACE_TIMEOUT`
abbrev pub default_params : Bytes → TraceParams
default_params end_address = record {
  end_address = end_address;
  start_address = none;
  max_steps = pos 20000;
  skip_symbols = [];
  timeout_ms = pos 300000;
  eprocess_addr = none;
  more_verbose = false;
}

abbrev with_options : List Message × Option TraceParams → TraceCommand
with_options (ms, none) = refused ms
with_options (ms, some p) = tracing ms p

unfoldable pub parse_tokens : List Bytes → TraceCommand
unfolding parse_options
parse_tokens [] = out_of_range
parse_tokens (tok ∷ toks) = with_options (parse_options toks (default_params tok))

unfoldable pub trace_command : Bytes → TraceCommand
unfolding parse_tokens tokens
trace_command rest = if is_empty rest then usage else parse_tokens (tokens rest)
