-- ===== src/Agent/TraceOptions/Tests.antt =====
-- `!agent trace` of main.cpp at concrete inputs.
use windbg_agent.Agent.Args.{skip_blanks, trim_start, split_args, tokens}
use windbg_agent.Agent.TraceOptions.Recognised.{IsRecognised, parse_options_iff}
use windbg_agent.Agent.TraceOptions.RoundTrip.{
  Request, IsWritable, written, params, trace_command-written,
}
use windbg_agent.Agent.TraceOptions.{
  parse_options, default_params, parse_tokens, trace_command, tracing, out_of_range,
}
use windbg_agent.Base.{◌≡◌, ◌↔◌, refl, true, [], ◌∷◌, none, some, codes, is_some, find, arith, All}

-- Blanks behind the word `trace` make the code read the first of no tokens.
blank_arguments :
    (split_args (codes " trace  ") ≡ (codes "trace", codes " "))
    × (trace_command (codes " ") ≡ out_of_range)
unfolding split_args trim_start skip_blanks find trace_command parse_tokens tokens
blank_arguments = (refl, refl)

abbrev request : Request
request = record {
  end_address = codes "0x7ff6";
  start_address = some (codes "app!main");
  max_steps = 50;
  skip_symbols = codes "nt!Ki" ∷ codes "0x10" ∷ [];
  timeout_ms = 0;
  eprocess_addr = none;
  more_verbose = true;
}

request-IsWritable : IsWritable request
request-IsWritable = record {
  end_IsToken = ground arith;
  start_IsValue = ground arith;
  eprocess_IsValue = tt;
  symbols = ground arith;
  steps_bound = omega arith;
  timeout_bound = omega arith;
}

trace_command-written_example : trace_command (written request) ≡ tracing [] (params request)
trace_command-written_example = trace_command-written request request-IsWritable

parse_options_iff_example :
    (is_some (parse_options (codes "steps=x" ∷ codes "stpes=1" ∷ []) (default_params (codes "0"))).1
      ≡ true)
    ↔ All IsRecognised (codes "steps=x" ∷ codes "stpes=1" ∷ [])
parse_options_iff_example =
    parse_options_iff (codes "steps=x" ∷ codes "stpes=1" ∷ []) (default_params (codes "0"))
