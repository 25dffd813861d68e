-- ===== src/Trace/Callbacks/Tests.antt =====
-- A short session of the callbacks of dbg_trace.cpp.
use windbg_agent.Base.Decimal.{to_string}
use windbg_agent.Trace.Registers.{step_text, disassemble_one, read_registers}
use windbg_agent.Base.Int.{pos}
use windbg_agent.Base.{◌≡◌, refl, true, false, List, [], ◌∷◌, none, some, ◌≤◌, codes}
use windbg_agent.Trace.Callbacks.Bounded.{limit, one_if, tally, handle_all_bounds}
use windbg_agent.Trace.Callbacks.{
  Callbacks, Moment, Event, exceptions, breakpoints, logged, shown, log_closed, previous_restored,
  handle, handle_all,
}

abbrev begun : Callbacks
begun = record {
  log_open = true;
  log_path = codes "t.log";
  end_ip = 8;
  max_steps = pos 1;
  step_count = 0;
  timeout_ms = pos 1000;
  has_previous = true;
  skip_addrs = [];
  skip_bp = none;
  ref_count = 1;
  done = false;
}

abbrev quiet : Moment
quiet = record {
  elapsed_ms = 5;
  interrupted = false;
  disassembled = some (codes "nop\n");
  registers = none;
  registers2 = none;
  pointer = λ a. none;
  new_breakpoint = none;
}

-- One step is allowed; what comes behind it is not logged.
abbrev two_steps : List Event
two_steps = exceptions quiet 0x80000004 4 ∷ exceptions quiet 0x80000004 5 ∷ breakpoints quiet 0 ∷ []

one_entry :
    (handle_all two_steps begun).1
    ≡ logged (codes "step     1:\nnop\n\n")
      ∷ shown (codes "[tracealyzer] Max steps reached after 1 steps.\n[tracealyzer] Log: t.log\n")
      ∷ log_closed
      ∷ previous_restored
      ∷ []
unfolding handle_all handle to_string step_text disassemble_one read_registers
one_entry = refl

handle_all_bounds_example :
    let (last, effects) = handle_all two_steps begun in
    let t = tally effects in
    (t.faults ≡ 0)
    × (t.entries ≡ last.step_count)
    × (t.entries ≤ limit (pos 1))
    × (t.closed ≡ one_if last.done)
    × (t.restored ≡ one_if last.done)
handle_all_bounds_example = handle_all_bounds (pos 1) two_steps begun (refl, refl, refl, refl)
