-- ===== src/Trace/Loop/Tests.antt =====
-- A debugger that counts its steps, traced by the loop of dbg_trace.cpp.
use windbg_agent.Base.{
  ℕ, ◌+◌, ◌*◌, ◌≡◌, refl, false, [], ◌∷◌, none, some, Bytes, codes, length, arith,
}
use windbg_agent.Base.Int.{pos}
use windbg_agent.Trace.Loop.{Engine, user_trace, trace_loop, summary}
use windbg_agent.Trace.Loop.Bounded.{IsRun}
use windbg_agent.Trace.Loop.Outcome.{Says, user_trace-IsRun, timeout_reported_as_max_steps}

-- Its state is the number of instructions run; an instruction is a byte long and takes 100 ms.
abbrev pub counter : Engine
counter = record {
  Debugger = ℕ;
  elapsed = λ d. d * 100;
  is_interrupted = λ d. false;
  read_ip = λ d. some (4096 + d);
  disassemble = λ d ip. codes "nop";
  registers = λ d. codes "rax=0";
  execute = λ command d. d + 1;
  wait = λ left d. d;
  wait_error = λ left d. none;
}

-- From 0x1000 to 0x1003.
abbrev three_steps : Bytes
three_steps = (user_trace counter 4099 (4097 ∷ []) (pos 5000) (pos 10) (codes "t.log") 0).0

three_steps_lem :
    three_steps
    ≡ codes "[tracealyzer] Reached end address after 3 steps.\n[tracealyzer] Log: t.log\n"
unfolding user_trace trace_loop summary
three_steps_lem = refl

user_trace-IsRun_example :
    let (text, t) = user_trace counter 4099 (4097 ∷ []) (pos 5000) (pos 10) (codes "t.log") 0 in
    IsRun counter 4099 (4097 ∷ []) (pos 5000) 10 0 0 t
    × Says counter 4099
        (4097 ∷ [])
        (pos 5000)
        (pos 10)
        (codes "t.log")
        t.reason
        (length t.steps)
        text
user_trace-IsRun_example =
    user_trace-IsRun counter 4099 (4097 ∷ []) (pos 5000) (pos 10) (codes "t.log") 0

-- 50 ms are over after the first step.
timeout_reported_as_max_steps_example :
    let (text, t) = user_trace counter 4099 (4097 ∷ []) (pos 50) (pos 10) (codes "t.log") 0 in
    (t.step_count ≡ 1) × Says counter 4099 (4097 ∷ []) (pos 50) (pos 10) (codes "t.log") none 1 text
timeout_reported_as_max_steps_example =
    timeout_reported_as_max_steps counter 4099 (4097 ∷ []) (pos 50) (pos 10) (codes "t.log") 0 4096
      9 refl refl refl refl (omega arith) refl
