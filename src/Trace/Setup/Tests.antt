-- ===== src/Trace/Setup/Tests.antt =====
-- A whole user-mode trace of dbg_trace.cpp, on a debugger that counts what it runs.
use windbg_agent.Agent.Dispatch.Tests.{host as agent_host}
use windbg_agent.Agent.Dispatch.{agent_impl}
use windbg_agent.Agent.World.{s_ok, finished, loaded}
use windbg_agent.Agent.TraceOptions.RoundTrip.{Request, IsWritable, params, written}
use windbg_agent.Trace.Setup.Commanded.{on_target, told, agent_impl-IsUserTrace}
use windbg_agent.Agent.TraceOptions.{TraceParams}
use windbg_agent.Base.Int.{pos}
use windbg_agent.Base.{
  ◌++◌, none, arith, ◌≡◌, refl, true, false, [], ◌∷◌, some, codes, equals, if◌then◌else◌,
}
use windbg_agent.Trace.KernelTrace.Tests.{host, template}
use windbg_agent.Trace.Loop.Tests.{counter}
use windbg_agent.Trace.Registers.Tests.{latest}
use windbg_agent.Trace.Setup.Composed.{IsUserTrace, trace-IsUserTrace}
use windbg_agent.Trace.Setup.{Target, resolved, insert, skip_addresses, start_commands, trace}

-- `main` is at 0x1005, and any other symbol at 0x1001.
abbrev program : Target
program = record {
  engine = counter;
  has_control = true;
  evaluate = λ d sym. if equals sym (codes "main") then some 0x1005 else some 0x1001;
  is_kernel = false;
  kernel = λ d. host;
  template = template;
  dll_path = codes "C:\\w\\agent.dll";
  target_name = λ d. codes "app.exe";
  local_time = λ d. latest;
  opens_log = true;
}

abbrev request : TraceParams
request = record {
  end_address = codes "main";
  start_address = some (codes "init");
  max_steps = pos 3;
  skip_symbols = codes "malloc" ∷ [];
  timeout_ms = pos 5000;
  eprocess_addr = some (codes "0x1");
  more_verbose = false;
}

scoped : start_commands true request ≡ codes "bp /1 /p 0x1 init" ∷ codes "g" ∷ []
unfolding start_commands
scoped = refl

twice_named : skip_addresses (λ sym. some 5) [] (codes "a" ∷ codes "b" ∷ []) ≡ 5 ∷ []
unfolding skip_addresses resolved insert
twice_named = refl

trace-IsUserTrace_example : IsUserTrace program request 0 0x1005 (trace program request 0)
trace-IsUserTrace_example =
    trace-IsUserTrace program request 0 0x1005 (refl, refl, unfold equals in refl, refl, refl)

-- The same trace, asked for by a command.
abbrev asked : Request
asked = record {
  end_address = codes "main";
  start_address = some (codes "init");
  max_steps = 3;
  skip_symbols = codes "malloc" ∷ [];
  timeout_ms = 5000;
  eprocess_addr = none;
  more_verbose = false;
}

asked-IsWritable : IsWritable asked
asked-IsWritable = record {
  end_IsToken = ground arith;
  start_IsValue = ground arith;
  eprocess_IsValue = tt;
  symbols = ground arith;
  steps_bound = omega arith;
  timeout_bound = omega arith;
}

agent_impl-IsUserTrace_example :
    IsUserTrace program (params asked) 0 0x1005 (trace program (params asked) 0)
    × (agent_impl (on_target program 0 agent_host) (some (codes "trace " ++ written asked)) loaded
        ≡ finished (told program 0 asked (trace program (params asked) 0).text loaded) s_ok)
agent_impl-IsUserTrace_example =
    agent_impl-IsUserTrace program 0 agent_host asked loaded 0x1005 refl asked-IsWritable
      (refl, refl, unfold equals in refl, refl, refl)
