-- ===== src/Trace/KernelTrace/Tests.antt =====
-- A kernel-mode trace of dbg_trace.cpp with concrete addresses.
use windbg_agent.Agent.TraceOptions.{TraceParams}
use windbg_agent.Base.Hex.{to_hex}
use windbg_agent.Base.Int.{pos}
use windbg_agent.Base.{◌≡◌, refl, true, false, [], ◌∷◌, ◌++◌, none, some, Bytes, codes, arith}
use windbg_agent.Trace.KernelTrace.Globals.{read_globals-globals}
use windbg_agent.Trace.KernelTrace.Launch.{Traces, trace_kd_script-Traces}
use windbg_agent.Trace.KernelTrace.Reading.{read_globals}
use windbg_agent.Trace.KernelTrace.Verbose.{StepScript, read_counter, read_step_script}
use windbg_agent.Trace.KernelTrace.Stepping.{Steps, run_step_script, verbose-Steps}
use windbg_agent.Trace.KernelTrace.{
  ran, script_path, Host, wrote, shown, launched, step_n_print, done_command, globals, skip_items,
  opening, js_path, log_path, trace_kd_script,
}
use windbg_agent.Trace.LogFile.{js_str, opened_path}
use windbg_agent.Trace.Script.Tests.{small}

abbrev pub host : Host
host = record {
  dll_path = codes "C:\\w\\agent.dll";
  target_name = codes "nt";
  logopen_out = codes "Opened log file 'C:\\w\\traces\\nt_1.log'\n";
  registers = none;
  opens = true;
}

abbrev params : TraceParams
params = record {
  end_address = codes "nt!end";
  start_address = none;
  max_steps = pos 100;
  skip_symbols = [];
  timeout_ms = pos 1000;
  eprocess_addr = none;
  more_verbose = false;
}

abbrev pub template : Bytes
template = codes "\"use strict\";\n"

verbose_script :
    step_n_print 0xfff0 (codes "C:\\t.log") (codes "C:\\s.txt")
    ≡ codes "r\n.if (@rip == 0xfff0) { .logclose; .echo [tracealyzer] Target address reached.;"
      ++ (codes " .echo [tracealyzer] Log: C:\\t.log } .else { .if (@$t0 > 0) { r $t0 = @$t0 - 1;"
          ++ (codes
                " t \"$<C:\\\\s.txt\" } .else { .logclose; .echo [tracealyzer] Max steps reached.;"
              ++ codes " .echo [tracealyzer] Log: C:\\t.log } }\n"))
unfolding step_n_print done_command js_str to_hex
verbose_script = refl

items : skip_items true (0x10 ∷ 0xab ∷ []) ≡ codes "\"0x10\", \"0xab\""
unfolding skip_items to_hex
items = refl

read_globals-globals_example :
    read_globals (
      globals 0xfff0 (pos 100) (codes "C:\\t.log") (codes "C:\\s.js") (0x10 ∷ 0xab ∷ [])
      ++ template)
    ≡ some (
      record {
        end_ip = 0xfff0;
        max_steps = pos 100;
        log_path = codes "C:\\t.log";
        script_path = codes "C:\\s.js";
        skip_addrs = 0x10 ∷ 0xab ∷ [];
      },
      template,
    )
read_globals-globals_example =
    read_globals-globals 0xfff0 100 (codes "C:\\t.log") (codes "C:\\s.js") template
      (0x10 ∷ 0xab ∷ []) (omega arith) (ground arith) (ground arith)

opened : log_path template host params 5 (21 ∷ []) ≡ codes "C:\\w\\traces\\nt_1.log"
unfolding log_path opened_path
opened = refl

trace_kd_script-Traces_example :
    (contents : Bytes) × (trace_kd_script template host params 5 (21 ∷ []) ≡ (
      opening template host params 5 (21 ∷ [])
          ++ wrote (js_path template host params 5 (21 ∷ [])) contents
            ∷ shown (
                codes "[tracealyzer] Running "
                ++ (js_path template host params 5 (21 ∷ []) ++ codes "\n"))
            ∷ launched (codes ".scriptrun " ++ js_path template host params 5 (21 ∷ []))
            ∷ [],
      [],
    ))
    × Traces template host params 5 100 (21 ∷ []) small (λ s. codes "rax=0" ∷ []) contents 0
unfolding log_path opened_path
trace_kd_script-Traces_example =
    trace_kd_script-Traces template host params 5 100 (21 ∷ []) small (λ s. codes "rax=0" ∷ []) 0
      refl refl refl (omega arith) (ground arith) (ground arith)

abbrev verbose : TraceParams
verbose = record params { more_verbose = true }

verbose-Steps_example :
    (contents : Bytes) × (counter : Bytes) × (script : StepScript) × (trace_kd_script template host
        verbose 5 []
      ≡ (
        opening template host verbose 5 []
            ++ wrote (script_path template host verbose 5 []) contents
              ∷ ran counter
              ∷ shown (
                  codes "[tracealyzer] Running "
                  ++ (script_path template host verbose 5 [] ++ codes "\n"))
              ∷ launched (codes "$$><" ++ script_path template host verbose 5 [])
              ∷ [],
        [],
      ))
    × (read_counter counter ≡ some 100)
    × (read_step_script contents ≡ some script)
    × (script.end_ip ≡ 5)
    × (script.next_file ≡ script_path template host verbose 5 [])
    × Steps small script 100 0 (run_step_script small script 100 0)
unfolding log_path opened_path
verbose-Steps_example =
    verbose-Steps template host verbose 5 [] small 0 refl refl (ground arith) (ground arith)
