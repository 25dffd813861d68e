-- ===== src/Trace/KernelTrace/Launch.antt =====
-- A kernel-mode trace of dbg_trace.cpp from the script that is written to what the script does.
use windbg_agent.Agent.TraceOptions.{TraceParams}
use windbg_agent.Base.Decimal.{int_max}
use windbg_agent.Base.Int.{pos}
use windbg_agent.Base.{
  ℕ, ◌≤◌, ◌≡◌, ◌≢◌, refl, true, false, List, [], ◌∷◌, ◌++◌, Option, some, Bytes, codes, rfind,
  length, Option-cases, inl, inr, All-append, All-take, arith,
}
use windbg_agent.Trace.KernelTrace.Globals.{read_globals-globals}
use windbg_agent.Trace.KernelTrace.Reading.{read_globals, ◌>>=◌}
use windbg_agent.Trace.KernelTrace.{
  Host, globals, wrote, shown, launched, log_path, js_path, opening, run_script, trace_kd_script,
}
use windbg_agent.Trace.LogFile.Paths.{IsPath}
use windbg_agent.Trace.LogFile.{before_last, traces_dir}
use windbg_agent.Trace.Script.Session.{Output, session, commands_of, all_commands, session-commands}
use windbg_agent.Trace.Script.Walk.{Follows, Ends, step_trace-Follows}
use windbg_agent.Trace.Script.{Action, End, Program, step_trace}

-- What `.scriptrun` does with the file: the globals are read, and `stepTrace` runs over them.
unfoldable pub invoke_script :
    (program : Program)
    → (program.State → List Bytes)
    → Bytes
    → program.State
    → Option (List Output)
invoke_script program register_lines contents s = do
  (g, template) ← read_globals contents
  some (session program register_lines g.skip_addrs g.end_ip g.max_steps g.log_path s)

before_last-IsPath : (c : ℕ) (s : Bytes) → IsPath s → IsPath (before_last c s)
unfolding before_last
before_last-IsPath c s h = elim (Option-cases (rfind c s)) [
  | inl e ↦ rw (e, before_last) h
  | inr (i, e) ↦ rw (e, before_last) (All-take (λ x. (x ≢ b'"') × (x ≢ b'\n') × (x ≢ b'\r')) i s h)
]

pub append-IsPath : (s t : Bytes) → IsPath s → IsPath t → IsPath (s ++ t)
append-IsPath s t = All-append (λ x. (x ≢ b'"') × (x ≢ b'\n') × (x ≢ b'\r')) s t

pub traces_dir-IsPath : (dll : Bytes) → IsPath dll → IsPath (traces_dir dll)
unfolding traces_dir
traces_dir-IsPath dll h =
    append-IsPath (before_last b'\\' dll) (codes "\\traces") (before_last-IsPath b'\\' dll h)
      (ground arith)

module _ (template : Bytes) (host : Host) (params : TraceParams) (end_ip n : ℕ)
    (skip_addrs : List ℕ) where
  js_path-IsPath : IsPath host.dll_path → IsPath (js_path template host params end_ip skip_addrs)
  unfolding js_path
  js_path-IsPath h =
      append-IsPath (traces_dir host.dll_path) (codes "\\StepTraceAuto.js")
        (traces_dir-IsPath host.dll_path h) (ground arith)

  -- What the script does when it is run: the log is opened, the commands of the rounds are run, and the
  -- log is closed. Each round took the action for the address where the program was, none of them at the
  -- end address, at most `n` in all; and the script ended at the end address or after `n` rounds.
  abbrev pub Traces :
      (program : Program) → (program.State → List Bytes) → Bytes → program.State → Type 0
  Traces program register_lines contents s =
      (out : List Output) × (actions : List Action) × (end : End) × (last : program.State)
      × (invoke_script program register_lines contents s ≡ some out)
      × (commands_of out
          ≡ (codes ".logopen " ++ log_path template host params end_ip skip_addrs)
            ∷ (all_commands actions ++ codes ".logclose" ∷ []))
      × (length actions ≤ n)
      × Follows program skip_addrs end_ip actions s last
      × Ends program skip_addrs end_ip n 0 (length actions) end last

  -- A kernel-mode trace that is not verbose, whose script file can be written, writes one file and
  -- launches that file as its last effect, without an error text. Whatever program is debugged, the
  -- script reads from the file what the trace asked for: it opens and closes the log of the trace and
  -- goes from the program's state towards the end address, skipping the addresses of the trace, in at
  -- most as many rounds as the trace allows. The paths hold no quote and no end of a line, and the
  -- number of steps is not negative and fits an `int`.
  pub trace_kd_script-Traces :
      (program : Program) (register_lines : program.State → List Bytes) (s : program.State)
      → params.more_verbose ≡ false
      → host.opens ≡ true
      → params.max_steps ≡ pos n
      → n ≤ int_max
      → IsPath host.dll_path
      → IsPath (log_path template host params end_ip skip_addrs)
      → (contents : Bytes) × (trace_kd_script template host params end_ip skip_addrs ≡ (
        opening template host params end_ip skip_addrs
            ++ wrote (js_path template host params end_ip skip_addrs) contents
              ∷ shown (
                  codes "[tracealyzer] Running "
                  ++ (js_path template host params end_ip skip_addrs ++ codes "\n"))
              ∷ launched (codes ".scriptrun " ++ js_path template host params end_ip skip_addrs)
              ∷ [],
        [],
      ))
        × Traces program register_lines contents s
  unfolding trace_kd_script run_script invoke_script
  trace_kd_script-Traces program register_lines s quiet opens steps h hd hl =
      let path = js_path template host params end_ip skip_addrs in
      let log = log_path template host params end_ip skip_addrs in
      let contents = globals end_ip (pos n) log path skip_addrs ++ template in
      let read =
        read_globals-globals end_ip n log path template skip_addrs h hl (js_path-IsPath hd) in
      let (actions, end, last) = step_trace program skip_addrs end_ip n 0 s in
      let walk = step_trace-Follows program skip_addrs end_ip n 0 s in
      (
        contents,
        rw (quiet, opens, steps) refl,
        (
          session program register_lines skip_addrs end_ip (pos n) log s,
          actions,
          end,
          last,
          rw read refl,
          session-commands program register_lines skip_addrs end_ip (pos n) log s,
          walk.0,
          walk.1,
          walk.2,
        ),
      )
