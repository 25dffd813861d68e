-- ===== src/Trace/KernelTrace/Stepping.antt =====
-- A verbose kernel-mode trace of dbg_trace.cpp from the script that is written to the steps that the
-- debugger makes by it.
use windbg_agent.Agent.TraceOptions.{TraceParams}
use windbg_agent.Base.{
  ℕ, zero, suc, ◌≡◌, ◌≢◌, refl, ap, true, false, ◌≤◌, List, [], ◌∷◌, ◌++◌, some, Bytes, codes,
  length, ◌==◌, ==_iff, Bool-cases, ◌⊎◌, inl, inr, Lacks, if◌then◌else◌, arith,
}
use windbg_agent.Trace.KernelTrace.Launch.{append-IsPath, traces_dir-IsPath}
use windbg_agent.Trace.KernelTrace.Verbose.{
  StepScript, read_step_script, read_counter, read_step_script-step_n_print,
  read_counter-set_counter,
}
use windbg_agent.Trace.KernelTrace.{
  Host, wrote, ran, shown, launched, as_unsigned, step_n_print, set_counter, done_command, log_path,
  script_path, opening, run_verbose, trace_kd_script,
}
use windbg_agent.Trace.LogFile.Paths.{IsPath}
use windbg_agent.Trace.LogFile.{traces_dir}
use windbg_agent.Trace.Script.{Program}

module _ (program : Program) (script : StepScript) where
  open program use {State, rip, execute}

  -- The script with this value of `$t0`, each `t` being followed by the same script: the states whose
  -- registers were shown and that were stepped from, the last command, and the last state, whose
  -- registers were shown too.
  unfoldable pub run_step_script : ℕ → State → List State × Bytes × State
  run_step_script zero s =
      if rip s == script.end_ip then ([], script.on_target, s) else ([], script.on_limit, s)
  run_step_script (suc t0) s =
      let (later, command, last) = run_step_script t0 (execute (codes "t" ∷ []) s) in
      if rip s == script.end_ip then ([], script.on_target, s) else (s ∷ later, command, last)

  -- Each state was reached from the one before by a step, and none of them was at the end address.
  abbrev pub Trail : List State → State → State → Type 0
  Trail [] s last = s ≡ last
  Trail (x ∷ later) s last =
      (x ≡ s) × (rip s ≢ script.end_ip) × Trail later (execute (codes "t" ∷ []) s) last

  -- The last command is that of the end address exactly where the script ended there; else all the steps
  -- were made.
  abbrev pub Ended : ℕ → ℕ → Bytes → State → Type 0
  Ended t0 n command last =
      ((rip last ≡ script.end_ip) × (command ≡ script.on_target))
      ⊎ ((rip last ≢ script.end_ip) × (command ≡ script.on_limit) × (n ≡ t0))

  abbrev pub Steps : ℕ → State → List State × Bytes × State → Type 0
  Steps t0 s result =
      Trail result.0 s result.2
      × Ended t0 (length result.0) result.1 result.2
      × (length result.0 ≤ t0)

  not_there : (s : State) → (rip s == script.end_ip) ≡ false → rip s ≢ script.end_ip
  not_there s e h = cc ((==_iff (rip s) script.end_ip).1 h, e)

  Ended-suc :
      (t0 n : ℕ) (command : Bytes) (last : State)
      → Ended t0 n command last
      → Ended (suc t0) (suc n) command last
  Ended-suc t0 n command last (inl h) = inl h
  Ended-suc t0 n command last (inr h) = inr (h.0, h.1, ap suc h.2)

  pub run_step_script-Steps : (t0 : ℕ) (s : State) → Steps t0 s (run_step_script t0 s)
  unfolding run_step_script
  run_step_script-Steps zero s = elim (Bool-cases (rip s == script.end_ip)) [
    | inl e ↦ rw e (refl, inl ((==_iff (rip s) script.end_ip).0 e, refl), omega arith)
    | inr e ↦ rw e (refl, inr (not_there s e, refl, refl), omega arith)
  ]
  run_step_script-Steps (suc t0) s = elim (Bool-cases (rip s == script.end_ip)) [
    | inl e ↦ rw e (refl, inl ((==_iff (rip s) script.end_ip).0 e, refl), omega arith)
    | inr e ↦
        (let ih = run_step_script-Steps t0 (execute (codes "t" ∷ []) s) in
          rw e ((refl, not_there s e, ih.0), Ended-suc t0 _ _ _ ih.1, omega (arith, ih.2)))
  ]

module _ (template : Bytes) (host : Host) (params : TraceParams) (end_ip : ℕ)
    (skip_addrs : List ℕ) where
  script_path-IsPath :
      IsPath host.dll_path → IsPath (script_path template host params end_ip skip_addrs)
  unfolding script_path
  script_path-IsPath h =
      append-IsPath (traces_dir host.dll_path) (codes "\\StepNPrint.txt")
        (traces_dir-IsPath host.dll_path h) (ground arith)

  -- A verbose kernel-mode trace whose script can be written writes one file, sets the counter, and
  -- launches that file as its last effect, without an error text. The debugger reads the counter as the
  -- number of steps (of a negative number, as 32 bits without a sign), and the file as a script that ends
  -- at the end address and continues with itself. Run on any program, the script shows the registers and
  -- steps until the program is at the end address, or else exactly as often as the counter says; and it
  -- runs the command for the end address exactly in the first case. The path of the log holds no closing
  -- brace, and that of the extension no quote and no end of a line.
  pub verbose-Steps :
      (program : Program) (s : program.State)
      → params.more_verbose ≡ true
      → host.opens ≡ true
      → Lacks b'}' (log_path template host params end_ip skip_addrs)
      → IsPath host.dll_path
      → (contents : Bytes) × (counter : Bytes) × (script : StepScript) × (trace_kd_script template
            host params end_ip skip_addrs
          ≡ (
            opening template host params end_ip skip_addrs
                ++ wrote (script_path template host params end_ip skip_addrs) contents
                  ∷ ran counter
                  ∷ shown (
                      codes "[tracealyzer] Running "
                      ++ (script_path template host params end_ip skip_addrs ++ codes "\n"))
                  ∷ launched (codes "$$><" ++ script_path template host params end_ip skip_addrs)
                  ∷ [],
            [],
          ))
        × (read_counter counter ≡ some (as_unsigned params.max_steps))
        × (read_step_script contents ≡ some script)
        × (script.end_ip ≡ end_ip)
        × (script.next_file ≡ script_path template host params end_ip skip_addrs)
        × Steps program script
            (as_unsigned params.max_steps)
            s
            (run_step_script program script (as_unsigned params.max_steps) s)
  unfolding trace_kd_script run_verbose
  verbose-Steps program s v o hl hd =
      let path = script_path template host params end_ip skip_addrs in
      let log = log_path template host params end_ip skip_addrs in
      let script : StepScript = record {
        end_ip = end_ip;
        on_target = done_command (codes "Target address reached") log ++ codes " ";
        next_file = path;
        on_limit = done_command (codes "Max steps reached") log ++ codes " ";
      } in
      (
        step_n_print end_ip log path,
        set_counter params.max_steps,
        script,
        rw (v, o) refl,
        read_counter-set_counter params.max_steps,
        read_step_script-step_n_print end_ip log path hl (script_path-IsPath hd),
        refl,
        refl,
        run_step_script-Steps program script (as_unsigned params.max_steps) s,
      )
