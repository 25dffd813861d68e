-- ===== src/Trace/Setup/Composed.antt =====
-- A user-mode trace of dbg_trace.cpp from the call of `WinDbgClient::Trace` to its log and its summary.
use windbg_agent.Agent.TraceOptions.{TraceParams, Message}
use windbg_agent.Base.Int.{to_ℕ}
use windbg_agent.Base.{
  ℕ, ◌≡◌, ◌↔◌, refl, sym, subst, map, true, false, List, [], ◌∷◌, ◌++◌, none, some, Bytes, is_empty,
  length, arith,
}
use windbg_agent.Trace.KernelTrace.{header}
use windbg_agent.Trace.LogFile.{log_name, time_stamp}
use windbg_agent.Trace.Loop.Bounded.{IsRun}
use windbg_agent.Trace.Loop.Outcome.{Says, user_trace-IsRun}
use windbg_agent.Trace.Loop.{Trace, contains, entries_text, stop_reason, user_trace}
use windbg_agent.Trace.Setup.Skips.{Named, skip_addresses_iff}
use windbg_agent.Trace.Setup.{
  Target, Outcome, stepped, execute_all, skip_addresses, start_commands, run_from, run_user, trace,
  hex_warning, unresolved_warning, unresolved,
}
use windbg_agent.Trace.StepFilter.{filter_commands, warned}

module _ (t : Target) where
  open t use {engine, evaluate}

  execute_all-append :
      (xs ys : List Bytes) (d : engine.Debugger)
      → execute_all t (xs ++ ys) d ≡ execute_all t ys (execute_all t xs d)
  unfolding execute_all
  execute_all-append [] ys d = refl
  execute_all-append (x ∷ xs) ys d = execute_all-append xs ys (engine.execute x d)

  -- The debugger behind the step filter.
  abbrev pub filtered : TraceParams → engine.Debugger → engine.Debugger
  filtered p d = execute_all t (filter_commands p.skip_symbols) d

  -- And behind the commands that lead to the start.
  abbrev pub at_start : TraceParams → engine.Debugger → engine.Debugger
  at_start p d = execute_all t (start_commands false p) (filtered p d)

  -- What a trace with this end address did and said.
  abbrev pub IsUserTrace : TraceParams → engine.Debugger → ℕ → Outcome t → Type 0
  IsUserTrace p d end_ip o =
      (skip : List ℕ) × (start_ip : ℕ) × (log_path : Bytes) × (run : Trace engine) × (o.debugger
        ≡ execute_all t (filter_commands p.skip_symbols ++ start_commands false p) d)
      × ((a : ℕ) → (contains a skip ≡ true) ↔ Named (evaluate (filtered p d)) a p.skip_symbols)
      × (o.course
          ≡ stepped log_path
              (header start_ip end_ip p.max_steps
                ++ (entries_text run.steps
                    ++ stop_reason engine end_ip skip p.timeout_ms p.max_steps run))
              run)
      × IsRun engine end_ip skip p.timeout_ms (to_ℕ p.max_steps) 0 (at_start p d) run
      × (start_ip ≡ (elim (engine.read_ip (at_start p d)) [ none ↦ 0 | some ip ↦ ip ]))
      × (log_path
          ≡ log_name t.dll_path (t.target_name (at_start p d))
              (time_stamp (t.local_time (at_start p d))))
      × Says engine end_ip skip p.timeout_ms p.max_steps log_path run.reason (length run.steps)
          o.text

  -- The conditions under which the loop runs.
  abbrev pub Runs : TraceParams → engine.Debugger → ℕ → Type 0
  Runs p d end_ip =
      (t.has_control ≡ true)
      × (is_empty p.end_address ≡ false)
      × (evaluate (filtered p d) p.end_address ≡ some end_ip)
      × (t.is_kernel ≡ false)
      × (t.opens_log ≡ true)

  trace-run_user :
      (p : TraceParams) (d : engine.Debugger) (end_ip : ℕ)
      → Runs p d end_ip
      → (messages : List Message) × (trace t p d
          ≡ run_user t p end_ip
              (skip_addresses (evaluate (filtered p d)) [] p.skip_symbols)
              messages
              (execute_all t (start_commands false p) (filtered p d)))
  unfolding trace run_from
  trace-run_user p d end_ip h = (
    map hex_warning (warned p.skip_symbols)
        ++ map unresolved_warning (unresolved (evaluate (filtered p d)) p.skip_symbols),
    ground arith,
  )

  -- A trace of a user-mode target, with an end address that the debugger knows and a log that can be
  -- opened: the debugger gets the commands of the step filter and then those that lead to the start,
  -- and nothing else before the loop. The loop steps out of exactly the addresses, other than zero, for
  -- which one of the symbols to skip stands: it executes `gu` there, and `t` everywhere else, and waits
  -- after each. It makes at most `max_steps` steps, none of them at the end address, for a reason that
  -- holds where it ends. The log is the header with the first address, an entry for each step, and the
  -- reason; its path is made of the target's name and the time; and the returned text is the reason and
  -- that path.
  pub trace-IsUserTrace :
      (p : TraceParams) (d : engine.Debugger) (end_ip : ℕ)
      → Runs p d end_ip
      → IsUserTrace p d end_ip (trace t p d)
  unfolding run_user
  trace-IsUserTrace p d end_ip h =
      let skip = skip_addresses (evaluate (filtered p d)) [] p.skip_symbols in
      let started = execute_all t (start_commands false p) (filtered p d) in
      let log_path =
        log_name t.dll_path (t.target_name started) (time_stamp (t.local_time started)) in
      let start_ip : ℕ = elim (engine.read_ip started) [ none ↦ 0 | some ip ↦ ip ] in
      let run = (user_trace engine end_ip skip p.timeout_ms p.max_steps log_path started).1 in
      let ran = user_trace-IsRun engine end_ip skip p.timeout_ms p.max_steps log_path started in
      let (messages, e) = trace-run_user p d end_ip h in
      let said : (run_user t p end_ip skip messages started).text
          ≡ (user_trace engine end_ip skip p.timeout_ms p.max_steps log_path started).0 =
        ground (arith, h.4) in
      subst (IsUserTrace p d end_ip) (sym e) (
        skip,
        start_ip,
        log_path,
        run,
        ground (
          arith,
          h.4,
          execute_all-append (filter_commands p.skip_symbols) (start_commands false p) d,
        ),
        λ a. skip_addresses_iff (evaluate (filtered p d)) a p.skip_symbols,
        ground (arith, h.4),
        ran.0,
        refl,
        refl,
        subst
            (Says engine end_ip skip p.timeout_ms p.max_steps log_path run.reason
              (length run.steps))
            (sym said) ran.1,
      )
