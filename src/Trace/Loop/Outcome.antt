-- ===== src/Trace/Loop/Outcome.antt =====
-- The summary that the user-mode trace of dbg_trace.cpp returns.
use windbg_agent.Base.{
  ℕ, suc, ◌≡◌, ◌≢◌, refl, subst, true, false, List, ◌++◌, Option, none, some, Bytes, codes, length,
  arith,
}
use windbg_agent.Base.Decimal.{to_string_ℤ}
use windbg_agent.Base.Int.{ℤ, pos, to_ℕ, reaches}
use windbg_agent.Trace.Loop.{
  Engine, Reason, step_command, step_once, trace_loop, summary, user_trace, reason_text,
}
use windbg_agent.Trace.Loop.Bounded.{IsRun, trace_loop-IsRun}

module _ (e : Engine) (end_ip : ℕ) (skip : List ℕ) (timeout_ms max_steps : ℤ)
    (log_path : Bytes) where
  open e use {Debugger, elapsed, is_interrupted, read_ip, execute}

  -- The text of the end of a run with this many steps.
  abbrev pub Says : Option Reason → ℕ → Bytes → Type 0
  Says reason n text =
      text
      ≡ (elim reason [
        | some r ↦ reason_text r n
        | none ↦
            codes "[tracealyzer] Max steps (" ++ (to_string_ℤ max_steps ++ codes ") reached.\n")
      ])
        ++ (codes "[tracealyzer] Log: " ++ (log_path ++ codes "\n"))

  -- A user-mode trace takes the debugger along a path of at most `max_steps` steps, which the log
  -- numbers from 1. In front of each step there is time left and no interrupt; the debugger stands at
  -- the address of the step, which is not the end address; and the entry shows its disassembly and
  -- registers. The step is made by executing `gu` at a skipped address and `t` at any other, and by a
  -- wait for the rest of the time; the path goes on from there if the wait succeeds. The summary names
  -- the number of the steps, and a reason that is true of the debugger where the path ends: the end
  -- address was reached, the time was up, the user interrupted, no instruction pointer could be read,
  -- or the wait of the last step failed. Without a reason the summary speaks of the step limit: then
  -- either all the steps were made, or the time ran out during the last one, and there was no wait.
  pub user_trace-IsRun :
      (d : Debugger)
      → let (text, t) = user_trace e end_ip skip timeout_ms max_steps log_path d in
        IsRun e end_ip skip timeout_ms (to_ℕ max_steps) 0 d t × Says t.reason (length t.steps) text
  unfolding user_trace summary
  user_trace-IsRun d =
      let r = trace_loop-IsRun e end_ip skip timeout_ms (to_ℕ max_steps) 0 d in
      let t = trace_loop e end_ip skip timeout_ms (to_ℕ max_steps) 0 d in
      let c : t.step_count ≡ length t.steps = omega (arith, r.counted) in
      (
        r,
        subst (λ n. Says t.reason n (summary e end_ip skip timeout_ms max_steps log_path t)) c refl,
      )

  -- Where the time runs out while a step is made, the summary says that the step limit was reached,
  -- though only that step was made.
  pub timeout_reported_as_max_steps :
      (d : Debugger) (ip n : ℕ)
      → max_steps ≡ pos (suc n)
      → reaches (elapsed d) timeout_ms ≡ false
      → is_interrupted d ≡ false
      → read_ip d ≡ some ip
      → ip ≢ end_ip
      → reaches (elapsed (execute (step_command e end_ip skip timeout_ms ip) d)) timeout_ms ≡ true
      → let (text, t) = user_trace e end_ip skip timeout_ms max_steps log_path d in
        (t.step_count ≡ 1) × Says none 1 text
  unfolding user_trace summary trace_loop step_once
  timeout_reported_as_max_steps d ip n m early quiet found h late = ground arith
