-- ===== src/Trace/Loop.antt =====
-- dbg_trace.cpp: the user-mode loop of `WinDbgClient::Trace`, from the header of the log to the
-- summary that it returns.
pub mod Bounded
pub mod Outcome
pub mod Tests
use windbg_agent.Base.{
  ℕ, zero, suc, ◌+◌, ◌-◌, ◌%◌, Bool, false, not, ◌||◌, List, [], ◌∷◌, ◌++◌, Option, none, some,
  Bytes, codes, ◌==◌, if◌then◌else◌,
}
use windbg_agent.Base.Decimal.{to_string, to_string_ℤ}
use windbg_agent.Base.Int.{ℤ, pos, negsuc, to_ℕ, reaches}
use windbg_agent.Trace.Registers.{step_text}

-- The debugger engine and the clock, outside this repository: a state, what can be read off it, and
-- the effect of a command and of a wait. `elapsed` is in milliseconds since the start of the loop.
-- `wait_error` is the HRESULT of `WaitForEvent`, if it failed.
pub record Engine : Type 1 where
  pub Debugger : Type 0
  pub elapsed : Debugger → ℕ
  pub is_interrupted : Debugger → Bool
  pub read_ip : Debugger → Option ℕ
  pub disassemble : Debugger → ℕ → Bytes
  pub registers : Debugger → Bytes
  pub execute : Bytes → Debugger → Debugger
  pub wait : ℕ → Debugger → Debugger
  pub wait_error : ℕ → Debugger → Option ℤ

-- An entry of the log file.
pub record Step : Type 0 where
  pub number : ℕ
  pub ip : ℕ
  pub disasm : Bytes
  pub regs : Bytes

-- Why the loop set `stop_reason`.
pub data Reason : Type 0 where
  timeout interrupted no_ip reached_end : Reason
  wait_failed : ℤ → Reason

-- The text that the loop stores in `stop_reason`.
unfoldable pub reason_text : Reason → ℕ → Bytes
unfolding to_string to_string_ℤ
reason_text timeout n = codes "[tracealyzer] Timeout after " ++ (to_string n ++ codes " steps.\n")
reason_text interrupted n =
    codes "[tracealyzer] Interrupted after " ++ (to_string n ++ codes " steps.\n")
reason_text no_ip n = codes "[tracealyzer] Error: Could not read instruction pointer.\n"
reason_text reached_end n =
    codes "[tracealyzer] Reached end address after " ++ (to_string n ++ codes " steps.\n")
reason_text (wait_failed hr) n =
    codes "[tracealyzer] WaitForEvent failed (hr="
    ++ (to_string_ℤ hr ++ (codes ") after " ++ (to_string n ++ codes " steps.\n")))

unfoldable pub contains : ℕ → List ℕ → Bool
contains a [] = false
contains a (x ∷ xs) = x == a || contains a xs

-- The entries of the log, and the messages at each thousand steps.
unfoldable pub entries_text : List Step → Bytes
entries_text [] = []
entries_text (s ∷ steps) = step_text s.number s.disasm s.regs ++ entries_text steps

unfoldable pub progress : List Step → List Bytes
progress [] = []
progress (s ∷ steps) =
    let rest = progress steps in
    if s.number % 1000 == 0
    then (codes "[tracealyzer] " ++ (to_string s.number ++ codes " steps...\n")) ∷ rest
    else rest

-- `timeout_ms - elapsed`, where the loop has tested that it is positive.
abbrev pub remaining : ℤ → ℕ → ℕ
remaining (pos t) elapsed = t - elapsed
remaining (negsuc t) elapsed = 0

module _ (e : Engine) where
  open e use {
    Debugger, elapsed, is_interrupted, read_ip, disassemble, registers, execute, wait, wait_error,
  }

  -- `reason` is `none` where `stop_reason` is empty.
  pub record Trace : Type 0 where
    pub reason : Option Reason
    pub step_count : ℕ
    pub steps : List Step
    pub debugger : Debugger

  -- The loop is left.
  stop : Option Reason → ℕ → Debugger → Trace
  stop reason count d = record { reason = reason; step_count = count; steps = []; debugger = d }

  prepend : Step → Trace → Trace
  prepend s t = record t { steps = s ∷ t.steps }

  logged : ℕ → Debugger → ℕ → Step
  logged count d ip = record {
    number = count;
    ip = ip;
    disasm = disassemble d ip;
    regs = registers d;
  }

  module _ (end_ip : ℕ) (skip : List ℕ) (timeout_ms : ℤ) where
    -- `(!skip_addrs.empty() && skip_addrs.count(current_ip)) ? "gu" : "t"`
    unfoldable pub step_command : ℕ → Bytes
    unfolding contains
    step_command ip = if contains ip skip then codes "gu" else codes "t"

    -- One step at `ip`, and then the `rest` of the loop.
    step_once : (Debugger → Trace) → ℕ → Debugger → ℕ → Trace
    step_once rest count d ip =
        if ip == end_ip
        then stop (some reached_end) count d
        else (let d1 = execute (step_command ip) d in
            let left = remaining timeout_ms (elapsed d1) in
            let later = rest (wait left d1) in
            prepend (logged (count + 1) d ip) (
              if reaches (elapsed d1) timeout_ms
              then stop none (count + 1) d1
              else elim (wait_error left d1) [
                | some hr ↦ stop (some (wait_failed hr)) (count + 1) (wait left d1)
                | none ↦ later
              ]))

    -- The rounds left, and `step_count`.
    unfoldable pub trace_loop : ℕ → ℕ → Debugger → Trace
    unfolding stop step_command logged prepend step_once
    trace_loop zero count d = stop none count d
    trace_loop (suc rounds) count d =
        if reaches (elapsed d) timeout_ms
        then stop (some timeout) count d
        else if is_interrupted d
        then stop (some interrupted) count d
        else elim (read_ip d) [
          | none ↦ stop (some no_ip) count d
          | some ip ↦ step_once (trace_loop rounds (count + 1)) count d ip
        ]

    -- The text that stands at the end of the log and at the head of the summary.
    unfoldable pub stop_reason : ℤ → Trace → Bytes
    unfolding reason_text to_string_ℤ
    stop_reason max_steps t = elim t.reason [
      | some r ↦ reason_text r t.step_count
      | none ↦ codes "[tracealyzer] Max steps (" ++ (to_string_ℤ max_steps ++ codes ") reached.\n")
    ]

    -- The summary, given the path of the log.
    unfoldable pub summary : ℤ → Bytes → Trace → Bytes
    unfolding stop_reason
    summary max_steps log_path t =
        stop_reason max_steps t ++ (codes "[tracealyzer] Log: " ++ (log_path ++ codes "\n"))

    unfoldable pub user_trace : ℤ → Bytes → Debugger → Bytes × Trace
    unfolding trace_loop summary
    user_trace max_steps log_path d =
        let t = trace_loop (to_ℕ max_steps) 0 d in (summary max_steps log_path t, t)
