-- ===== src/Trace/Script.antt =====
-- dbg_trace.cpp: the loop of the embedded script `kStepTraceJS`, over its decoder of calls.
pub mod Walk
pub mod Calls
pub mod Session
pub mod Tests
use windbg_agent.Base.{
  ℕ, zero, suc, ◌+◌, Bool, false, ◌||◌, List, [], ◌∷◌, none, some, Bytes, codes, ◌==◌,
  if◌then◌else◌,
}
use windbg_agent.Trace.CallTarget.{Machine, resolve_call_target}

-- `isSkipped`
unfoldable pub is_skipped : List ℕ → ℕ → Bool
is_skipped [] addr = false
is_skipped (a ∷ skip_list) addr = addr == a || is_skipped skip_list addr

-- What one round does: it leaves a skipped function, steps over a call of a skipped function, or
-- steps into the instruction.
pub data Action : Type 0 where
  leaves : ℕ → Action
  steps_over : ℕ → Action
  steps_into : Action

-- The commands of a round, in order.
abbrev pub commands : Action → List Bytes
commands (leaves rip) = codes "gu" ∷ []
commands (steps_over target) = codes "p" ∷ []
commands steps_into = codes "r" ∷ codes "t" ∷ []

-- The end of the loop: the target was reached in this round, or the rounds are used up.
pub data End : Type 0 where
  reached : ℕ → End
  exhausted : End

-- The debugged program, outside this repository: its instruction pointer, what the decoder sees of
-- it, and the effect of the commands.
pub record Program : Type 1 where
  pub State : Type 0
  pub rip : State → ℕ
  pub machine : State → Machine
  pub execute : List Bytes → State → State

-- A round at this address that is not the target; an exception of the decoder counts as no call.
unfoldable pub action : List ℕ → Machine → ℕ → Action
unfolding is_skipped resolve_call_target
action skip_list m rip =
    if is_skipped skip_list rip then leaves rip else elim (resolve_call_target m rip) [
      | none ↦ steps_into
      | some none ↦ steps_into
      | some (some call_target) ↦
          if is_skipped skip_list call_target then steps_over call_target else steps_into
    ]

module _ (program : Program) (skip_list : List ℕ) (target : ℕ) where
  open program use {State, rip, machine, execute}

  -- The rounds left and `i`. The result holds the actions, why the loop ended, and the last state.
  unfoldable pub step_trace : ℕ → ℕ → State → List Action × End × State
  unfolding action
  step_trace zero i s = ([], exhausted, s)
  step_trace (suc rounds) i s =
      let a = action skip_list (machine s) (rip s) in
      let (later, end, last) = step_trace rounds (i + 1) (execute (commands a) s) in
      if rip s == target then ([], reached i, s) else (a ∷ later, end, last)
