-- ===== src/Trace/Script/Session.antt =====
-- dbg_trace.cpp: a whole run of the script `kStepTraceJS`, with the log that it opens and closes and the
-- lines that it prints.
use windbg_agent.Base.Decimal.{to_string, to_string_ℤ}
use windbg_agent.Base.Hex.{hex_digits}
use windbg_agent.Base.Int.{ℤ, to_ℕ}
use windbg_agent.Base.{
  ℕ, zero, suc, ◌+◌, ◌≡◌, refl, ap, sym, ◌∙◌, List, [], ◌∷◌, ◌++◌, Bytes, codes, ◌==◌, append_assoc,
  if◌then◌else◌, Bool-cases, inl, inr,
}
use windbg_agent.Trace.Script.{
  Action, leaves, steps_over, steps_into, commands, End, reached, exhausted, Program, action,
  step_trace,
}

-- `ctl.ExecuteCommand(…)` and `host.diagnostics.debugLog(…)`.
pub data Output : Type 0 where
  command : Bytes → Output
  logged : Bytes → Output

-- The script's `hex`.
unfoldable pub hex : ℕ → Bytes
hex p = codes "0x" ++ hex_digits 16 p

-- The lines that `execAndLog` prints.
unfoldable pub log_lines : List Bytes → List Output
log_lines [] = []
log_lines (line ∷ lines) = logged (line ++ codes "\n") ∷ log_lines lines

-- One round, with the lines that the command `r` gives.
unfoldable pub round_output : List Bytes → Action → List Output
unfolding log_lines
round_output lines (leaves rip) =
    logged (codes "[tracealyzer] Skipped address " ++ (hex rip ++ codes "\n"))
    ∷ command (codes "gu")
    ∷ []
round_output lines (steps_over call_target) =
    logged (codes "[tracealyzer] Skipped call(" ++ (hex call_target ++ codes ")\n"))
    ∷ command (codes "p")
    ∷ []
round_output lines steps_into = command (codes "r") ∷ (log_lines lines ++ command (codes "t") ∷ [])

-- What the script does once its loop has ended.
unfoldable pub closing : ℤ → Bytes → End → List Output
closing max_steps log_path (reached i) =
    command (codes ".logclose")
    ∷ logged (codes "[tracealyzer] Target address reached at step " ++ (to_string i ++ codes ".\n"))
    ∷ logged (codes "[tracealyzer] Log: " ++ (log_path ++ codes "\n"))
    ∷ []
closing max_steps log_path exhausted =
    command (codes ".logclose")
    ∷ logged (codes "[tracealyzer] Max steps (" ++ (to_string_ℤ max_steps ++ codes ") reached.\n"))
    ∷ logged (codes "[tracealyzer] Log: " ++ (log_path ++ codes "\n"))
    ∷ []

-- The commands among the outputs, and those of a list of rounds.
abbrev pub commands_of : List Output → List Bytes
commands_of [] = []
commands_of (command c ∷ os) = c ∷ commands_of os
commands_of (logged line ∷ os) = commands_of os

abbrev pub all_commands : List Action → List Bytes
all_commands [] = []
all_commands (a ∷ actions) = commands a ++ all_commands actions

commands_of-log_lines :
    (lines : List Bytes) (rest : List Output)
    → commands_of (log_lines lines ++ rest) ≡ commands_of rest
unfolding log_lines
commands_of-log_lines [] rest = refl
commands_of-log_lines (line ∷ lines) rest = commands_of-log_lines lines rest

commands_of-round_output :
    (lines : List Bytes) (a : Action) (rest : List Output)
    → commands_of (round_output lines a ++ rest) ≡ commands a ++ commands_of rest
unfolding round_output
commands_of-round_output lines (leaves rip) rest = refl
commands_of-round_output lines (steps_over t) rest = refl
commands_of-round_output lines steps_into rest = ap (◌∷◌ (codes "r")) (
    ap commands_of (append_assoc (log_lines lines) (command (codes "t") ∷ []) rest)
    ∙ commands_of-log_lines lines (command (codes "t") ∷ rest))

commands_of-closing :
    (max_steps : ℤ) (log_path : Bytes) (end : End)
    → commands_of (closing max_steps log_path end) ≡ codes ".logclose" ∷ []
unfolding closing
commands_of-closing max_steps log_path (reached i) = refl
commands_of-closing max_steps log_path exhausted = refl

module _ (program : Program) (register_lines : program.State → List Bytes) (skip_list : List ℕ)
    (target : ℕ) (max_steps : ℤ) (log_path : Bytes) where
  open program use {State, rip, machine, execute}

  -- The loop, from the round `i` on.
  unfoldable pub loop_output : ℕ → ℕ → State → List Output
  loop_output zero i s = closing max_steps log_path exhausted
  loop_output (suc rounds) i s =
      let a = action skip_list (machine s) (rip s) in
      let rest =
        round_output (register_lines s) a ++ loop_output rounds (i + 1) (execute (commands a) s) in
      if rip s == target then closing max_steps log_path (reached i) else rest

  -- `stepTrace`
  unfoldable pub session : State → List Output
  unfolding loop_output
  session s = command (codes ".logopen " ++ log_path) ∷ loop_output (to_ℕ max_steps) 0 s

  loop_output-commands :
      (rounds i : ℕ) (s : State)
      → commands_of (loop_output rounds i s)
        ≡ all_commands (step_trace program skip_list target rounds i s).0 ++ codes ".logclose" ∷ []
  unfolding loop_output step_trace
  loop_output-commands zero i s = commands_of-closing max_steps log_path exhausted
  loop_output-commands (suc rounds) i s =
      let a = action skip_list (machine s) (rip s) in
      let later = execute (commands a) s in
      elim (Bool-cases (rip s == target)) [
        | inl e ↦ rw e (commands_of-closing max_steps log_path (reached i))
        | inr e ↦ rw e (
            commands_of-round_output (register_lines s) a (loop_output rounds (i + 1) later)
            ∙ (ap (◌++◌ (commands a)) (loop_output-commands rounds (i + 1) later)
                ∙ sym (
                    append_assoc (commands a)
                      (all_commands (step_trace program skip_list target rounds (i + 1) later).0)
                      (codes ".logclose" ∷ []))))
      ]

  -- In every run the script opens the log before all else, closes it once and as its last command,
  -- and between the two runs exactly the commands of its rounds.
  pub session-commands :
      (s : State)
      → commands_of (session s)
        ≡ (codes ".logopen " ++ log_path)
          ∷ (all_commands (step_trace program skip_list target (to_ℕ max_steps) 0 s).0
              ++ codes ".logclose" ∷ [])
  unfolding session
  session-commands s =
      ap (◌∷◌ (codes ".logopen " ++ log_path)) (loop_output-commands (to_ℕ max_steps) 0 s)
