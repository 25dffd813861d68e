-- ===== src/Trace/Script/Tests.antt =====
-- The script of dbg_trace.cpp on a small program.
use windbg_agent.Base.{ℕ, ◌+◌, ◌≤◌, [], ◌∷◌, length, get_elem?}
use windbg_agent.Trace.CallTarget.{Machine}
use windbg_agent.Trace.Script.Walk.{Follows, Ends, step_trace-Follows}
use windbg_agent.Trace.Script.{Program, step_trace}

-- `call +16` at address 0, behind that a `nop`.
abbrev pub calling : Machine
calling = record { byte = get_elem? (0xe8 ∷ 16 ∷ 0 ∷ 0 ∷ 0 ∷ 0x90 ∷ []); reg = λ r. 0 }

-- A step leads from the call to the `nop`.
abbrev pub small : Program
small = record { State = ℕ; rip = λ s. s; machine = λ s. calling; execute = λ cs s. s + 5 }

small_walk :
    let (actions, end, last) = step_trace small (21 ∷ []) 5 100 0 0 in
    (length actions ≤ 100)
    × Follows small (21 ∷ []) 5 actions 0 last
    × Ends small (21 ∷ []) 5 100 0 (length actions) end last
small_walk = step_trace-Follows small (21 ∷ []) 5 100 0 0
