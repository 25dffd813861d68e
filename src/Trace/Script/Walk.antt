-- ===== src/Trace/Script/Walk.antt =====
-- The walk of the script in dbg_trace.cpp through a program.
use windbg_agent.Base.{
  ℕ, zero, suc, ◌+◌, ◌≤◌, ◌≡◌, ◌≢◌, refl, ap, List, [], ◌∷◌, length, ◌==◌, ==_iff, inl, inr,
  Bool-cases, arith,
}
use windbg_agent.Trace.Script.{
  Action, commands, End, reached, exhausted, Program, action, step_trace,
}

module _ (program : Program) (skip_list : List ℕ) (target : ℕ) where
  open program use {State, rip, machine, execute}

  -- From this state each round took the action for its address, which was not the target, and its
  -- commands led to the next state.
  abbrev pub Follows : List Action → State → State → Type 0
  Follows [] s last = s ≡ last
  Follows (a ∷ later) s last =
      (rip s ≢ target)
      × (a ≡ action skip_list (machine s) (rip s))
      × Follows later (execute (commands a) s) last

  -- Why the loop ended, after this many rounds from `i` on.
  abbrev pub Ends : ℕ → ℕ → ℕ → End → State → Type 0
  Ends rounds i n (reached j) last = (j ≡ i + n) × (rip last ≡ target)
  Ends rounds i n exhausted last = n ≡ rounds

  Ends-suc :
      (rounds i n : ℕ) (end : End) (last : State)
      → Ends rounds (i + 1) n end last
      → Ends (suc rounds) i (suc n) end last
  Ends-suc rounds i n (reached j) last h = (omega (arith, h.0), h.1)
  Ends-suc rounds i n exhausted last h = ap suc h

  -- The script makes at most `g_maxSteps` rounds. It stops at the first round that finds the target,
  -- and says its number, or else makes all the rounds; each round before takes the action for the
  -- address where the program then is.
  pub step_trace-Follows :
      (rounds i : ℕ) (s : State)
      → let (actions, end, last) = step_trace program skip_list target rounds i s in
        (length actions ≤ rounds) × Follows actions s last × Ends rounds i (length actions) end last
  unfolding step_trace
  step_trace-Follows zero i s = (omega arith, refl, refl)
  step_trace-Follows (suc rounds) i s = elim (Bool-cases (rip s == target)) [
    | inl e ↦ rw e (omega arith, refl, (omega arith, (==_iff (rip s) target).0 e))
    | inr e ↦ rw e (
        let h =
          step_trace-Follows rounds (i + 1)
            (execute (commands (action skip_list (machine s) (rip s))) s) in
        (
          omega (arith, h.0),
          ((λ k. cc ((==_iff (rip s) target).1 k, e)), refl, h.1),
          Ends-suc rounds i _ _ _ h.2,
        ))
  ]
