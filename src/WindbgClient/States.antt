-- ===== src/WindbgClient/States.antt =====
-- When `ExecuteCommand` of windbg_client.cpp returns, by what `GetTargetState` says of the target.
use windbg_agent.Agent.Servers.{is_negative}
use windbg_agent.Base.{
  ℕ, zero, suc, ◌+◌, ◌<◌, ◌≡◌, ◌↔◌, ◌⊎◌, refl, ap, sym, ◌∙◌, inl, inr, Bool-cases, true, false,
  Option, none, some, codes, if◌then◌else◌, arith,
}
use windbg_agent.DmlOutput.{DmlOutput}
use windbg_agent.OutputCapture.{Client, Capture, StackState, at_rest, empty, install}
use windbg_agent.WindbgClient.{
  Engine, Executed, settles, collect, poll, deliver, get_target_state, execute_command,
}

-- The reading failed, or `GetTargetState` calls the target broken in, absent or out of sync.
abbrev pub IsSettled : Option ℕ → Type 0
IsSettled status =
    (status ≡ none)
    ⊎ ((get_target_state status ≡ codes "Break")
        ⊎ ((get_target_state status ≡ codes "No target")
            ⊎ (get_target_state status ≡ codes "Out of sync")))

-- The loop of `ExecuteCommand` ends at these readings.
pub settles_iff : (status : Option ℕ) → (settles status ≡ true) ↔ IsSettled status
unfolding settles get_target_state
settles_iff none = ground arith
settles_iff (some status) = ground arith

module _ (e : Engine) where
  -- From reading i on, the n-th after it is the first that is settled.
  abbrev pub WaitsFor : ℕ → ℕ → Type 0
  WaitsFor zero i = IsSettled (e.status i)
  WaitsFor (suc n) i = (¬ IsSettled (e.status i)) × WaitsFor n (i + 1)

  poll-waits :
      (fuel i : ℕ) (p q : Capture × StackState)
      → poll e fuel i p ≡ some q
      → (n : ℕ) × (n < fuel) × WaitsFor n i
  unfolding poll
  poll-waits zero i p q h = absurd cc
  poll-waits (suc fuel) i p q h = elim (Bool-cases (settles (e.status i))) [
    | inl s ↦ (0, omega arith, (settles_iff (e.status i)).0 s)
    | inr s ↦
        let (n, less, w) = poll-waits fuel (i + 1) (collect e (e.arrives i) p) q (
          ap (λ b. if b then some p else poll e fuel (i + 1) (collect e (e.arrives i) p)) (sym s)
          ∙ h) in
        (suc n, omega arith, (λ t. (let y = (settles_iff (e.status i)).1 t in absurd cc), w))
  ]

  poll-returns :
      (fuel n i : ℕ) (p : Capture × StackState)
      → n < fuel
      → WaitsFor n i
      → (q : Capture × StackState) × (poll e fuel i p ≡ some q)
  unfolding poll
  poll-returns zero n i p f w = absurd (omega arith)
  poll-returns (suc fuel) zero i p f w = (p, rw ((settles_iff (e.status i)).1 w) refl)
  poll-returns (suc fuel) (suc n) i p f w =
      let (q, r) = poll-returns fuel n (i + 1) (collect e (e.arrives i) p) (omega arith) w.1 in
      elim (Bool-cases (settles (e.status i))) [
        | inl s ↦ absurd (w.0 ((settles_iff (e.status i)).0 s))
        | inr s ↦ (q, rw s r)
      ]

  deliver-some :
      (dml : DmlOutput) (k : Client) (o : Option (Capture × StackState)) (r : Executed)
      → deliver e dml k o ≡ some r
      → (q : Capture × StackState) × (o ≡ some q)
  deliver-some dml k none r h = absurd cc
  deliver-some dml k (some q) r h = (q, refl)

  -- A command that the engine accepts: `ExecuteCommand` returns exactly if one of the readings of the
  -- status that the fuel allows fails or is one that `GetTargetState` calls "Break", "No target" or
  -- "Out of sync". It waits through each reading before: those at which the target runs, steps or
  -- waits for input are among them.
  pub execute_command-returns_iff :
      (fuel : ℕ) (dml : DmlOutput) (k : Client)
      → is_negative e.hr ≡ false
      → ((r : Executed) × (execute_command e fuel true dml k ≡ some r))
        ↔ ((n : ℕ) × (n < fuel) × WaitsFor n 0)
  unfolding execute_command
  execute_command-returns_iff fuel dml k a =
      let (c, k1, hr) = install e.installs empty k in
      let ran = collect e e.printed (c, at_rest) in
      let same = ap (λ b. deliver e dml k1 (if b then some ran else poll e fuel 0 ran)) a in
      (
        λ h.
            let (q, polled) = deliver-some dml k1 (poll e fuel 0 ran) h.0 (sym same ∙ h.1) in
            poll-waits fuel 0 ran q polled,
        λ w.
            let (q, polled) = poll-returns fuel w.0 0 ran w.1 w.2 in
            (_, same ∙ ap (deliver e dml k1) polled),
      )
