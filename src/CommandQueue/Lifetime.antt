-- ===== src/CommandQueue/Lifetime.antt =====
-- Who owns the commands: `queue_and_wait`, the queue, the command thread and
-- `complete_pending_commands` of http_server.cpp.
use windbg_agent.CommandQueue.Ledger.{
  >>=-eq-done, >>=-eq-dangling, held, owed, Waitable, Ledger, Tracked, IsPatient, step-Waitable,
  step-Ledger, step-Tracked, step-ne-dangling, Signals, Awaits, step-Signals, IsNotify,
  step-IsNotify,
}
use windbg_agent.Base.{
  ℕ, ◌<◌, ◌≡◌, ◌≢◌, refl, List, [], ◌∷◌, true, false, Bool-cases, Bytes, arith, inl, inr, subst,
  All, ap, ◌∙◌, ◌++◌,
}
use windbg_agent.CommandQueue.{
  PendingCommand, waiting, holding, notifies, closes, Outcome, Callback, Texts, State, done,
  dangling, ◌>>=◌, Event, wakes, finishes, halts, step, run, started,
}

-- The server is not being stopped, and does not end by itself.
abbrev pub KeepsRunning : Event → Type 0
KeepsRunning halts = ⊥
KeepsRunning closes = ⊥
KeepsRunning _ = Unit

module _ (texts : Texts) (exec : List Bytes → Bytes → Callback) where
  abbrev Then : (State → Type 0) → Outcome → Type 0
  Then P (done s) = P s
  Then P _ = Unit

  -- A waiter that returns has been notified; where the server was stopped, its command is completed.
  abbrev pub Behaves : Event → State → Type 0
  Behaves e s = Awaits e s × (s.running ≡ false → IsPatient e s)

  abbrev pub AllBehave : List Event → State → Type 0
  AllBehave [] s = Unit
  AllBehave (e ∷ es) s = Behaves e s × Then (AllBehave es) (step texts exec e s)

  step-running :
      (e : Event) (s : State) {s' : State}
      → KeepsRunning e
      → step texts exec e s ≡ done s'
      → s.running ≡ true
      → s'.running ≡ true
  unfolding step
  step-running halts s n h r = absurd n
  step-running closes s n h r = absurd n
  step-running _ s n h r = ground arith

  -- While the server runs, the only waiters that return are those whose command is completed.
  running-IsPatient :
      (e : Event) (s : State) {s' : State}
      → step texts exec e s ≡ done s'
      → s.running ≡ true
      → IsPatient e s
  unfolding step
  running-IsPatient (wakes k) s h r = ground arith
  running-IsPatient _ s h r = tt

  -- What holds between the steps of a server that is not being stopped.
  pub record Sound (s : State) : Type 0 where
    pub is_running : s.running ≡ true
    pub waitable : Waitable s
    pub ledger : Ledger s

  pub step-Sound :
      (e : Event) (s : State) {s' : State}
      → KeepsRunning e
      → step texts exec e s ≡ done s'
      → Sound s
      → Sound s'
  step-Sound e s n h v = record {
    is_running = step-running e s n h v.is_running;
    waitable = step-Waitable texts exec e s h v.waitable;
    ledger =
        step-Ledger texts exec e s h v.waitable (running-IsPatient e s h v.is_running) v.ledger;
  }

  pub started-Sound : Sound started
  started-Sound = record { is_running = refl; waitable = λ k. tt; ledger = λ k. refl }

  Behaves-IsPatient :
      (e : Event) (s : State) {s' : State}
      → step texts exec e s ≡ done s'
      → Behaves e s
      → IsPatient e s
  Behaves-IsPatient e s h b = elim (Bool-cases s.running) [
    | inl on ↦ running-IsPatient e s h on
    | inr off ↦ b.1 off
  ]

  run-ne-dangling :
      (es : List Event) (s : State)
      → AllBehave es s
      → Waitable s
      → Ledger s
      → Signals s
      → run texts exec es s ≢ dangling
  unfolding run
  run-ne-dangling [] s a w l g h = cc
  run-ne-dangling (e ∷ es) s a w l g h =
      elim (>>=-eq-dangling (step texts exec e s) (run texts exec es) h) [
        | inl now ↦ step-ne-dangling texts exec e s l g now
        | inr (s', first, later) ↦
            run-ne-dangling es s' (subst (Then (AllBehave es)) first a.1)
              (step-Waitable texts exec e s first w)
              (step-Ledger texts exec e s first w (Behaves-IsPatient e s first a.0) l)
              (step-Signals texts exec e s first a.0.0 g) later
      ]

  -- In every interleaving of the threads, with stops, restarts and ends of the server: if each waiter
  -- stays until the `notify_one` for its command is through, and one that returns from a stopped server
  -- stays until its command is completed, then no thread follows the pointer of a command whose
  -- `queue_and_wait` has returned. While the server runs, the code sees to the completion itself.
  pub safe_when_notified :
      (es : List Event) → AllBehave es started → run texts exec es started ≢ dangling
  safe_when_notified es a =
      run-ne-dangling es started a (λ k. tt) (λ k. refl) (λ k h. omega (arith, h))

  run-IsNotify :
      (es : List Event) (s : State)
      → All KeepsRunning es
      → Sound s
      → run texts exec es s ≡ dangling
      → (before : List Event) × (e : Event) × (after : List Event) × (s' : State) × (es
          ≡ before ++ e ∷ after)
        × IsNotify e
        × (run texts exec before s ≡ done s')
        × (step texts exec e s' ≡ dangling)
  unfolding run
  run-IsNotify [] s n v h = absurd cc
  run-IsNotify (e ∷ es) s n v h =
      elim (>>=-eq-dangling (step texts exec e s) (run texts exec es) h) [
        | inl now ↦ ([], e, es, s, refl, step-IsNotify texts exec e s v.ledger now, refl, now)
        | inr (s1, first, later) ↦
            let (before, x, after, s', split, late, ran, stuck) =
              run-IsNotify es s1 n.1 (step-Sound e s n.0 first v) later in
            (
              e ∷ before,
              x,
              after,
              s',
              ap (λ xs. e ∷ xs) split,
              late,
              ap (λ o. o >>= run texts exec before) first ∙ ran,
              stuck,
            )
      ]

  -- As long as nobody stops the server and it does not end by itself, whatever the waiters do: if in
  -- some interleaving of the threads a step follows the pointer of a command whose `queue_and_wait` has
  -- returned, then that step is the `notify_one` behind a completed command, and all steps before it
  -- went well. In particular the command thread never runs such a command, nor writes its result.
  pub dangling-IsNotify :
      (es : List Event)
      → All KeepsRunning es
      → run texts exec es started ≡ dangling
      → (before : List Event) × (e : Event) × (after : List Event) × (s' : State) × (es
          ≡ before ++ e ∷ after)
        × IsNotify e
        × (run texts exec before started ≡ done s')
        × (step texts exec e s' ≡ dangling)
  dangling-IsNotify es n h = run-IsNotify es started n started-Sound h

  pub run-Sound :
      (es : List Event) (s : State) {s' : State}
      → All KeepsRunning es
      → run texts exec es s ≡ done s'
      → Sound s
      → Sound s'
  unfolding run
  run-Sound [] s n h v = ground arith
  run-Sound (e ∷ es) s n h v =
      let (t, first, later) = >>=-eq-done (step texts exec e s) (run texts exec es) h in
      run-Sound es t n.1 later (step-Sound e s n.0 first v)

  run-Tracked :
      (es : List Event) (s : State) {s' : State}
      → run texts exec es s ≡ done s'
      → Waitable s
      → Tracked s
      → Waitable s' × Tracked s'
  unfolding run
  run-Tracked [] s h w l = (λ k. ground (arith, w k), λ k. ground (arith, l k))
  run-Tracked (e ∷ es) s h w l =
      let (t, first, later) = >>=-eq-done (step texts exec e s) (run texts exec es) h in
      run-Tracked es t later (step-Waitable texts exec e s first w)
        (step-Tracked texts exec e s first w l)

  -- In every interleaving, with stops and restarts, no command is lost: a call whose command is not
  -- completed has it in the queue, with the command thread, or with a `complete_pending_commands`.
  pub no_command_lost :
      (es : List Event) {s : State}
      → run texts exec es started ≡ done s
      → (k : ℕ) → 0 < owed (s.callers k)
      → 0 < held k s
  no_command_lost es h k o =
      let (w, l) = run-Tracked es started h (λ j. tt) (λ j. omega arith) in omega (arith, l k)

  -- Where the command thread holds the command of a waiting call, whose mutex and condition variable it
  -- can use, it can come to follow a dead pointer, though nobody stops the server: the waiter returns
  -- between the unlock and the `notify_one`.
  pub notify_race_dangles :
      (s : State) (k : ℕ) (c : PendingCommand)
      → s.worker ≡ holding k
      → s.callers k ≡ waiting c
      → c.waitable ≡ true
      → run texts exec (finishes ∷ wakes k ∷ notifies ∷ []) s ≡ dangling
  unfolding run step
  notify_race_dangles s k c h e w = ground arith
