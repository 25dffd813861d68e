-- ===== src/CommandQueue/Stopping.antt =====
-- `stop` and `complete_pending_commands` of http_server.cpp, with no other thread in between.
use windbg_agent.Base.{
  ℕ, ◌≡◌, refl, ◌∙◌, List, [], ◌∷◌, ◌++◌, true, false, Bytes, arith, if◌then◌else◌, ◌<◌,
}
use windbg_agent.CommandQueue.{
  signalled, PendingCommand, QueueResult, Caller, waiting, returned, Callback, Texts, State, done,
  conclude, update, holds, Event, wakes, halts, swaps, drains, step, run,
}
use windbg_agent.CommandQueue.Lifetime.{Sound}
use windbg_agent.CommandQueue.Ledger.{count, Ledger, Waitable, step-Waitable, step-Ledger}
use windbg_agent.CommandQueue.Progress.{run-append}

-- The calls of `complete_pending_commands`, then of `stop`, by one thread.
abbrev pub completes : List ℕ → List Event
completes [] = []
completes (k ∷ ks) = drains k ∷ signalled k ∷ completes ks

abbrev pub stops : State → List Event
stops s = halts ∷ swaps ∷ completes s.pending

-- A call whose command was cancelled.
abbrev pub cancelled : Bytes → Caller → Caller
cancelled text (waiting c) = waiting (record c { result = text; completed = true })
cancelled text c = c

pub after_drain : Bytes → List ℕ → (ℕ → Caller) → ℕ → Caller
after_drain text [] f = f
after_drain text (k ∷ ks) f = after_drain text ks (update f k (cancelled text (f k)))

module _ (texts : Texts) (exec : List Bytes → Bytes → Callback) where
  drained : State → ℕ → List ℕ → State
  drained s k ks = record s {
    draining = ks;
    signals = k ∷ s.signals;
    callers = update s.callers k (cancelled texts.stopped (s.callers k));
  }

  run-drains :
      (s : State) (k : ℕ) (ks : List ℕ)
      → s.draining ≡ k ∷ ks
      → Waitable s
      → Ledger s
      → step texts exec (drains k) s ≡ done (drained s k ks)
  unfolding step drained
  run-drains s k ks e w l = ground (arith, l k, w k)

  run-signalled :
      (s : State) (k : ℕ) (ks : List ℕ)
      → s.draining ≡ k ∷ ks
      → Ledger s
      → step texts exec (signalled k) (drained s k ks)
        ≡ done (record s {
          draining = ks;
          callers = update s.callers k (cancelled texts.stopped (s.callers k));
        })
  unfolding step drained
  run-signalled s k ks e l = ground (arith, l k)

  -- The loop follows its pointers one by one.
  run-completes :
      (ks : List ℕ) (s : State)
      → s.draining ≡ ks
      → Waitable s
      → Ledger s
      → run texts exec (completes ks) s
        ≡ done (record s { draining = []; callers = after_drain texts.stopped ks s.callers })
  unfolding run after_drain
  run-completes [] s e w l = rw e
  run-completes (k ∷ ks) s e w l =
      let first = run-drains s k ks e w l in
      let second = run-signalled s k ks e l in
      let w1 = step-Waitable texts exec (drains k) s first w in
      let l1 = step-Ledger texts exec (drains k) s first w tt l in
      rw (first, second)
        (run-completes ks _ refl (step-Waitable texts exec (signalled k) (drained s k ks) second w1)
          (step-Ledger texts exec (signalled k) (drained s k ks) second w1 tt l1))

  after_drain_lem :
      (text : Bytes) (ks : List ℕ) (f : ℕ → Caller) (k : ℕ)
      → after_drain text ks f k ≡ (if holds k ks then cancelled text (f k) else f k)
  unfolding after_drain holds
  after_drain_lem text [] f k = refl
  after_drain_lem text (x ∷ ks) f k =
      ground (arith, after_drain_lem text ks (update f x (cancelled text (f x))) k)

  count-pos-holds : (k : ℕ) (ks : List ℕ) → 0 < count k ks → holds k ks ≡ true
  unfolding holds
  count-pos-holds k [] h = absurd (omega arith)
  count-pos-holds k (x ∷ ks) h = ground (arith, count-pos-holds k ks)

  -- The state that `stop` leaves: an empty queue, and every queued command completed.
  unfoldable pub after_stop : State → State
  after_stop s = record s {
    running = false;
    pending = [];
    draining = [];
    callers = after_drain texts.stopped s.pending s.callers;
  }

  pub run-stops :
      (s : State)
      → Sound texts exec s
      → s.draining ≡ []
      → run texts exec (stops s) s ≡ done (after_stop s)
  unfolding run step after_stop
  run-stops s v e =
      let t = record s { running = false; draining = s.draining ++ s.pending; pending = [] } in
      let u = record s { running = false } in
      let l : Ledger t =
        step-Ledger texts exec swaps u (unfold step in refl) v.waitable tt v.ledger in
      run-completes s.pending t (rw e) v.waitable l

  -- The call of a waiter whose command lay in the queue, once `stop` is through.
  wakes_after_stop :
      (s : State) (k : ℕ) (c : PendingCommand)
      → s.callers k ≡ waiting c
      → 0 < count k s.pending
      → run texts exec (wakes k ∷ []) (after_stop s)
        ≡ done (record (after_stop s) {
          callers =
              update
                (after_stop s).callers
                k
                (returned c.input (record { success = true; payload = texts.stopped }));
        })
  unfolding run step after_stop
  wakes_after_stop s k c e q =
      ground
        (arith, count-pos-holds k s.pending q, after_drain_lem texts.stopped s.pending s.callers k)

  -- Where `stop` finds a server that runs, no other `stop` is under way, and no other thread moves until it has drained the queue and
  -- notified the waiters, it follows no dead pointer and leaves an empty queue, and each call whose
  -- command it found in the queue can then return. It returns the text of a stopped server, as a success:
  -- `queue_and_wait` means to report a stopped server as a failure, but takes any completed command
  -- for a success, and `complete_pending_commands` completes what it cancels.
  pub stop-reports_success :
      (s : State) (k : ℕ) (c : PendingCommand)
      → Sound texts exec s
      → s.draining ≡ []
      → s.callers k ≡ waiting c
      → 0 < count k s.pending
      → (s' : State) × (run texts exec (stops s ++ wakes k ∷ []) s ≡ done s')
        × (s'.callers k ≡ returned c.input (record { success = true; payload = texts.stopped }))
        × (s'.pending ≡ [])
        × (s'.running ≡ false)
  stop-reports_success s k c v e h q = (
    record (after_stop s) {
      callers =
          update (after_stop s).callers k
            (returned c.input (record { success = true; payload = texts.stopped }));
    },
    run-append texts exec (stops s) (wakes k ∷ []) s
        ∙ rw (run-stops s v e) (wakes_after_stop s k c h q),
    ground arith,
    unfold after_stop in refl,
    unfold after_stop in refl,
  )

  -- After `stop`, no waiting call is left to wait: whatever became of its command, it may return.
  pub stopped-returns :
      (s : State) (k : ℕ) (c : PendingCommand)
      → s.running ≡ false
      → s.callers k ≡ waiting c
      → (s' : State) × (q : QueueResult) × (step texts exec (wakes k) s ≡ done s')
        × (s'.callers k ≡ returned c.input q)
  unfolding step
  stopped-returns s k c r e = (
    record s { callers = update s.callers k (returned c.input (conclude texts c)) },
    conclude texts c,
    ground arith,
    ground arith,
  )
