-- ===== src/CommandQueue/Progress.antt =====
-- The command loop of http_server.cpp serves its queue: every command in the queue is run after as
-- many rounds as its place in the queue says, and its caller gets the debugger's answer.
use windbg_agent.Base.{
  ℕ, zero, suc, ◌≡◌, refl, ap, ◌∙◌, List, [], ◌∷◌, ◌++◌, append-nil, append_assoc, ◌<◌, fun_ext,
  true, false, Bytes, arith, All, length,
}
use windbg_agent.CommandQueue.{
  notifies, PendingCommand, Caller, waiting, returned, at_top, Callback, Texts, State, Outcome,
  done, ◌>>=◌, reply, complete, update, Event, wakes, tops, polls, finishes, step, run, outside,
  admitted, blocked, dangling, terminated,
}
use windbg_agent.CommandQueue.Lifetime.{KeepsRunning, Sound, run-Sound}
use windbg_agent.CommandQueue.Ledger.{count-append, owed}
use windbg_agent.CommandQueue.Order.{inputs, inputs-update_same}

-- One pass of the loop: the test, the pop, the call of the callback, and the notification.
abbrev pub round : List Event
round = tops false ∷ polls ∷ finishes ∷ notifies ∷ []

abbrev pub rounds : ℕ → List Event
rounds zero = []
rounds (suc n) = round ++ rounds n

round-KeepsRunning : (n : ℕ) → All KeepsRunning (rounds n)
round-KeepsRunning zero = tt
round-KeepsRunning (suc n) = (tt, (tt, (tt, (tt, round-KeepsRunning n))))

-- The server after one round with this command.
served : (List Bytes → Bytes → Callback) → State → ℕ → List ℕ → PendingCommand → State
served exec s k ks c = record s {
  pending = ks;
  worker = at_top;
  callers = update s.callers k (waiting (complete c (reply (exec s.session c.input))));
  session = s.session ++ c.input ∷ [];
}

-- A call whose pointer lies in the queue is waiting for its command.
queued-waiting : (k : ℕ) (c : Caller) → 0 < owed c → (d : PendingCommand) × (c ≡ waiting d)
queued-waiting k (waiting d) h = (d, refl)
queued-waiting k outside h = absurd (omega arith)
queued-waiting k (admitted i) h = absurd (omega arith)
queued-waiting k (returned i q) h = absurd (omega arith)

>>=_assoc : (m : Outcome) (f g : State → Outcome) → (m >>= λ s. f s >>= g) ≡ (m >>= f >>= g)
>>=_assoc (done s) f g = refl
>>=_assoc blocked f g = refl
>>=_assoc dangling f g = refl
>>=_assoc terminated f g = refl

module _ (texts : Texts) (exec : List Bytes → Bytes → Callback) where
  pub run-append :
      (xs ys : List Event) (s : State)
      → run texts exec (xs ++ ys) s ≡ (run texts exec xs s >>= run texts exec ys)
  unfolding run
  run-append [] ys s = refl
  run-append (e ∷ xs) ys s =
      ap (λ f. step texts exec e s >>= f) (fun_ext (run-append xs ys))
      ∙ >>=_assoc (step texts exec e s) (run texts exec xs) (run texts exec ys)

  run-round :
      (s : State) (k : ℕ) (ks : List ℕ) (c : PendingCommand)
      → s.running ≡ true
      → s.worker ≡ at_top
      → s.pending ≡ k ∷ ks
      → s.callers k ≡ waiting c
      → c.waitable ≡ true
      → run texts exec round s ≡ done (served exec s k ks c)
  unfolding run step served
  run-round s k ks c r w p e m = ground arith

  -- The head of the queue is the command of a waiting call.
  head_waiting :
      (s : State) (k : ℕ) (ks : List ℕ)
      → Sound texts exec s
      → s.pending ≡ k ∷ ks
      → (d : PendingCommand) × (s.callers k ≡ waiting d)
  head_waiting s k ks v p = queued-waiting k (s.callers k) (ground (arith, v.ledger k))

  -- Serving the head of the queue leaves every call behind it as it was.
  served-other :
      (s : State) (j k : ℕ) (before after : List ℕ) (c d : PendingCommand)
      → Sound texts exec s
      → s.pending ≡ j ∷ (before ++ k ∷ after)
      → s.callers k ≡ waiting c
      → (served exec s j (before ++ k ∷ after) d).callers k ≡ waiting c
  unfolding served
  served-other s j k before after c d v p e =
      ground (arith, v.ledger k, count-append k before (k ∷ after))

  served-inputs :
      (s : State) (j : ℕ) (ks before : List ℕ) (d : PendingCommand)
      → s.callers j ≡ waiting d
      → inputs (served exec s j ks d).callers before ≡ inputs s.callers before
  unfolding served complete
  served-inputs s j ks before d e = inputs-update_same s.callers j _ before (ground arith)

  served_self :
      (s : State) (k : ℕ) (ks : List ℕ) (c : PendingCommand)
      → (served exec s k ks c).callers k
        ≡ waiting (complete c (reply (exec (s.session ++ []) c.input)))
  unfolding served
  served_self s k ks c = rw append-nil (ground arith)

  served-session :
      (s : State) (j : ℕ) (ks before : List ℕ) (d : PendingCommand)
      → s.callers j ≡ waiting d
      → (served exec s j ks d).session ++ inputs (served exec s j ks d).callers before
        ≡ s.session ++ inputs s.callers (j ∷ before)
  served-session s j ks before d e =
      rw (served-inputs s j ks before d e, e)
        (unfold served in append_assoc s.session (d.input ∷ []) (inputs s.callers before))

  serves :
      (before : List ℕ) (k : ℕ) (after : List ℕ) (s : State) (c : PendingCommand)
      → Sound texts exec s
      → s.worker ≡ at_top
      → s.pending ≡ before ++ k ∷ after
      → s.callers k ≡ waiting c
      → (s' : State) × (run texts exec (rounds (suc (length before))) s ≡ done s')
        × (s'.callers k
            ≡ waiting (complete c (reply (exec (s.session ++ inputs s.callers before) c.input))))
        × (s'.pending ≡ after)
  serves [] k after s c v w p e = (
    served exec s k after c,
    run-append round [] s
        ∙ rw (run-round s k after c v.is_running w p e (rw e at (v.waitable k)))
            (unfold run in refl),
    served_self s k after c,
    unfold served in refl,
  )
  serves (j ∷ before) k after s c v w p e =
      let (d, ej) = head_waiting s j (before ++ k ∷ after) v p in
      let ks = before ++ k ∷ after in
      let first = run-round s j ks d v.is_running w p ej (rw ej at (v.waitable j)) in
      let t = served exec s j ks d in
      let (s', ran, got, left) =
        serves before k after t c (run-Sound texts exec round s (tt, (tt, (tt, (tt, tt)))) first v)
          (unfold served in refl) (unfold served in refl)
          (served-other s j k before after c d v p e) in
      (
        s',
        run-append round (rounds (suc (length before))) s ∙ rw first ran,
        got
            ∙ ap (λ h. waiting (complete c (reply (exec h c.input))))
                (served-session s j ks before d ej),
        left,
      )

  conclude-complete :
      (s : State) (k : ℕ) (c : PendingCommand) (r : Bytes)
      → c.waitable ≡ true
      → s.callers k ≡ waiting (complete c r)
      → run texts exec (wakes k ∷ []) s
        ≡ done (record s {
          callers = update s.callers k (returned c.input (record { success = true; payload = r }));
        })
  unfolding run step complete
  conclude-complete s k c r w e = ground arith

  -- A call whose command stands in the queue of a running server returns once the command loop has
  -- made one round for each command up to it, and returns the debugger's answer to its input, given
  -- after the inputs before it.
  pub queue_and_wait-returns :
      (before : List ℕ) (k : ℕ) (after : List ℕ) (s : State) (c : PendingCommand)
      → Sound texts exec s
      → s.worker ≡ at_top
      → s.pending ≡ before ++ k ∷ after
      → s.callers k ≡ waiting c
      → (s' : State) × (run texts exec (rounds (suc (length before)) ++ wakes k ∷ []) s ≡ done s')
        × (s'.callers k
            ≡ returned c.input (record {
              success = true;
              payload = reply (exec (s.session ++ inputs s.callers before) c.input);
            }))
        × (s'.pending ≡ after)
  queue_and_wait-returns before k after s c v w p e =
      let (t, ran, got, left) = serves before k after s c v w p e in
      let r = reply (exec (s.session ++ inputs s.callers before) c.input) in
      (
        record t {
          callers = update t.callers k (returned c.input (record { success = true; payload = r }));
        },
        run-append (rounds (suc (length before))) (wakes k ∷ []) s
            ∙ rw ran (conclude-complete t k c r (rw e at (v.waitable k)) got),
        ground arith,
        left,
      )
