-- ===== src/CommandQueue/Results.antt =====
-- What `queue_and_wait` of http_server.cpp may return, in every interleaving.
use windbg_agent.Base.{
  ℕ, ◌≡◌, refl, List, [], ◌∷◌, ◌++◌, append_assoc, Bool, true, false, not, ◌||◌, subst, Bytes, ◌==◌,
  ◌⊎◌, inl, inr, Bool-cases,
}
use windbg_agent.CommandQueue.{
  notifying, notify, notify_from, signal, close, sweep, ended, Listener, listening, closed, without,
  notifies, signalled, closes, sweeps, PendingCommand, QueueResult, Caller, outside, admitted,
  waiting, returned, holding, Worker, at_top, at_queue, Callback, Texts, State, Outcome, done,
  enter, push, wake, top, take_front, poll, answer, finish, complete_at, drain, restart, holds,
  reply, complete, cancel, conclude, update, Event, enters, pushes, wakes, tops, polls, finishes,
  halts, swaps, drains, restarts, step, run, started,
}
use windbg_agent.CommandQueue.Ledger.{Waitable, step-Waitable, >>=-eq-done}

module _ (texts : Texts) (exec : List Bytes → Bytes → Callback) where
  -- The debugger was given this command at some point of its session, and answered so.
  pub record Ran (session : List Bytes) (input result : Bytes) : Type 0 where
    pub before : List Bytes
    pub after : List Bytes
    pub splits : session ≡ before ++ input ∷ after
    pub answer : result ≡ reply (exec before input)

  abbrev pub IsResult : List Bytes → Bytes → Bytes → Type 0
  IsResult session input result = (result ≡ texts.stopped) ⊎ Ran session input result

  abbrev pub IsFailure : QueueResult → Type 0
  IsFailure q =
      (q.success ≡ false) × ((q.payload ≡ texts.not_running) ⊎ (q.payload ≡ texts.stopped))

  abbrev pub Reports : List Bytes → Bytes → QueueResult → Type 0
  Reports session input q = IsFailure q ⊎ ((q.success ≡ true) × IsResult session input q.payload)

  -- What each state of a call says of the debugger's session.
  abbrev pub Truthful : List Bytes → Caller → Type 0
  Truthful session (waiting c) = c.completed ≡ true → IsResult session c.input c.result
  Truthful session (returned input q) = Reports session input q
  Truthful session _ = Unit

  Ran-append :
      (session more : List Bytes) {input result : Bytes}
      → Ran session input result
      → Ran (session ++ more) input result
  Ran-append session more r = record {
    before = r.before;
    after = r.after ++ more;
    splits = rw r.splits (append_assoc r.before (_ ∷ r.after) more);
    answer = r.answer;
  }

  IsResult-append :
      (session more : List Bytes) {input result : Bytes}
      → IsResult session input result
      → IsResult (session ++ more) input result
  IsResult-append session more (inl e) = inl e
  IsResult-append session more (inr r) = inr (Ran-append session more r)

  Truthful-append :
      (session more : List Bytes) (c : Caller) → Truthful session c → Truthful (session ++ more) c
  Truthful-append session more (waiting c) t = λ e. IsResult-append session more (t e)
  Truthful-append session more (returned input q) (inl f) = inl f
  Truthful-append session more (returned input q) (inr (e, r)) =
      inr (e, IsResult-append session more r)
  Truthful-append session more outside t = tt
  Truthful-append session more (admitted input) t = tt

  Truthful-complete :
      (session : List Bytes) (c : PendingCommand)
      → c.waitable ≡ true
      → Truthful (session ++ c.input ∷ []) (waiting (complete c (reply (exec session c.input))))
  unfolding complete
  Truthful-complete session c w =
      rw w (λ e. inr (record { before = session; after = []; splits = refl; answer = refl }))

  Truthful-cancel :
      (session : List Bytes) (c : PendingCommand)
      → Truthful session (waiting c)
      → Truthful session (waiting (cancel c texts.stopped))
  unfolding cancel
  Truthful-cancel session c t = elim (Bool-cases c.waitable) [
    | inr e ↦ rw e t
    | inl e ↦
        rw e
          (elim (Bool-cases c.completed) [ inl d ↦ rw d (λ _. t d) | inr d ↦ rw d (λ _. inl refl) ])
  ]

  Reports-conclude :
      (session : List Bytes) (c : PendingCommand)
      → Truthful session (waiting c)
      → Reports session c.input (conclude texts c)
  unfolding conclude
  Reports-conclude session c t = elim (Bool-cases c.completed) [
    | inl e ↦ rw e (inr (refl, t e))
    | inr e ↦ rw e (inl (refl, inr refl))
  ]

  abbrev pub AllTruthful : State → Type 0
  AllTruthful s = ((k : ℕ) → Truthful s.session (s.callers k)) × Waitable s

  abbrev After : Outcome → Type 0
  After (done s) = (k : ℕ) → Truthful s.session (s.callers k)
  After _ = Unit

  update-Truthful :
      (session : List Bytes) (f : ℕ → Caller) (k : ℕ) (c : Caller)
      → ((j : ℕ) → Truthful session (f j))
      → Truthful session c
      → (j : ℕ) → Truthful session (update f k c j)
  update-Truthful session f k c all t j = elim (Bool-cases (j == k)) [
    | inl e ↦ rw e t
    | inr e ↦ rw e (all j)
  ]

  enter-After :
      (k : ℕ) (input : Bytes) (c : Caller) (s : State)
      → AllTruthful s
      → After (enter texts k input c s)
  unfolding enter
  enter-After k input outside s v =
      update-Truthful s.session s.callers k _ v.0
        (elim (Bool-cases s.running) [ inl e ↦ rw e tt | inr e ↦ rw e (inl (refl, inl refl)) ])
  enter-After k input _ s v = tt

  push-After : (k : ℕ) (c : Caller) (s : State) → AllTruthful s → After (push k c s)
  unfolding push
  push-After k (admitted input) s v = update-Truthful s.session s.callers k _ v.0 (λ e. cc)
  push-After k _ s v = tt

  wake-After :
      (k : ℕ) (c : Caller) (s : State) → s.callers k ≡ c → AllTruthful s → After (wake texts k c s)
  unfolding wake
  wake-After k (waiting c) s e v = elim (Bool-cases (c.completed || not s.running)) [
    | inl go ↦ rw go (
        update-Truthful s.session s.callers k _ v.0
          (Reports-conclude s.session c (rw e at (v.0 k))))
    | inr stay ↦ rw stay tt
  ]
  wake-After k _ s e v = tt

  answer-After :
      (k : ℕ) (c : Caller) (s : State) → s.callers k ≡ c → AllTruthful s → After (answer exec k c s)
  unfolding answer
  answer-After k (waiting c) s e v =
      update-Truthful (s.session ++ c.input ∷ []) s.callers k _
        (λ j. Truthful-append s.session (c.input ∷ []) (s.callers j) (v.0 j))
        (Truthful-complete s.session c (rw e at (v.1 k)))
  answer-After k _ s e v = tt

  complete_at-After :
      (k : ℕ) (c : Caller) (s : State)
      → s.callers k ≡ c
      → AllTruthful s
      → After (complete_at texts k c s)
  unfolding complete_at
  complete_at-After k (waiting c) s e v =
      update-Truthful s.session s.callers k _ v.0 (Truthful-cancel s.session c (rw e at (v.0 k)))
  complete_at-After k _ s e v = tt

  top-After : (i : Bool) (w : Worker) (s : State) → AllTruthful s → After (top i w s)
  unfolding top
  top-After i at_top s v = elim (Bool-cases s.running) [
    | inr e ↦ rw e v.0
    | inl e ↦ rw e (elim (Bool-cases i) [ inl f ↦ rw f tt | inr f ↦ rw f v.0 ])
  ]
  top-After i _ s v = tt

  take_front-After : (ks : List ℕ) (s : State) → AllTruthful s → After (take_front ks s)
  unfolding take_front
  take_front-After [] s v = v.0
  take_front-After (k ∷ ks) s v = v.0

  poll-After : (w : Worker) (s : State) → AllTruthful s → After (poll w s)
  unfolding poll
  poll-After at_queue s v = take_front-After s.pending s v
  poll-After _ s v = tt

  finish-After : (w : Worker) (s : State) → AllTruthful s → After (finish exec w s)
  unfolding finish
  finish-After (holding k) s v = answer-After k (s.callers k) s refl v
  finish-After _ s v = tt

  drain-After : (k : ℕ) (s : State) → AllTruthful s → After (drain texts k s)
  unfolding drain
  drain-After k s v = elim (Bool-cases (holds k s.draining)) [
    | inl e ↦ rw e (complete_at-After k (s.callers k) s refl v)
    | inr e ↦ rw e tt
  ]

  notify-After : (c : Caller) (s : State) → AllTruthful s → After (notify c s)
  unfolding notify
  notify-After (waiting c) s v = v.0
  notify-After _ s v = tt

  notify_from-After : (w : Worker) (s : State) → AllTruthful s → After (notify_from w s)
  unfolding notify_from
  notify_from-After (notifying k) s v = notify-After (s.callers k) (record s { worker = at_top }) v
  notify_from-After _ s v = tt

  signal-After : (k : ℕ) (s : State) → AllTruthful s → After (signal k s)
  unfolding signal
  signal-After k s v = elim (Bool-cases (holds k s.signals)) [
    | inl e ↦ rw e (notify-After (s.callers k) (record s { signals = without k s.signals }) v)
    | inr e ↦ rw e tt
  ]

  close-After : (l : Listener) (s : State) → AllTruthful s → After (close l s)
  unfolding close
  close-After listening s v = v.0
  close-After _ s v = tt

  sweep-After : (l : Listener) (s : State) → AllTruthful s → After (sweep l s)
  unfolding sweep
  sweep-After closed s v = v.0
  sweep-After _ s v = tt

  restart-After : (s : State) → AllTruthful s → After (restart s)
  unfolding restart
  restart-After s v = elim (Bool-cases (ended s)) [ inl e ↦ rw e v.0 | inr e ↦ rw e tt ]

  step-After : (e : Event) (s : State) → AllTruthful s → After (step texts exec e s)
  unfolding step
  step-After (enters k input) s v = enter-After k input (s.callers k) s v
  step-After (pushes k) s v = push-After k (s.callers k) s v
  step-After (wakes k) s v = wake-After k (s.callers k) s refl v
  step-After (tops i) s v = top-After i s.worker s v
  step-After polls s v = poll-After s.worker s v
  step-After finishes s v = finish-After s.worker s v
  step-After notifies s v = notify_from-After s.worker s v
  step-After halts s v = v.0
  step-After swaps s v = v.0
  step-After (drains k) s v = drain-After k s v
  step-After (signalled k) s v = signal-After k s v
  step-After closes s v = close-After s.listener s v
  step-After sweeps s v = sweep-After s.listener s v
  step-After restarts s v = restart-After s v

  run-AllTruthful :
      (es : List Event) (s : State) {s' : State}
      → run texts exec es s ≡ done s'
      → AllTruthful s
      → (k : ℕ) → Truthful s'.session (s'.callers k)
  unfolding run
  run-AllTruthful [] s h v = subst After h v.0
  run-AllTruthful (e ∷ es) s h v =
      let (t, first, later) = >>=-eq-done (step texts exec e s) (run texts exec es) h in
      run-AllTruthful es t later
        (subst After first (step-After e s v), step-Waitable texts exec e s first v.1)

  -- In every interleaving, with stops and restarts, a call of `queue_and_wait(input)` that has
  -- returned either failed, with one of the two error texts, or succeeded with the debugger's answer
  -- to this very input at some point of its session, or with the text of a stopped server.
  pub queue_and_wait-Reports :
      (es : List Event) {s : State} (k : ℕ) {input : Bytes} {q : QueueResult}
      → run texts exec es started ≡ done s
      → s.callers k ≡ returned input q
      → Reports s.session input q
  queue_and_wait-Reports es k h e = rw e at (run-AllTruthful es started h ((λ j. tt), (λ j. tt)) k)
