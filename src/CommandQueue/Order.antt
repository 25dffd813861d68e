-- ===== src/CommandQueue/Order.antt =====
-- The order in which the command thread of http_server.cpp runs what was pushed.
use windbg_agent.Base.{
  if◌then◌else◌, true, false, ℕ, ◌+◌, ◌≡◌, refl, ap, ◌∙◌, List, [], ◌∷◌, ◌++◌, append-nil,
  append_assoc, Bool, Bytes, arith, inl, inr, Bool-cases, All, not, ◌||◌, subst,
}
use windbg_agent.CommandQueue.{
  notifying, notify, notify_from, signal, ended, holds, without, notifies, signalled, closes,
  sweeps, Caller, outside, admitted, waiting, returned, holding, Worker, at_top, at_queue, Callback,
  Texts, State, Outcome, done, reply, complete, update, fresh, enter, push, wake, top, take_front,
  poll, answer, finish, restart, Event, enters, pushes, wakes, tops, polls, finishes, halts, swaps,
  drains, restarts, step, run, started,
}
use windbg_agent.CommandQueue.Lifetime.{Sound, step-Sound, started-Sound, KeepsRunning}
use windbg_agent.CommandQueue.Ledger.{count, in_hand, Ledger, >>=-eq-done}

-- The input of a call, from the moment that it is past the test of `running_`.
abbrev pub input_of : Caller → Bytes
input_of outside = []
input_of (admitted input) = input
input_of (waiting c) = c.input
input_of (returned input q) = input

abbrev pub inputs : (ℕ → Caller) → List ℕ → List Bytes
inputs f [] = []
inputs f (k ∷ ks) = input_of (f k) ∷ inputs f ks

abbrev pub in_flight : (ℕ → Caller) → Worker → List Bytes
in_flight f (holding k) = input_of (f k) ∷ []
in_flight f _ = []

-- The inputs that are with the command thread or in the queue, the oldest first.
abbrev pub waiting_line : (ℕ → Caller) → Worker → List ℕ → List Bytes
waiting_line f w ks = in_flight f w ++ inputs f ks

pub inputs-append :
    (f : ℕ → Caller) (xs ys : List ℕ) → inputs f (xs ++ ys) ≡ inputs f xs ++ inputs f ys
inputs-append f [] ys = refl
inputs-append f (x ∷ xs) ys = ap (◌∷◌ (input_of (f x))) (inputs-append f xs ys)

-- A change of a call that no pointer of the list refers to, or that keeps its input.
inputs-update_absent :
    (f : ℕ → Caller) (k : ℕ) (c : Caller) (ks : List ℕ)
    → count k ks ≡ 0
    → inputs (update f k c) ks ≡ inputs f ks
inputs-update_absent f k c [] h = refl
inputs-update_absent f k c (x ∷ ks) h = ground (arith, inputs-update_absent f k c ks)

pub inputs-update_same :
    (f : ℕ → Caller) (k : ℕ) (c : Caller) (ks : List ℕ)
    → input_of c ≡ input_of (f k)
    → inputs (update f k c) ks ≡ inputs f ks
inputs-update_same f k c [] h = refl
inputs-update_same f k c (x ∷ ks) h = ground (arith, inputs-update_same f k c ks)

waiting_line-update_absent :
    (f : ℕ → Caller) (k : ℕ) (c : Caller) (w : Worker) (ks : List ℕ)
    → in_hand k w + count k ks ≡ 0
    → waiting_line (update f k c) w ks ≡ waiting_line f w ks
waiting_line-update_absent f k c w ks h = ground (arith, inputs-update_absent f k c ks)

waiting_line-update_same :
    (f : ℕ → Caller) (k : ℕ) (c : Caller) (w : Worker) (ks : List ℕ)
    → input_of c ≡ input_of (f k)
    → waiting_line (update f k c) w ks ≡ waiting_line f w ks
waiting_line-update_same f k c w ks h = ground (arith, inputs-update_same f k c ks)

-- All that the server was given, in the order in which the debugger gets it.
abbrev pub line : State → List Bytes
line s = s.session ++ waiting_line s.callers s.worker s.pending

abbrev pub pushed : Event → State → List Bytes
pushed (pushes k) s = input_of (s.callers k) ∷ []
pushed _ s = []

abbrev Extends : List Bytes → Outcome → Type 0
Extends line' (done s) = line s ≡ line'
Extends line' _ = Unit

-- Neither a stop nor the cancelling of the queue.
abbrev pub KeepsQueue : Event → Type 0
KeepsQueue halts = ⊥
KeepsQueue swaps = ⊥
KeepsQueue (drains k) = ⊥
KeepsQueue closes = ⊥
KeepsQueue sweeps = ⊥
KeepsQueue _ = Unit

enter-Extends :
    (texts : Texts) (k : ℕ) (input : Bytes) (c : Caller) (s : State)
    → s.callers k ≡ c
    → Ledger s
    → Extends (line s) (enter texts k input c s)
unfolding enter
enter-Extends texts k input outside s e l =
    ap (◌++◌ s.session)
      (waiting_line-update_absent s.callers k _ s.worker s.pending (ground (arith, l k)))
enter-Extends texts k input _ s e l = tt

push-Extends :
    (k : ℕ) (c : Caller) (s : State)
    → s.callers k ≡ c
    → Extends (line s ++ input_of c ∷ []) (push k c s)
unfolding push
push-Extends k (admitted input) s e =
    rw
      (
        waiting_line-update_same s.callers k (waiting (fresh input)) s.worker (s.pending ++ k ∷ [])
            (rw e),
        inputs-append,
        e,
      )
      (simp append_assoc)
push-Extends k _ s e = tt

wake-Extends :
    (texts : Texts) (k : ℕ) (c : Caller) (s : State)
    → s.callers k ≡ c
    → Extends (line s) (wake texts k c s)
unfolding wake
wake-Extends texts k (waiting c) s e = elim (Bool-cases (c.completed || not s.running)) [
  | inr stay ↦ rw stay tt
  | inl go ↦
      rw go (ap (◌++◌ s.session) (waiting_line-update_same s.callers k _ s.worker s.pending (rw e)))
]
wake-Extends texts k _ s e = tt

-- With the command run, none is in flight.
in_flight-rest :
    (f : ℕ → Caller) (b : Bool) (k : ℕ) → in_flight f (if b then notifying k else at_top) ≡ []
in_flight-rest f true k = refl
in_flight-rest f false k = refl

finish-Extends :
    (exec : List Bytes → Bytes → Callback) (k : ℕ) (c : Caller) (s : State)
    → s.worker ≡ holding k
    → s.callers k ≡ c
    → Extends (line s) (answer exec k c s)
unfolding answer complete
finish-Extends exec k (waiting c) s h e =
    rw
      (
        h,
        inputs-update_same s.callers k (waiting (complete c (reply (exec s.session c.input))))
            s.pending (ground arith),
        e,
        in_flight-rest _ c.waitable k,
      )
      (append_assoc s.session (c.input ∷ []) _)
finish-Extends exec k _ s h e = tt

take_front-Extends :
    (ks : List ℕ) (s : State)
    → s.worker ≡ at_queue
    → s.pending ≡ ks
    → Extends (line s) (take_front ks s)
unfolding take_front
take_front-Extends [] s w e = ground arith
take_front-Extends (k ∷ ks) s w e = ground arith

poll-Extends : (w : Worker) (s : State) → s.worker ≡ w → Extends (line s) (poll w s)
unfolding poll
poll-Extends at_queue s e = take_front-Extends s.pending s e refl
poll-Extends _ s e = tt

top-Extends : (i : Bool) (w : Worker) (s : State) → s.worker ≡ w → Extends (line s) (top i w s)
unfolding top
top-Extends i at_top s e = ground arith
top-Extends i _ s e = tt

notify-Extends : (l : List Bytes) (c : Caller) (s : State) → line s ≡ l → Extends l (notify c s)
unfolding notify
notify-Extends l (waiting c) s e = e
notify-Extends l _ s e = tt

notify_from-Extends : (w : Worker) (s : State) → s.worker ≡ w → Extends (line s) (notify_from w s)
unfolding notify_from
notify_from-Extends (notifying k) s e =
    notify-Extends (line s) (s.callers k) (record s { worker = at_top }) (ground arith)
notify_from-Extends _ s e = tt

signal-Extends : (k : ℕ) (s : State) → Extends (line s) (signal k s)
unfolding signal
signal-Extends k s = elim (Bool-cases (holds k s.signals)) [
  | inl e ↦
      rw e (notify-Extends (line s) (s.callers k) (record s { signals = without k s.signals }) refl)
  | inr e ↦ rw e tt
]

restart-Extends : (s : State) → Extends (line s) (restart s)
unfolding restart ended
restart-Extends s = ground arith

finishes-Extends :
    (exec : List Bytes → Bytes → Callback) (w : Worker) (s : State)
    → s.worker ≡ w
    → Extends (line s) (finish exec w s)
unfolding finish
finishes-Extends exec (holding k) s e = finish-Extends exec k (s.callers k) s e refl
finishes-Extends exec _ s e = tt

module _ (texts : Texts) (exec : List Bytes → Bytes → Callback) where
  step-Extends :
      (e : Event) (s : State)
      → KeepsQueue e
      → Ledger s
      → Extends (line s ++ pushed e s) (step texts exec e s)
  unfolding step
  step-Extends (enters k input) s n l =
      rw append-nil (enter-Extends texts k input (s.callers k) s refl l)
  step-Extends (pushes k) s n l = push-Extends k (s.callers k) s refl
  step-Extends (wakes k) s n l = rw append-nil (wake-Extends texts k (s.callers k) s refl)
  step-Extends (tops i) s n l = rw append-nil (top-Extends i s.worker s refl)
  step-Extends polls s n l = rw append-nil (poll-Extends s.worker s refl)
  step-Extends finishes s n l = rw append-nil (finishes-Extends exec s.worker s refl)
  step-Extends notifies s n l = rw append-nil (notify_from-Extends s.worker s refl)
  step-Extends halts s n l = absurd n
  step-Extends swaps s n l = absurd n
  step-Extends (drains k) s n l = absurd n
  step-Extends (signalled k) s n l = rw append-nil (signal-Extends k s)
  step-Extends closes s n l = absurd n
  step-Extends sweeps s n l = absurd n
  step-Extends restarts s n l = rw append-nil (restart-Extends s)

  -- The inputs of the commands that a run pushes, in the order of the pushes.
  pub all_pushed : List Event → State → List Bytes
  all_pushed [] s = []
  all_pushed (e ∷ es) s = elim (step texts exec e s) [
    | done s' ↦ pushed e s ++ all_pushed es s'
    | _ ↦ []
  ]

  KeepsQueue-KeepsRunning : (e : Event) → KeepsQueue e → KeepsRunning e
  KeepsQueue-KeepsRunning halts n = n
  KeepsQueue-KeepsRunning closes n = n
  KeepsQueue-KeepsRunning _ n = tt

  run-line :
      (es : List Event) (s : State) {s' : State}
      → All KeepsQueue es
      → run texts exec es s ≡ done s'
      → Sound texts exec s
      → line s' ≡ line s ++ all_pushed es s
  unfolding run all_pushed
  run-line [] s n h v = rw append-nil (subst (Extends (line s)) h refl)
  run-line (e ∷ es) s n h v =
      let (t, first, later) = >>=-eq-done (step texts exec e s) (run texts exec es) h in
      let one : line t ≡ line s ++ pushed e s =
        subst (Extends (line s ++ pushed e s)) first (step-Extends e s n.0 v.ledger) in
      let rest =
        run-line es t n.1 later
          (step-Sound texts exec e s (KeepsQueue-KeepsRunning e n.0) first v) in
      rw (first, all_pushed)
        (rest ∙ ap (λ x. x ++ all_pushed es t) one ∙ append_assoc (line s) (pushed e s) _)

  -- While the server is not stopped, commands are run in the order of their pushes: what the debugger
  -- has been given, then the command in hand, then the queue, are together exactly the inputs of all
  -- pushes so far, each once and in order.
  pub run_fifo :
      (es : List Event) {s : State}
      → All KeepsQueue es
      → run texts exec es started ≡ done s
      → s.session ++ waiting_line s.callers s.worker s.pending ≡ all_pushed es started
  run_fifo es n h = run-line es started n h (started-Sound texts exec)
