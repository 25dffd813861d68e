-- ===== src/CommandQueue.antt =====
-- http_server.hpp and http_server.cpp: the queue that carries commands from the threads of the HTTP
-- handlers to the command thread, as atomic steps that interleave in any order. mcp_server.cpp has
-- the same queue with its own texts, so the texts are a parameter.
--
-- A pointer to a `PendingCommand` is the number of the call of `queue_and_wait` on whose stack the
-- command lies. It is alive exactly as long as that call waits; a step that follows a dead pointer
-- is `dangling`. A condition variable may wake a waiter at any time, as C++ allows.
pub mod Joining
pub mod Ledger
pub mod Lifetime
pub mod Results
pub mod Order
pub mod Progress
pub mod Stopping
pub mod Tests
use windbg_agent.Base.{
  ℕ, List, [], ◌∷◌, ◌++◌, Bool, true, false, not, ◌&&◌, ◌||◌, Bytes, codes, ◌==◌, if◌then◌else◌,
}

-- The condition variable and the mutex of the waiter are `waitable`: both pointers are set.
pub record PendingCommand : Type 0 where
  pub input : Bytes
  pub result : Bytes
  pub completed : Bool
  pub waitable : Bool

pub record QueueResult : Type 0 where
  pub success : Bool
  pub payload : Bytes

-- A thread that calls `queue_and_wait(input)`. `admitted`: past the test of `running_`, its command
-- not yet pushed. `returned` remembers the input for the specification.
pub data Caller : Type 0 where
  outside : Caller
  admitted : Bytes → Caller
  waiting : PendingCommand → Caller
  returned : Bytes → QueueResult → Caller

-- The command thread: before the loop's test, before the wait on the queue, with a command popped,
-- between the unlock and the `notify_one` of a completed command, or past the end of the loop.
pub data Worker : Type 0 where
  at_top at_queue exited : Worker
  holding notifying : ℕ → Worker

-- The server thread: in `listen_after_bind`, past the store of `running_`, or past the swap of its
-- `complete_pending_commands`.
pub data Listener : Type 0 where
  listening closed swept : Listener

-- What the call of the exec callback came to.
pub data Callback : Type 0 where
  no_handler : Callback
  answered : Bytes → Callback
  threw : Bytes → Callback

pub record Texts : Type 0 where
  pub not_running : Bytes
  pub stopped : Bytes

-- `draining` holds the pointers that calls of `complete_pending_commands` have swapped out and not
-- completed yet, and `signals` those whose command they completed, with the mutex released, and have
-- not notified yet. `session` is the debugger: the commands that it was given so far.
pub record State : Type 0 where
  pub running : Bool
  pub pending : List ℕ
  pub worker : Worker
  pub draining : List ℕ
  pub signals : List ℕ
  pub listener : Listener
  pub callers : ℕ → Caller
  pub session : List Bytes

pub data Outcome : Type 0 where
  done : State → Outcome
  blocked : Outcome
  dangling : Outcome
  terminated : Outcome

infixl 5 ◌>>=◌
abbrev pub ◌>>=◌ : Outcome → (State → Outcome) → Outcome
done s >>= f = f s
blocked >>= f = blocked
dangling >>= f = dangling
terminated >>= f = terminated

abbrev pub update : (ℕ → Caller) → ℕ → Caller → ℕ → Caller
update f k c j = if j == k then c else f j

abbrev pub fresh : Bytes → PendingCommand
fresh input = record { input = input; result = []; completed = false; waitable = true }

-- `cmd->result = …` and the answer to a callback that throws or is missing.
pub reply : Callback → Bytes
reply no_handler = codes "Error: No exec handler"
reply (answered r) = r
reply (threw what) = codes "Error: " ++ what

-- What the command thread does to the command that it has run.
pub complete : PendingCommand → Bytes → PendingCommand
complete c r =
    if c.waitable then record c { result = r; completed = true } else record c { result = r }

-- What `complete_pending_commands` does to one command.
pub cancel : PendingCommand → Bytes → PendingCommand
cancel c text =
    if not c.waitable
    then c
    else if c.completed
    then c
    else record c { result = text; completed = true }

-- The end of `queue_and_wait`.
pub conclude : Texts → PendingCommand → QueueResult
conclude texts c =
    if not c.completed
    then record { success = false; payload = texts.stopped }
    else record { success = true; payload = c.result }

-- Takes one occurrence of the pointer out of the list.
pub without : ℕ → List ℕ → List ℕ
without k [] = []
without k (x ∷ xs) = if x == k then xs else x ∷ without k xs

pub holds : ℕ → List ℕ → Bool
holds k [] = false
holds k (x ∷ xs) = x == k || holds k xs

-- `queue_and_wait`, up to the test of `running_`.
pub enter : Texts → ℕ → Bytes → Caller → State → Outcome
enter texts k input outside s = done (record s {
  callers = update s.callers k (
      if not s.running
      then returned input (record { success = false; payload = texts.not_running })
      else admitted input);
})
enter texts k input _ s = blocked

-- The push of the command and the start of the wait.
pub push : ℕ → Caller → State → Outcome
push k (admitted input) s = done (record s {
  pending = s.pending ++ k ∷ [];
  callers = update s.callers k (waiting (fresh input));
})
push k _ s = blocked

-- The waiter tests its predicate, and returns if it holds; the command dies with its stack frame.
pub wake : Texts → ℕ → Caller → State → Outcome
unfolding conclude
wake texts k (waiting c) s =
    if c.completed || not s.running
    then done (record s { callers = update s.callers k (returned c.input (conclude texts c)) })
    else blocked
wake texts k _ s = blocked

-- The head of `run_command_loop`. With an interrupt the command thread calls `stop()`, which joins
-- the thread that it runs on: `std::thread::join` throws, and nothing catches it.
pub top : Bool → Worker → State → Outcome
top interrupt at_top s =
    if not s.running
    then done (record s { worker = exited })
    else if interrupt
    then terminated
    else done (record s { worker = at_queue })
top interrupt _ s = blocked

-- The wait on the queue: a pop, or a timeout, or the server has stopped.
pub take_front : List ℕ → State → Outcome
take_front [] s = done (record s { worker = at_top })
take_front (k ∷ rest) s = done (record s { worker = holding k; pending = rest })

pub poll : Worker → State → Outcome
unfolding take_front
poll at_queue s = take_front s.pending s
poll _ s = blocked

-- The callback runs, and its answer is written through the pointer. The command is completed under the
-- mutex of its waiter, which may return as soon as the mutex is released.
pub answer : (List Bytes → Bytes → Callback) → ℕ → Caller → State → Outcome
answer exec k (waiting c) s = done (record s {
  worker = if c.waitable then notifying k else at_top;
  callers = update s.callers k (waiting (complete c (reply (exec s.session c.input))));
  session = s.session ++ c.input ∷ [];
})
answer exec k _ s = dangling

pub finish : (List Bytes → Bytes → Callback) → Worker → State → Outcome
unfolding answer complete reply
finish exec (holding k) s = answer exec k (s.callers k) s
finish exec _ s = blocked

-- `cmd->done_cv->notify_one()`: the pointer is followed once more, without the mutex.
pub notify : Caller → State → Outcome
notify (waiting c) s = done s
notify _ s = dangling

pub notify_from : Worker → State → Outcome
unfolding notify
notify_from (notifying k) s = notify (s.callers k) (record s { worker = at_top })
notify_from _ s = blocked

-- The loop of `complete_pending_commands`, for one pointer, up to the unlock.
pub complete_at : Texts → ℕ → Caller → State → Outcome
complete_at texts k (waiting c) s = done (record s {
  draining = without k s.draining;
  signals = if c.waitable then k ∷ s.signals else s.signals;
  callers = update s.callers k (waiting (cancel c texts.stopped));
})
complete_at texts k _ s = dangling

pub drain : Texts → ℕ → State → Outcome
unfolding complete_at cancel without holds
drain texts k s = if holds k s.draining then complete_at texts k (s.callers k) s else blocked

-- The `notify_one` behind it.
pub signal : ℕ → State → Outcome
unfolding notify without holds
signal k s =
    if holds k s.signals
    then notify (s.callers k) (record s { signals = without k s.signals })
    else blocked

-- The server thread: `listen_after_bind` returns, and `complete_pending_commands` swaps the queue.
pub close : Listener → State → Outcome
close listening s = done (record s { running = false; listener = closed })
close _ s = blocked

pub sweep : Listener → State → Outcome
sweep closed s =
    done (record s { draining = s.draining ++ s.pending; pending = []; listener = swept })
sweep _ s = blocked

-- Whether both threads have ended. The loops of `complete_pending_commands` are through then: no other
-- `stop` is under way.
abbrev pub has_exited : Worker → Bool
has_exited exited = true
has_exited _ = false

abbrev pub has_swept : Listener → Bool
has_swept swept = true
has_swept _ = false

abbrev pub is_none : List ℕ → Bool
is_none [] = true
is_none (k ∷ ks) = false

pub ended : State → Bool
ended s = has_exited s.worker && (has_swept s.listener && (is_none s.draining && is_none s.signals))

-- `start` once more, after both threads were joined.
pub restart : State → Outcome
unfolding ended
restart s =
    if ended s
    then done (record s { running = true; worker = at_top; listener = listening })
    else blocked

pub data Event : Type 0 where
  enters : ℕ → Bytes → Event
  pushes : ℕ → Event
  wakes : ℕ → Event
  tops : Bool → Event
  polls : Event
  finishes : Event
  notifies : Event
  halts : Event
  swaps : Event
  drains : ℕ → Event
  signalled : ℕ → Event
  closes sweeps : Event
  restarts : Event

module _ (texts : Texts) (exec : List Bytes → Bytes → Callback) where
  -- `halts` is `running_.store(false)`, `swaps` the swap in `complete_pending_commands`.
  unfoldable pub step : Event → State → Outcome
  unfolding enter push wake top poll finish notify_from drain signal close sweep restart
  step (enters k input) s = enter texts k input (s.callers k) s
  step (pushes k) s = push k (s.callers k) s
  step (wakes k) s = wake texts k (s.callers k) s
  step (tops interrupt) s = top interrupt s.worker s
  step polls s = poll s.worker s
  step finishes s = finish exec s.worker s
  step notifies s = notify_from s.worker s
  step halts s = done (record s { running = false })
  step swaps s = done (record s { draining = s.draining ++ s.pending; pending = [] })
  step (drains k) s = drain texts k s
  step (signalled k) s = signal k s
  step closes s = close s.listener s
  step sweeps s = sweep s.listener s
  step restarts s = restart s

  unfoldable pub run : List Event → State → Outcome
  run [] s = done s
  run (e ∷ es) s = step e s >>= run es

-- `wait`, and the end of `stop`: the joins return where both threads have ended.
unfoldable pub join : State → Outcome
unfolding ended
join s = if ended s then done s else blocked

-- A server that has just been started.
abbrev pub started : State
started = record {
  running = true;
  pending = [];
  worker = at_top;
  draining = [];
  signals = [];
  listener = listening;
  callers = λ k. outside;
  session = [];
}
