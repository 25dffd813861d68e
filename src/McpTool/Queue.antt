-- ===== src/McpTool/Queue.antt =====
-- mcp_server.cpp: the methods of `MCPServer` that carry commands to the command thread. They are those
-- of CommandQueue with texts of their own.
use windbg_agent.Base.{
  if◌then◌else◌, ℕ, ◌≡◌, refl, ap, fun_ext, ◌∙◌, Bool, false, List, [], ◌∷◌, ◌++◌, map, Bytes,
  codes,
}
use windbg_agent.CommandQueue.{
  blocked, has_exited, notify_from, signal, notifies, signalled, Callback, Texts, State, Outcome,
  done, ◌>>=◌, enter, push, wake, top, poll, finish, drain, Event, enters, pushes, wakes, tops,
  polls, finishes, halts, swaps, drains, step, run,
}

abbrev pub mcp_texts : Texts
mcp_texts = record {
  not_running = codes "Error: MCP server is not running";
  stopped = codes "Error: MCP server stopped";
}

-- The steps of the call `k` of `queue_and_wait`: the test of `running_`, the push, and a wake-up.
pub data CallStep : Type 0 where
  tests : Bytes → CallStep
  pushes_command leaves_wait : CallStep

unfoldable pub queue_and_wait_step : ℕ → CallStep → State → Outcome
queue_and_wait_step k (tests input) s = enter mcp_texts k input (s.callers k) s
queue_and_wait_step k pushes_command s = push k (s.callers k) s
queue_and_wait_step k leaves_wait s = wake mcp_texts k (s.callers k) s

-- The steps of the command thread: the head of the loop, with the answer of the interrupt check, the
-- wait on the queue, the run of the command, and the notification of its waiter.
pub data LoopStep : Type 0 where
  checks : Bool → LoopStep
  waits runs_command notifies_waiter : LoopStep

unfoldable pub run_command_loop_step : (List Bytes → Bytes → Callback) → LoopStep → State → Outcome
run_command_loop_step exec (checks interrupt) s = top interrupt s.worker s
run_command_loop_step exec waits s = poll s.worker s
run_command_loop_step exec runs_command s = finish exec s.worker s
run_command_loop_step exec notifies_waiter s = notify_from s.worker s

-- The steps of `complete_pending_commands`: the swap, the completion of one command, and the
-- notification of its waiter.
pub data PendingStep : Type 0 where
  takes_all : PendingStep
  completes notifies_one : ℕ → PendingStep

unfoldable pub complete_pending_step : PendingStep → State → Outcome
complete_pending_step takes_all s =
    done (record s { draining = s.draining ++ s.pending; pending = [] })
complete_pending_step (completes k) s = drain mcp_texts k s
complete_pending_step (notifies_one k) s = signal k s

-- `MCPServer::wait`: the command thread can be joined.
pub wait : State → Outcome
wait s = if has_exited s.worker then done s else blocked

pub data McpEvent : Type 0 where
  call : ℕ → CallStep → McpEvent
  loop : LoopStep → McpEvent
  stores_false : McpEvent
  pending : PendingStep → McpEvent

-- One step of one of the threads; `stop` is `stores_false` and then the pending steps.
unfoldable pub mcp_step : (List Bytes → Bytes → Callback) → McpEvent → State → Outcome
unfolding queue_and_wait_step run_command_loop_step complete_pending_step
mcp_step exec (call k c) s = queue_and_wait_step k c s
mcp_step exec (loop l) s = run_command_loop_step exec l s
mcp_step exec stores_false s = done (record s { running = false })
mcp_step exec (pending p) s = complete_pending_step p s

unfoldable pub mcp_run : (List Bytes → Bytes → Callback) → List McpEvent → State → Outcome
mcp_run exec [] s = done s
mcp_run exec (e ∷ es) s = mcp_step exec e s >>= mcp_run exec es

-- The same step of the general queue.
unfoldable pub event : McpEvent → Event
event (call k (tests input)) = enters k input
event (call k pushes_command) = pushes k
event (call k leaves_wait) = wakes k
event (loop (checks interrupt)) = tops interrupt
event (loop waits) = polls
event (loop runs_command) = finishes
event (loop notifies_waiter) = notifies
event stores_false = halts
event (pending takes_all) = swaps
event (pending (completes k)) = drains k
event (pending (notifies_one k)) = signalled k

mcp_step-event :
    (exec : List Bytes → Bytes → Callback) (e : McpEvent) (s : State)
    → mcp_step exec e s ≡ step mcp_texts exec (event e) s
unfolding mcp_step step event
mcp_step-event exec (call k (tests input)) s = refl
mcp_step-event exec (call k pushes_command) s = refl
mcp_step-event exec (call k leaves_wait) s = refl
mcp_step-event exec (loop (checks interrupt)) s = refl
mcp_step-event exec (loop waits) s = refl
mcp_step-event exec (loop runs_command) s = refl
mcp_step-event exec (loop notifies_waiter) s = refl
mcp_step-event exec stores_false s = refl
mcp_step-event exec (pending takes_all) s = refl
mcp_step-event exec (pending (completes k)) s = refl
mcp_step-event exec (pending (notifies_one k)) s = refl

-- A run of the MCP server's queue is one of the general queue.
pub mcp_run-event :
    (exec : List Bytes → Bytes → Callback) (es : List McpEvent) (s : State)
    → mcp_run exec es s ≡ run mcp_texts exec (map event es) s
unfolding mcp_run run
mcp_run-event exec [] s = refl
mcp_run-event exec (e ∷ es) s =
    ap (λ o. o >>= mcp_run exec es) (mcp_step-event exec e s)
    ∙ ap (λ k. step mcp_texts exec (event e) s >>= k) (fun_ext (mcp_run-event exec es))
