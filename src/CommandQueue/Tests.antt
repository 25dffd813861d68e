-- ===== src/CommandQueue/Tests.antt =====
-- Runs of the queue of http_server.cpp, and the theorems about it at concrete inputs.
use windbg_agent.Base.{◌<◌, ◌≡◌, ◌≢◌, refl, List, [], ◌∷◌, ◌++◌, true, false, Bytes, codes, arith}
use windbg_agent.CommandQueue.{
  QueueResult, returned, Callback, answered, Texts, State, Outcome, done, dangling, reply, fresh,
  Event, enters, pushes, wakes, tops, polls, finishes, notifies, halts, swaps, drains, signalled,
  closes, sweeps, restarts, step, run, started,
}
use windbg_agent.CommandQueue.Lifetime.{
  Sound, started-Sound, run-Sound, safe_when_notified, dangling-IsNotify, no_command_lost,
  notify_race_dangles,
}
use windbg_agent.CommandQueue.Ledger.{held, IsNotify}
use windbg_agent.CommandQueue.Order.{waiting_line, all_pushed, run_fifo, inputs}
use windbg_agent.CommandQueue.Progress.{rounds, queue_and_wait-returns}
use windbg_agent.CommandQueue.Results.{Reports, queue_and_wait-Reports}
use windbg_agent.CommandQueue.Ledger.{owed as owes}
use windbg_agent.CommandQueue.Stopping.{stops, stop-reports_success, stopped-returns}

abbrev texts : Texts
texts = record { not_running = codes "not running"; stopped = codes "stopped" }

-- A debugger that answers with its input.
abbrev echo : List Bytes → Bytes → Callback
echo session input = answered input

abbrev state_of : Outcome → State
state_of (done s) = s
state_of _ = started

-- Two handlers push a command each, and the first command is run.
abbrev two_calls : List Event
two_calls =
    enters 1 (codes "kb")
    ∷ pushes 1
    ∷ enters 2 (codes "r")
    ∷ pushes 2
    ∷ tops false
    ∷ polls
    ∷ finishes
    ∷ notifies
    ∷ wakes 1
    ∷ []

abbrev reached : List Event → State
reached es = state_of (run texts echo es started)

-- Then the server is stopped, and started again.
abbrev through_a_stop : List Event
through_a_stop =
    two_calls
    ++ (halts
        ∷ swaps
        ∷ drains 2
        ∷ signalled 2
        ∷ wakes 2
        ∷ tops false
        ∷ closes
        ∷ sweeps
        ∷ restarts
        ∷ [])

through_a_stop-done :
    run texts echo through_a_stop started ≡ done (state_of (run texts echo through_a_stop started))
unfolding run step
through_a_stop-done = refl

safe_when_notified_example : run texts echo through_a_stop started ≢ dangling
unfolding step
safe_when_notified_example = safe_when_notified texts echo through_a_stop (ground arith)

-- The waiter wakes up by itself behind the unlock, and returns before the `notify_one`.
abbrev late_notify : List Event
late_notify =
    enters 1 (codes "kb") ∷ pushes 1 ∷ tops false ∷ polls ∷ finishes ∷ wakes 1 ∷ notifies ∷ []

dangling-IsNotify_example :
    (before : List Event) × (e : Event) × (after : List Event) × (s' : State) × (late_notify
      ≡ before ++ e ∷ after)
    × IsNotify e
    × (run texts echo before started ≡ done s')
    × (step texts echo e s' ≡ dangling)
unfolding run step
dangling-IsNotify_example = dangling-IsNotify texts echo late_notify (ground arith) refl

no_command_lost_example : 0 < held 2 (reached two_calls)
unfolding run step
no_command_lost_example = no_command_lost texts echo two_calls refl 2 (omega arith)

queue_and_wait-Reports_example :
    Reports texts echo
      (reached two_calls).session
      (codes "kb")
      (record { success = true; payload = codes "kb" })
unfolding run step
queue_and_wait-Reports_example = queue_and_wait-Reports texts echo two_calls 1 refl refl

run_fifo_example :
    (reached two_calls).session
      ++ waiting_line
          (reached two_calls).callers
          (reached two_calls).worker
          (reached two_calls).pending
    ≡ all_pushed texts echo two_calls started
unfolding run step
run_fifo_example = run_fifo texts echo two_calls (omega arith) refl

-- The command thread with a command in its hand.
abbrev in_hand_call : List Event
in_hand_call = enters 1 (codes "kb") ∷ pushes 1 ∷ tops false ∷ polls ∷ []

notify_race : run texts echo (finishes ∷ wakes 1 ∷ notifies ∷ []) (reached in_hand_call) ≡ dangling
unfolding run step
notify_race =
    notify_race_dangles texts echo (reached in_hand_call) 1 (fresh (codes "kb")) refl refl refl

-- A waiter that returns between the swap and the completion of its command, where the server stops.
waiter_gone :
    run texts echo
      (enters 1 (codes "kb") ∷ pushes 1 ∷ halts ∷ wakes 1 ∷ swaps ∷ drains 1 ∷ [])
      started
    ≡ dangling
unfolding run step
waiter_gone = refl

abbrev two_pushed : List Event
two_pushed = enters 1 (codes "kb") ∷ pushes 1 ∷ enters 2 (codes "r") ∷ pushes 2 ∷ []

two_pushed-Sound : Sound texts echo (reached two_pushed)
unfolding run step
two_pushed-Sound =
    run-Sound texts echo two_pushed started (omega arith) refl (started-Sound texts echo)

queue_and_wait-returns_example :
    (s : State) × (run texts echo (rounds 2 ++ wakes 2 ∷ []) (reached two_pushed) ≡ done s)
    × (s.callers 2
        ≡ returned (codes "r") (record {
          success = true;
          payload = reply (echo ([] ++ inputs (reached two_pushed).callers (1 ∷ [])) (codes "r"));
        }))
    × (s.pending ≡ [])
unfolding run step
queue_and_wait-returns_example =
    queue_and_wait-returns texts echo (1 ∷ []) 2 [] (reached two_pushed) (fresh (codes "r"))
      two_pushed-Sound refl refl refl

stop-reports_success_example :
    (s : State) × (run texts echo (stops (reached two_pushed) ++ wakes 2 ∷ []) (reached two_pushed)
      ≡ done s)
    × (s.callers 2 ≡ returned (codes "r") (record { success = true; payload = codes "stopped" }))
    × (s.pending ≡ [])
    × (s.running ≡ false)
unfolding run step
stop-reports_success_example =
    stop-reports_success texts echo (reached two_pushed) 2 (fresh (codes "r")) two_pushed-Sound refl
      refl (omega arith)

abbrev stopped_early : List Event
stopped_early = enters 1 (codes "kb") ∷ pushes 1 ∷ tops false ∷ polls ∷ halts ∷ []

stopped_call :
    (s : State) × (q : QueueResult) × (step texts echo (wakes 1) (reached stopped_early) ≡ done s)
    × (s.callers 1 ≡ returned (codes "kb") q)
unfolding run step
stopped_call = stopped-returns texts echo (reached stopped_early) 1 (fresh (codes "kb")) refl refl
