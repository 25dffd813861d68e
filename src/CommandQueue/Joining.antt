-- ===== src/CommandQueue/Joining.antt =====
-- `stop` and `wait` of http_server.cpp: the command thread ends, and can be joined.
use windbg_agent.Base.{◌≡◌, List, [], ◌∷◌, ◌++◌, false, Bytes}
use windbg_agent.CommandQueue.{
  Worker, at_top, at_queue, exited, holding, notifying, Callback, Texts, State, done, Event, wakes,
  tops, polls, finishes, notifies, closes, sweeps, run,
}
use windbg_agent.CommandQueue.Ledger.{Ledger, Waitable, Signals}
use windbg_agent.CommandQueue.Stopping.{stops}

-- No waiter moves.
abbrev NoWake : Event → Type 0
NoWake (wakes k) = ⊥
NoWake _ = Unit

-- The steps by which the command thread ends, once the server does not run and the queue is empty.
abbrev pub ends : Worker → List Event
ends at_top = tops false ∷ []
ends at_queue = polls ∷ tops false ∷ []
ends (holding k) = finishes ∷ notifies ∷ tops false ∷ []
ends (notifying k) = notifies ∷ tops false ∷ []
ends exited = []

module _ (texts : Texts) (exec : List Bytes → Bytes → Callback) where
  -- What the pointers mean is kept as long as no waiter moves.
  record Kept (s : State) : Type 0 where
    waitable : Waitable s
    ledger : Ledger s
    signals : Signals s

  -- The thread has ended, and the rest of the server is as it was.
  abbrev Ended : List Event → State → Type 0
  Ended es s =
      (s' : State) × (run texts exec es s ≡ done s')
      × (s'.worker ≡ exited)
      × (s'.running ≡ s.running)
      × (s'.pending ≡ s.pending)
      × (s'.draining ≡ s.draining)
      × (s'.signals ≡ s.signals)
      × (s'.listener ≡ s.listener)

  -- A server that is stopped: the steps of `stop`, of the server thread, and of the command thread.
  abbrev pub shuts : State → List Event
  shuts s = stops s ++ ((closes ∷ sweeps ∷ []) ++ ends s.worker)
