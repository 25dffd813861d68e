-- ===== src/Trace/Callbacks/Bounded.antt =====
-- The log and the callbacks of `KdTraceCallbacks` in dbg_trace.cpp, over all the events of a session.
use windbg_agent.Base.Int.{ℤ, to_ℕ}
use windbg_agent.Base.{
  ℕ, ◌+◌, ◌≤◌, ◌<◌, ◌≡◌, Bool, true, false, not, List, [], ◌∷◌, ◌++◌, Option, none, some, ◌==◌,
  if◌then◌else◌, arith,
}
use windbg_agent.Trace.Callbacks.{
  Callbacks, Moment, Effect, logged, shown, null_write, log_closed, previous_restored,
  previous_released, breakpoint_set, Handled, finish, skip, decide, log_step, log_and_decide,
  exception, resume, breakpoint, handle, handle_all, Event, exceptions, breakpoints,
}
use windbg_agent.Trace.Registers.{read_ip_by}

-- What is counted in a list of effects.
pub record Tally : Type 0 where
  pub entries : ℕ
  pub faults : ℕ
  pub closed : ℕ
  pub restored : ℕ

abbrev pub nothing : Tally
nothing = record { entries = 0; faults = 0; closed = 0; restored = 0 }

abbrev pub count_one : Effect → Tally → Tally
count_one (logged entry) t = record t { entries = t.entries + 1 }
count_one null_write t = record t { faults = t.faults + 1 }
count_one log_closed t = record t { closed = t.closed + 1 }
count_one previous_restored t = record t { restored = t.restored + 1 }
count_one (shown line) t = t
count_one previous_released t = t
count_one (breakpoint_set bp ret_addr) t = t

unfoldable pub tally : List Effect → Tally
tally [] = nothing
tally (e ∷ effects) = count_one e (tally effects)

abbrev pub plus : Tally → Tally → Tally
plus t u = record {
  entries = t.entries + u.entries;
  faults = t.faults + u.faults;
  closed = t.closed + u.closed;
  restored = t.restored + u.restored;
}

abbrev pub one_if : Bool → ℕ
one_if true = 1
one_if false = 0

-- A limit of no steps still lets one step be logged.
abbrev pub limit : ℤ → ℕ
limit max_steps = if to_ℕ max_steps == 0 then 1 else to_ℕ max_steps

pub record IsTracing (max_steps : ℤ) (s : Callbacks) : Type 0 where
  pub same_limit : s.max_steps ≡ max_steps
  pub open_until_done : s.log_open ≡ not s.done
  pub within : s.step_count ≤ limit max_steps
  pub room : s.done ≡ false → s.step_count < limit max_steps

-- Between the two states of a callback, its effects logged the steps that were counted, through an open
-- file, and closed the log and restored the callbacks where the trace ended.
pub record Accounts (s : Callbacks) (t : Tally) (s' : Callbacks) : Type 0 where
  pub sound : t.faults ≡ 0
  pub counted : s.step_count + t.entries ≡ s'.step_count
  pub closed_once : one_if s.done + t.closed ≡ one_if s'.done
  pub restored_once : one_if s.done + t.restored ≡ one_if s'.done

module _ (max_steps : ℤ) where
  log_and_decide-IsTracing :
      (m : Moment) (ip : ℕ) (s : Callbacks)
      → IsTracing max_steps s
      → s.done ≡ false
      → IsTracing max_steps (log_and_decide m ip s).state
        × Accounts s (tally (log_and_decide m ip s).effects) (log_and_decide m ip s).state
  unfolding log_and_decide tally decide skip finish log_step
  log_and_decide-IsTracing m ip s v d = ground arith

  abbrev Keeps : Callbacks → Handled → Type 0
  Keeps s h = IsTracing max_steps h.state × Accounts s (tally h.effects) h.state

  exception-Keeps :
      (m : Moment) (code address : ℕ) (s : Callbacks)
      → IsTracing max_steps s
      → Keeps s (exception m code address s)
  unfolding exception tally
  exception-Keeps m code address s v = ground (arith, log_and_decide-IsTracing m address s v)

  resume-Keeps :
      (m : Moment) (ip : Option ℕ) (s : Callbacks)
      → IsTracing max_steps s
      → s.done ≡ false
      → Keeps s (resume m ip s)
  unfolding resume finish tally
  resume-Keeps m none s v d = ground arith
  resume-Keeps m (some ip) s v d = ground (arith, log_and_decide-IsTracing m ip s v)

  breakpoint-Keeps :
      (m : Moment) (got_id : ℕ) (bp : Option ℕ) (s : Callbacks)
      → IsTracing max_steps s
      → Keeps s (breakpoint m got_id bp s)
  unfolding breakpoint tally
  breakpoint-Keeps m got_id none s v = ground arith
  breakpoint-Keeps m got_id (some skip_id) s v =
      ground (arith, resume-Keeps m (read_ip_by m.registers2) (record s { skip_bp = none }))

  handle-Keeps : (e : Event) (s : Callbacks) → IsTracing max_steps s → Keeps s (handle e s)
  unfolding handle
  handle-Keeps (exceptions m code address) s v = exception-Keeps m code address s v
  handle-Keeps (breakpoints m got_id) s v = breakpoint-Keeps m got_id s.skip_bp s v

  tally-append : (es fs : List Effect) → tally (es ++ fs) ≡ plus (tally es) (tally fs)
  unfolding tally
  tally-append [] fs = ground arith
  tally-append (logged x ∷ es) fs = ground (arith, tally-append es fs)
  tally-append (shown x ∷ es) fs = ground (arith, tally-append es fs)
  tally-append (null_write ∷ es) fs = ground (arith, tally-append es fs)
  tally-append (log_closed ∷ es) fs = ground (arith, tally-append es fs)
  tally-append (previous_restored ∷ es) fs = ground (arith, tally-append es fs)
  tally-append (previous_released ∷ es) fs = ground (arith, tally-append es fs)
  tally-append (breakpoint_set x y ∷ es) fs = ground (arith, tally-append es fs)

  handle_all-Keeps :
      (events : List Event) (s : Callbacks)
      → IsTracing max_steps s
      → IsTracing max_steps (handle_all events s).0
        × Accounts s (tally (handle_all events s).1) (handle_all events s).0
  unfolding handle_all
  handle_all-Keeps [] s v = (v, unfold tally in ground arith)
  handle_all-Keeps (e ∷ events) s v =
      let now = handle-Keeps e s v in
      let later = handle_all-Keeps events (handle e s).state now.0 in
      let sums = tally-append (handle e s).effects (handle_all events (handle e s).state).1 in
      (later.0, rw sums (ground (arith, now.1, later.1)))

  -- Callbacks whose trace begins: nothing is logged, and the log is open.
  abbrev pub Begins : Callbacks → Type 0
  Begins s = (s.max_steps ≡ max_steps) × (s.log_open ≡ true) × (s.step_count ≡ 0) × (s.done ≡ false)

  -- Whatever events a session brings, and whatever the debugger answers to them: no entry is written
  -- after the log was closed, each step counted is one entry, there are at most `max_steps` entries (one
  -- where that is not positive), and the log is closed and the former callbacks are restored once if the
  -- trace has ended, and not at all otherwise.
  pub handle_all_bounds :
      (events : List Event) (s : Callbacks)
      → Begins s
      → let (last, effects) = handle_all events s in
        let t = tally effects in
        (t.faults ≡ 0)
        × (t.entries ≡ last.step_count)
        × (t.entries ≤ limit max_steps)
        × (t.closed ≡ one_if last.done)
        × (t.restored ≡ one_if last.done)
  handle_all_bounds events s b =
      let h = handle_all-Keeps events s (ground arith) in ground (arith, h.0, h.1)
