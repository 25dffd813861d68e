-- ===== src/Trace/Callbacks.antt =====
-- dbg_trace.cpp: `KdTraceCallbacks`, the event callbacks of a trace in the debugger's own event loop.
-- Each method returns the new state, a status for the engine, and what it did, in order.
pub mod Bounded
pub mod Tests
use windbg_agent.Base.Decimal.{to_string}
use windbg_agent.Base.Int.{ℤ, reaches}
use windbg_agent.Base.{
  ℕ, ◌+◌, ◌-◌, ◌%◌, Bool, true, false, not, List, [], ◌∷◌, ◌++◌, Option, none, some, Bytes, codes,
  joined, ◌==◌, if◌then◌else◌,
}
use windbg_agent.Trace.Loop.{contains}
use windbg_agent.Trace.Registers.{
  Registers, get_reg, read_registers, disassemble_one, step_text, read_ip_by,
}

-- `KdTraceState`, and the members of `KdTraceCallbacks`. `log_open` is whether `log_fp` is set, `skip_bp`
-- the number of the breakpoint that is waited for.
pub record Callbacks : Type 0 where
  pub log_open : Bool
  pub log_path : Bytes
  pub end_ip : ℕ
  pub max_steps : ℤ
  pub step_count : ℕ
  pub timeout_ms : ℤ
  pub has_previous : Bool
  pub skip_addrs : List ℕ
  pub skip_bp : Option ℕ
  pub ref_count : ℕ
  pub done : Bool

-- What the engine answers while an event is handled: the milliseconds since the start, the interrupt,
-- what `Disassemble` writes, the registers by either interface, the eight bytes at an address (where
-- the interface can be had and all can be read), and the number of a breakpoint that is added.
pub record Moment : Type 0 where
  pub elapsed_ms : ℕ
  pub interrupted : Bool
  pub disassembled : Option Bytes
  pub registers : Option Registers
  pub registers2 : Option Registers
  pub pointer : ℕ → Option ℕ
  pub new_breakpoint : Option ℕ

-- `null_write` is `fprintf` through a null pointer.
pub data Effect : Type 0 where
  logged shown : Bytes → Effect
  null_write log_closed previous_restored previous_released : Effect
  breakpoint_set : ℕ → ℕ → Effect

-- `DEBUG_STATUS_…`
pub data Status : Type 0 where
  break_in go step_into no_change : Status

pub record Handled : Type 0 where
  pub state : Callbacks
  pub status : Status
  pub effects : List Effect

abbrev pub before : List Effect → Handled → Handled
before es h = record h { effects = es ++ h.effects }

-- `fclose(state_.log_fp)`, if it is set.
abbrev pub close_log : Bool → List Effect
close_log log_open = if log_open then log_closed ∷ [] else []

-- `finish`, and the break that its callers return.
unfoldable pub finish : Bytes → Callbacks → Handled
unfolding joined
finish reason s = record {
  state = record s { done = true; log_open = false };
  status = break_in;
  effects =
      shown (
        joined (
          codes "[tracealyzer] "
          ∷ reason
          ∷ codes " after "
          ∷ to_string s.step_count
          ∷ codes " steps.\n[tracealyzer] Log: "
          ∷ s.log_path
          ∷ codes "\n"
          ∷ []))
      ∷ (close_log s.log_open ++ previous_restored ∷ []);
}

-- The return address on the stack, if it can be read and is not zero.
unfoldable pub return_address : Moment → Option ℕ
return_address m = elim m.registers [
  | none ↦ none
  | some regs ↦ elim (get_reg regs (codes "rsp")) [
    | none ↦ none
    | some rsp ↦ elim (m.pointer rsp) [
      | none ↦ none
      | some ret_addr ↦ if ret_addr == 0 then none else some ret_addr
    ]
  ]
]

abbrev pub steps : Callbacks → Handled
steps s = record { state = s; status = step_into; effects = [] }

-- The breakpoint behind a skipped function, where there can be one; else a step into it.
unfoldable pub skip : Moment → Callbacks → Handled
skip m s = elim (return_address m) [
  | none ↦ steps s
  | some ret_addr ↦ elim m.new_breakpoint [
    | none ↦ steps s
    | some bp ↦ record {
      state = record s { skip_bp = some bp };
      status = go;
      effects = breakpoint_set bp ret_addr ∷ [];
    }
  ]
]

-- `log_and_decide` behind its first lines: the step is counted already.
unfoldable pub decide : Moment → ℕ → Callbacks → Handled
unfolding finish skip
decide m ip s =
    if ip == s.end_ip
    then finish (codes "Reached end address") s
    else if reaches s.step_count s.max_steps
    then finish (codes "Max steps reached") s
    else if reaches m.elapsed_ms s.timeout_ms
    then finish (codes "Timeout") s
    else if m.interrupted
    then finish (codes "Interrupted") s
    else if contains ip s.skip_addrs
    then skip m s
    else steps s

-- The entry in the log, and a message at each thousand steps.
unfoldable pub log_step : Moment → ℕ → Callbacks → List Effect
unfolding joined
log_step m ip s =
    (if s.log_open
      then logged
          (step_text s.step_count (disassemble_one m.disassembled ip) (read_registers m.registers))
      else null_write)
    ∷ (if s.step_count % 1000 == 0
        then shown
            (joined (codes "[tracealyzer] " ∷ to_string s.step_count ∷ codes " steps...\n" ∷ []))
          ∷ []
        else [])

unfoldable pub log_and_decide : Moment → ℕ → Callbacks → Handled
unfolding log_step decide
log_and_decide m ip s =
    let s1 = record s { step_count = s.step_count + 1 } in
    before (log_step m ip s1) (decide m ip s1)

abbrev pub ignores : Callbacks → Handled
ignores s = record { state = s; status = no_change; effects = [] }

abbrev pub breaks : Callbacks → Handled
breaks s = record { state = s; status = break_in; effects = [] }

-- `Exception`: `STATUS_SINGLE_STEP` is 0x80000004 as well.
unfoldable pub exception : Moment → ℕ → ℕ → Callbacks → Handled
unfolding log_and_decide
exception m code address s =
    if not (code == 0x80000004)
    then ignores s
    else if s.done
    then breaks s
    else log_and_decide m address s

-- Behind a skipped function, at this instruction pointer.
unfoldable pub resume : Moment → Option ℕ → Callbacks → Handled
unfolding finish log_and_decide
resume m none s = finish (codes "Could not read IP after skip bp") s
resume m (some ip) s =
    if ip == 0 then finish (codes "Could not read IP after skip bp") s else log_and_decide m ip s

-- `Breakpoint`, with the number of the breakpoint that was hit.
unfoldable pub breakpoint : Moment → ℕ → Option ℕ → Callbacks → Handled
unfolding resume
breakpoint m got_id none s = ignores s
breakpoint m got_id (some skip_id) s =
    if not (got_id == skip_id)
    then ignores s
    else if s.done
    then breaks (record s { skip_bp = none })
    else resume m (read_ip_by m.registers2) (record s { skip_bp = none })

-- `AddRef`, and `Release` with the destructor behind the last reference: `none` is a deleted object.
unfoldable pub add_ref : Callbacks → Callbacks
add_ref s = record s { ref_count = s.ref_count + 1 }

unfoldable pub destroy : Callbacks → List Effect
destroy s = close_log s.log_open ++ (if s.has_previous then previous_released ∷ [] else [])

unfoldable pub release : Callbacks → Option Callbacks × List Effect
unfolding destroy
release s =
    if s.ref_count == 1
    then (none, destroy s)
    else (some (record s { ref_count = s.ref_count - 1 }), [])

pub data Event : Type 0 where
  exceptions : Moment → ℕ → ℕ → Event
  breakpoints : Moment → ℕ → Event

unfoldable pub handle : Event → Callbacks → Handled
unfolding exception breakpoint
handle (exceptions m code address) s = exception m code address s
handle (breakpoints m got_id) s = breakpoint m got_id s.skip_bp s

-- The events of a session, one behind the other.
unfoldable pub handle_all : List Event → Callbacks → Callbacks × List Effect
handle_all [] s = (s, [])
handle_all (e ∷ events) s =
    let h = handle e s in
    let (last, effects) = handle_all events h.state in (last, h.effects ++ effects)
