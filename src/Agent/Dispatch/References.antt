-- ===== src/Agent/Dispatch/References.antt =====
-- The references that main.cpp holds: every command gives back what it took, on each of its paths.
use windbg_agent.Agent.Args.{split_args}
use windbg_agent.Agent.Dispatch.{
  finish_trace, dispatch, agent_impl, Event, command, shutdown_posted, http_ends, unloaded, happen,
  say_all, text_of,
}
use windbg_agent.Agent.Dispatch.Subcommands.{dispatch-holds}
use windbg_agent.Agent.Stopping.{stop_http, stop_mcp, run_stop, halt_http, halt_mcp, uninitialize}
use windbg_agent.Agent.Starting.{
  http_started, run_http, mcp_started, run_mcp, warn_non_loopback, bind_address, http_info,
  mcp_info,
}
use windbg_agent.Agent.World.{
  s_ok, e_fail, e_invalidarg, Host, World, crashed, reset, setup_agent_state,
}
use windbg_agent.Agent.Servers.{
  Server, is_positive, start_http, start_mcp, set_break_callback, stop, listen_ends,
}
use windbg_agent.Agent.TraceOptions.{
  Message, TraceCommand, usage, out_of_range, refused, tracing, trace_command,
}
use windbg_agent.Base.Int.{ℤ}
use windbg_agent.DmlOutput.{normal, error, warning}
use windbg_agent.Base.{
  if-holds, ℕ, ◌+◌, Bool, not, ◌&&◌, List, Option, none, some, Bytes, codes, arith, equals,
}
use windbg_agent.Agent.Dispatch.Counting.{
  IsBalanced, After, reset-IsBalanced, say-IsBalanced, setup-IsBalanced, Ends, leave-Ends,
  announce-Ends, servers-IsBalanced,
}

http_started-Ends :
    (h : Host) (c : ℕ) (port : ℤ) (w : World)
    → IsBalanced (c + 1) w
    → Ends c (http_started h port w)
unfolding http_started
http_started-Ends h c port w b =
    if-holds (Ends c) (not (is_positive port)) _ _
      (λ e.
        leave-Ends c _ e_fail
          (say-IsBalanced (c + 1) error _ (reset w) (reset-IsBalanced (c + 1) w b)))
      (λ e.
        announce-Ends h c (http_info h (set_break_callback w.live w.http)) _
          (servers-IsBalanced (c + 1) (set_break_callback w.live w.http) w.mcp w b))

mcp_started-Ends :
    (h : Host) (c : ℕ) (addr : Bytes) (port : ℤ) (w : World)
    → IsBalanced (c + 1) w
    → Ends c (mcp_started h addr port w)
unfolding mcp_started
mcp_started-Ends h c addr port w b =
    if-holds (Ends c) (not (is_positive port)) _ _
      (λ e.
        leave-Ends c _ e_fail
          (say-IsBalanced (c + 1) error _ (reset w) (reset-IsBalanced (c + 1) w b)))
      (λ e. announce-Ends h c (mcp_info h addr port) w b)

warn-IsBalanced :
    (c : ℕ) (addr : Bytes) (w : World) → IsBalanced c w → IsBalanced c (warn_non_loopback addr w)
unfolding warn_non_loopback
warn-IsBalanced c addr w b =
    if-holds (IsBalanced c) (not (equals addr (codes "127.0.0.1"))) _ _
      (λ e. say-IsBalanced c warning _ w b) (λ e. b)

run_http-Ends :
    (h : Host) (c : ℕ) (rest : Bytes) (w : World)
    → IsBalanced (c + 1) w
    → Ends c (run_http h rest w)
unfolding run_http
run_http-Ends h c rest w b =
    if-holds (Ends c) w.http.running _ _
      (λ e. leave-Ends c _ e_fail (say-IsBalanced (c + 1) error _ w b))
      (λ e.
        if-holds (Ends c) (not w2.1) _ _ (λ e. leave-Ends c w2.0 e_fail ready)
          (λ e. launch (start_http h.assigned_port (bind_address rest) (w2.0).live (w2.0).http)))
  where
    w2 : World × Bool
    w2 = setup_agent_state h (warn_non_loopback (bind_address rest) w)

    ready : IsBalanced (c + 1) w2.0
    ready = setup-IsBalanced h (c + 1) _ (warn-IsBalanced (c + 1) (bind_address rest) w b)

    launch :
        (o : Option (Server × ℤ))
        → Ends c (elim o [
          | none ↦ crashed
          | some (s, port) ↦ http_started h port (record w2.0 { http = s })
        ])
    launch none = tt
    launch (some (s, port)) =
        http_started-Ends h c port _ (servers-IsBalanced (c + 1) s (w2.0).mcp w2.0 ready)

run_mcp-Ends :
    (h : Host) (c : ℕ) (rest : Bytes) (w : World) → IsBalanced (c + 1) w → Ends c (run_mcp h rest w)
unfolding run_mcp
run_mcp-Ends h c rest w b =
    if-holds (Ends c) w.mcp.running _ _
      (λ e. leave-Ends c _ e_fail (say-IsBalanced (c + 1) error _ w b))
      (λ e.
        if-holds (Ends c) (not w2.1) _ _ (λ e. leave-Ends c w2.0 e_fail ready)
          (λ e. launch (
            start_mcp h.free_port h.sse_starts h.sse_port (bind_address rest) (w2.0).live
              (w2.0).mcp)))
  where
    w2 : World × Bool
    w2 = setup_agent_state h (warn_non_loopback (bind_address rest) w)

    ready : IsBalanced (c + 1) w2.0
    ready = setup-IsBalanced h (c + 1) _ (warn-IsBalanced (c + 1) (bind_address rest) w b)

    launch :
        (o : Option (Server × ℤ))
        → Ends c (elim o [
          | none ↦ crashed
          | some (s, port) ↦ mcp_started h (bind_address rest) port (record w2.0 { mcp = s })
        ])
    launch none = tt
    launch (some (s, port)) =
        mcp_started-Ends h c (bind_address rest) port _
          (servers-IsBalanced (c + 1) (w2.0).http s w2.0 ready)

-- `!agent stop` ends with both servers stopped, whatever ran.
stop_http-IsBalanced : (c : ℕ) (w : World) → IsBalanced c w → IsBalanced c (stop_http w)
unfolding stop_http
stop_http-IsBalanced c w b =
    if-holds (IsBalanced c) w.http.running _ _
      (λ e.
        say-IsBalanced c normal _ _
          (reset-IsBalanced c _ (servers-IsBalanced c (stop w.http) w.mcp w b)))
      (λ e. b)

stop_mcp-IsBalanced : (c : ℕ) (w : World) → IsBalanced c w → IsBalanced c (stop_mcp w)
unfolding stop_mcp
stop_mcp-IsBalanced c w b =
    if-holds (IsBalanced c) w.mcp.running _ _
      (λ e.
        say-IsBalanced c normal _ _
          (reset-IsBalanced c _ (servers-IsBalanced c w.http (stop w.mcp) w b)))
      (λ e. b)

run_stop-Ends : (c : ℕ) (w : World) → IsBalanced (c + 1) w → Ends c (run_stop w)
unfolding run_stop
run_stop-Ends c w b =
    let b2 = stop_mcp-IsBalanced (c + 1) (stop_http w) (stop_http-IsBalanced (c + 1) w b) in
    if-holds (Ends c) (not w.http.running && not (stop_http w).mcp.running) _ _
      (λ e. leave-Ends c _ s_ok (say-IsBalanced (c + 1) normal _ _ b2))
      (λ e. leave-Ends c _ s_ok b2)

say_all-IsBalanced :
    (c : ℕ) (ms : List Message) (w : World) → IsBalanced c w → IsBalanced c (say_all ms w)
say_all-IsBalanced c ms w b = record {
  control = b.control;
  secondary = b.secondary;
  paired = b.paired;
  alive = b.alive;
}

finish_trace-Ends :
    (h : Host) (c : ℕ) (t : TraceCommand) (w : World)
    → IsBalanced (c + 1) w
    → Ends c (finish_trace h t w)
unfolding finish_trace
finish_trace-Ends h c usage w b = leave-Ends c _ s_ok (say-IsBalanced (c + 1) normal _ w b)
finish_trace-Ends h c out_of_range w b = tt
finish_trace-Ends h c (refused ms) w b =
    leave-Ends c _ e_invalidarg (say_all-IsBalanced (c + 1) ms w b)
finish_trace-Ends h c (tracing ms p) w b = leave-Ends c _ s_ok (
    say-IsBalanced (c + 1) normal _ _
      (say-IsBalanced (c + 1) normal _ _ (say_all-IsBalanced (c + 1) ms w b)))

dispatch-Ends :
    (h : Host) (c : ℕ) (subcmd rest : Bytes) (w : World)
    → IsBalanced (c + 1) w
    → Ends c (dispatch h subcmd rest w)
dispatch-Ends h c subcmd rest w b =
    dispatch-holds (Ends c) h subcmd rest w
      (λ text. leave-Ends c _ s_ok (say-IsBalanced (c + 1) normal text w b))
      (λ e. run_http-Ends h c rest w b) (λ e. run_mcp-Ends h c rest w b) (run_stop-Ends c w b)
      (λ e. finish_trace-Ends h c (trace_command rest) w b)
      (leave-Ends c _ s_ok (say-IsBalanced (c + 1) normal _ _ (say-IsBalanced (c + 1) error _ w b)))

entered-IsBalanced :
    (c : ℕ) (w : World)
    → IsBalanced c w
    → IsBalanced (c + 1) (record w { control_refs = w.control_refs + 1 })
entered-IsBalanced c w b = record {
  control = omega (arith, b.control);
  secondary = b.secondary;
  paired = b.paired;
  alive = b.alive;
}

halt_http-IsBalanced : (c : ℕ) (w : World) → IsBalanced c w → IsBalanced c (halt_http w)
unfolding halt_http
halt_http-IsBalanced c w b =
    if-holds (IsBalanced c) w.http.running _ _ (λ e. servers-IsBalanced c (stop w.http) w.mcp w b)
      (λ e. b)

halt_mcp-IsBalanced : (c : ℕ) (w : World) → IsBalanced c w → IsBalanced c (halt_mcp w)
unfolding halt_mcp
halt_mcp-IsBalanced c w b =
    if-holds (IsBalanced c) w.mcp.running _ _ (λ e. servers-IsBalanced c w.http (stop w.mcp) w b)
      (λ e. b)

-- A command, whatever it is and whichever of its paths it takes, releases the control that it asked
-- for, if it does not end the program; the same holds of the other events. The secondary clients are
-- referenced exactly as long as the agent's state points to them, and the debugger client and the
-- output object exist exactly as long.
pub happen-IsBalanced :
    (e : Event) (c : ℕ) (w : World) → IsBalanced c w → After (λ w' r. IsBalanced c w') (happen e w)
unfolding happen agent_impl uninitialize
happen-IsBalanced (command h args) c w b =
    if-holds (Ends c) (not h.control) _ _ (λ e. b)
      (λ e.
        dispatch-Ends h c (split_args (text_of args)).0 (split_args (text_of args)).1 _
          (entered-IsBalanced c w b))
happen-IsBalanced shutdown_posted c w b = servers-IsBalanced c (stop w.http) w.mcp w b
happen-IsBalanced http_ends c w b = servers-IsBalanced c (listen_ends w.http) w.mcp w b
happen-IsBalanced unloaded c w b =
    reset-IsBalanced c _ (halt_mcp-IsBalanced c _ (halt_http-IsBalanced c w b))
