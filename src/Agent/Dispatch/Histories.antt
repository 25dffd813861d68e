-- ===== src/Agent/Dispatch/Histories.antt =====
-- What any history of commands leaves in main.cpp: the callbacks of a running server can be called.
use windbg_agent.Agent.Dispatch.Stops.{run_stop-Finishes, unloaded-IsServed, shutdown-IsServed}
use windbg_agent.Agent.Args.{split_args}
use windbg_agent.Agent.Dispatch.{
  finish_trace, dispatch, agent_impl, Event, command, shutdown_posted, http_ends, unloaded, happen,
  text_of, run, answered, exec_cb,
}
use windbg_agent.Agent.World.{s_ok, Host, World, Outcome, finished, crashed, undefined, loaded}
use windbg_agent.Agent.Dispatch.Served.{
  Refers, IsServed, Finishes, IsIdle-IsServed, same-IsServed, leave-Finishes, say-IsServed,
}
use windbg_agent.Agent.Dispatch.Starts.{run_http-Finishes, run_mcp-Finishes}
use windbg_agent.Agent.Dispatch.Subcommands.{dispatch-holds}
use windbg_agent.Agent.Servers.{Server, is_positive}
use windbg_agent.Agent.TraceOptions.{
  TraceCommand, usage, out_of_range, refused, tracing, trace_command,
}
use windbg_agent.Base.Int.{pos}
use windbg_agent.DmlOutput.{normal, DmlOutput, output_command, output_command_result}
use windbg_agent.Base.{
  inl, inr, Bool-cases, if◌then◌else◌, ◌≡◌, ◌≢◌, refl, true, false, not, ◌&&◌, List, [], ◌∷◌, ◌++◌,
  Bytes, codes, arith, if-holds,
}

finish_trace-Finishes :
    (h : Host) (t : TraceCommand) (w : World)
    → t ≢ out_of_range
    → IsServed w
    → Finishes IsServed (finish_trace h t w)
unfolding finish_trace
finish_trace-Finishes h usage w n s = leave-Finishes _ s_ok (say-IsServed normal _ w s)
finish_trace-Finishes h out_of_range w n s = absurd (n refl)
finish_trace-Finishes h (refused ms) w n s = same-IsServed w _ refl refl refl s
finish_trace-Finishes h (tracing ms p) w n s = same-IsServed w _ refl refl refl s

-- The user never starts a server while the other one runs, and gives `trace` an end address or
-- nothing at all; the HTTP server never ends by itself, without a stop. `bind_to_any_port` returns a
-- port or a negative number, and an SSE server that runs has a port.
abbrev pub IsCareful : Event → World → Type 0
IsCareful (command h args) w =
    let (subcmd, rest) = split_args (text_of args) in
    (h.assigned_port ≢ pos 0)
    × (is_positive h.sse_port ≡ true)
    × (subcmd ≡ codes "http" → w.mcp.running ≡ false)
    × (subcmd ≡ codes "mcp" → w.http.running ≡ false)
    × (subcmd ≡ codes "trace" → trace_command rest ≢ out_of_range)
IsCareful shutdown_posted w = Unit
IsCareful http_ends w = ⊥
IsCareful unloaded w = Unit

dispatch-Finishes :
    (h : Host) (subcmd rest : Bytes) (w : World)
    → h.assigned_port ≢ pos 0
    → is_positive h.sse_port ≡ true
    → (subcmd ≡ codes "http" → w.mcp.running ≡ false)
    → (subcmd ≡ codes "mcp" → w.http.running ≡ false)
    → (subcmd ≡ codes "trace" → trace_command rest ≢ out_of_range)
    → IsServed w
    → Finishes IsServed (dispatch h subcmd rest w)
dispatch-Finishes h subcmd rest w n p oh om ot s =
    dispatch-holds (Finishes IsServed) h subcmd rest w
      (λ text. leave-Finishes _ s_ok (say-IsServed normal text w s))
      (λ e. run_http-Finishes h rest w n (oh e) s) (λ e. run_mcp-Finishes h rest w p (om e) s)
      (run_stop-Finishes w s) (λ e. finish_trace-Finishes h (trace_command rest) w (ot e) s)
      (same-IsServed w _ refl refl refl s)

happen-Finishes :
    (e : Event) (w : World) → IsCareful e w → IsServed w → Finishes IsServed (happen e w)
unfolding happen agent_impl
happen-Finishes (command h args) w c s =
    let (subcmd, rest) = split_args (text_of args) in
    if-holds (Finishes IsServed) (not h.control) _ _ (λ e. s)
      (λ e.
        dispatch-Finishes h subcmd rest _ c.0 c.1 c.2 c.3 c.4 (same-IsServed w _ refl refl refl s))
happen-Finishes shutdown_posted w c s = shutdown-IsServed w s
happen-Finishes http_ends w c s = elim c [ ]
happen-Finishes unloaded w c s = unloaded-IsServed w s

abbrev pub Then : (World → Type 0) → Outcome → Type 0
Then P (finished w r) = P w
Then P crashed = Unit
Then P undefined = Unit

-- Every event is careful in the world where it happens.
abbrev pub AllCareful : List Event → World → Type 0
AllCareful [] w = Unit
AllCareful (e ∷ es) w = IsCareful e w × Then (AllCareful es) (happen e w)

-- Both callbacks can be called while their server runs, and each call shows the command and its
-- result.
abbrev pub CanCall : Server → World → Type 0
CanCall s w =
    if s.running
    then ((dml : DmlOutput) (execute_command : Bytes → Bytes) (cmd : Bytes)
        → exec_cb s.exec_gen dml execute_command cmd w
          ≡ answered (output_command dml cmd ++ output_command_result dml (execute_command cmd))
              (execute_command cmd))
    else Unit

Refers-CanCall : (s : Server) (w : World) → Refers w.live s → CanCall s w
unfolding exec_cb
Refers-CanCall s w r = elim (Bool-cases s.running) [
  | inl on ↦
      rw on
        (λ dml execute_command cmd. let (g, live, mine) = r on in rw (live, mine) (ground arith))
  | inr off ↦ rw off tt
]

run-Finishes :
    (es : List Event) (w : World) → AllCareful es w → IsServed w → Finishes IsServed (run es w)
unfolding run
run-Finishes [] w c s = s
run-Finishes (e ∷ es) w c s =
    onward (happen e w) (run es) (happen-Finishes e w c.0 s) c.1 (run-Finishes es)
  where
    onward :
        (o : Outcome) (continue : World → Outcome)
        → Finishes IsServed o
        → Then (AllCareful es) o
        → ((w' : World) → AllCareful es w' → IsServed w' → Finishes IsServed (continue w'))
        → Finishes IsServed
            (elim o [ finished w' r ↦ continue w' | crashed ↦ crashed | undefined ↦ undefined ])
    onward (finished w' r) continue f t rest = rest w' t f
    onward crashed continue f t rest = elim f [ ]
    onward undefined continue f t rest = elim f [ ]

loaded-IsServed : IsServed loaded
loaded-IsServed =
    IsIdle-IsServed loaded
      (record { http_off = refl; mcp_off = refl; http_joined = refl; mcp_joined = refl })

Finishes-map :
    (P Q : World → Type 0) → ((w : World) → P w → Q w) → (o : Outcome) → Finishes P o → Finishes Q o
Finishes-map P Q f (finished w r) p = f w p
Finishes-map P Q f crashed p = p
Finishes-map P Q f undefined p = p

-- After any history of careful events since the extension was loaded (no server is started while the
-- other one runs, `trace` is given an end address or nothing, and the HTTP server does not end by
-- itself), the program has neither crashed nor gone wrong, at most one server runs, and the callback
-- of a server that runs can be called: it reaches the state of the agent that exists, shows the
-- command and the result, and returns the result.
pub run-CanCall :
    (es : List Event)
    → AllCareful es loaded
    → Finishes
        (λ w. (w.http.running && w.mcp.running ≡ false) × CanCall w.http w × CanCall w.mcp w)
        (run es loaded)
run-CanCall es c =
    Finishes-map IsServed _
      (λ w s. (s.one, Refers-CanCall w.http w s.http_refers, Refers-CanCall w.mcp w s.mcp_refers))
      (run es loaded) (run-Finishes es loaded c loaded-IsServed)
