-- ===== src/Trace/Setup/Commanded.antt =====
-- `!agent trace` of main.cpp on a user-mode target, down to the loop of dbg_trace.cpp.
use windbg_agent.Agent.Args.{IsToken, is_blank, skip_blanks, trim_start, split_args}
use windbg_agent.Agent.Dispatch.Subcommands.{agent_impl-dispatch, dispatch-trace}
use windbg_agent.Agent.Dispatch.{finish_trace, agent_impl}
use windbg_agent.Agent.TraceOptions.RoundTrip.{
  Request, IsWritable, written, options, params, trace_command-written,
}
use windbg_agent.Agent.Args.{spaced}
use windbg_agent.Agent.TraceOptions.{tracing}
use windbg_agent.Agent.World.{Host, World, s_ok, finished}
use windbg_agent.Base.Decimal.{is_space, to_string, to_string_ℤ}
use windbg_agent.Base.{
  ℕ, ◌+◌, append-nil, append_assoc, ◌≡◌, refl, ap, ◌∙◌, true, false, [], ◌∷◌, ◌++◌, some, Bytes,
  codes, joined, find, arith,
}
use windbg_agent.Trace.Setup.Composed.{IsUserTrace, Runs, trace-IsUserTrace}
use windbg_agent.Trace.Setup.{Target, shows, trace}

is_space-is_blank : (c : ℕ) → is_space c ≡ false → is_blank c ≡ false
is_space-is_blank c h = ground arith

-- A text that starts with a token has no blanks in front.
trim_start-append : (t rest : Bytes) → IsToken t → trim_start (t ++ rest) ≡ t ++ rest
unfolding trim_start skip_blanks
trim_start-append [] rest h = cc
trim_start-append (c ∷ t) rest h = rw (is_space-is_blank c h.1.0) refl

-- The subcommand `trace` is taken off.
split_args-trace :
    (t rest : Bytes)
    → IsToken t
    → split_args (codes "trace " ++ (t ++ rest)) ≡ (codes "trace", t ++ rest)
unfolding split_args trim_start skip_blanks find
split_args-trace t rest h =
    unfold trim_start in ap (λ s. (codes "trace", s)) (trim_start-append t rest h)

-- What `!agent trace` says before it traces.
abbrev pub announced : Request → Bytes
announced r = joined (
    codes "[trace] Tracing to "
    ∷ r.end_address
    ∷ codes " (max "
    ∷ to_string r.max_steps
    ∷ codes " steps)...\n"
    ∷ [])

module _ (t : Target) (d : t.engine.Debugger) where
  -- The command's host, with the target that `WinDbgClient::Trace` works on.
  abbrev pub on_target : Host → Host
  on_target h = record h { trace = λ p. (trace t p d).text }

  -- What the command leaves: two messages, and everything else as it was.
  abbrev pub told : Request → Bytes → World → World
  told r text w = record w {
    output = w.output ++ shows (announced r) ∷ shows (text ++ codes "\n") ∷ [];
  }

  finish_trace-told :
      (h : Host) (r : Request) (w : World)
      → finish_trace h (tracing [] (params r)) (record w { control_refs = w.control_refs + 1 })
        ≡ finished (told r (h.trace (params r)) w) s_ok
  unfolding finish_trace to_string_ℤ
  finish_trace-told h r w = rw (append-nil, append_assoc) (ground arith)

  agent_impl-trace :
      (h : Host) (r : Request) (w : World)
      → h.control ≡ true
      → IsWritable r
      → agent_impl h (some (codes "trace " ++ written r)) w
        ≡ finished (told r (h.trace (params r)) w) s_ok
  agent_impl-trace h r w c v =
      agent_impl-dispatch h (codes "trace " ++ written r) (codes "trace") (written r) w c
        (split_args-trace r.end_address (spaced (options r)) v.end_IsToken)
      ∙ (dispatch-trace h (written r) _
          ∙ (ap (λ c. finish_trace h c (record w { control_refs = w.control_refs + 1 }))
                (trace_command-written r v)
              ∙ finish_trace-told h r w))

  -- On a user-mode target, with an end address that the debugger knows and a log that can be opened,
  -- `!agent trace` with the written options of a request makes the trace of that request, which skips,
  -- stops and logs as the request says. The command ends with success, and its own messages are the
  -- end address and the number of steps, and then the text of the trace; it changes nothing else of
  -- the extension. The options are such as can be written.
  pub agent_impl-IsUserTrace :
      (h : Host) (r : Request) (w : World) (end_ip : ℕ)
      → h.control ≡ true
      → IsWritable r
      → Runs t (params r) d end_ip
      → IsUserTrace t (params r) d end_ip (trace t (params r) d)
        × (agent_impl (on_target h) (some (codes "trace " ++ written r)) w
            ≡ finished (told r (trace t (params r) d).text w) s_ok)
  agent_impl-IsUserTrace h r w end_ip c v runs =
      (trace-IsUserTrace t (params r) d end_ip runs, agent_impl-trace (on_target h) r w c v)
