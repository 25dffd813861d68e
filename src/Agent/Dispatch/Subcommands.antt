-- ===== src/Agent/Dispatch/Subcommands.antt =====
-- The branches of `agent_impl` of main.cpp, one for each subcommand.
use windbg_agent.Agent.Args.{split_args}
use windbg_agent.Agent.Dispatch.{finish_trace, dispatch, agent_impl}
use windbg_agent.Agent.Starting.{run_http, run_mcp}
use windbg_agent.Agent.Stopping.{run_stop}
use windbg_agent.Agent.TraceOptions.{trace_command}
use windbg_agent.Agent.World.{s_ok, e_fail, Host, World, Outcome, finished, say, leave}
use windbg_agent.Base.{
  ◌≡◌, refl, true, ap, ◌∙◌, not, if◌then◌else◌, ◌+◌, some, Bytes, codes, ◌++◌, equals, equals_iff,
  is_empty, if-holds,
}
use windbg_agent.DmlOutput.{normal, error}

-- What the end of an unknown subcommand leaves.
abbrev pub unknown : Bytes → World → Outcome
unknown subcmd w =
    leave
      (say normal (codes "Use '!agent help' for usage information.\n")
        (say error (codes "Unknown subcommand: " ++ (subcmd ++ codes "\n")) w))
      s_ok

-- What holds of each branch holds of the dispatch.
pub dispatch-holds :
    (P : Outcome → Type 0) (h : Host) (subcmd rest : Bytes) (w : World)
    → ((text : Bytes) → P (leave (say normal text w) s_ok))
    → (subcmd ≡ codes "http" → P (run_http h rest w))
    → (subcmd ≡ codes "mcp" → P (run_mcp h rest w))
    → P (run_stop w)
    → (subcmd ≡ codes "trace" → P (finish_trace h (trace_command rest) w))
    → P (unknown subcmd w)
    → P (dispatch h subcmd rest w)
unfolding dispatch
dispatch-holds P h subcmd rest w told http mcp stop trace other =
    let is = λ (name : Bytes) (e : equals subcmd name ≡ true). (equals_iff subcmd name).0 e in
    if-holds P (is_empty subcmd) _ _ (λ _. told _)
      (λ _.
        if-holds P (equals subcmd (codes "help")) _ _ (λ _. told _)
          (λ _.
            if-holds P (equals subcmd (codes "version")) _ _ (λ _. told _)
              (λ _.
                if-holds P (equals subcmd (codes "http")) _ _ (λ e. http (is _ e))
                  (λ _.
                    if-holds P (equals subcmd (codes "mcp")) _ _ (λ e. mcp (is _ e))
                      (λ _.
                        if-holds P (equals subcmd (codes "stop")) _ _ (λ _. stop)
                          (λ _.
                            if-holds P (equals subcmd (codes "trace")) _ _ (λ e. trace (is _ e))
                              (λ _. other)))))))

-- What `agent_impl` does with a subcommand.
pub agent_impl-dispatch :
    (h : Host) (args subcmd rest : Bytes) (w : World)
    → h.control ≡ true
    → split_args args ≡ (subcmd, rest)
    → agent_impl h (some args) w
      ≡ dispatch h subcmd rest (record w { control_refs = w.control_refs + 1 })
unfolding agent_impl
agent_impl-dispatch h args subcmd rest w c e =
    let asked = record w { control_refs = w.control_refs + 1 } in
    let run = λ (q : Bytes × Bytes). dispatch h q.0 q.1 asked in
    ap (λ b. if not b then finished w e_fail else run (split_args args)) c ∙ ap run e

pub dispatch-http :
    (h : Host) (rest : Bytes) (w : World) → dispatch h (codes "http") rest w ≡ run_http h rest w
unfolding dispatch equals
dispatch-http h rest w = refl

pub dispatch-mcp :
    (h : Host) (rest : Bytes) (w : World) → dispatch h (codes "mcp") rest w ≡ run_mcp h rest w
unfolding dispatch equals
dispatch-mcp h rest w = refl

pub dispatch-trace :
    (h : Host) (rest : Bytes) (w : World)
    → dispatch h (codes "trace") rest w ≡ finish_trace h (trace_command rest) w
unfolding dispatch equals
dispatch-trace h rest w = refl
