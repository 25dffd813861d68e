-- ===== src/Agent/Dispatch/Faults.antt =====
-- Histories of commands that main.cpp does not survive, and what `!agent stop` does.
use windbg_agent.Agent.Args.{split_args}
use windbg_agent.Agent.Dispatch.Served.{Finishes}
use windbg_agent.Agent.Dispatch.Subcommands.{agent_impl-dispatch, dispatch-http, dispatch-mcp}
use windbg_agent.Agent.Dispatch.{Event, command, http_ends, happen, run, dangling, exec_cb}
use windbg_agent.Agent.Servers.{Server, is_negative, is_positive, stop, start_http, listen_ends}
use windbg_agent.Agent.Starting.{
  bind_address, run_http, run_mcp, warn_non_loopback, mcp_started, announce,
}
use windbg_agent.Agent.Stopping.{stop_http, stop_mcp, run_stop}
use windbg_agent.Agent.World.{
  Host, World, Outcome, finished, crashed, undefined, reset, setup_agent_state,
}
use windbg_agent.Base.Int.{ℤ}
use windbg_agent.DmlOutput.{DmlOutput}
use windbg_agent.Base.{
  if◌then◌else◌, if-holds, ℕ, ◌+◌, ◌<◌, ◌≡◌, refl, ap, sym, subst, ◌∙◌, Bool, List, true, false,
  not, ◌||◌, [], ◌∷◌, Option, none, some, Bytes, codes, equals, arith, inl, inr, Bool-cases,
  Option-cases,
}

-- The server runs, and each call of its exec callback goes through pointers to a state that is gone.
abbrev pub IsStranded : World → Type 0
IsStranded w =
    (w.http.running ≡ true)
    × ((dml : DmlOutput) (execute_command : Bytes → Bytes) (cmd : Bytes)
        → exec_cb w.http.exec_gen dml execute_command cmd w ≡ dangling)

-- If the program goes on, this holds.
abbrev pub Onward : (World → Type 0) → Outcome → Type 0
Onward P (finished w r) = P w
Onward P crashed = Unit
Onward P undefined = Unit

-- The HTTP server runs with a callback for the state g, which is older than whatever state there is.
abbrev Apart : ℕ → World → Type 0
Apart g w =
    (w.http.running ≡ true) × (w.http.exec_gen ≡ some g) × ((l : ℕ) → w.live ≡ some l → g < l)

Apart-IsStranded : (g : ℕ) (w : World) → Apart g w → IsStranded w
unfolding exec_cb
Apart-IsStranded g w (on, gen, fresh) = (
  on,
  λ dml execute_command cmd. elim (Option-cases w.live) [
    | inl gone ↦ rw (gen, gone) refl
    | inr (l, there) ↦ (let f : g < l = fresh l there in rw (gen, there) (ground arith))
  ],
)

-- Before a new state is set up.
abbrev Before : ℕ → World → Type 0
Before g w = (w.http.running ≡ true) × (w.http.exec_gen ≡ some g) × (g < w.generations)

warn-Before : (g : ℕ) (addr : Bytes) (w : World) → Before g w → Before g (warn_non_loopback addr w)
unfolding warn_non_loopback
warn-Before g addr w b =
    if-holds (Before g) (not (equals addr (codes "127.0.0.1"))) _ _ (λ _. b) (λ _. b)

setup-Apart : (g : ℕ) (h : Host) (w : World) → Before g w → Apart g (setup_agent_state h w).0
unfolding setup_agent_state reset
setup-Apart g h w (on, gen, old) =
    let P = λ (r : World × Bool). Apart g r.0 in
    if-holds P (not h.create_client) _ _ (λ _. (on, gen, λ l e. cc))
      (λ _.
        if-holds P (not h.query_control) _ _ (λ _. (on, gen, λ l e. cc))
          (λ _. (on, gen, λ l e. (let same : w.generations ≡ l = cc in omega (arith, same, old)))))

started-Apart :
    (g : ℕ) (h : Host) (addr : Bytes) (port : ℤ) (w : World)
    → Apart g w
    → Onward (Apart g) (mcp_started h addr port w)
unfolding mcp_started announce reset
started-Apart g h addr port w a =
    if-holds (Onward (Apart g)) (not (is_positive port)) _ _ (λ _. (a.0, a.1, λ l e. cc))
      (λ _. elim (Bool-cases h.clipboard) [ inl c ↦ rw c a | inr c ↦ rw c a ])

launched-Apart :
    (g : ℕ) (h : Host) (addr : Bytes) (w : World) (o : Option (Server × ℤ))
    → Apart g w
    → Onward (Apart g) (elim o [
      | none ↦ crashed
      | some (s, port) ↦ mcp_started h addr port (record w { mcp = s })
    ])
launched-Apart g h addr w none a = tt
launched-Apart g h addr w (some (s, port)) a = started-Apart g h addr port (record w { mcp = s }) a

run_mcp-Apart :
    (g : ℕ) (h : Host) (rest : Bytes) (w : World)
    → w.mcp.running ≡ false
    → Before g w
    → Onward (Apart g) (run_mcp h rest w)
unfolding run_mcp
run_mcp-Apart g h rest w off b =
    let addr = bind_address rest in
    let r = setup_agent_state h (warn_non_loopback addr w) in
    let a = setup-Apart g h (warn_non_loopback addr w) (warn-Before g addr w b) in
    if-holds (Onward (Apart g)) w.mcp.running _ _ (λ e. absurd (ground (arith, e, off)))
      (λ _.
        if-holds (Onward (Apart g)) (not r.1) _ _ (λ _. a) (λ _. launched-Apart g h addr r.0 _ a))

Onward-map :
    (P Q : World → Type 0) → ((w : World) → P w → Q w) → (o : Outcome) → Onward P o → Onward Q o
Onward-map P Q f (finished w r) x = f w x
Onward-map P Q f crashed x = tt
Onward-map P Q f undefined x = tt

-- Where the HTTP server runs with the callback of a state that was set up, and the MCP server does not
-- run, `!agent mcp` that gets the control interface, with any address, strands the HTTP server, whether
-- it starts the MCP server or fails, if it does not end the program: the HTTP server runs on, but each
-- call of its exec callback goes through pointers to a state that is gone.
pub mcp_under_http_dangles :
    (h : Host) (args rest : Bytes) (w : World) (g : ℕ)
    → h.control ≡ true
    → split_args args ≡ (codes "mcp", rest)
    → w.http.running ≡ true
    → w.http.exec_gen ≡ some g
    → g < w.generations
    → w.mcp.running ≡ false
    → Onward IsStranded (happen (command h (some args)) w)
unfolding happen
mcp_under_http_dangles h args rest w g c e on gen old off =
    subst (Onward IsStranded)
      (sym (
        agent_impl-dispatch h args (codes "mcp") rest w c e
        ∙ dispatch-mcp h rest (record w { control_refs = w.control_refs + 1 })))
      (Onward-map (Apart g) IsStranded (Apart-IsStranded g) _ (
        run_mcp-Apart g h rest (record w { control_refs = w.control_refs + 1 }) off (on, gen, old)))

-- Starting a server whose threads were not joined.
run_http-crashes :
    (h : Host) (rest : Bytes) (w : World)
    → w.http.running ≡ false
    → w.http.joinable ≡ true
    → h.create_client ≡ true
    → h.query_control ≡ true
    → is_negative h.assigned_port ≡ false
    → run_http h rest w ≡ crashed
unfolding run_http setup_agent_state start_http warn_non_loopback reset
run_http-crashes h rest w off thread c q p =
    elim (Bool-cases (equals (bind_address rest) (codes "127.0.0.1"))) [
      | inl e ↦ rw (off, c, q, e, p, thread) refl
      | inr e ↦ rw (off, c, q, e, p, thread) refl
    ]

crashes-run :
    (x : Event) (es : List Event) (w : World) → happen x w ≡ crashed → run (x ∷ es) w ≡ crashed
unfolding run
crashes-run x es w e =
    ap (λ o. elim o [ finished w' r ↦ run es w' | crashed ↦ crashed | undefined ↦ undefined ]) e

-- Where the HTTP server ends by itself and its threads were not joined, an `!agent http` right after
-- it, with any address, ends the program, if it gets the control interface, the state of the agent can
-- be set up for it and a port can be bound.
pub http_after_end_crashes :
    (h : Host) (args rest : Bytes) (w : World)
    → w.http.joinable ≡ true
    → h.control ≡ true
    → split_args args ≡ (codes "http", rest)
    → h.create_client ≡ true
    → h.query_control ≡ true
    → is_negative h.assigned_port ≡ false
    → run (http_ends ∷ command h (some args) ∷ []) w ≡ crashed
unfolding run happen listen_ends
http_after_end_crashes h args rest w thread c e k q p =
    let w1 = record w { http = record w.http { running = false } } in
    let w2 = record w1 { control_refs = w1.control_refs + 1 } in
    crashes-run (command h (some args)) [] w1 (
      agent_impl-dispatch h args (codes "http") rest w1 c e
      ∙ dispatch-http h rest w2
      ∙ run_http-crashes h rest w2 refl thread k q p)

-- `!agent stop` always ends with no server running. It takes the state of the agent away if a server
-- ran, and leaves it as it is otherwise.
pub run_stop_lem :
    (w : World)
    → Finishes
        (λ w'.
          (w'.http.running ≡ false)
          × (w'.mcp.running ≡ false)
          × (w'.live ≡ (if w.http.running || w.mcp.running then none else w.live)))
        (run_stop w)
unfolding run_stop stop_http stop_mcp reset stop
run_stop_lem w = ground arith
