-- ===== src/Agent/Dispatch/Tests.antt =====
-- The commands of main.cpp at concrete inputs.
use windbg_agent.Agent.Args.{split_args}
use windbg_agent.Agent.Dispatch.Faults.{
  IsStranded, Onward, mcp_under_http_dangles, http_after_end_crashes, run_stop_lem,
}
use windbg_agent.Agent.Dispatch.Histories.{AllCareful, CanCall, run-CanCall}
use windbg_agent.Agent.Dispatch.Counting.{IsBalanced, After}
use windbg_agent.Agent.Dispatch.References.{happen-IsBalanced}
use windbg_agent.Agent.Dispatch.Served.{Finishes}
use windbg_agent.Agent.Dispatch.{command, http_ends, happen, run}
use windbg_agent.Agent.Stopping.{run_stop}
use windbg_agent.Agent.Starting.{bind_address}
use windbg_agent.Agent.World.{Host, World, no_server, loaded, crashed}
use windbg_agent.Base.Int.{pos}
use windbg_agent.Base.{
  if◌then◌else◌, ◌≡◌, refl, true, false, ◌&&◌, ◌||◌, [], ◌∷◌, none, some, codes, arith,
}

abbrev pub host : Host
host = record {
  control = true;
  create_client = true;
  query_control = true;
  assigned_port = pos 5000;
  free_port = pos 6000;
  sse_starts = true;
  sse_port = pos 6000;
  clipboard = false;
  target = codes "notepad.exe";
  target_state = codes "break";
  pid = 42;
  trace = λ p. codes "done";
  version_major = 1;
  version_minor = 0;
  version_patch = 6;
}

all_interfaces : bind_address (codes "0.0.0.0 ") ≡ codes "0.0.0.0"
unfolding bind_address
all_interfaces = refl

happen-IsBalanced_example :
    After (λ w' r. IsBalanced 0 w') (happen (command host (some (codes "http 0.0.0.0"))) loaded)
happen-IsBalanced_example =
    happen-IsBalanced (command host (some (codes "http 0.0.0.0"))) 0 loaded
      (record { control = refl; secondary = omega arith; paired = refl; alive = refl })

careful :
    AllCareful
      (command host (some (codes "http"))
        ∷ command host (some (codes "stop"))
        ∷ command host (some (codes "mcp"))
        ∷ [])
      loaded
unfolding split_args happen
careful = (
  (ground arith, refl, λ e. refl, λ e. refl, λ e t. ground arith),
  (
    (ground arith, refl, λ e. refl, λ e. ground arith, λ e t. ground arith),
    ((ground arith, refl, λ e. refl, λ e. refl, λ e t. ground arith), tt),
  ),
)

-- HTTP, then a stop, then MCP.
run-CanCall_example :
    let es =
      command host (some (codes "http"))
      ∷ command host (some (codes "stop"))
      ∷ command host (some (codes "mcp"))
      ∷ [] in
    Finishes
      (λ w. (w.http.running && w.mcp.running ≡ false) × CanCall w.http w × CanCall w.mcp w)
      (run es loaded)
run-CanCall_example =
    run-CanCall
      (command host (some (codes "http"))
        ∷ command host (some (codes "stop"))
        ∷ command host (some (codes "mcp"))
        ∷ [])
      careful

-- The world in which the HTTP server runs.
abbrev serving : World
serving = record loaded {
  http = record no_server {
    running = true;
    joinable = true;
    exec_gen = some 0;
    break_gen = some 0;
  };
  secondary_client = true;
  secondary_control = true;
  live = some 0;
  generations = 1;
  secondary_refs = 2;
}

mcp_under_http_dangles_example :
    Onward IsStranded (happen (command host (some (codes "mcp 0.0.0.0"))) serving)
unfolding split_args
mcp_under_http_dangles_example =
    mcp_under_http_dangles host (codes "mcp 0.0.0.0") (codes "0.0.0.0") serving 0 refl refl refl
      refl (omega arith) refl

http_after_end_crashes_example :
    run (http_ends ∷ command host (some (codes "http")) ∷ []) serving ≡ crashed
unfolding split_args
http_after_end_crashes_example =
    http_after_end_crashes host (codes "http") [] serving refl refl refl refl refl refl

stopped_serving :
    Finishes
      (λ w'.
        (w'.http.running ≡ false)
        × (w'.mcp.running ≡ false)
        × (w'.live ≡ (if serving.http.running || serving.mcp.running then none else serving.live)))
      (run_stop serving)
stopped_serving = run_stop_lem serving
