-- ===== src/Agent/World.antt =====
-- main.cpp: the globals of the extension, `AgentState::reset` and `setup_agent_state`.
use windbg_agent.Agent.Servers.{Server}
use windbg_agent.Agent.TraceOptions.{TraceParams, Message}
use windbg_agent.Base.Int.{ℤ, pos}
use windbg_agent.Base.{
  ℕ, ◌+◌, ◌-◌, Bool, true, false, not, List, [], ◌∷◌, ◌++◌, Option, none, some, Bytes, codes,
  if◌then◌else◌,
}
use windbg_agent.DmlOutput.{Mask, error}

pub data HResult : Type 0 where
  s_ok e_fail e_invalidarg : HResult

-- What the debugger and the libraries answer while one command runs.
pub record Host : Type 0 where
  pub control : Bool
  pub create_client : Bool
  pub query_control : Bool
  pub assigned_port : ℤ
  pub free_port : ℤ
  pub sse_starts : Bool
  pub sse_port : ℤ
  pub clipboard : Bool
  pub target : Bytes
  pub target_state : Bytes
  pub pid : ℕ
  pub trace : TraceParams → Bytes
  pub version_major : ℕ
  pub version_minor : ℕ
  pub version_patch : ℕ

-- The globals of main.cpp. `live` is the number of the state whose `dbg_client` and `dml` exist now;
-- `secondary_refs` and `control_refs` are the references that are held and not released.
pub record World : Type 0 where
  pub http : Server
  pub mcp : Server
  pub secondary_client : Bool
  pub secondary_control : Bool
  pub live : Option ℕ
  pub generations : ℕ
  pub secondary_refs : ℕ
  pub control_refs : ℕ
  pub output : List Message

-- `crashed` is `std::terminate`; `undefined` reads past the end of a vector.
pub data Outcome : Type 0 where
  finished : World → HResult → Outcome
  crashed undefined : Outcome

abbrev pub say : Mask → Bytes → World → World
say mask text w = record w { output = w.output ++ record { mask = mask; text = text } ∷ [] }

abbrev pub count : Bool → ℕ
count b = if b then 1 else 0

-- `AgentState::reset`
unfoldable pub reset : World → World
reset w = record w {
  live = none;
  secondary_client = false;
  secondary_control = false;
  secondary_refs = w.secondary_refs - count w.secondary_control - count w.secondary_client;
}

-- `setup_agent_state`. The references of the clients that could not be used are released at once.
unfoldable pub setup_agent_state : Host → World → World × Bool
unfolding reset
setup_agent_state h w =
    let w0 = reset w in
    if not h.create_client
    then (say error (codes "Failed to create secondary debug client.\n") w0, false)
    else if not h.query_control
    then (
      say error (codes "Failed to query IDebugControl from secondary client.\n")
          (record w0 { secondary_refs = w0.secondary_refs + 1 - 1 }),
      false,
    )
    else (
      record w0 {
        secondary_client = true;
        secondary_control = true;
        live = some w0.generations;
        generations = w0.generations + 1;
        secondary_refs = w0.secondary_refs + 2;
      },
      true,
    )

-- The end of a command: `control->Release()`.
abbrev pub leave : World → HResult → Outcome
leave w r = finished (record w { control_refs = w.control_refs - 1 }) r

abbrev pub no_server : Server
no_server = record {
  running = false;
  port = pos 0;
  bind_addr = codes "127.0.0.1";
  exec_gen = none;
  break_gen = none;
  joinable = false;
}

abbrev pub loaded : World
loaded = record {
  http = no_server;
  mcp = no_server;
  secondary_client = false;
  secondary_control = false;
  live = none;
  generations = 0;
  secondary_refs = 0;
  control_refs = 0;
  output = [];
}
