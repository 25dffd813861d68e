-- ===== src/Agent/Dispatch/Counting.antt =====
-- Counting the references that main.cpp holds: what the parts of a command keep.
use windbg_agent.Agent.Starting.{announce}
use windbg_agent.Agent.World.{
  HResult, s_ok, Host, World, Outcome, finished, crashed, undefined, count, reset,
  setup_agent_state, leave, say,
}
use windbg_agent.Agent.Servers.{Server}
use windbg_agent.DmlOutput.{Mask, normal, error}
use windbg_agent.Base.{
  if-holds, ℕ, ◌+◌, ◌-◌, ◌≡◌, refl, ◌∙◌, Bool, true, false, not, some, Bytes, arith, is_some,
}

-- What a result says where there is one.
abbrev pub After : (World → HResult → Type 0) → Outcome → Type 0
After P (finished w r) = P w r
After P crashed = Unit
After P undefined = Unit

-- `c` references to the control of a command are held, one for each secondary pointer that is set,
-- and `dbg_client` and `dml` exist exactly where both pointers are set.
pub record IsBalanced (c : ℕ) (w : World) : Type 0 where
  pub control : w.control_refs ≡ c
  pub secondary : w.secondary_refs ≡ count w.secondary_control + count w.secondary_client
  pub paired : w.secondary_control ≡ w.secondary_client
  pub alive : is_some w.live ≡ w.secondary_client

pub reset-IsBalanced : (c : ℕ) (w : World) → IsBalanced c w → IsBalanced c (reset w)
unfolding reset
reset-IsBalanced c w b = record {
  control = b.control;
  secondary = omega (arith, b.secondary);
  paired = refl;
  alive = refl;
}

pub say-IsBalanced :
    (c : ℕ) (mask : Mask) (text : Bytes) (w : World)
    → IsBalanced c w
    → IsBalanced c (say mask text w)
say-IsBalanced c mask text w b = record {
  control = b.control;
  secondary = b.secondary;
  paired = b.paired;
  alive = b.alive;
}

-- A reference that is taken and given back.
pub taken-IsBalanced :
    (c : ℕ) (w : World)
    → IsBalanced c w
    → IsBalanced c (record w { secondary_refs = w.secondary_refs + 1 - 1 })
taken-IsBalanced c w b = record {
  control = b.control;
  secondary = omega (arith, b.secondary);
  paired = b.paired;
  alive = b.alive;
}

-- The two references of a new state.
pub populated-IsBalanced :
    (c : ℕ) (w : World)
    → IsBalanced c w
    → w.secondary_client ≡ false
    → IsBalanced c (record w {
      secondary_client = true;
      secondary_control = true;
      live = some w.generations;
      generations = w.generations + 1;
      secondary_refs = w.secondary_refs + 2;
    })
populated-IsBalanced c w b e = record {
  control = b.control;
  secondary =
      (let o : w.secondary_control ≡ false = b.paired ∙ e in
        let n : w.secondary_refs ≡ 0 = rw (o, e) at b.secondary in omega (arith, n));
  paired = refl;
  alive = refl;
}

pub setup-IsBalanced :
    (h : Host) (c : ℕ) (w : World) → IsBalanced c w → IsBalanced c (setup_agent_state h w).0
unfolding setup_agent_state
setup-IsBalanced h c w b =
    let r = reset-IsBalanced c w b in
    if-holds (λ (q : World × Bool). IsBalanced c q.0) (not h.create_client) _ _
      (λ e. say-IsBalanced c error _ (reset w) r)
      (λ e.
        if-holds (λ (q : World × Bool). IsBalanced c q.0) (not h.query_control) _ _
          (λ e. say-IsBalanced c error _ _ (taken-IsBalanced c (reset w) r))
          (λ e. populated-IsBalanced c (reset w) r refl))

abbrev pub Ends : ℕ → Outcome → Type 0
Ends c = After (λ w r. IsBalanced c w)

pub leave-Ends : (c : ℕ) (w : World) (r : HResult) → IsBalanced (c + 1) w → Ends c (leave w r)
leave-Ends c w r b = record {
  control = omega (arith, b.control);
  secondary = b.secondary;
  paired = b.paired;
  alive = b.alive;
}

pub announce-Ends :
    (h : Host) (c : ℕ) (info : Bytes) (w : World)
    → IsBalanced (c + 1) w
    → Ends c (announce h info w)
unfolding announce
announce-Ends h c info w b = leave-Ends c _ s_ok (
    say-IsBalanced (c + 1) normal _ _ (
      if-holds (IsBalanced (c + 1)) h.clipboard _ _
        (λ e. say-IsBalanced (c + 1) normal _ _ (say-IsBalanced (c + 1) normal _ w b))
        (λ e. say-IsBalanced (c + 1) normal _ w b)))

-- The servers do not matter.
pub servers-IsBalanced :
    (c : ℕ) (s t : Server) (w : World)
    → IsBalanced c w
    → IsBalanced c (record w { http = s; mcp = t })
servers-IsBalanced c s t w b = record {
  control = b.control;
  secondary = b.secondary;
  paired = b.paired;
  alive = b.alive;
}
