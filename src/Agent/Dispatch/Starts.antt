-- ===== src/Agent/Dispatch/Starts.antt =====
-- The commands `http` and `mcp` of main.cpp, where no other server runs.
use windbg_agent.Agent.Dispatch.Served.{
  IsServed, Finishes, IsIdle, IsIdle-IsServed, IsServed-IsIdle, same-IsIdle, setup_lem, warn_lem,
  start_http_lem, start_mcp_lem, some_of, leave-Finishes, say-IsServed, announce-Finishes,
}
use windbg_agent.Agent.Starting.{
  http_started, run_http, mcp_started, run_mcp, warn_non_loopback, bind_address, http_info,
  mcp_info,
}
use windbg_agent.Agent.World.{e_fail, Host, World, crashed, reset, setup_agent_state, leave, say}
use windbg_agent.Agent.Servers.{
  Server, is_positive, start_http, start_mcp, set_break_callback, with_exec, launched,
}
use windbg_agent.Base.Int.{ℤ, pos, negsuc}
use windbg_agent.DmlOutput.{error}
use windbg_agent.Base.{
  ℕ, ◌≡◌, ◌≢◌, refl, sym, ◌∙◌, Bool, true, false, not, none, some, Bytes, codes, arith, inl, inr,
  if-holds,
}

-- A start that failed, on a world where nothing runs.
failed-Finishes :
    (text : Bytes) (w : World)
    → IsIdle w
    → Finishes IsServed (leave (say error text (reset w)) e_fail)
unfolding reset
failed-Finishes text w i = leave-Finishes _ e_fail (IsIdle-IsServed _ (same-IsIdle w _ refl refl i))

abbrev with_http : Server → World → World
with_http s w = record w { http = s }

abbrev with_mcp : Server → World → World
with_mcp s w = record w { mcp = s }

http_up-Finishes :
    (h : Host) (port : ℤ) (addr : Bytes) (g : ℕ) (w : World)
    → IsIdle w
    → w.live ≡ some g
    → is_positive port ≡ true
    → Finishes IsServed
        (http_started h port (with_http (launched port (with_exec addr w.live w.http)) w))
unfolding http_started set_break_callback
http_up-Finishes h port addr g w i l p =
    rw (p, Finishes)
      (announce-Finishes h
        (http_info h (set_break_callback w.live (launched port (with_exec addr w.live w.http)))) _
        (record {
          one = i.mcp_off;
          http_refers = λ e. (g, l, l);
          break_refers = λ e. refl;
          mcp_refers = λ e. cc (e, i.mcp_off);
          http_joined = refl;
          mcp_joined = i.mcp_joined ∙ sym i.mcp_off;
        }))

http_down-Finishes :
    (h : Host) (addr : Bytes) (w : World)
    → IsIdle w
    → Finishes IsServed (http_started h (negsuc 0) (with_http (with_exec addr w.live w.http) w))
unfolding http_started
http_down-Finishes h addr w i =
    failed-Finishes (codes "Failed to start HTTP server.\n")
      (with_http (with_exec addr w.live w.http) w)
      (record {
        http_off = i.http_off;
        mcp_off = i.mcp_off;
        http_joined = i.http_joined;
        mcp_joined = i.mcp_joined;
      })

launch_http-Finishes :
    (h : Host) (addr : Bytes) (g : ℕ) (w : World)
    → h.assigned_port ≢ pos 0
    → IsIdle w
    → w.live ≡ some g
    → Finishes IsServed (elim (start_http h.assigned_port addr w.live w.http) [
      | none ↦ crashed
      | some (s, port) ↦ http_started h port (with_http s w)
    ])
launch_http-Finishes h addr g w n i l =
    elim (start_http_lem h.assigned_port addr w.live w.http n i.http_off i.http_joined) [
      | inl e ↦ rw e (http_down-Finishes h addr w i)
      | inr (p, e) ↦ rw e (http_up-Finishes h h.assigned_port addr g w i l p)
    ]

mcp_up-Finishes :
    (h : Host) (port : ℤ) (addr : Bytes) (g : ℕ) (w : World)
    → IsIdle w
    → w.live ≡ some g
    → is_positive port ≡ true
    → Finishes IsServed
        (mcp_started h addr port (with_mcp (launched port (with_exec addr w.live w.mcp)) w))
unfolding mcp_started
mcp_up-Finishes h port addr g w i l p =
    rw (p, Finishes)
      (announce-Finishes h (mcp_info h addr port) _ (record {
        one = rw i.http_off refl;
        http_refers = λ e. cc (e, i.http_off);
        break_refers = λ e. cc (e, i.http_off);
        mcp_refers = λ e. (g, l, l);
        http_joined = i.http_joined ∙ sym i.http_off;
        mcp_joined = refl;
      }))

mcp_down-Finishes :
    (h : Host) (addr : Bytes) (w : World)
    → IsIdle w
    → Finishes IsServed (mcp_started h addr (negsuc 0) (with_mcp (with_exec addr w.live w.mcp) w))
unfolding mcp_started
mcp_down-Finishes h addr w i =
    failed-Finishes (codes "Failed to start MCP server.\n")
      (with_mcp (with_exec addr w.live w.mcp) w)
      (record {
        http_off = i.http_off;
        mcp_off = i.mcp_off;
        http_joined = i.http_joined;
        mcp_joined = i.mcp_joined;
      })

launch_mcp-Finishes :
    (h : Host) (addr : Bytes) (g : ℕ) (w : World)
    → is_positive h.sse_port ≡ true
    → IsIdle w
    → w.live ≡ some g
    → Finishes IsServed (elim (start_mcp h.free_port h.sse_starts h.sse_port addr w.live w.mcp) [
      | none ↦ crashed
      | some (s, port) ↦ mcp_started h addr port (with_mcp s w)
    ])
launch_mcp-Finishes h addr g w p i l =
    elim (start_mcp_lem h.free_port h.sse_starts h.sse_port addr w.live w.mcp i.mcp_off
      i.mcp_joined) [
        | inl e ↦ rw e (mcp_down-Finishes h addr w i)
        | inr e ↦ rw e (mcp_up-Finishes h h.sse_port addr g w i l p)
      ]

-- The world in which a server is started.
ready-IsIdle :
    (h : Host) (addr : Bytes) (w : World)
    → IsIdle w
    → IsIdle (setup_agent_state h (warn_non_loopback addr w)).0
ready-IsIdle h addr w i =
    let warned = warn_lem addr w in
    let set = setup_lem h (warn_non_loopback addr w) in
    same-IsIdle w _ (set.0 ∙ warned.0) (set.1 ∙ warned.1) i

pub run_http-Finishes :
    (h : Host) (rest : Bytes) (w : World)
    → h.assigned_port ≢ pos 0
    → w.mcp.running ≡ false
    → IsServed w
    → Finishes IsServed (run_http h rest w)
unfolding run_http
run_http-Finishes h rest w n m s =
    if-holds (Finishes IsServed) w.http.running _ _
      (λ e. leave-Finishes _ e_fail (say-IsServed error _ w s))
      (λ e.
        (let i = ready-IsIdle h (bind_address rest) w (IsServed-IsIdle w s e m) in
          if-holds (Finishes IsServed) (not w2.1) _ _
            (λ e. leave-Finishes w2.0 e_fail (IsIdle-IsServed w2.0 i))
            (λ e.
              (let (g, l) =
                  some_of _
                    ((setup_lem h (warn_non_loopback (bind_address rest) w)).2 (ground arith)) in
                launch_http-Finishes h (bind_address rest) g w2.0 n i l))))
  where
    w2 : World × Bool
    w2 = setup_agent_state h (warn_non_loopback (bind_address rest) w)

pub run_mcp-Finishes :
    (h : Host) (rest : Bytes) (w : World)
    → is_positive h.sse_port ≡ true
    → w.http.running ≡ false
    → IsServed w
    → Finishes IsServed (run_mcp h rest w)
unfolding run_mcp
run_mcp-Finishes h rest w p off s =
    if-holds (Finishes IsServed) w.mcp.running _ _
      (λ e. leave-Finishes _ e_fail (say-IsServed error _ w s))
      (λ e.
        (let i = ready-IsIdle h (bind_address rest) w (IsServed-IsIdle w s off e) in
          if-holds (Finishes IsServed) (not w2.1) _ _
            (λ e. leave-Finishes w2.0 e_fail (IsIdle-IsServed w2.0 i))
            (λ e.
              (let (g, l) =
                  some_of _
                    ((setup_lem h (warn_non_loopback (bind_address rest) w)).2 (ground arith)) in
                launch_mcp-Finishes h (bind_address rest) g w2.0 p i l))))
  where
    w2 : World × Bool
    w2 = setup_agent_state h (warn_non_loopback (bind_address rest) w)
