-- ===== src/Agent/Dispatch/Stops.antt =====
-- What `!agent stop`, `POST /shutdown` and the unloading of main.cpp leave behind.
use windbg_agent.Agent.Stopping.{stop_http, stop_mcp, run_stop, halt_http, halt_mcp, uninitialize}
use windbg_agent.Agent.World.{s_ok, World, reset}
use windbg_agent.Agent.Dispatch.Served.{
  IsServed, Finishes, IsIdle-IsServed, leave-Finishes, say-IsServed,
}
use windbg_agent.Agent.Servers.{stop}
use windbg_agent.DmlOutput.{normal}
use windbg_agent.Base.{◌≡◌, refl, ◌∙◌, false, not, ◌&&◌, arith, if-holds}

-- Stopping one server while at most that one runs.
stop_http-IsServed : (w : World) → IsServed w → IsServed (stop_http w)
unfolding stop_http reset stop
stop_http-IsServed w s =
    if-holds IsServed w.http.running _ _
      (λ e. IsIdle-IsServed _ (record {
        http_off = refl;
        mcp_off = ground (arith, s.one);
        http_joined = refl;
        mcp_joined = ground (arith, s.one, s.mcp_joined);
      }))
      (λ e. s)

stop_mcp-IsServed : (w : World) → IsServed w → IsServed (stop_mcp w)
unfolding stop_mcp reset stop
stop_mcp-IsServed w s =
    if-holds IsServed w.mcp.running _ _
      (λ e. IsIdle-IsServed _ (record {
        http_off = ground (arith, s.one);
        mcp_off = refl;
        http_joined = ground (arith, s.one, s.http_joined);
        mcp_joined = refl;
      }))
      (λ e. s)

pub run_stop-Finishes : (w : World) → IsServed w → Finishes IsServed (run_stop w)
unfolding run_stop
run_stop-Finishes w s =
    let s2 = stop_mcp-IsServed (stop_http w) (stop_http-IsServed w s) in
    if-holds (Finishes IsServed) (not w.http.running && not (stop_http w).mcp.running) _ _
      (λ e. leave-Finishes _ s_ok (say-IsServed normal _ _ s2)) (λ e. leave-Finishes _ s_ok s2)

halt_http_lem :
    (w : World)
    → w.http.joinable ≡ w.http.running
    → let w' = halt_http w in
      (w'.http.running ≡ false) × (w'.http.joinable ≡ false) × (w'.mcp ≡ w.mcp)
unfolding halt_http stop
halt_http_lem w j =
    if-holds
      (λ (w' : World). (w'.http.running ≡ false) × (w'.http.joinable ≡ false) × (w'.mcp ≡ w.mcp))
      w.http.running _ _ (λ e. (refl, refl, refl)) (λ e. (e, j ∙ e, refl))

halt_mcp_lem :
    (w : World)
    → w.mcp.joinable ≡ w.mcp.running
    → let w' = halt_mcp w in
      (w'.mcp.running ≡ false) × (w'.mcp.joinable ≡ false) × (w'.http ≡ w.http)
unfolding halt_mcp stop
halt_mcp_lem w j =
    if-holds
      (λ (w' : World). (w'.mcp.running ≡ false) × (w'.mcp.joinable ≡ false) × (w'.http ≡ w.http))
      w.mcp.running _ _ (λ e. (refl, refl, refl)) (λ e. (e, j ∙ e, refl))

pub unloaded-IsServed : (w : World) → IsServed w → IsServed (uninitialize w)
unfolding uninitialize reset
unloaded-IsServed w s =
    let (off1, joined1, same1) = halt_http_lem w s.http_joined in
    let j : (halt_http w).mcp.joinable ≡ (halt_http w).mcp.running = rw same1 s.mcp_joined in
    let (off2, joined2, same2) = halt_mcp_lem (halt_http w) j in
    IsIdle-IsServed _ (record {
      http_off = rw same2 off1;
      mcp_off = off2;
      http_joined = rw same2 joined1;
      mcp_joined = joined2;
    })

pub shutdown-IsServed : (w : World) → IsServed w → IsServed (record w { http = stop w.http })
unfolding stop
shutdown-IsServed w s = record {
  one = refl;
  http_refers = λ e. cc;
  break_refers = λ e. cc;
  mcp_refers = s.mcp_refers;
  http_joined = refl;
  mcp_joined = s.mcp_joined;
}
