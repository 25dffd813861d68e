-- ===== src/Agent/Dispatch/Served.antt =====
-- The pointers that the callbacks of main.cpp hold: while a server runs, they point to the state of
-- the agent that is there.
use windbg_agent.Agent.Starting.{warn_non_loopback, announce}
use windbg_agent.Agent.World.{
  HResult, s_ok, Host, World, Outcome, finished, crashed, undefined, reset, setup_agent_state,
  leave, say,
}
use windbg_agent.Agent.Servers.{Server, is_positive, start_http, start_mcp, with_exec, launched}
use windbg_agent.Base.Int.{ℤ, pos, negsuc}
use windbg_agent.DmlOutput.{Mask, normal}
use windbg_agent.Base.{
  ℕ, suc, zero, ◌≡◌, ◌≢◌, ◌⊎◌, refl, sym, ◌∙◌, Bool, true, false, not, ◌&&◌, Option, none, some,
  Bytes, codes, arith, inl, inr, is_some, equals, if-holds,
}

-- The callbacks of a server that runs refer to the state that exists now.
abbrev pub Refers : Option ℕ → Server → Type 0
Refers live s = s.running ≡ true → (g : ℕ) × (live ≡ some g) × (s.exec_gen ≡ some g)

-- Not both servers run; what runs refers to the agent's state; the threads of what does not run were
-- joined.
pub record IsServed (w : World) : Type 0 where
  pub one : w.http.running && w.mcp.running ≡ false
  pub http_refers : Refers w.live w.http
  pub break_refers : w.http.running ≡ true → w.http.break_gen ≡ w.live
  pub mcp_refers : Refers w.live w.mcp
  pub http_joined : w.http.joinable ≡ w.http.running
  pub mcp_joined : w.mcp.joinable ≡ w.mcp.running

abbrev pub Finishes : (World → Type 0) → Outcome → Type 0
Finishes P (finished w r) = P w
Finishes P crashed = ⊥
Finishes P undefined = ⊥

-- No server runs.
pub record IsIdle (w : World) : Type 0 where
  pub http_off : w.http.running ≡ false
  pub mcp_off : w.mcp.running ≡ false
  pub http_joined : w.http.joinable ≡ false
  pub mcp_joined : w.mcp.joinable ≡ false

pub IsIdle-IsServed : (w : World) → IsIdle w → IsServed w
IsIdle-IsServed w i = record {
  one = rw i.http_off refl;
  http_refers = λ e. cc (e, i.http_off);
  break_refers = λ e. cc (e, i.http_off);
  mcp_refers = λ e. cc (e, i.mcp_off);
  http_joined = i.http_joined ∙ sym i.http_off;
  mcp_joined = i.mcp_joined ∙ sym i.mcp_off;
}

pub IsServed-IsIdle :
    (w : World) → IsServed w → w.http.running ≡ false → w.mcp.running ≡ false → IsIdle w
IsServed-IsIdle w s h m = record {
  http_off = h;
  mcp_off = m;
  http_joined = s.http_joined ∙ h;
  mcp_joined = s.mcp_joined ∙ m;
}

-- Worlds with the same servers and the same state.
pub same-IsServed :
    (w w' : World) → w'.http ≡ w.http → w'.mcp ≡ w.mcp → w'.live ≡ w.live → IsServed w → IsServed w'
same-IsServed w w' eh em el s = record {
  one = rw (eh, em) s.one;
  http_refers = rw (eh, el) s.http_refers;
  break_refers = rw (eh, el) s.break_refers;
  mcp_refers = rw (em, el) s.mcp_refers;
  http_joined = rw eh s.http_joined;
  mcp_joined = rw em s.mcp_joined;
}

pub same-IsIdle : (w w' : World) → w'.http ≡ w.http → w'.mcp ≡ w.mcp → IsIdle w → IsIdle w'
same-IsIdle w w' eh em i = record {
  http_off = rw eh i.http_off;
  mcp_off = rw em i.mcp_off;
  http_joined = rw eh i.http_joined;
  mcp_joined = rw em i.mcp_joined;
}

-- What `setup_agent_state` leaves.
pub setup_lem :
    (h : Host) (w : World)
    → let (w', ok) = setup_agent_state h w in
      (w'.http ≡ w.http) × (w'.mcp ≡ w.mcp) × (ok ≡ true → is_some w'.live ≡ true)
unfolding setup_agent_state reset
setup_lem h w = ground arith

pub warn_lem :
    (addr : Bytes) (w : World)
    → let w' = warn_non_loopback addr w in (w'.http ≡ w.http) × (w'.mcp ≡ w.mcp)
unfolding warn_non_loopback
warn_lem addr w =
    if-holds (λ (w' : World). (w'.http ≡ w.http) × (w'.mcp ≡ w.mcp))
      (not (equals addr (codes "127.0.0.1"))) _ _ (λ e. (refl, refl)) (λ e. (refl, refl))

-- What `start` does with a server that is off.
pub start_http_lem :
    (port : ℤ) (addr : Bytes) (gen : Option ℕ) (s : Server)
    → port ≢ pos 0
    → s.running ≡ false
    → s.joinable ≡ false
    → (start_http port addr gen s ≡ some (with_exec addr gen s, negsuc 0))
      ⊎ ((is_positive port ≡ true)
          × (start_http port addr gen s ≡ some (launched port (with_exec addr gen s), port)))
unfolding start_http
start_http_lem (pos zero) addr gen s n r j = absurd (n refl)
start_http_lem (pos (suc k)) addr gen s n r j = inr (refl, rw (r, j) refl)
start_http_lem (negsuc k) addr gen s n r j = inl (rw r refl)

pub start_mcp_lem :
    (free : ℤ) (starts : Bool) (port : ℤ) (addr : Bytes) (gen : Option ℕ) (s : Server)
    → s.running ≡ false
    → s.joinable ≡ false
    → (start_mcp free starts port addr gen s ≡ some (with_exec addr gen s, negsuc 0))
      ⊎ (start_mcp free starts port addr gen s ≡ some (launched port (with_exec addr gen s), port))
unfolding start_mcp
start_mcp_lem free starts port addr gen s r j = ground arith

pub some_of : (o : Option ℕ) → is_some o ≡ true → (g : ℕ) × (o ≡ some g)
some_of none h = cc
some_of (some g) h = (g, refl)

pub leave-Finishes : (w : World) (r : HResult) → IsServed w → Finishes IsServed (leave w r)
leave-Finishes w r s = same-IsServed w _ refl refl refl s

pub say-IsServed :
    (mask : Mask) (text : Bytes) (w : World) → IsServed w → IsServed (say mask text w)
say-IsServed mask text w s = same-IsServed w _ refl refl refl s

pub announce-Finishes :
    (h : Host) (info : Bytes) (w : World) → IsServed w → Finishes IsServed (announce h info w)
unfolding announce
announce-Finishes h info w s = leave-Finishes _ s_ok (
    say-IsServed normal _ _ (
      if-holds IsServed h.clipboard _ _ (λ e. say-IsServed normal _ _ (say-IsServed normal _ w s))
        (λ e. say-IsServed normal _ w s)))
