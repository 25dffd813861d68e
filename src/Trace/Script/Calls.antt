-- ===== src/Trace/Script/Calls.antt =====
-- Calls of skipped functions in the script of dbg_trace.cpp.
use mathlib.Core.Option
use windbg_agent.Base.{Option}
