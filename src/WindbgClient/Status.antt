-- ===== src/WindbgClient/Status.antt =====
-- `DEBUG_STATUS_…` of dbgeng.h, as windbg_client.cpp compares them.
use windbg_agent.Base.{ℕ}

abbrev pub go : ℕ
go = 1

abbrev pub go_handled : ℕ
go_handled = 2

abbrev pub go_not_handled : ℕ
go_not_handled = 3

abbrev pub step_over : ℕ
step_over = 4

abbrev pub step_into : ℕ
step_into = 5

abbrev pub break : ℕ
break = 6

abbrev pub no_debuggee : ℕ
no_debuggee = 7

abbrev pub step_branch : ℕ
step_branch = 8

abbrev pub out_of_sync : ℕ
out_of_sync = 15

abbrev pub wait_input : ℕ
wait_input = 16

abbrev pub timeout : ℕ
timeout = 17
