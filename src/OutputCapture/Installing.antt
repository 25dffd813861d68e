-- ===== src/OutputCapture/Installing.antt =====
-- `Install`, `Uninstall` and the destructor of output_capture.cpp.
use windbg_agent.Base.{◌≡◌, true, false, arith}
use windbg_agent.OutputCapture.{s_ok, e_fail, this, Capture, Client, install, uninstall, destroy}

-- A capture that is installed takes the output; a second `Install` fails and changes nothing. Taking
-- it off again, by `Uninstall` or by the destructor, gives the client back the callbacks and all the
-- references that it had, and a second `Uninstall` fails and changes nothing.
pub install-uninstall :
    (c : Capture) (k : Client)
    → c.client ≡ false
    → let (on, used, first) = install true c k in
      let (off, back, last) = uninstall true on used in
      (first ≡ s_ok)
      × (used.output_callbacks ≡ this)
      × (install true on used ≡ (on, used, e_fail))
      × (last ≡ s_ok)
      × (back ≡ k)
      × (off.client ≡ false)
      × (off.captured_output ≡ c.captured_output)
      × (destroy true on used ≡ k)
      × (uninstall true off back ≡ (off, back, e_fail))
unfolding install uninstall destroy
install-uninstall c k h = ground arith
