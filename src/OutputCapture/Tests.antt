-- ===== src/OutputCapture/Tests.antt =====
-- Runs of output_capture.cpp, and the theorems about it at concrete inputs.
use windbg_agent.Base.{ℕ, ◌≡◌, refl, true, false, List, [], ◌∷◌, ◌++◌, map, Bytes, codes, some}
use windbg_agent.OutputCapture.Counting.{
  ComCall, queries, adds, releases, output_callbacks, com_calls, com_calls_lem,
}
use windbg_agent.OutputCapture.Forwarding.{Round, rounds_texts, outer, output_all, output_all_lem}
use windbg_agent.OutputCapture.Installing.{install-uninstall}
use windbg_agent.OutputCapture.{
  s_ok, e_fail, this, other, Capture, empty, Client, install, uninstall, destroy, Call, at_rest,
  output, get_and_clear,
}

abbrev said : ℕ → Bytes → Call
said m s = record { mask = m; text = some s }

abbrev installed : Capture
installed = record { client = true; original_callbacks = other 3; captured_output = [] }

-- The nested call is captured, and is lost to the original callbacks.
nested_is_lost : output (said 2 (codes "b") ∷ []) (said 1 (codes "a")) (installed, at_rest) ≡ (
  record installed { captured_output = codes "ab" },
  at_rest,
  record { mask = 1; text = codes "a" } ∷ [],
)
unfolding output
nested_is_lost = refl

clears : get_and_clear (record installed { captured_output = codes "ab" }) ≡ (installed, codes "ab")
unfolding get_and_clear
clears = refl

abbrev two_rounds : List Round
two_rounds = (said 2 (codes "b") ∷ [], said 1 (codes "a")) ∷ ([], said 4 (codes "c")) ∷ []

output_all_lem_example : output_all two_rounds (installed, at_rest) ≡ (
  record installed { captured_output = installed.captured_output ++ rounds_texts two_rounds },
  at_rest,
  map outer two_rounds,
)
output_all_lem_example = output_all_lem two_rounds installed refl

abbrev client : Client
client = record { output_callbacks = other 3; client_refs = 1; callback_refs = 1 }

install-uninstall_example :
    let (on, used, first) = install true empty client in
    let (off, back, last) = uninstall true on used in
    (first ≡ s_ok)
    × (used.output_callbacks ≡ this)
    × (install true on used ≡ (on, used, e_fail))
    × (last ≡ s_ok)
    × (back ≡ client)
    × (off.client ≡ false)
    × (off.captured_output ≡ empty.captured_output)
    × (destroy true on used ≡ client)
    × (uninstall true off back ≡ (off, back, e_fail))
unfolding empty
install-uninstall_example = install-uninstall empty client refl

-- The engine adds a reference when the capture is installed, asks for an interface, and gives both back.
abbrev installed_calls : List ComCall
installed_calls = adds ∷ queries output_callbacks ∷ releases ∷ releases ∷ []

installed_count : com_calls installed_calls 1 ≡ some 1
installed_count = com_calls_lem installed_calls refl
