-- ===== src/DmlOutput/Tests.antt =====
-- Emissions of dml_output.cpp, and the theorem about them at a concrete input.
use windbg_agent.Base.{◌≡◌, refl, true, false, [], ◌∷◌, ◌++◌, some, codes, arith}
use windbg_agent.DmlOutput.Visible.{Shows, dml-transparent}
use windbg_agent.DmlOutput.{
  DmlOutput, make, normal, markup, buffered, output, output_command, output_command_result,
  output_error, output_warning, output_colored,
}

abbrev with_dml : DmlOutput
with_dml = record { has_control = true; dml_supported = true }

prefers : make true (some 0x0004_0001) ≡ with_dml
unfolding make
prefers = refl

escapes :
    output_command with_dml (codes "dt nt!_X<\"a\">")
    ≡ markup normal (codes "<col fg=\"subfg\">$ dt nt!_X&lt;&quot;a&quot;&gt;</col>\n") ∷ []
unfolding output_command
escapes = refl

silent : output (record { has_control = false; dml_supported = false }) (codes "x") ≡ []
unfolding output
silent = refl

dml-transparent_example :
    Shows (codes "$ " ++ (codes "a<b" ++ codes "\n")) (output_command with_dml (codes "a<b"))
    × Shows (codes "a<b" ++ codes "\n") (output_command_result with_dml (codes "a<b"))
    × Shows (codes "a<b" ++ codes "\n") (output_error with_dml (codes "a<b"))
    × Shows (codes "a<b" ++ codes "\n") (output_warning with_dml (codes "a<b"))
    × Shows (buffered (codes "a<b")) (output_colored with_dml (codes "changed") (codes "a<b"))
dml-transparent_example =
    dml-transparent with_dml (codes "changed") (codes "a<b") refl (omega arith)
