-- ===== src/Trace/StepFilter/Tests.antt =====
-- The step filter of dbg_trace.cpp, and the theorem about it at a concrete input.
use windbg_agent.Base.Split.{getlines, non_empty}
use windbg_agent.Base.{
  ◌≡◌, refl, true, false, List, [], ◌∷◌, ◌++◌, map, Bytes, codes, length, arith, All,
}
use windbg_agent.Trace.StepFilter.Batches.{filter_commands_lem, read_batches, quoted, IsShort}
use windbg_agent.Trace.StepFilter.{
  symbols, is_hex, entries, batches, filter_commands, default_step_filter,
}

hex_words :
    (is_hex (codes "0x7ff6") ≡ true)
    × (is_hex (codes "7FF6") ≡ true)
    × (is_hex (codes "nt!Ki") ≡ false)
    × (is_hex (codes "") ≡ false)
    × (is_hex (codes "add") ≡ true)
unfolding is_hex
hex_words = (refl, refl, refl, refl, refl)

forty_eight : length (entries []) ≡ 48
unfolding entries
forty_eight = refl

five_batches : length (batches (entries [])) ≡ 5
unfolding entries batches
five_batches = refl

abbrev user_symbols : List Bytes
user_symbols = codes "nt!Ki" ∷ codes "0x10" ∷ []

filter_commands_lem_example :
    (bs : List Bytes) × (filter_commands user_symbols ≡ codes ".step_filter /c" ∷ map quoted bs)
    × (read_batches bs ≡ non_empty (getlines b';' default_step_filter) ++ symbols user_symbols)
    × All IsShort bs
filter_commands_lem_example =
    filter_commands_lem user_symbols ((refl, omega arith), ((refl, omega arith), tt))
