-- ===== src/Trace/StepFilter/Batches.antt =====
-- The commands by which dbg_trace.cpp installs its step filter hold every entry once and in order.
use windbg_agent.Base.Split.{IsEntry, getlines, non_empty, getlines-IsEntry}
use windbg_agent.Base.{
  ℕ, zero, suc, ◌≤◌, ◌≡◌, refl, List, [], ◌∷◌, ◌++◌, map, Bytes, codes, length, arith, All,
  All-append, All-take, All-drop, take, drop, take-append-drop, length-take, length-drop,
}
use windbg_agent.Trace.StepFilter.{
  batch_size, batches_from, batches, entries, symbols, filter_commands, default_step_filter,
}
use windbg_agent.Trace.StepFilter.Split.{getlines-join_onto}

-- What the debugger reads from a list of batches.
abbrev pub read_batches : List Bytes → List Bytes
read_batches [] = []
read_batches (b ∷ bs) = getlines b';' b ++ read_batches bs

abbrev pub IsShort : Bytes → Type 0
IsShort batch = length (getlines b';' batch) ≤ batch_size

batches_from_lem :
    (rounds : ℕ) (es : List Bytes)
    → length es ≤ rounds
    → All (IsEntry b';') es
    → (read_batches (batches_from rounds es) ≡ es) × All IsShort (batches_from rounds es)
unfolding batches_from
batches_from_lem zero [] h v = (refl, tt)
batches_from_lem zero (e ∷ es) h v = absurd (omega arith)
batches_from_lem (suc n) [] h v = (refl, tt)
batches_from_lem (suc n) (e ∷ es) h v =
    let here =
      getlines-join_onto (take batch_size (e ∷ es))
        (All-take (IsEntry b';') batch_size (e ∷ es) v) in
    let (rest, short) =
      batches_from_lem n (drop batch_size (e ∷ es))
        (omega (arith, length-drop {0} batch_size (e ∷ es)))
        (All-drop (IsEntry b';') batch_size (e ∷ es) v) in
    (
      rw (here, rest) (take-append-drop batch_size (e ∷ es)),
      (rw here (omega (arith, length-take {0} batch_size (e ∷ es))), short),
    )

symbols-IsEntry : (syms : List Bytes) → All (IsEntry b';') syms → All (IsEntry b';') (symbols syms)
unfolding symbols
symbols-IsEntry [] v = tt
symbols-IsEntry (s ∷ syms) v = ground (arith, symbols-IsEntry syms v.1)

entries-IsEntry : (syms : List Bytes) → All (IsEntry b';') syms → All (IsEntry b';') (entries syms)
unfolding entries
entries-IsEntry syms v =
    All-append (IsEntry b';') (non_empty (getlines b';' default_step_filter)) (symbols syms)
      (getlines-IsEntry b';' default_step_filter) (symbols-IsEntry syms v)

-- The part of a `.step_filter "…"` command between its quotes.
abbrev pub quoted : Bytes → Bytes
quoted batch = codes ".step_filter \"" ++ (batch ++ codes "\"")

-- If the user's symbols are not empty and hold no semicolon, the debugger is first told to clear the
-- filter and then gets batches of at most ten entries, from which it reads exactly the default
-- entries and then the user's symbols that are not hex addresses, each once and in order.
pub filter_commands_lem :
    (syms : List Bytes)
    → All (IsEntry b';') syms
    → (bs : List Bytes) × (filter_commands syms ≡ codes ".step_filter /c" ∷ map quoted bs)
      × (read_batches bs ≡ non_empty (getlines b';' default_step_filter) ++ symbols syms)
      × All IsShort bs
unfolding filter_commands batches entries
filter_commands_lem syms v =
    let (all, short) =
      batches_from_lem (length (entries syms)) (entries syms) (omega arith)
        (entries-IsEntry syms v) in
    (batches (entries syms), refl, all, short)
