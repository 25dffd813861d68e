-- ===== src/Trace/StepFilter/Split.antt =====
-- `std::getline` on a separator, and the joining of entries in dbg_trace.cpp: each undoes the other.
use windbg_agent.Base.Split.{
  IsEntry, getlines_from, getlines, separated, getlines_from-separated, is_empty-append_left,
}
use windbg_agent.Base.{
  ◌≡◌, refl, ◌∙◌, sym, false, List, [], ◌∷◌, ◌++◌, append-nil, append_assoc, Bytes, codes, is_empty,
  All,
}
use windbg_agent.Trace.StepFilter.{join_onto}

-- The inner loop of the batches, without its accumulator.
join_onto-separated :
    (es : List Bytes) (batch : Bytes)
    → is_empty batch ≡ false
    → join_onto batch es ≡ batch ++ separated b';' es
unfolding join_onto
join_onto-separated [] batch h = sym (append-nil batch)
join_onto-separated (e ∷ es) batch h = rw h (
    join_onto-separated es ((batch ++ codes ";") ++ e) (
      is_empty-append_left b';' (batch ++ codes ";") e
        (is_empty-append_left b';' batch (codes ";") h))
    ∙ simp append_assoc)

pub join_onto-cons :
    (e : Bytes) (es : List Bytes)
    → is_empty e ≡ false
    → join_onto [] (e ∷ es) ≡ e ++ separated b';' es
unfolding join_onto
join_onto-cons e es h = join_onto-separated es e h

-- A batch is split at its semicolons into the entries that were joined.
pub getlines-join_onto :
    (es : List Bytes) → All (IsEntry b';') es → getlines b';' (join_onto [] es) ≡ es
unfolding getlines
getlines-join_onto [] v = unfold join_onto getlines_from in refl
getlines-join_onto (e ∷ es) v =
    rw (join_onto-cons e es v.0.0) (getlines_from-separated b';' es e [] v.0.1 v.0.0 v.1)
