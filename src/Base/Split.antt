-- ===== src/Base/Split.antt =====
-- `std::getline` with a separator: the pieces of a text, and that they give back what was joined.
use windbg_agent.Base.Lists.{All, All-append}
use windbg_agent.Base.Tests.{◌==◌, if◌then◌else◌}
use windbg_agent.Base.Text.{Bytes, Lacks, is_empty}
use windbg_agent.Base.{
  ℕ, ◌≡◌, ◌≢◌, refl, ap, ◌∙◌, true, false, List, [], ◌∷◌, ◌++◌, append-nil, append_assoc, arith,
}

-- The pieces that `std::getline(ss, e, sep)` yields, from a stream that has read `cur` since the last
-- separator. At the end of the stream a piece is yielded only if something was read for it.
unfoldable pub getlines_from : ℕ → Bytes → Bytes → List Bytes
getlines_from sep cur [] = if is_empty cur then [] else cur ∷ []
getlines_from sep cur (c ∷ s) = elim (c == sep) [
  | true ↦ cur ∷ getlines_from sep [] s
  | false ↦ getlines_from sep (cur ++ c ∷ []) s
]

unfoldable pub getlines : ℕ → Bytes → List Bytes
unfolding getlines_from
getlines sep s = getlines_from sep [] s

-- `if (!e.empty()) entries.push_back(e);`
unfoldable pub non_empty : List Bytes → List Bytes
non_empty [] = []
non_empty (e ∷ es) = let rest = non_empty es in if is_empty e then rest else e ∷ rest

module _ (sep : ℕ) where
  -- What may stand between two separators: not empty, and without a separator.
  abbrev pub IsEntry : Bytes → Type 0
  IsEntry e = (is_empty e ≡ false) × Lacks sep e

  pub is_empty-append_left : (a b : Bytes) → is_empty a ≡ false → is_empty (a ++ b) ≡ false
  is_empty-append_left [] b h = cc
  is_empty-append_left (x ∷ a) b h = refl

  is_empty-append_right : (a b : Bytes) → is_empty b ≡ false → is_empty (a ++ b) ≡ false
  is_empty-append_right [] b h = h
  is_empty-append_right (x ∷ a) b h = refl

  -- Each entry behind a separator.
  abbrev pub separated : List Bytes → Bytes
  separated [] = []
  separated (e ∷ es) = sep ∷ (e ++ separated es)

  -- The rest of a piece, up to the separator or the end.
  pub getlines_from-append :
      (p rest cur : Bytes)
      → Lacks sep p
      → getlines_from sep cur (p ++ sep ∷ rest) ≡ (cur ++ p) ∷ getlines_from sep [] rest
  unfolding getlines_from
  getlines_from-append [] rest cur h = ground (arith, append-nil cur)
  getlines_from-append (c ∷ p) rest cur h =
      ground (arith, getlines_from-append p rest (cur ++ c ∷ []) h.1, append_assoc cur (c ∷ []) p)

  pub getlines_from_end :
      (p cur : Bytes)
      → Lacks sep p
      → is_empty (cur ++ p) ≡ false
      → getlines_from sep cur p ≡ (cur ++ p) ∷ []
  unfolding getlines_from
  getlines_from_end [] cur h n =
      let e : is_empty cur ≡ false = rw append-nil at n in rw (append-nil, e)
  getlines_from_end (c ∷ p) cur h n =
      ground (arith, getlines_from_end p (cur ++ c ∷ []) h.1, append_assoc cur (c ∷ []) p)

  pub getlines_from-separated :
      (es : List Bytes) (p cur : Bytes)
      → Lacks sep p
      → is_empty (cur ++ p) ≡ false
      → All IsEntry es
      → getlines_from sep cur (p ++ separated es) ≡ (cur ++ p) ∷ es
  getlines_from-separated [] p cur h n v = rw append-nil (getlines_from_end p cur h n)
  getlines_from-separated (e ∷ es) p cur h n v =
      getlines_from-append p (e ++ separated es) cur h
      ∙ ap (◌∷◌ (cur ++ p)) (getlines_from-separated es e [] v.0.1 v.0.0 v.1)

  -- The pieces of a text hold no separator.
  getlines_from-Lacks : (s cur : Bytes) → Lacks sep cur → All (Lacks sep) (getlines_from sep cur s)
  unfolding getlines_from
  getlines_from-Lacks [] cur h = ground arith
  getlines_from-Lacks (c ∷ s) cur h = ground (
    arith,
    getlines_from-Lacks s [] tt,
    getlines_from-Lacks s (cur ++ c ∷ []),
    All-append (λ x. x ≢ sep) cur (c ∷ []),
  )

  non_empty-IsEntry : (es : List Bytes) → All (Lacks sep) es → All IsEntry (non_empty es)
  unfolding non_empty
  non_empty-IsEntry [] v = tt
  non_empty-IsEntry (e ∷ es) v = ground (arith, non_empty-IsEntry es v.1)

  pub getlines-IsEntry : (s : Bytes) → All IsEntry (non_empty (getlines sep s))
  unfolding getlines
  getlines-IsEntry s = non_empty-IsEntry _ (getlines_from-Lacks s [] tt)
