-- ===== src/Trace/LogFile/Names.antt =====
-- The names of the log files of dbg_trace.cpp.
use windbg_agent.Base.{
  ℕ, suc, ◌+◌, ◌≡◌, ◌≢◌, refl, false, [], ◌∷◌, map, none, some, Bytes, codes, is_empty, rfind, drop,
  if◌then◌else◌, arith, All, All-take, Lacks, inl, inr, Option-cases,
}
use windbg_agent.Trace.LogFile.{after_last, before_last, is_forbidden, sanitized, target_part}

rfind-none : (c : ℕ) (s : Bytes) → rfind c s ≡ none → Lacks c s
unfolding rfind
rfind-none c [] h = tt
rfind-none c (x ∷ s) h = elim (Option-cases (rfind c s)) [
  | inl e ↦ ground (arith, rfind-none c s e)
  | inr (i, e) ↦ ground arith
]

rfind-some : (c : ℕ) (s : Bytes) (i : ℕ) → rfind c s ≡ some i → Lacks c (drop (suc i) s)
unfolding rfind
rfind-some c [] i h = cc
rfind-some c (x ∷ s) i h = elim (Option-cases (rfind c s)) [
  | inl e ↦ ground (arith, rfind-none c s e)
  | inr (j, e) ↦ ground (arith, rfind-some c s j e)
]

after_last-Lacks : (c : ℕ) (s : Bytes) → Lacks c (after_last c s)
unfolding after_last
after_last-Lacks c s = elim (Option-cases (rfind c s)) [
  | inl e ↦ rw (e, after_last) (rfind-none c s e)
  | inr (i, e) ↦
      rw (e, after_last) (let n : i + 1 ≡ suc i = omega arith in rw n (rfind-some c s i e))
]

before_last-Lacks : (c d : ℕ) (s : Bytes) → Lacks c s → Lacks c (before_last d s)
unfolding before_last
before_last-Lacks c d s h = elim (Option-cases (rfind d s)) [
  | inl e ↦ rw (e, before_last) h
  | inr (i, e) ↦ rw (e, before_last) (All-take (λ x. x ≢ c) i s h)
]

-- None of the nine printable characters that the documentation of Windows keeps out of file names:
-- \ / : * ? " < > |
abbrev pub IsNameChar : ℕ → Type 0
IsNameChar c =
    (c ≢ 92)
    × (c ≢ 47)
    × (c ≢ 58)
    × (c ≢ 42)
    × (c ≢ 63)
    × (c ≢ 34)
    × (c ≢ 60)
    × (c ≢ 62)
    × (c ≢ 124)

sanitized-IsNameChar : (s : Bytes) → Lacks b'\\' s → All IsNameChar (map sanitized s)
unfolding sanitized is_forbidden
sanitized-IsNameChar [] h = tt
sanitized-IsNameChar (c ∷ s) h = ground (arith, sanitized-IsNameChar s h.1)

-- The part of a log's name that comes from the target is never empty, and holds none of the nine
-- characters \ / : * ? " < > | whatever the target is called.
pub target_part_lem :
    (target_name : Bytes)
    → (is_empty (target_part target_name) ≡ false) × All IsNameChar (target_part target_name)
unfolding target_part
target_part_lem t =
    named (map sanitized (before_last b'.' (after_last b'\\' t)))
      (sanitized-IsNameChar _ (before_last-Lacks b'\\' b'.' _ (after_last-Lacks b'\\' t)))
  where
    named :
        (s : Bytes)
        → All IsNameChar s
        → let r = if is_empty s then codes "unknown" else s in
          (is_empty r ≡ false) × All IsNameChar r
    named [] h = (refl, unfold is_forbidden in ground arith)
    named (c ∷ s) h = (refl, h)
