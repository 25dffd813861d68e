-- ===== src/Trace/Setup/Skips.antt =====
-- The addresses that a trace of dbg_trace.cpp skips.
use windbg_agent.Base.{
  ℕ, ◌≡◌, ◌≢◌, subst, ◌↔◌, ◌⊎◌, inl, inr, true, List, [], ◌∷◌, Option, none, some, Bytes,
  Bool-cases, Option-cases, arith,
}
use windbg_agent.Trace.Loop.{contains}
use windbg_agent.Trace.Setup.{resolved, insert, skip_addresses}

insert-contains :
    (a : ℕ) (found : Option ℕ) (set : List ℕ)
    → (contains a (insert found set) ≡ true) ↔ ((contains a set ≡ true) ⊎ (found ≡ some a))
unfolding insert contains
insert-contains a none set = ground arith
insert-contains a (some b) set = elim (Bool-cases (contains b set)) [
  | inl e ↦ rw e (
    (λ h. inl h),
    (λ h. elim h [
      | inl c ↦ c
      | inr same ↦ (let eq : b ≡ a = cc in subst (λ x. contains x set ≡ true) eq e)
    ]),
  )
  | inr e ↦ rw e (ground arith)
]

module _ (evaluate : Bytes → Option ℕ) where
  -- One of the symbols stands for this address, which is not zero.
  abbrev pub Named : ℕ → List Bytes → Type 0
  Named a [] = ⊥
  Named a (sym ∷ syms) = ((evaluate sym ≡ some a) × (a ≢ 0)) ⊎ Named a syms

  resolved_iff :
      (sym : Bytes) (a : ℕ) → (resolved evaluate sym ≡ some a) ↔ ((evaluate sym ≡ some a) × (a ≢ 0))
  unfolding resolved
  resolved_iff sym a = elim (Option-cases (evaluate sym)) [
    | inl e ↦ ground arith
    | inr (b, e) ↦ ground arith
  ]

  skip_addresses-contains :
      (a : ℕ) (set : List ℕ) (syms : List Bytes)
      → (contains a (skip_addresses evaluate set syms) ≡ true)
        ↔ ((contains a set ≡ true) ⊎ Named a syms)
  unfolding skip_addresses
  skip_addresses-contains a set [] = ground arith
  skip_addresses-contains a set (sym ∷ syms) =
      let ih = skip_addresses-contains a (insert (resolved evaluate sym) set) syms in
      let one = insert-contains a (resolved evaluate sym) set in
      let named = resolved_iff sym a in
      (
        λ h. elim (ih.0 h) [
          | inl c ↦ elim (one.0 c) [ inl s ↦ inl s | inr r ↦ inr (inl (named.0 r)) ]
          | inr n ↦ inr (inr n)
        ],
        λ h. ih.1 (elim h [
          | inl s ↦ inl (one.1 (inl s))
          | inr n ↦ elim n [ inl here ↦ inl (one.1 (inr (named.1 here))) | inr later ↦ inr later ]
        ]),
      )

  -- The addresses that are skipped are those for which a symbol stands.
  pub skip_addresses_iff :
      (a : ℕ) (syms : List Bytes)
      → (contains a (skip_addresses evaluate [] syms) ≡ true) ↔ Named a syms
  unfolding contains
  skip_addresses_iff a syms = let all = skip_addresses-contains a [] syms in ground (arith, all)
