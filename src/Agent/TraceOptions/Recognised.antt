-- ===== src/Agent/TraceOptions/Recognised.antt =====
-- Which trace options main.cpp accepts.
use windbg_agent.Agent.TraceOptions.{
  TraceParams, Message, Step, next, refuse, number_or_complain, apply_key, apply_option,
  parse_options,
}
use windbg_agent.Base.Decimal.{stoi}
use windbg_agent.Base.Int.{ℤ}
use windbg_agent.Base.{
  ◌+◌, ◌≡◌, ◌↔◌, refl, ap, ◌∙◌, sym, Bool, true, false, List, [], ◌∷◌, ◌++◌, Option, none, some,
  Bytes, codes, ◌⊎◌, inl, inr, is_some, find, find-append, find-some, Lacks, take, drop, length,
  take-append, drop-append_cons, equals, equals_iff, arith, All, Bool-cases, Option-cases,
}

-- The keys that the loop knows.
abbrev pub keys : List Bytes
keys =
    codes "start_addr"
    ∷ codes "steps"
    ∷ codes "timeout"
    ∷ codes "skip"
    ∷ codes "eprocess"
    ∷ codes "more_verbose"
    ∷ []

abbrev pub OneOf : Bytes → List Bytes → Type 0
OneOf a [] = ⊥
OneOf a (b ∷ bs) = (a ≡ b) ⊎ OneOf a bs

-- A known key, an equals sign, and any value.
abbrev pub IsRecognised : Bytes → Type 0
IsRecognised tok = (key : Bytes) × (val : Bytes) × OneOf key keys × (tok ≡ key ++ b'=' ∷ val)

abbrev accepts : Step → Bool
accepts (next ms p) = true
accepts (refuse what) = false

accepts-number :
    (o : Option ℤ) (set : ℤ → TraceParams) (p : TraceParams) (m : Message)
    → accepts (number_or_complain o set p m) ≡ true
accepts-number (some n) set p m = refl
accepts-number none set p m = refl

accepts-apply_key :
    (key val : Bytes) (p : TraceParams) → OneOf key keys → accepts (apply_key key val p) ≡ true
unfolding apply_key equals
accepts-apply_key key val p (inl e) = rw e refl
accepts-apply_key key val p (inr (inl e)) = rw e (accepts-number (stoi val) _ p _)
accepts-apply_key key val p (inr (inr (inl e))) = rw e (accepts-number (stoi val) _ p _)
accepts-apply_key key val p (inr (inr (inr (inl e)))) = rw e refl
accepts-apply_key key val p (inr (inr (inr (inr (inl e))))) = rw e refl
accepts-apply_key key val p (inr (inr (inr (inr (inr (inl e)))))) = rw e refl
accepts-apply_key key val p (inr (inr (inr (inr (inr (inr e)))))) = elim e [ ]

accepted_key :
    (key val : Bytes) (p : TraceParams) → accepts (apply_key key val p) ≡ true → OneOf key keys
unfolding apply_key
accepted_key key val p h = elim (Bool-cases (equals key (codes "start_addr"))) [
  | inl e ↦ inl ((equals_iff key _).0 e)
  | inr n1 ↦ elim (Bool-cases (equals key (codes "steps"))) [
    | inl e ↦ inr (inl ((equals_iff key _).0 e))
    | inr n2 ↦ elim (Bool-cases (equals key (codes "timeout"))) [
      | inl e ↦ inr (inr (inl ((equals_iff key _).0 e)))
      | inr n3 ↦ elim (Bool-cases (equals key (codes "skip"))) [
        | inl e ↦ inr (inr (inr (inl ((equals_iff key _).0 e))))
        | inr n4 ↦ elim (Bool-cases (equals key (codes "eprocess"))) [
          | inl e ↦ inr (inr (inr (inr (inl ((equals_iff key _).0 e)))))
          | inr n5 ↦ elim (Bool-cases (equals key (codes "more_verbose"))) [
            | inl e ↦ inr (inr (inr (inr (inr (inl ((equals_iff key _).0 e))))))
            | inr n6 ↦ (let k : false ≡ true = rw (n1, n2, n3, n4, n5, n6) at h in cc)
          ]
        ]
      ]
    ]
  ]
]

keys-Lacks : (key : Bytes) → OneOf key keys → Lacks b'=' key
keys-Lacks key (inl e) = rw e (omega arith)
keys-Lacks key (inr (inl e)) = rw e (omega arith)
keys-Lacks key (inr (inr (inl e))) = rw e (omega arith)
keys-Lacks key (inr (inr (inr (inl e)))) = rw e (omega arith)
keys-Lacks key (inr (inr (inr (inr (inl e))))) = rw e (omega arith)
keys-Lacks key (inr (inr (inr (inr (inr (inl e)))))) = rw e (omega arith)
keys-Lacks key (inr (inr (inr (inr (inr (inr e)))))) = elim e [ ]

take-key : (key val : Bytes) → take (length key) (key ++ b'=' ∷ val) ≡ key
take-key key val = take-append key (b'=' ∷ val)

drop-key : (key val : Bytes) → drop (length key + 1) (key ++ b'=' ∷ val) ≡ val
drop-key key val = drop-append_cons key b'=' val

apply_option-key :
    (key val : Bytes) (p : TraceParams)
    → Lacks b'=' key
    → apply_option (key ++ b'=' ∷ val) p ≡ apply_key key val p
unfolding apply_option
apply_option-key key val p h =
    rw (find-append b'=' key val h, apply_option)
      (ap (λ k. apply_key k (drop (length key + 1) (key ++ b'=' ∷ val)) p) (take-key key val)
        ∙ ap (λ v. apply_key key v p) (drop-key key val))

accepts_iff :
    (tok : Bytes) (p : TraceParams) → (accepts (apply_option tok p) ≡ true) ↔ IsRecognised tok
unfolding apply_option
accepts_iff tok p = (there, back)
  where
    there : accepts (apply_option tok p) ≡ true → IsRecognised tok
    there h = elim (Option-cases (find b'=' tok)) [
      | inl e ↦ (let k : false ≡ true = rw (e, accepts, apply_option) at h in cc)
      | inr (i, e) ↦ (
        take i tok,
        drop (i + 1) tok,
        accepted_key _ (drop (i + 1) tok) p (rw (e, accepts, apply_option) at h),
        (find-some b'=' tok i e).0,
      )
    ]

    back : IsRecognised tok → accepts (apply_option tok p) ≡ true
    back (key, val, known, e) =
        ap (λ t. accepts (apply_option t p)) e
        ∙ ap accepts (apply_option-key key val p (keys-Lacks key known))
        ∙ accepts-apply_key key val p known

parse_options-step :
    (tok : Bytes) (toks : List Bytes) (p : TraceParams) (s : Step)
    → apply_option tok p ≡ s
    → ((q : TraceParams) → (is_some (parse_options toks q).1 ≡ true) ↔ All IsRecognised toks)
    → (is_some (parse_options (tok ∷ toks) p).1 ≡ true) ↔ (IsRecognised tok × All IsRecognised toks)
unfolding parse_options
parse_options-step tok toks p (next ms q) e rest =
    let known = (accepts_iff tok p).0 (ap accepts e) in
    rw (e, is_some, parse_options) ((λ h. (known, (rest q).0 h)), (λ h. (rest q).1 h.1))
parse_options-step tok toks p (refuse what) e rest =
    rw (e, is_some, parse_options)
      (
        (λ h. cc),
        (λ h. let k : false ≡ true = sym (ap accepts e) ∙ (accepts_iff tok p).1 h.0 in cc),
      )

-- `!agent trace` refuses its options exactly where one of them is not a known key, an equals sign
-- and a value: whatever was set before, and whatever the values are.
pub parse_options_iff :
    (toks : List Bytes) (p : TraceParams)
    → (is_some (parse_options toks p).1 ≡ true) ↔ All IsRecognised toks
unfolding parse_options
parse_options_iff [] p = (λ h. tt, λ h. refl)
parse_options_iff (tok ∷ toks) p =
    parse_options-step tok toks p (apply_option tok p) refl (parse_options_iff toks)
