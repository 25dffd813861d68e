-- ===== src/Base/Text.antt =====
-- Text as a list of byte values, with the operations of `std::string` that the program calls.
use Prim.Native.Char.{code}
use Prim.Native.Nat.{ℕ, zero, suc, ◌+◌}
use Prim.Native.String.{String}
use mathlib.Core.Bool.{Bool, true, false, ◌&&◌}
use mathlib.Core.List.{List, [], ◌∷◌, ◌++◌}
use mathlib.Core.Logic.{◌≢◌, ◌↔◌, inl, inr}
use mathlib.Core.Option
use mathlib.Core.Option.{Option, none, some}
use mathlib.Core.Path.{◌≡◌, refl}
use native.Mathlib.Omega.{arith}
use windbg_agent.Base.Lists.{All, length, take, drop}
use windbg_agent.Base.Tests.{◌==◌, if◌then◌else◌, Option-cases}

abbrev pub Bytes : Type 0
Bytes = List ℕ

-- The code points of a literal: its bytes, as every literal is ASCII.
abbrev pub codes : String → Bytes
codes String.[] = []
codes (String.◌∷◌ c s) = code c ∷ codes s

-- A text written piece by piece.
unfoldable pub joined : List Bytes → Bytes
joined [] = []
joined (s ∷ ss) = s ++ joined ss

-- `s.empty()`
abbrev pub is_empty : Bytes → Bool
is_empty [] = true
is_empty (c ∷ s) = false

-- `a == b` on strings.
unfoldable pub equals : Bytes → Bytes → Bool
equals [] t = is_empty t
equals (c ∷ s) [] = false
equals (c ∷ s) (d ∷ t) = equals s t && c == d

pub equals_iff : (s t : Bytes) → (equals s t ≡ true) ↔ (s ≡ t)
unfolding equals
equals_iff [] [] = (λ h. refl, λ h. refl)
equals_iff [] (d ∷ t) = ground arith
equals_iff (c ∷ s) [] = ground arith
equals_iff (c ∷ s) (d ∷ t) = let same_tail = equals_iff s t in ground (arith, same_tail)

-- `s.find(c)`, where `none` is npos.
unfoldable pub find : ℕ → Bytes → Option ℕ
find c [] = none
find c (x ∷ s) = if x == c then some 0 else Option.map suc (find c s)

-- `s.rfind(c)`
unfoldable pub rfind : ℕ → Bytes → Option ℕ
rfind c [] = none
rfind c (x ∷ s) = elim (rfind c s) [
  | some i ↦ some (suc i)
  | none ↦ if x == c then some 0 else none
]

-- No byte of the text is `c`.
abbrev pub Lacks : ℕ → Bytes → Type 0
Lacks c = All (λ x. x ≢ c)

pub find-none : (c : ℕ) (s : Bytes) → Lacks c s → find c s ≡ none
unfolding find
find-none c [] h = refl
find-none c (x ∷ s) h = ground (arith, find-none c s h.1)

pub find-append : (c : ℕ) (s t : Bytes) → Lacks c s → find c (s ++ c ∷ t) ≡ some (length s)
unfolding find
find-append c [] t h = ground arith
find-append c (x ∷ s) t h = ground (arith, find-append c s t h.1)

pub find-none_iff : (c : ℕ) (s : Bytes) → find c s ≡ none → Lacks c s
unfolding find
find-none_iff c [] h = tt
find-none_iff c (x ∷ s) h = ground (arith, find-none_iff c s)

-- Where a byte was found, it parts the text, and it stands nowhere before.
pub find-some :
    (c : ℕ) (s : Bytes) (i : ℕ)
    → find c s ≡ some i
    → (s ≡ take i s ++ c ∷ drop (i + 1) s) × Lacks c (take i s)
unfolding find
find-some c [] i h = cc
find-some c (x ∷ s) zero h = elim (Option-cases (find c s)) [
  | inl none_found ↦ ground arith
  | inr (j, found) ↦ ground arith
]
find-some c (x ∷ s) (suc i) h = elim (Option-cases (find c s)) [
  | inl none_found ↦ ground arith
  | inr (j, found) ↦
      (let e : suc i + 1 ≡ suc (i + 1) = omega arith in rw e (ground (arith, find-some c s i)))
]
