-- ===== src/Prelude/Checks.antt =====
-- When a chain of checks passes, and what membership tests decide.
use mathlib.Core.Path.{◌≡◌}
use mathlib.Core.Logic.{◌↔◌, inl, inr}
use mathlib.Core.Bool.{Bool, true, false}
use mathlib.Core.Option.{some}
use mathlib.Core.List.{List, [], ◌∷◌, ◌++◌}
use native.Mathlib.Omega.{arith}
use Prim.Native.Nat.{ℕ}
use dira.Prelude.Tests.{Option-cases}
use dira.Prelude.Lists.{any, In}
use dira.Prelude.Text.{Str, cut}
use dira.Prelude.Outcomes.{Result, ok, err, ◌>>◌, require}

pub >>-ok_iff :
    {E : Type 0} (m k : Result E (Unit {0})) → ((m >> k) ≡ ok tt) ↔ ((m ≡ ok tt) × (k ≡ ok tt))
>>-ok_iff (ok tt) k = ground arith
>>-ok_iff (err e) k = ground arith

pub require-ok_iff : {E : Type 0} (b : Bool) (e : E) → (require b e ≡ ok tt) ↔ (b ≡ true)
require-ok_iff true e = ground arith
require-ok_iff false e = ground arith

-- A search by an equality test finds exactly the members.
pub any_iff-In :
    {A : Type 0} (eq : A → A → Bool)
    → ((a b : A) → (eq a b ≡ true) ↔ (a ≡ b))
    → (a : A) (xs : List A) → (any (eq a) xs ≡ true) ↔ In a xs
any_iff-In eq h a [] = ground arith
any_iff-In eq h a (x ∷ xs) = ground (arith, h a x, any_iff-In eq h a xs)

-- `cut` splits at a separator.
pub cut_sound : (s : Str) (sep : ℕ) {a b : Str} → cut s sep ≡ some (a, b) → s ≡ a ++ sep ∷ b
unfolding cut
cut_sound [] sep h = cc
cut_sound (c ∷ s) sep {a} {b} h = elim (Option-cases (cut s sep)) [
  | inl e ↦ ground arith
  | inr ((p, q), e) ↦ ground (arith, cut_sound s sep e)
]
