-- ===== src/Prelude/Splits.antt =====
-- Cutting a text at a separator, and joining the parts.
use Prim.Native.Nat.{ℕ}
use mathlib.Core.Path.{◌≡◌, refl, ap, ◌∙◌}
use mathlib.Core.Logic.{inl, inr, ◌≢◌}
use mathlib.Core.Bool.{true, false}
use mathlib.Core.List.{List, [], ◌∷◌, ◌++◌}
use native.Mathlib.Omega.{arith}
use dira.Prelude.Tests.{◌==◌, Bool-cases}
use dira.Prelude.Lists.{is_nil, All}
use dira.Prelude.Text.{Str, split, cons_head, join}

cons_head-append :
    (c : ℕ) (xs ys : List Str) → is_nil xs ≡ false → cons_head c (xs ++ ys) ≡ cons_head c xs ++ ys
cons_head-append c [] ys h = cc
cons_head-append c (x ∷ xs) ys h = refl

cons_head-some : (c : ℕ) (xs : List Str) → is_nil (cons_head c xs) ≡ false
cons_head-some c [] = refl
cons_head-some c (x ∷ xs) = refl

pub split-some : (s : Str) (sep : ℕ) → is_nil (split s sep) ≡ false
unfolding split
split-some [] sep = refl
split-some (c ∷ s) sep = elim (Bool-cases (c == sep)) [
  | inl e ↦ rw (e, split)
  | inr e ↦ rw (e, split, cons_head-some c (split s sep))
]

same_is_equal : (n : ℕ) → (n == n) ≡ true
same_is_equal n = ground arith

pub split-append :
    (a : Str) (sep : ℕ) (b : Str) → split (a ++ sep ∷ b) sep ≡ split a sep ++ split b sep
unfolding split
split-append [] sep b = rw (same_is_equal sep, split)
split-append (c ∷ a) sep b = elim (Bool-cases (c == sep)) [
  | inl e ↦ rw (e, split, split-append a sep b)
  | inr e ↦
      rw (e, split, split-append a sep b)
        (cons_head-append c (split a sep) (split b sep) (split-some a sep))
]

join-start :
    (ps : List Str) (sep : ℕ)
    → is_nil ps ≡ false
    → join ([] ∷ ps) (sep ∷ []) ≡ sep ∷ join ps (sep ∷ [])
join-start [] sep h = cc
join-start (p ∷ ps) sep h = refl

join-cons_head :
    (c : ℕ) (ps : List Str) (sep : Str)
    → is_nil ps ≡ false
    → join (cons_head c ps) sep ≡ c ∷ join ps sep
join-cons_head c [] sep h = cc
join-cons_head c (p ∷ []) sep h = refl
join-cons_head c (p ∷ q ∷ ps) sep h = refl

-- The parts of a split, joined again.
pub join-split : (s : Str) (sep : ℕ) → join (split s sep) (sep ∷ []) ≡ s
unfolding split
join-split [] sep = refl
join-split (c ∷ s) sep = elim (Bool-cases (c == sep)) [
  | inl e ↦
      rw (e, split)
        (join-start (split s sep) sep (split-some s sep)
          ∙ ap (λ x. sep ∷ x) (join-split s sep)
          ∙ ap (λ x. x ∷ s) (same e))
  | inr e ↦
      rw (e, split)
        (join-cons_head c (split s sep) (sep ∷ []) (split-some s sep)
          ∙ ap (λ x. c ∷ x) (join-split s sep))
]
  where
    same : (c == sep) ≡ true → sep ≡ c
    same e = ground arith

pub split_none : (s : Str) (sep : ℕ) → All (λ c. c ≢ sep) s → split s sep ≡ s ∷ []
unfolding split
split_none [] sep h = refl
split_none (c ∷ s) sep (h, hs) = rw (other h, split) (ap (cons_head c) (split_none s sep hs))
  where
    other : c ≢ sep → (c == sep) ≡ false
    other h = ground arith
