-- ===== src/Prelude/Paths.antt =====
-- Paths through finitely many names: a path without a repetition cannot grow for ever.
use Prim.Native.Nat.{ℕ, ◌≤◌, ◌<◌}
use mathlib.Core.Path.{◌≡◌}
use mathlib.Core.Logic.{inl, inr}
use mathlib.Core.Bool.{false, not}
use mathlib.Core.List.{List, [], ◌∷◌}
use native.Mathlib.Omega.{arith}
use dira.Prelude.Lists.{length, keep_if, In}
use dira.Prelude.Text.{Str, one_of, str_eq_refl}

-- How many of a list are not on a path.
unfoldable pub unseen : List Str → List Str → ℕ
unseen names path = length (keep_if (λ d. not (one_of d path)) names)

pub unseen_le : (names path : List Str) (p : Str) → unseen names (p ∷ path) ≤ unseen names path
unfolding unseen
unseen_le [] path p = omega arith
unseen_le (d ∷ names) path p = ground (arith, unseen_le names path p)

pub unseen_bounded : (names path : List Str) → unseen names path ≤ length names
unfolding unseen
unseen_bounded [] path = omega arith
unseen_bounded (d ∷ names) path = ground (arith, unseen_bounded names path)

pub unseen_lt :
    (names path : List Str) (p : Str)
    → In p names
    → one_of p path ≡ false
    → unseen names (p ∷ path) < unseen names path
unfolding unseen
unseen_lt (d ∷ names) path p (inl e) h = ground (arith, unseen_le names path p, str_eq_refl p)
unseen_lt (d ∷ names) path p (inr m) h = ground (arith, unseen_lt names path p m h)
unseen_lt [] path p m h = absurd m
