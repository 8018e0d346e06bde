-- ===== src/Prelude/Sorting.antt =====
-- `sort.Slice`: a list ordered by a test. Where the test decides every pair of elements, the order is
-- the only one, so it is that of an insertion sort.
use mathlib.Core.Path.{◌≡◌, refl, ap, ◌∙◌}
use mathlib.Core.Logic.{◌⊎◌, inl, inr, ◌↔◌}
use mathlib.Core.Bool.{Bool, true, false}
use mathlib.Core.List.{List, [], ◌∷◌, map}
use native.Mathlib.Omega.{arith}
use dira.Prelude.Tests.{if◌then◌else◌, Bool-cases}
use dira.Prelude.Lists.{All, AreApart, In}

module _ {A : Type 0} (less : A → A → Bool) where
  unfoldable pub sort_insert : A → List A → List A
  sort_insert a [] = a ∷ []
  sort_insert a (x ∷ xs) = if less x a then x ∷ sort_insert a xs else a ∷ x ∷ xs

  unfoldable pub sort : List A → List A
  unfolding sort_insert
  sort [] = []
  sort (x ∷ xs) = sort_insert x (sort xs)

  -- No element is less than one that stands before it.
  abbrev pub IsSorted : List A → Type 0
  IsSorted [] = Unit
  IsSorted (x ∷ xs) = All (λ y. less y x ≡ false) xs × IsSorted xs

  In-sort_insert : (b a : A) (xs : List A) → In b (sort_insert a xs) ↔ ((b ≡ a) ⊎ In b xs)
  unfolding sort_insert
  In-sort_insert b a [] = ground arith
  In-sort_insert b a (x ∷ xs) = elim (Bool-cases (less x a)) [
    | inl after ↦ rw after (ground (arith, In-sort_insert b a xs))
    | inr before ↦ rw before (ground arith)
  ]

  -- Sorting neither loses nor adds an element.
  pub In-sort : (b : A) (xs : List A) → In b (sort xs) ↔ In b xs
  unfolding sort
  In-sort b [] = ground arith
  In-sort b (x ∷ xs) = ground (arith, In-sort_insert b x (sort xs), In-sort b xs)

  All-sort_insert :
      (P : A → Type 0) (a : A) (xs : List A) → P a → All P xs → All P (sort_insert a xs)
  unfolding sort_insert
  All-sort_insert P a [] p h = (p, tt)
  All-sort_insert P a (x ∷ xs) p (px, h) = elim (Bool-cases (less x a)) [
    | inl after ↦ rw after (px, All-sort_insert P a xs p h)
    | inr before ↦ rw before (p, (px, h))
  ]

  -- Elements that are pairwise apart stay so.
  module _ (R : A → A → Type 0) (symmetric : (a b : A) → R a b → R b a) where
    sort_insert-AreApart :
        (a : A) (xs : List A) → All (R a) xs → AreApart R xs → AreApart R (sort_insert a xs)
    unfolding sort_insert
    sort_insert-AreApart a [] h d = (tt, tt)
    sort_insert-AreApart a (x ∷ xs) (p, h) (q, d) = elim (Bool-cases (less x a)) [
      | inl after ↦
          rw after (All-sort_insert (R x) a xs (symmetric a x p) q, sort_insert-AreApart a xs h d)
      | inr before ↦ rw before ((p, h), (q, d))
    ]

    All-sort : (P : A → Type 0) (xs : List A) → All P xs → All P (sort xs)
    unfolding sort
    All-sort P [] h = tt
    All-sort P (x ∷ xs) (p, h) = All-sort_insert P x (sort xs) p (All-sort P xs h)

    pub sort-AreApart : (xs : List A) → AreApart R xs → AreApart R (sort xs)
    unfolding sort
    sort-AreApart [] d = tt
    sort-AreApart (x ∷ xs) (h, d) =
        sort_insert-AreApart x (sort xs) (All-sort (R x) xs h) (sort-AreApart xs d)

  -- `less` is a strict weak order.
  pub record IsOrder : Type 0 where
    pub asymmetric : (a b : A) → less a b ≡ true → less b a ≡ false
    pub negative_transitive : (a b c : A) → less a b ≡ false → less b c ≡ false → less a c ≡ false

  module _ (order : IsOrder) where
    All-not_less :
        (a x : A) (xs : List A)
        → less x a ≡ false
        → All (λ y. less y x ≡ false) xs
        → All (λ y. less y a ≡ false) xs
    All-not_less a x [] h all_x = tt
    All-not_less a x (y ∷ ys) h (p, all_x) =
        (order.negative_transitive y x a p h, All-not_less a x ys h all_x)

    sort_insert-IsSorted : (a : A) (xs : List A) → IsSorted xs → IsSorted (sort_insert a xs)
    unfolding sort_insert
    sort_insert-IsSorted a [] s = (tt, tt)
    sort_insert-IsSorted a (x ∷ xs) (h, s) = elim (Bool-cases (less x a)) [
      | inl after ↦ rw after (
        All-sort_insert (λ y. less y x ≡ false) a xs (order.asymmetric x a after) h,
        sort_insert-IsSorted a xs s,
      )
      | inr before ↦ rw before ((before, All-not_less a x xs before h), (h, s))
    ]

    pub sort-IsSorted : (xs : List A) → IsSorted (sort xs)
    unfolding sort
    sort-IsSorted [] = tt
    sort-IsSorted (x ∷ xs) = sort_insert-IsSorted x (sort xs) (sort-IsSorted xs)

-- Sorting commutes with a function that keeps the order.
module _ {A B : Type 0} (less_b : B → B → Bool) (less_a : A → A → Bool) (f : A → B)
    (keeps : (x y : A) → less_b (f x) (f y) ≡ less_a x y) where
  sort_insert-map :
      (a : A) (xs : List A) → sort_insert less_b (f a) (map f xs) ≡ map f (sort_insert less_a a xs)
  unfolding sort_insert
  sort_insert-map a [] = refl
  sort_insert-map a (x ∷ xs) = elim (Bool-cases (less_a x a)) [
    | inl after ↦ rw (keeps x a, after) (ap (λ ys. f x ∷ ys) (sort_insert-map a xs))
    | inr before ↦ rw (keeps x a, before) refl
  ]

  pub sort-map : (xs : List A) → sort less_b (map f xs) ≡ map f (sort less_a xs)
  unfolding sort
  sort-map [] = refl
  sort-map (x ∷ xs) =
      ap (sort_insert less_b (f x)) (sort-map xs) ∙ sort_insert-map x (sort less_a xs)
