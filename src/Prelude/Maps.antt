-- ===== src/Prelude/Maps.antt =====
-- A Go map with string keys as an association list: a key stands once, at its first place.
use mathlib.Core.Path.{◌≡◌, refl, sym, ◌∙◌, subst}
use mathlib.Core.Logic.{inl, inr, ◌≢◌, ◌⊎◌}
use mathlib.Core.Option.{Option, none, some, some-injective}
use mathlib.Core.List.{List, [], ◌∷◌}
use native.Mathlib.Omega.{arith}
use dira.Prelude.Tests.{if◌then◌else◌, Bool-cases}
use dira.Prelude.Lists.{All, AreApart, In}
use dira.Prelude.Text.{Str, str_eq, str_eq_iff, str_eq_refl}

abbrev pub Dict : Type 0 → Type 0
Dict V = List (Str × V)

module _ {V : Type 0} where
  unfoldable pub lookup : Str → Dict V → Option V
  lookup k [] = none
  lookup k ((j, v) ∷ m) = if str_eq j k then some v else lookup k m

  unfoldable pub insert : Str → V → Dict V → Dict V
  insert k v [] = (k, v) ∷ []
  insert k v ((j, w) ∷ m) = if str_eq j k then (j, v) ∷ m else (j, w) ∷ insert k v m

  pub lookup-insert :
      (k j : Str) (v : V) (m : Dict V)
      → lookup j (insert k v m) ≡ (if str_eq k j then some v else lookup j m)
  unfolding lookup insert
  lookup-insert k j v [] = refl
  lookup-insert k j v ((i, w) ∷ m) =
      ground (arith, str_eq_iff k j, str_eq_iff i k, str_eq_iff i j, lookup-insert k j v m)

  pub lookup_same : (k : Str) (v : V) (m : Dict V) → lookup k (insert k v m) ≡ some v
  lookup_same k v m = lookup-insert k k v m ∙ rw (str_eq_refl k) refl

  -- What stands in a map after an insertion is new, or stood there before.
  pub lookup-insert_cases :
      (k j : Str) (v u : V) (m : Dict V)
      → lookup j (insert k v m) ≡ some u
      → ((k ≡ j) × (v ≡ u)) ⊎ (lookup j m ≡ some u)
  lookup-insert_cases k j v u m h = elim (Bool-cases (str_eq k j)) [
    | inl e ↦
        inl ((str_eq_iff k j).0 e, some-injective v u (rw e at (sym (lookup-insert k j v m) ∙ h)))
    | inr e ↦ inr (rw e at (sym (lookup-insert k j v m) ∙ h))
  ]

  -- The keys are distinct.
  abbrev pub IsDict : Dict V → Type 0
  IsDict [] = Unit
  IsDict (p ∷ m) = (lookup p.0 m ≡ none) × IsDict m

  pub insert-IsDict : (k : Str) (v : V) (m : Dict V) → IsDict m → IsDict (insert k v m)
  unfolding insert lookup
  insert-IsDict k v [] h = (refl, tt)
  insert-IsDict k v ((i, w) ∷ m) (fresh, rest) = elim (Bool-cases (str_eq i k)) [
    | inl same ↦ rw same (fresh, rest)
    | inr other ↦ rw other (
      ground (arith, lookup-insert k i v m, str_eq_iff i k, str_eq_iff k i),
      insert-IsDict k v m rest,
    )
  ]

  -- The values of a map, and the keys that they stand under.
  abbrev pub values : Dict V → List V
  values [] = []
  values (p ∷ m) = p.1 ∷ values m

  pub In-values : (k : Str) (v : V) (m : Dict V) → lookup k m ≡ some v → In v (values m)
  unfolding lookup
  In-values k v [] h = cc
  In-values k v ((j, w) ∷ m) h = ground (arith, In-values k v m)

  pub lookup-In :
      (v : V) (m : Dict V) → IsDict m → In v (values m) → (k : Str) × (lookup k m ≡ some v)
  unfolding lookup
  lookup-In v ((j, w) ∷ m) (fresh, d) (inl e) = (j, ground (arith, str_eq_iff j j))
  lookup-In v ((j, w) ∷ m) (fresh, d) (inr n) =
      let (k, h) = lookup-In v m d n in (k, ground (arith, str_eq_iff j k))
  lookup-In v [] d h = absurd h

  -- Where a value tells its key, the values of a map have pairwise different ones.
  module _ (key : V → Str) where
    abbrev pub IsKeyed : Dict V → Type 0
    IsKeyed m = (k : Str) (v : V) → lookup k m ≡ some v → key v ≡ k

    IsKeyed-tail :
        (j : Str) (w : V) (m : Dict V) → lookup j m ≡ none → IsKeyed ((j, w) ∷ m) → IsKeyed m
    unfolding lookup
    IsKeyed-tail j w m fresh keyed k v h = elim (Bool-cases (str_eq j k)) [
      | inr other ↦ keyed k v (rw other h)
      | inl same ↦
          absurd (clash (subst (λ (i : Str). lookup i m ≡ none) ((str_eq_iff j k).0 same) fresh))
    ]
      where
        clash : lookup k m ≡ none → ⊥
        clash missing = cc (missing, h)

    values_fresh :
        (k : Str) (m : Dict V)
        → lookup k m ≡ none
        → IsDict m
        → IsKeyed m
        → All (λ v. k ≢ key v) (values m)
    unfolding lookup
    values_fresh k [] missing d keyed = tt
    values_fresh k ((j, w) ∷ m) missing (fresh, d) keyed = elim (Bool-cases (str_eq j k)) [
      | inl same ↦ absurd (none_or_some (rw same at missing))
      | inr other ↦ (
        λ e. cc (
          other,
          (str_eq_iff j k).1 (sym (keyed j w (rw ((str_eq_iff j j).1 refl) refl)) ∙ sym e),
        ),
        values_fresh k m (rw other at missing) d (IsKeyed-tail j w m fresh keyed),
      )
    ]
      where
        none_or_some : some w ≡ none → ⊥
        none_or_some e = cc e

    pub values-AreApart :
        (m : Dict V) → IsDict m → IsKeyed m → AreApart (λ a b. key a ≢ key b) (values m)
    unfolding lookup
    values-AreApart [] d keyed = tt
    values-AreApart ((j, w) ∷ m) (fresh, d) keyed =
        let at : key w ≡ j = keyed j w (rw ((str_eq_iff j j).1 refl) refl) in
        (
          rw at (values_fresh j m fresh d (IsKeyed-tail j w m fresh keyed)),
          values-AreApart m d (IsKeyed-tail j w m fresh keyed),
        )
