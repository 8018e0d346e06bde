-- ===== src/Chain/Outcome.antt =====
-- internal/chain/resolve.go: when a namespaced ref is withheld, and when it is undeclared.
use dira.Prelude.{
  ◌≡◌, ◌≢◌, ◌↔◌, ◌⊎◌, inl, inr, refl, sym, ◌∙◌, Bool, true, false, List, [], ◌∷◌, Str, All, any,
  none, some, Bool-cases, Option-cases, arith, Result, ok, err, str_eq, ◌||◌,
}
use dira.Ledger.Entry.{Entry}
use dira.Ledger.Store.{StoreError}
use dira.Chain.{Ancestor, Opened, withheld, undeclared, resolve_in, got}

abbrev pub is_declared : Str → List Ancestor → Bool
is_declared ns = any (λ a. str_eq a.namespace ns)

-- No ancestor of the namespace has a store.
abbrev pub IsOutOfReach : Str → List Ancestor → Type 1
IsOutOfReach ns = All (λ a. (str_eq a.namespace ns ≡ false) ⊎ (a.store ≡ none))

got_answers : (r : Result StoreError Entry) → (got r ≢ ok withheld) × (got r ≢ err undeclared)
got_answers (ok e) = (λ h. cc, λ h. cc)
got_answers (err e) = (λ h. cc, λ h. cc)

module _ (ns id : Str) where
  step_other :
      (d : Bool) (a : Ancestor) (found : List Ancestor)
      → str_eq a.namespace ns ≡ false
      → resolve_in ns id d (a ∷ found) ≡ resolve_in ns id d found
  unfolding resolve_in
  step_other d a found e = rw (e, resolve_in)

  step_out_of_reach :
      (d : Bool) (a : Ancestor) (found : List Ancestor)
      → str_eq a.namespace ns ≡ true
      → a.store ≡ none
      → resolve_in ns id d (a ∷ found) ≡ resolve_in ns id true found
  unfolding resolve_in
  step_out_of_reach d a found e h = rw (e, h, resolve_in)

  step_reached :
      (d : Bool) (a : Ancestor) (found : List Ancestor) (o : Opened)
      → str_eq a.namespace ns ≡ true
      → a.store ≡ some o
      → resolve_in ns id d (a ∷ found) ≡ got ((o.store.get id o.world).0)
  unfolding resolve_in
  step_reached d a found o e h = rw (e, h, resolve_in)

  withheld_only :
      (d : Bool) (found : List Ancestor)
      → resolve_in ns id d found ≡ ok withheld
      → ((d || is_declared ns found) ≡ true) × IsOutOfReach ns found
  unfolding resolve_in
  withheld_only true [] h = (refl, tt)
  withheld_only false [] h = cc
  withheld_only d (a ∷ found) h = elim (Bool-cases (str_eq a.namespace ns)) [
    | inr e ↦
        let (k, hs) = withheld_only d found (sym (step_other d a found e) ∙ h) in
        (rw e k, (inl e, hs))
    | inl e ↦ elim (Option-cases a.store) [
      | inl s ↦
          let (k, hs) = withheld_only true found (sym (step_out_of_reach d a found e s) ∙ h) in
          (rw e (ground arith), (inr s, hs))
      | inr (o, s) ↦
          absurd
            ((got_answers ((o.store.get id o.world).0)).0 (sym (step_reached d a found o e s) ∙ h))
    ]
  ]

  withheld_if :
      (d : Bool) (found : List Ancestor)
      → (d || is_declared ns found) ≡ true
      → IsOutOfReach ns found
      → resolve_in ns id d found ≡ ok withheld
  unfolding resolve_in
  withheld_if true [] k h = refl
  withheld_if false [] k h = cc
  withheld_if d (a ∷ found) k (h, hs) = elim (Bool-cases (str_eq a.namespace ns)) [
    | inr e ↦ step_other d a found e ∙ withheld_if d found (ground arith) hs
    | inl e ↦ elim h [
      | inl n ↦ absurd (cc (sym e ∙ n))
      | inr s ↦ step_out_of_reach d a found e s ∙ withheld_if true found refl hs
    ]
  ]

  undeclared_only :
      (d : Bool) (found : List Ancestor)
      → resolve_in ns id d found ≡ err undeclared
      → (d || is_declared ns found) ≡ false
  unfolding resolve_in
  undeclared_only true [] h = cc
  undeclared_only false [] h = refl
  undeclared_only d (a ∷ found) h = elim (Bool-cases (str_eq a.namespace ns)) [
    | inr e ↦ rw e (undeclared_only d found (sym (step_other d a found e) ∙ h))
    | inl e ↦ elim (Option-cases a.store) [
      | inl s ↦ absurd (cc (undeclared_only true found (sym (step_out_of_reach d a found e s) ∙ h)))
      | inr (o, s) ↦
          absurd
            ((got_answers ((o.store.get id o.world).0)).1 (sym (step_reached d a found o e s) ∙ h))
    ]
  ]

  undeclared_if :
      (found : List Ancestor)
      → is_declared ns found ≡ false
      → resolve_in ns id false found ≡ err undeclared
  unfolding resolve_in
  undeclared_if [] h = refl
  undeclared_if (a ∷ found) h =
      step_other false a found (ground arith) ∙ undeclared_if found (ground arith)

  -- A ref is withheld exactly if its namespace is declared in the chain and no ledger of that namespace
  -- can be reached; it is refused as undeclared exactly if no ancestor has the namespace.
  pub resolve_in_lem :
      (found : List Ancestor)
      → ((resolve_in ns id false found ≡ ok withheld)
          ↔ ((is_declared ns found ≡ true) × IsOutOfReach ns found))
        × ((resolve_in ns id false found ≡ err undeclared) ↔ (is_declared ns found ≡ false))
  resolve_in_lem found = (
    (withheld_only false found, λ h. withheld_if false found (h.0) (h.1)),
    (undeclared_only false found, undeclared_if found),
  )
