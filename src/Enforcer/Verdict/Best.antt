-- ===== src/Enforcer/Verdict/Best.antt =====
-- The map of the strongest hits: what it holds after the loop over the units.
use dira.Prelude.{
  ◌≡◌, ◌⊎◌, inl, inr, refl, true, false, Bool, List, [], ◌∷◌, none, some, arith, subst, sym, Str,
  In, Bool-cases, Option-cases, Dict, IsDict, lookup, insert, lookup-insert, insert-IsDict, str_eq,
  str_eq_iff, str_eq_refl,
}
use dira.Enforcer.Text.{Text}
use dira.Enforcer.Target.{MatchUnit}
use dira.Enforcer.Float.{Float, IsOrdered}
use dira.Enforcer.Score.{Matcher, score, matched}
use dira.Enforcer.Verdict.{Conflict, offer, best_of}

module _ (fl : Float) (m : Matcher fl) (plan : Text) where
  open fl use {F, lt}

  abbrev pub strength : MatchUnit → F
  strength u = (score fl m plan u).score

  abbrev pub hits : MatchUnit → Bool
  hits u = matched fl m (score fl m plan u)

  abbrev pub conflict_at : MatchUnit → Conflict fl
  conflict_at u = record { citation = u.citation; score = strength u }

  -- A round leaves the map alone, or puts in a hit that is stronger than what it held.
  abbrev Improves : MatchUnit → Dict (Conflict fl) → Type 0
  Improves u best =
      (lookup u.citation.entry best ≡ none)
      ⊎ ((prior : Conflict fl) × (lookup u.citation.entry best ≡ some prior)
          × (lt prior.score (strength u) ≡ true))

  abbrev Loses : MatchUnit → Dict (Conflict fl) → Type 0
  Loses u best =
      (hits u ≡ false)
      ⊎ ((prior : Conflict fl) × (lookup u.citation.entry best ≡ some prior)
          × (lt prior.score (strength u) ≡ false))

  offer-cases :
      (u : MatchUnit) (best : Dict (Conflict fl))
      → ((offer fl m plan u best ≡ best) × Loses u best)
        ⊎ ((offer fl m plan u best ≡ insert u.citation.entry (conflict_at u) best)
            × (hits u ≡ true)
            × Improves u best)
  unfolding offer
  offer-cases u best = elim (Bool-cases (hits u)) [
    | inr miss ↦ inl (rw miss refl, inl miss)
    | inl hit ↦ elim (Option-cases (lookup u.citation.entry best)) [
      | inl new ↦ inr (rw (hit, new) refl, hit, inl new)
      | inr (prior, old) ↦ elim (Bool-cases (lt prior.score (strength u))) [
        | inl stronger ↦ inr (rw (hit, old, stronger) refl, hit, inr (prior, old, stronger))
        | inr weaker ↦ inl (rw (hit, old, weaker) refl, inr (prior, old, weaker))
      ]
    ]
  ]

  offer-IsDict :
      (u : MatchUnit) (best : Dict (Conflict fl)) → IsDict best → IsDict (offer fl m plan u best)
  offer-IsDict u best d = elim (offer-cases u best) [
    | inl (same, _) ↦ rw same d
    | inr (put, _, _) ↦ rw put (insert-IsDict _ _ best d)
  ]

  offer_sound :
      (u : MatchUnit) (best : Dict (Conflict fl)) (k : Str) (c : Conflict fl)
      → lookup k (offer fl m plan u best) ≡ some c
      → (lookup k best ≡ some c) ⊎ ((u.citation.entry ≡ k) × (c ≡ conflict_at u) × (hits u ≡ true))
  offer_sound u best k c h = elim (offer-cases u best) [
    | inl (same, _) ↦ inl (rw same at h)
    | inr (put, hit, _) ↦ put-sound (rw put at h) hit
  ]
    where
      put-sound :
          lookup k (insert u.citation.entry (conflict_at u) best) ≡ some c
          → hits u ≡ true
          → (lookup k best ≡ some c)
            ⊎ ((u.citation.entry ≡ k) × (c ≡ conflict_at u) × (hits u ≡ true))
      put-sound h hit = ground (
        arith,
        lookup-insert u.citation.entry k (conflict_at u) best,
        str_eq_iff u.citation.entry k,
      )

  -- What the map holds only gets stronger.
  module _ (order : IsOrdered fl) where
    lookup_put :
        (u : MatchUnit) (best : Dict (Conflict fl))
        → lookup u.citation.entry (insert u.citation.entry (conflict_at u) best)
          ≡ some (conflict_at u)
    lookup_put u best =
        rw
          (
            lookup-insert u.citation.entry u.citation.entry (conflict_at u) best,
            str_eq_refl u.citation.entry,
          )
          refl

    offer-grows :
        (u : MatchUnit) (best : Dict (Conflict fl)) (k : Str) (c : Conflict fl)
        → lookup k best ≡ some c
        → (c' : Conflict fl) × (lookup k (offer fl m plan u best) ≡ some c')
          × (lt c'.score c.score ≡ false)
    offer-grows u best k c h = elim (offer-cases u best) [
      | inl (same, _) ↦ (c, rw same h, order.irreflexive c.score)
      | inr (put, hit, better) ↦ elim (Bool-cases (str_eq u.citation.entry k)) [
        | inr other ↦ (
          c,
          rw (put, lookup-insert u.citation.entry k (conflict_at u) best, other) h,
          order.irreflexive c.score,
        )
        | inl at_key ↦ (
          conflict_at u,
          rw (put, lookup-insert u.citation.entry k (conflict_at u) best, at_key) refl,
          stays better (
              subst (λ (j : Str). lookup j best ≡ some c)
                (sym ((str_eq_iff u.citation.entry k).0 at_key)) h),
        )
      ]
    ]
      where
        stays :
            Improves u best
            → lookup u.citation.entry best ≡ some c
            → lt (strength u) c.score ≡ false
        stays (inl new) h = absurd (cc (new, h))
        stays (inr (prior, old, stronger)) h =
            let same : prior ≡ c = cc (old, h) in
            subst (λ (x : Conflict fl). lt (strength u) x.score ≡ false) same
              (order.asymmetric prior.score (strength u) stronger)

    offer-takes :
        (u : MatchUnit) (best : Dict (Conflict fl))
        → hits u ≡ true
        → (c : Conflict fl) × (lookup u.citation.entry (offer fl m plan u best) ≡ some c)
          × (lt c.score (strength u) ≡ false)
    offer-takes u best hit = elim (offer-cases u best) [
      | inl (same, inl miss) ↦ absurd (cc (hit, miss))
      | inl (same, inr (prior, old, weaker)) ↦ (prior, rw same old, weaker)
      | inr (put, _, _) ↦
          (conflict_at u, rw put (lookup_put u best), order.irreflexive (strength u))
    ]

    -- The loop over the units, from a map that is already there.
    pub best_of-grows :
        (us : List MatchUnit) (best : Dict (Conflict fl)) (k : Str) (c : Conflict fl)
        → lookup k best ≡ some c
        → (c' : Conflict fl) × (lookup k (best_of fl m plan us best) ≡ some c')
          × (lt c'.score c.score ≡ false)
    unfolding best_of
    best_of-grows [] best k c h = (c, h, order.irreflexive c.score)
    best_of-grows (u ∷ us) best k c h =
        let (c1, h1, le1) = offer-grows u best k c h in
        let (c2, h2, le2) = best_of-grows us (offer fl m plan u best) k c1 h1 in
        (c2, h2, order.negative_transitive c2.score c1.score c.score le2 le1)

    pub best_of_complete :
        (us : List MatchUnit) (best : Dict (Conflict fl)) (u : MatchUnit)
        → In u us
        → hits u ≡ true
        → (c : Conflict fl) × (lookup u.citation.entry (best_of fl m plan us best) ≡ some c)
          × (lt c.score (strength u) ≡ false)
    unfolding best_of
    best_of_complete [] best u at hit = absurd at
    best_of_complete (x ∷ us) best u (inl e) hit =
        let (c1, h1, le1) = offer-takes u best hit in
        let (c2, h2, le2) = best_of-grows us (offer fl m plan x best) u.citation.entry c1 (
          subst (λ (y : MatchUnit). lookup u.citation.entry (offer fl m plan y best) ≡ some c1) e
            h1) in
        (c2, h2, order.negative_transitive c2.score c1.score (strength u) le2 le1)
    best_of_complete (x ∷ us) best u (inr at) hit =
        best_of_complete us (offer fl m plan x best) u at hit

  pub best_of-IsDict :
      (us : List MatchUnit) (best : Dict (Conflict fl))
      → IsDict best
      → IsDict (best_of fl m plan us best)
  unfolding best_of
  best_of-IsDict [] best d = d
  best_of-IsDict (u ∷ us) best d =
      best_of-IsDict us (offer fl m plan u best) (offer-IsDict u best d)

  -- Each value is a matching unit of the list, under the id of its entry.
  pub best_of_sound :
      (us : List MatchUnit) (best : Dict (Conflict fl)) (k : Str) (c : Conflict fl)
      → lookup k (best_of fl m plan us best) ≡ some c
      → (lookup k best ≡ some c)
        ⊎ ((u : MatchUnit) × In u us
            × (u.citation.entry ≡ k)
            × (c ≡ conflict_at u)
            × (hits u ≡ true))
  unfolding best_of
  best_of_sound [] best k c h = inl h
  best_of_sound (u ∷ us) best k c h = elim (best_of_sound us (offer fl m plan u best) k c h) [
    | inr (x, at, key, same, hit) ↦ inr (x, inr at, key, same, hit)
    | inl earlier ↦ elim (offer_sound u best k c earlier) [
      | inl before ↦ inl before
      | inr (key, same, hit) ↦ inr (u, inl refl, key, same, hit)
    ]
  ]
