-- ===== src/Enforcer/Verdict/Sound.antt =====
-- What the verdict of a check says.
use dira.Prelude.{
  ◌≡◌, ◌≢◌, ◌⊎◌, inl, inr, refl, true, false, [], some, arith, Str, In, Bool-cases, Dict, IsDict,
  lookup, values, In-values, lookup-In, sort, In-sort, AreApart, values-AreApart, sort-AreApart,
  IsSorted, sort-IsSorted, IsOrder, str_lt, All, List, ◌∷◌, str_lt_total, str_lt_asymmetric,
  str_lt_negative_transitive, sym, ap, ◌∙◌,
}
use dira.Enforcer.Text.{parse, is_empty}
use dira.Enforcer.Target.{MatchUnit}
use dira.Enforcer.Float.{Float, IsOrdered}
use dira.Enforcer.Score.{Matcher}
use dira.Enforcer.Verdict.{Conflict, best_of, conflict_less, verdict}
use dira.Enforcer.Verdict.Best.{
  strength, hits, conflict_at, best_of_complete, best_of-IsDict, best_of_sound,
}

module _ (fl : Float) where
  open fl use {F, lt, eq}

  abbrev pub OtherEntry : Conflict fl → Conflict fl → Type 0
  OtherEntry a b = a.citation.entry ≢ b.citation.entry

  -- What puts a conflict in front of another one: a greater score, or the id where no score is greater.
  abbrev pub Outranks : Conflict fl → Conflict fl → Type 0
  Outranks a b =
      (lt b.score a.score ≡ true)
      ⊎ ((lt a.score b.score ≡ false)
          × (lt b.score a.score ≡ false)
          × (str_lt a.citation.entry b.citation.entry ≡ true))

  module _ (m : Matcher fl) (plan : Str) where
    -- The conflicts before they are sorted, where the plan has content.
    best : Dict (Conflict fl)
    best = best_of fl m (parse plan) m.units []

    best-IsDict : IsDict best
    unfolding best
    best-IsDict = best_of-IsDict fl m (parse plan) m.units [] tt

    conflicts-cases :
        ((is_empty (parse plan) ≡ true) × ((verdict fl m plan).conflicts ≡ []))
        ⊎ ((is_empty (parse plan) ≡ false)
            × ((verdict fl m plan).conflicts ≡ sort (conflict_less fl) (values best)))
    unfolding verdict best
    conflicts-cases = elim (Bool-cases (is_empty (parse plan))) [
      | inl quiet ↦ inl (quiet, rw quiet refl)
      | inr speaks ↦ inr (speaks, rw speaks refl)
    ]

    -- Each conflict of a verdict is one of the matcher's units that match the plan: it has that unit's
    -- citation and score.
    pub verdict_sound :
        (c : Conflict fl)
        → In c (verdict fl m plan).conflicts
        → (u : MatchUnit) × In u m.units
          × (c ≡ conflict_at fl m (parse plan) u)
          × (hits fl m (parse plan) u ≡ true)
    unfolding best
    verdict_sound c h = elim conflicts-cases [
      | inl (_, quiet) ↦ absurd (let left : In c [] = rw quiet at h in left)
      | inr (_, loud) ↦
          let (k, found) =
            lookup-In c best best-IsDict
              ((In-sort (conflict_less fl) c (values best)).0 (rw loud at h)) in
          elim (best_of_sound fl m (parse plan) m.units [] k c found) [
            | inl before ↦ absurd (no_lookup k c before)
            | inr (u, at, _, same, hit) ↦ (u, at, same, hit)
          ]
    ]
      where
        no_lookup : (k : Str) (c : Conflict fl) → lookup k [] ≡ some c → ⊥
        no_lookup k c h = unfold lookup in cc

    -- A plan with no content word has no conflict.
    pub verdict-speaks :
        (c : Conflict fl) → In c (verdict fl m plan).conflicts → is_empty (parse plan) ≡ false
    verdict-speaks c h = elim conflicts-cases [
      | inl (_, quiet) ↦ absurd (let left : In c [] = rw quiet at h in left)
      | inr (speaks, _) ↦ speaks
    ]

    key_of : (k : Str) (c : Conflict fl) → lookup k best ≡ some c → c.citation.entry ≡ k
    unfolding best
    key_of k c found = elim (best_of_sound fl m (parse plan) m.units [] k c found) [
      | inl before ↦ absurd (unfold lookup in cc before)
      | inr (u, at, key, same, hit) ↦ ap (λ (x : Conflict fl). x.citation.entry) same ∙ key
    ]

    -- No two conflicts of a verdict cite the same entry.
    pub verdict-apart : AreApart OtherEntry (verdict fl m plan).conflicts
    verdict-apart = elim conflicts-cases [
      | inl (_, quiet) ↦ rw quiet tt
      | inr (_, loud) ↦ rw loud (
          sort-AreApart (conflict_less fl) OtherEntry (λ a b ne e. ne (sym e)) (values best)
            (values-AreApart (λ c. c.citation.entry) best best-IsDict key_of))
    ]

    module _ (order : IsOrdered fl) where
      -- If `<` orders the floating-point numbers and the plan has a content word, every one of the
      -- matcher's units that matches the plan has its entry cited, with a score that is not lower.
      pub verdict_complete :
          (u : MatchUnit)
          → is_empty (parse plan) ≡ false
          → In u m.units
          → hits fl m (parse plan) u ≡ true
          → (c : Conflict fl) × In c (verdict fl m plan).conflicts
            × (c.citation.entry ≡ u.citation.entry)
            × (lt c.score (strength fl m (parse plan) u) ≡ false)
      unfolding best
      verdict_complete u speaks at hit = elim conflicts-cases [
        | inl (quiet, _) ↦ absurd (cc (quiet, speaks))
        | inr (_, loud) ↦
            let (c, found, le) = best_of_complete fl m (parse plan) order m.units [] u at hit in
            let cited =
              (In-sort (conflict_less fl) c (values best)).1
                (In-values u.citation.entry c best found) in
            (c, rw loud cited, key_of u.citation.entry c found, le)
      ]

      conflict_less-IsOrder : IsOrder (conflict_less fl)
      conflict_less-IsOrder = record {
        asymmetric = λ a b h. ground (
          arith,
          order.eq_decides a.score b.score,
          order.eq_decides b.score a.score,
          order.asymmetric b.score a.score,
          str_lt_asymmetric a.citation.entry b.citation.entry,
        );
        negative_transitive = λ a b c h k. ground (
          arith,
          order.eq_decides a.score b.score,
          order.eq_decides b.score c.score,
          order.eq_decides a.score c.score,
          order.asymmetric b.score a.score,
          order.asymmetric c.score b.score,
          order.asymmetric c.score a.score,
          order.negative_transitive a.score b.score c.score,
          order.negative_transitive c.score b.score a.score,
          order.negative_transitive a.score c.score b.score,
          order.negative_transitive b.score c.score a.score,
          order.negative_transitive b.score a.score c.score,
          order.negative_transitive c.score a.score b.score,
          str_lt_negative_transitive a.citation.entry b.citation.entry c.citation.entry,
        );
      }

      verdict-IsSorted : IsSorted (conflict_less fl) (verdict fl m plan).conflicts
      verdict-IsSorted = elim conflicts-cases [
        | inl (_, quiet) ↦ rw quiet tt
        | inr (_, loud) ↦
            rw loud (sort-IsSorted (conflict_less fl) conflict_less-IsOrder (values best))
      ]

      ranked_pair :
          (a b : Conflict fl) → conflict_less fl b a ≡ false → OtherEntry a b → Outranks a b
      ranked_pair a b h apart = elim (Bool-cases (lt b.score a.score)) [
        | inl stronger ↦ inl stronger
        | inr not_stronger ↦ elim (Bool-cases (lt a.score b.score)) [
          | inl weaker ↦ absurd (ground (arith, order.eq_decides b.score a.score))
          | inr same ↦ inr (
            same,
            not_stronger,
            ground (
              arith,
              order.eq_decides b.score a.score,
              str_lt_total a.citation.entry b.citation.entry,
            ),
          )
        ]
      ]

      All-ranked :
          (a : Conflict fl) (cs : List (Conflict fl))
          → All (λ b. conflict_less fl b a ≡ false) cs
          → All (OtherEntry a) cs
          → All (Outranks a) cs
      All-ranked a [] h k = tt
      All-ranked a (b ∷ cs) (p, h) (q, k) = (ranked_pair a b p q, All-ranked a cs h k)

      ranked :
          (cs : List (Conflict fl))
          → IsSorted (conflict_less fl) cs
          → AreApart OtherEntry cs
          → AreApart Outranks cs
      ranked [] h k = tt
      ranked (c ∷ cs) (p, h) (q, k) = (All-ranked c cs p q, ranked cs h k)

      -- If `<` orders the floating-point numbers, the conflicts of a verdict are in a strict ranking, with no
      -- tie: each has a score greater than every later one's, or none of the two scores is greater and its
      -- entry's id comes first.
      pub verdict-AreRanked : AreApart Outranks (verdict fl m plan).conflicts
      verdict-AreRanked = ranked (verdict fl m plan).conflicts verdict-IsSorted verdict-apart
