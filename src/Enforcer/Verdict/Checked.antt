-- ===== src/Enforcer/Verdict/Checked.antt =====
-- The whole check of a plan against the entries of a ledger, and its exit code.
use dira.Prelude.{
  ◌≡◌, ◌↔◌, inl, refl, true, false, List, [], ◌∷◌, Str, In, is_nil, if◌then◌else◌, arith,
}
use dira.Ledger.Entry.{Entry}
use dira.Enforcer.Text.{parse, is_empty}
use dira.Enforcer.Target.{MatchUnit, enforcement_set}
use dira.Enforcer.Target.Closed.{IsEnforced, Quotes, enforcement_set-closed}
use dira.Enforcer.Float.{Float, IsOrdered}
use dira.Enforcer.Score.{new_matcher}
use dira.Enforcer.Verdict.{Conflict, Verdict, exit_compliant, check, exit_code, exit_conflict}
use dira.Enforcer.Verdict.Best.{hits}
use dira.Enforcer.Verdict.Sound.{verdict_sound, verdict-speaks, verdict_complete}

module _ (fl : Float) (es : List Entry) (plan : Str) where
  units-enforcement_set : (new_matcher fl es).units ≡ enforcement_set es
  unfolding new_matcher
  units-enforcement_set = refl

  -- Each conflict of a check cites an entry of the ledger that is an accepted or a rejected decision
  -- or an active constraint, and quotes that entry.
  pub check_cites :
      (c : Conflict fl)
      → In c (check fl plan es).conflicts
      → (e : Entry) × In e es × IsEnforced e × Quotes e c.citation
  unfolding check
  check_cites c h =
      let (u, at, same, _) = verdict_sound fl (new_matcher fl es) plan c h in
      let (e, m, enforced, quotes) = enforcement_set-closed es u (rw units-enforcement_set at at) in
      (e, m, enforced, rw same quotes)

  conflict_exit :
      (v : Verdict fl) → (exit_code fl v ≡ exit_conflict) ↔ ((c : Conflict fl) × In c v.conflicts)
  unfolding exit_code
  conflict_exit v = cases v.conflicts
    where
      cases :
          (cs : List (Conflict fl))
          → ((if is_nil cs then exit_compliant else exit_conflict) ≡ exit_conflict)
            ↔ ((c : Conflict fl) × In c cs)
      cases [] = (λ h. absurd (ground (arith, h)), λ (c, h). absurd h)
      cases (c ∷ cs) = (λ h. (c, inl refl), λ h. refl)

  -- The exit code of a check is that of a conflict exactly if the plan has a content word and matches
  -- a unit of the enforcement set, given that `<` orders the floating-point numbers.
  pub exit_conflict_iff :
      IsOrdered fl
      → (exit_code fl (check fl plan es) ≡ exit_conflict) ↔ (
          (is_empty (parse plan) ≡ false)
          × ((u : MatchUnit) × In u (enforcement_set es)
              × (hits fl (new_matcher fl es) (parse plan) u ≡ true)))
  unfolding check new_matcher
  exit_conflict_iff order = (cites, collides)
    where
      cites :
          exit_code fl (check fl plan es) ≡ exit_conflict
          → (is_empty (parse plan) ≡ false)
            × ((u : MatchUnit) × In u (enforcement_set es)
                × (hits fl (new_matcher fl es) (parse plan) u ≡ true))
      cites h =
          let (c, m) = (conflict_exit (check fl plan es)).0 h in
          let (u, at, _, hit) = verdict_sound fl (new_matcher fl es) plan c m in
          (verdict-speaks fl (new_matcher fl es) plan c m, (u, at, hit))

      collides :
          (is_empty (parse plan) ≡ false)
            × ((u : MatchUnit) × In u (enforcement_set es)
                × (hits fl (new_matcher fl es) (parse plan) u ≡ true))
          → exit_code fl (check fl plan es) ≡ exit_conflict
      collides (speaks, (u, at, hit)) =
          let (c, m, _, _) = verdict_complete fl (new_matcher fl es) plan order u speaks at hit in
          (conflict_exit (check fl plan es)).1 (c, m)
