-- ===== src/Enforcer/Tests.antt =====
-- A check against a ledger of two entries, with a coarse floating-point type, and the theorems there.
use dira.Prelude.{
  ℕ, ◌+◌, ◌≡◌, ◌↔◌, refl, inl, Bool, true, false, List, [], ◌∷◌, arith, Str, codes, In, AreApart,
  concat_map, subst, sym, ◌*◌, ◌/◌, suc, zero, ltb, ◌==◌, if◌then◌else◌, lookup, insert, sort,
}
use dira.Ledger.Entry.{Entry, staged, Alternative}
use dira.Ledger.Validate.Tests.{use_go}
use dira.Enforcer.Text.{parse, is_empty, scope_negation, positive, negative}
use dira.Enforcer.Text.Scope.{Reads, scope_negation-Reads}
use dira.Enforcer.Target.{
  MatchUnit, base_citation, option_unit, enforcement_set, units_for, alternative_units, units_of,
  collapse, entry_date,
}
use dira.Enforcer.Target.Closed.{
  IsEnforced, Quotes, enforcement_set-closed, enforcement_set_complete,
}
use dira.Enforcer.Float.{Float, IsOrdered}
use dira.Enforcer.Match.{uniform_runs}
use dira.Enforcer.Match.Runs.{TakeTurns, uniform_runs-TakeTurns}
use dira.Enforcer.Score.{new_matcher, score, matched}
use dira.Enforcer.Verdict.{
  Conflict, verdict, check, exit_code, exit_conflict, exit_compliant, conflict_less,
}
use dira.Enforcer.Verdict.Best.{hits, strength, conflict_at}
use dira.Enforcer.Verdict.Sound.{
  verdict_sound, verdict-apart, verdict_complete, verdict-AreRanked, Outranks, OtherEntry,
}
use dira.Enforcer.Verdict.Checked.{check_cites, exit_conflict_iff}

-- Thousandths, rounded down; the logarithm counts halvings.
abbrev halvings : ℕ → ℕ → ℕ
halvings zero x = 0
halvings (suc fuel) x = if ltb x 2000 then 0 else 693 + halvings fuel (x / 2)

abbrev coarse : Float
coarse = record {
  F = ℕ;
  zero_f = 0;
  one_f = 1000;
  of_nat = λ n. 1000 * n;
  decimal = λ a b. 1000 * a / b;
  add = λ a b. a + b;
  mul = λ a b. a * b / 1000;
  div = λ a b. 1000 * a / b;
  log = λ a. halvings 30 a;
  lt = ltb;
  eq = λ a b. a == b;
}

coarse-IsOrdered : IsOrdered coarse
coarse-IsOrdered = record {
  irreflexive = λ a. ground arith;
  asymmetric = λ a b h. ground arith;
  negative_transitive = λ a b c h k. ground arith;
  eq_decides = λ a b. ground arith;
}

abbrev ledger : List Entry
ledger = use_go ∷ record use_go { id = codes "dec-0002"; state = staged } ∷ []

abbrev elixir : Alternative
elixir = record { option = codes "Elixir"; why_not = codes "one binary"; revisit_if = [] }

abbrev refused : MatchUnit
refused = option_unit elixir (base_citation use_go)

abbrev plan : Str
plan = codes "Write the server in Elixir"

abbrev cited : Conflict coarse
cited = record { citation = refused.citation; score = 1000 }

one_conflict :
    ((check coarse plan ledger).conflicts ≡ cited ∷ [])
    × (exit_code coarse (check coarse plan ledger) ≡ exit_conflict)
    × (matched coarse
          (new_matcher coarse ledger)
          (score coarse (new_matcher coarse ledger) (parse plan) refused)
        ≡ true)
    × (is_empty (parse plan) ≡ false)
unfolding check exit_code new_matcher verdict parse sort dira.Enforcer.Verdict.best_of
    enforcement_set units_for alternative_units dira.Enforcer.Verdict.offer matched score
    dira.Enforcer.Match.bag dira.Enforcer.Score.weight dira.Enforcer.Match.observe_all
    dira.Enforcer.Match.observe lookup dira.Enforcer.Match.document_text insert
    dira.Enforcer.Score.mass dira.Enforcer.Match.positive_bag dira.Enforcer.Match.contains_run
    dira.Enforcer.Score.phrase_floor_of dira.Enforcer.Score.rarest dira.Enforcer.Score.restates
    dira.Enforcer.Score.shares_phrase dira.Enforcer.Target.retired_set
    dira.Enforcer.Target.superseders dira.Enforcer.Target.claims dira.Enforcer.Target.claim
    dira.Enforcer.Verdict.best_notices dira.Enforcer.Verdict.count_enforced
    dira.Enforcer.Verdict.enforced_ids dira.Enforcer.Verdict.notice
    dira.Enforcer.Verdict.offer_notice uniform_runs collapse entry_date dira.Enforcer.Match.phrases
    dira.Enforcer.Match.split_phrase dira.Enforcer.Match.positive_phrases
one_conflict = (refl, refl, refl, refl)

compliant_plans :
    (exit_code coarse (check coarse (codes "Write the server, not in Elixir") ledger)
      ≡ exit_compliant)
    × (exit_code coarse (check coarse (codes "not!") ledger) ≡ exit_compliant)
unfolding check exit_code new_matcher verdict parse sort dira.Enforcer.Verdict.best_of
    enforcement_set units_for alternative_units dira.Enforcer.Verdict.offer matched score
    dira.Enforcer.Match.bag dira.Enforcer.Score.weight dira.Enforcer.Match.observe_all
    dira.Enforcer.Match.observe lookup dira.Enforcer.Match.document_text insert
    dira.Enforcer.Score.mass dira.Enforcer.Match.positive_bag dira.Enforcer.Match.contains_run
    dira.Enforcer.Score.phrase_floor_of dira.Enforcer.Score.rarest dira.Enforcer.Score.restates
    dira.Enforcer.Score.shares_phrase dira.Enforcer.Target.retired_set
    dira.Enforcer.Target.superseders dira.Enforcer.Target.claims dira.Enforcer.Target.claim
    dira.Enforcer.Verdict.best_notices dira.Enforcer.Verdict.count_enforced
    dira.Enforcer.Verdict.enforced_ids dira.Enforcer.Verdict.notice
    dira.Enforcer.Verdict.offer_notice uniform_runs collapse entry_date dira.Enforcer.Match.phrases
    dira.Enforcer.Match.split_phrase dira.Enforcer.Match.positive_phrases
compliant_plans = (refl, refl)

scope_negation-Reads_example :
    Reads
      (codes "cache" ∷ codes "nothing" ∷ [])
      (scope_negation (codes "cache" ∷ codes "nothing" ∷ []))
scope_negation-Reads_example = scope_negation-Reads (codes "cache" ∷ codes "nothing" ∷ [])

uniform_runs-TakeTurns_example :
    (concat_map (λ r. r) (uniform_runs (positive "a" ∷ negative "b" ∷ []))
      ≡ positive "a" ∷ negative "b" ∷ [])
    × ((b : Bool) × TakeTurns b (uniform_runs (positive "a" ∷ negative "b" ∷ [])))
uniform_runs-TakeTurns_example = uniform_runs-TakeTurns (positive "a" ∷ negative "b" ∷ [])

refused-In : In refused (enforcement_set ledger)
unfolding enforcement_set units_for alternative_units parse
refused-In = inl refl

says_elixir : is_empty (parse (codes "Elixir")) ≡ false
unfolding parse
says_elixir = refl

enforcement_set_complete_example : In refused (enforcement_set ledger)
enforcement_set_complete_example =
    enforcement_set_complete ledger use_go elixir (inl refl) refl (inl refl) (inl refl) says_elixir

enforcement_set-closed_example :
    (e : Entry) × In e ledger × IsEnforced e × Quotes e refused.citation
enforcement_set-closed_example = enforcement_set-closed ledger refused refused-In

cited-In : In cited (check coarse plan ledger).conflicts
cited-In = subst (λ (cs : List (Conflict coarse)). In cited cs) (sym one_conflict.0) (inl refl)

check_cites_example : (e : Entry) × In e ledger × IsEnforced e × Quotes e cited.citation
check_cites_example = check_cites coarse ledger plan cited cited-In

exit_conflict_iff_example : (exit_code coarse (check coarse plan ledger) ≡ exit_conflict) ↔ (
    (is_empty (parse plan) ≡ false)
    × ((u : MatchUnit) × In u (enforcement_set ledger)
        × (hits coarse (new_matcher coarse ledger) (parse plan) u ≡ true)))
exit_conflict_iff_example = exit_conflict_iff coarse ledger plan coarse-IsOrdered

cited-In-verdict : In cited (verdict coarse (new_matcher coarse ledger) plan).conflicts
unfolding check
cited-In-verdict = cited-In

verdict_sound_example :
    (u : MatchUnit) × In u (new_matcher coarse ledger).units
    × (cited ≡ conflict_at coarse (new_matcher coarse ledger) (parse plan) u)
    × (hits coarse (new_matcher coarse ledger) (parse plan) u ≡ true)
verdict_sound_example = verdict_sound coarse (new_matcher coarse ledger) plan cited cited-In-verdict

verdict-apart_example :
    AreApart (OtherEntry coarse) (verdict coarse (new_matcher coarse ledger) plan).conflicts
verdict-apart_example = verdict-apart coarse (new_matcher coarse ledger) plan

refused_unit : In refused (new_matcher coarse ledger).units
unfolding new_matcher
refused_unit = refused-In

verdict_complete_example :
    (c : Conflict coarse) × In c (verdict coarse (new_matcher coarse ledger) plan).conflicts
    × (c.citation.entry ≡ refused.citation.entry)
    × (ltb c.score (strength coarse (new_matcher coarse ledger) (parse plan) refused) ≡ false)
verdict_complete_example =
    verdict_complete coarse (new_matcher coarse ledger) plan coarse-IsOrdered refused one_conflict.3
      refused_unit one_conflict.2

verdict-AreRanked_example :
    AreApart (Outranks coarse) (verdict coarse (new_matcher coarse ledger) plan).conflicts
verdict-AreRanked_example =
    verdict-AreRanked coarse (new_matcher coarse ledger) plan coarse-IsOrdered
