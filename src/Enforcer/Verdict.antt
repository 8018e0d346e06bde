-- ===== src/Enforcer/Verdict.antt =====
-- internal/enforcer/enforcer.go and exit.go: the verdict of a check. `best` is a Go map from an entry's
-- id to the strongest hit on it; the conflicts are its values, sorted.
pub mod Best
pub mod Checked
pub mod Sound
use dira.Prelude.{
  ℕ, ◌≡◌, Bool, true, false, not, ◌&&◌, ◌||◌, List, [], ◌∷◌, ◌++◌, map, Option, none, some, Str,
  length, if◌then◌else◌, is_nil, str_lt, one_of, Dict, lookup, insert, values, sort, Result, ok,
  err,
}
use dira.Ledger.Entry.{Entry}
use dira.Enforcer.Text.{Text, parse, is_empty}
use dira.Enforcer.Target.{Citation, Basis, MatchUnit}
use dira.Enforcer.Float.{Float}
use dira.Enforcer.Score.{Matcher, Hit, score, matched, new_matcher}

abbrev pub exit_compliant : ℕ
exit_compliant = 0

abbrev pub exit_dira_error : ℕ
exit_dira_error = 1

abbrev pub exit_conflict : ℕ
exit_conflict = 2

-- The entries behind the units, each once.
unfoldable pub enforced_ids : List MatchUnit → List Str → List Str
enforced_ids [] seen = seen
enforced_ids (u ∷ us) seen =
    enforced_ids us (if one_of u.citation.entry seen then seen else seen ++ u.citation.entry ∷ [])

unfoldable pub count_enforced : List MatchUnit → ℕ
count_enforced us = length (enforced_ids us [])

module _ (fl : Float) where
  open fl use {F, lt, eq}

  pub record Conflict : Type 0 where
    pub citation : Citation
    pub score : F

  pub record Notice : Type 0 where
    pub superseded_by : Str
    pub enforced : Bool
    pub basis : Basis
    pub score : F
    pub entry : Str

  -- `Parents`, which the check of a single ledger leaves empty, is left out.
  pub record Verdict : Type 0 where
    pub plan : Str
    pub conflicts : List Conflict
    pub notices : List Notice
    pub enforced : ℕ

  -- One round of the loop over the units: the first of the strongest hits on an entry is kept.
  unfoldable pub offer : Matcher fl → Text → MatchUnit → Dict Conflict → Dict Conflict
  offer m plan u best =
      let h = score fl m plan u in
      let found : Conflict = record { citation = u.citation; score = h.score } in
      if not (matched fl m h) then best else elim (lookup u.citation.entry best) [
        | none ↦ insert u.citation.entry found best
        | some prior ↦ if lt prior.score h.score then insert u.citation.entry found best else best
      ]

  unfoldable pub best_of : Matcher fl → Text → List MatchUnit → Dict Conflict → Dict Conflict
  best_of m plan [] best = best
  best_of m plan (u ∷ us) best = best_of m plan us (offer m plan u best)

  -- Strongest first, then by id.
  abbrev pub conflict_less : Conflict → Conflict → Bool
  conflict_less a b =
      if not (eq a.score b.score)
      then lt b.score a.score
      else str_lt a.citation.entry b.citation.entry

  unfoldable pub offer_notice : Matcher fl → Text → MatchUnit → Dict Notice → Dict Notice
  offer_notice m plan u best =
      let h = score fl m plan u in
      let found : Notice = record {
        superseded_by = u.superseded_by;
        enforced = u.superseder_enforced;
        basis = u.citation.basis;
        score = h.score;
        entry = u.citation.entry;
      } in
      if not (matched fl m h) then best else elim (lookup u.citation.entry best) [
        | none ↦ insert u.citation.entry found best
        | some prior ↦ if lt prior.score h.score then insert u.citation.entry found best else best
      ]

  unfoldable pub best_notices : Matcher fl → Text → List MatchUnit → Dict Notice → Dict Notice
  best_notices m plan [] best = best
  best_notices m plan (u ∷ us) best = best_notices m plan us (offer_notice m plan u best)

  abbrev pub notice_less : Notice → Notice → Bool
  notice_less a b = if not (eq a.score b.score) then lt b.score a.score else str_lt a.entry b.entry

  unfoldable pub notice : Matcher fl → Text → List Notice
  notice m plan = sort notice_less (values (best_notices m plan m.retired []))

  unfoldable pub verdict : Matcher fl → Str → Verdict
  verdict m plan =
      let candidate = parse plan in
      let quiet : Verdict = record {
        plan = plan;
        conflicts = [];
        notices = [];
        enforced = count_enforced m.units;
      } in
      if is_empty candidate then quiet else record quiet {
        conflicts = sort conflict_less (values (best_of m candidate m.units []));
        notices = notice m candidate;
      }

  -- `check`: entries already read.
  unfoldable pub check : Str → List Entry → Verdict
  check plan es = verdict (new_matcher fl es) plan

  abbrev pub compliant : Verdict → Bool
  compliant v = is_nil v.conflicts

  unfoldable pub exit_code : Verdict → ℕ
  exit_code v = if compliant v then exit_compliant else exit_conflict

  -- `Check`, where reading the ledger may fail.
  unfoldable pub check_ledger : {E : Type 0} → Result E (List Entry) → Str → Result E Verdict
  check_ledger (ok es) plan = ok (check plan es)
  check_ledger (err e) plan = err e
