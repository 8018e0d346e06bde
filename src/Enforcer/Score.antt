-- ===== src/Enforcer/Score.antt =====
-- internal/enforcer/match.go: the matcher, and the score of a plan against one unit.
use dira.Prelude.{
  ◌+◌, Bool, true, false, not, ◌&&◌, ◌||◌, List, [], ◌∷◌, Str, any, one_of, if◌then◌else◌,
}
use dira.Ledger.Entry.{Entry}
use dira.Enforcer.Text.{Term, Span, Text}
use dira.Enforcer.Target.{MatchUnit, enforcement_set, retired_set}
use dira.Enforcer.Float.{Float}
use dira.Enforcer.Match.{
  Idf, df_of, new_idf, observe_all, bag, positive_bag, phrases, positive_phrases, split_phrase,
  uniform_runs, contains_run, term_eq,
}

module _ (fl : Float) where
  open fl use {F, zero_f, one_f, of_nat, decimal, add, mul, div, log, lt, eq}

  abbrev pub match_threshold : F
  match_threshold = decimal 38 100

  -- `phraseShare * phraseLength`: Go multiplies the two constants exactly.
  abbrev pub phrase_share : F
  phrase_share = decimal 164 100

  -- `idf.weight`
  unfoldable pub weight : Idf → Str → F
  weight f word = add (log (div (of_nat (f.docs + 1)) (of_nat (df_of f word + 1)))) one_f

  -- `idf.rarest`
  unfoldable pub rarest : Idf → F
  rarest f = add (log (div (of_nat (f.docs + 1)) (of_nat 2))) one_f

  abbrev pub word_mass_from : Idf → F → List Str → F
  word_mass_from f total [] = total
  word_mass_from f total (w ∷ ws) = word_mass_from f (add total (weight f w)) ws

  abbrev pub mass_from : Idf → F → List Term → F
  mass_from f total [] = total
  mass_from f total (t ∷ ts) = mass_from f (add total (weight f t.word)) ts

  -- `idf.mass`
  unfoldable pub mass : Idf → List Term → F
  mass f ts = mass_from f zero_f ts

  pub record Matcher : Type 0 where
    pub weights : Idf
    pub units : List MatchUnit
    pub retired : List MatchUnit
    pub threshold : F
    pub phrase_floor : F

  unfoldable pub phrase_floor_of : Idf → F
  phrase_floor_of f = mul phrase_share (rarest f)

  -- `newMatcher`
  unfoldable pub new_matcher : List Entry → Matcher
  new_matcher es =
      let weights = observe_all new_idf es in
      record {
        weights = weights;
        units = enforcement_set es;
        retired = retired_set es;
        threshold = match_threshold;
        phrase_floor = phrase_floor_of weights;
      }

  pub record Hit : Type 0 where
    pub score : F
    pub phrase : Bool
    pub scores : Bool

  abbrev pub no_hit : Hit
  no_hit = record { score = zero_f; phrase = false; scores = false }

  -- `matched`: the overlap clears the threshold, or a phrase landed.
  unfoldable pub matched : Matcher → Hit → Bool
  matched m h = h.scores && not (lt h.score m.threshold) || h.phrase

  abbrev pub heavy_run : Matcher → Span → Bool
  heavy_run m run = not (lt (mass_from m.weights zero_f run) m.phrase_floor)

  -- `restates`
  unfoldable pub restates : Matcher → Text → MatchUnit → Bool
  restates m plan u =
      any
        (λ sp. any (λ run. heavy_run m run && contains_run plan run u.polarised) (uniform_runs sp))
        u.text

  abbrev pub heavy_phrase : Matcher → Str → Bool
  heavy_phrase m p = not (lt (word_mass_from m.weights zero_f (split_phrase p)) m.phrase_floor)

  -- `sharesPhrase`
  unfoldable pub shares_phrase : Matcher → Text → MatchUnit → Bool
  shares_phrase m plan u =
      let mine = phrases u.text 2 u.polarised in
      let theirs = if u.polarised then phrases plan 2 true else positive_phrases plan 2 in
      any (λ p. one_of p theirs && heavy_phrase m p) mine

  abbrev pub plan_bag : Text → MatchUnit → List Term
  plan_bag plan u = if u.polarised then bag plan true else positive_bag plan

  abbrev pub unit_bag : MatchUnit → List Term
  unit_bag u = bag u.text u.polarised

  abbrev pub shared_from : Idf → List Term → F → List Term → F
  shared_from f plan total [] = total
  shared_from f plan total (t ∷ ts) =
      shared_from f plan (if any (term_eq t) plan then add total (weight f t.word) else total) ts

  -- `score`: the shared mass over the lighter side, and the phrase signal of the unit's kind.
  unfoldable pub score : Matcher → Text → MatchUnit → Hit
  score m plan u =
      let shared = shared_from m.weights (plan_bag plan u) zero_f (unit_bag u) in
      let unit_mass = mass m.weights (unit_bag u) in
      let plan_mass = mass m.weights (plan_bag plan u) in
      let denominator = if lt plan_mass unit_mass then plan_mass else unit_mass in
      if eq shared zero_f then no_hit else if not (lt zero_f denominator) then no_hit else record {
        score = div shared denominator;
        scores = not u.phrase_only;
        phrase = if u.prose then shares_phrase m plan u else restates m plan u;
      }
