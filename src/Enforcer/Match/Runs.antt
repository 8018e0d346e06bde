-- ===== src/Enforcer/Match/Runs.antt =====
-- How `uniformRuns` cuts a span into stretches of one polarity.
use dira.Prelude.{
  ◌≡◌, ◌≢◌, refl, true, false, Bool, not, List, [], ◌∷◌, ◌++◌, arith, All, Bool-cases, concat_map,
  ap, ◌∙◌, inl, inr, append_assoc, subst,
}
use dira.Enforcer.Text.{Term, Span}
use dira.Enforcer.Match.{uniform_runs, runs_loop, bool_eq}

-- A run is not empty, and all of it has one polarity.
abbrev pub IsRun : Bool → Span → Type 0
IsRun b sp = (sp ≢ []) × All (λ (tm : Term). tm.negated ≡ b) sp

-- Runs whose polarities take turns, so that none could be longer.
unfoldable pub TakeTurns : Bool → List Span → Type 0
TakeTurns b [] = Unit
TakeTurns b (run ∷ runs) = IsRun b run × TakeTurns (not b) runs

All-snoc :
    (b : Bool) (run : Span) (tm : Term)
    → All (λ (x : Term). x.negated ≡ b) run
    → tm.negated ≡ b
    → All (λ (x : Term). x.negated ≡ b) (run ++ tm ∷ [])
All-snoc b [] tm h e = (e, tt)
All-snoc b (x ∷ run) tm (h, hs) e = (h, All-snoc b run tm hs e)

bool_eq-true : (a b : Bool) → bool_eq a b ≡ true → a ≡ b
bool_eq-true a b h = ground arith

bool_eq-false : (a b : Bool) → bool_eq a b ≡ false → a ≡ not b
bool_eq-false a b h = ground arith

runs_loop_same :
    (first tm : Term) (run sp : Span)
    → bool_eq tm.negated first.negated ≡ true
    → runs_loop (first ∷ run) (tm ∷ sp) ≡ runs_loop (first ∷ (run ++ tm ∷ [])) sp
unfolding runs_loop
runs_loop_same first tm run sp h = rw (h, runs_loop) refl

runs_loop_other :
    (first tm : Term) (run sp : Span)
    → bool_eq tm.negated first.negated ≡ false
    → runs_loop (first ∷ run) (tm ∷ sp) ≡ (first ∷ run) ∷ runs_loop (tm ∷ []) sp
unfolding runs_loop
runs_loop_other first tm run sp h = rw (h, runs_loop) refl

runs_loop-concat :
    (first : Term) (run sp : Span)
    → concat_map (λ r. r) (runs_loop (first ∷ run) sp) ≡ (first ∷ run) ++ sp
unfolding runs_loop
runs_loop-concat first run [] = refl
runs_loop-concat first run (tm ∷ sp) = elim (Bool-cases (bool_eq tm.negated first.negated)) [
  | inl same ↦ rw (runs_loop_same first tm run sp same) (
      runs_loop-concat first (run ++ tm ∷ []) sp
      ∙ ap (λ r. first ∷ r) (append_assoc run (tm ∷ []) sp))
  | inr other ↦
      rw (runs_loop_other first tm run sp other)
        (ap (λ r. (first ∷ run) ++ r) (runs_loop-concat tm [] sp))
]

runs_loop-TakeTurns :
    (first : Term) (run sp : Span)
    → All (λ (x : Term). x.negated ≡ first.negated) run
    → TakeTurns first.negated (runs_loop (first ∷ run) sp)
unfolding runs_loop TakeTurns
runs_loop-TakeTurns first run [] h = ((λ e. cc, (refl, h)), tt)
runs_loop-TakeTurns first run (tm ∷ sp) h = elim (Bool-cases (bool_eq tm.negated first.negated)) [
  | inl same ↦ rw (runs_loop_same first tm run sp same) (
      runs_loop-TakeTurns first (run ++ tm ∷ []) sp
        (All-snoc first.negated run tm h (bool_eq-true tm.negated first.negated same)))
  | inr other ↦ rw (runs_loop_other first tm run sp other) (
    (λ e. cc, (refl, h)),
    subst (λ (b : Bool). TakeTurns b (runs_loop (tm ∷ []) sp))
        (bool_eq-false tm.negated first.negated other) (runs_loop-TakeTurns tm [] sp tt),
  )
]

-- The runs of a span are the span again when put together; none is empty, each has one polarity, and
-- neighbours differ in theirs.
pub uniform_runs-TakeTurns :
    (sp : Span)
    → (concat_map (λ r. r) (uniform_runs sp) ≡ sp) × ((b : Bool) × TakeTurns b (uniform_runs sp))
unfolding uniform_runs runs_loop TakeTurns
uniform_runs-TakeTurns [] = (refl, (true, tt))
uniform_runs-TakeTurns (tm ∷ sp) =
    (runs_loop-concat tm [] sp, (tm.negated, runs_loop-TakeTurns tm [] sp tt))
