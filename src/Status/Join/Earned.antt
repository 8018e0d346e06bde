-- ===== src/Status/Join/Earned.antt =====
-- What a goal's resolution rests on.
use dira.Prelude.{
  ℕ, ◌≤◌, ◌≡◌, ◌≢◌, ◌⊎◌, inl, inr, refl, List, [], ◌∷◌, Option, none, some, arith, Str, codes,
  length, leb, str_eq, str_eq_iff, Bool-cases, Option-cases, Result-cases, Result, ok, err, ap, ◌∙◌,
}
use dira.Status.Kazi.{
  Portfolio, RepoRun, RepoBucket, Resolution, Bucket, Ambiguous, Unresolved, completed, in_progress,
  planned_bucket, execution_blocked, repo_complete, repo_stuck, repo_in_progress, other_repo_bucket,
  source_kazi_status,
}
use dira.Status.Join.{
  RunStatus, KaziError, resolve_goal, resolve_runs, resolve_multiple, resolve_single, resolve_idle,
  resolve_answer, evidence_of, runs_for_goal, map_run_bucket, bucket_of, max_status_calls,
  blocked_for_goal, planned_contains_goal, unavailable, other_error,
}

-- A bucket, a disagreement, or a reference without an answer, and only one of them.
pub data IsAnswer (r : Resolution) : Type 0 where
  a_bucket :
      (b : Bucket) → r.bucket ≡ some b → r.ambiguous ≡ none → r.unresolved ≡ none → IsAnswer r
  a_conflict :
      (a : Ambiguous) → r.bucket ≡ none → r.ambiguous ≡ some a → r.unresolved ≡ none → IsAnswer r
  no_answer :
      (u : Unresolved) → r.bucket ≡ none → r.ambiguous ≡ none → r.unresolved ≡ some u → IsAnswer r

list-cases : {A : Type 0} (xs : List A) → (xs ≡ []) ⊎ ((x : A) × (rest : List A) × (xs ≡ x ∷ rest))
list-cases [] = inl refl
list-cases (x ∷ xs) = inr (x, xs, refl)

pub resolve_idle-IsAnswer : (snap : Portfolio) (id : Str) → IsAnswer (resolve_idle snap id)
unfolding resolve_idle
resolve_idle-IsAnswer snap id = elim (list-cases (blocked_for_goal snap id)) [
  | inr (b, bs, blocked) ↦ rw (blocked, resolve_idle) (a_bucket execution_blocked refl refl refl)
  | inl free ↦ elim (Bool-cases (planned_contains_goal snap id)) [
    | inl planned ↦ rw (free, planned, resolve_idle) (a_bucket planned_bucket refl refl refl)
    | inr unknown ↦ rw (free, unknown, resolve_idle) (no_answer _ refl refl refl)
  ]
]

pub resolve_single-IsAnswer : (id : Str) (run : RepoRun) → IsAnswer (resolve_single id run)
unfolding resolve_single
resolve_single-IsAnswer id run = elim (Option-cases (map_run_bucket run.bucket run.status)) [
  | inl lost ↦ rw (lost, resolve_single) (no_answer _ refl refl refl)
  | inr (b, is) ↦ rw (is, resolve_single) (a_bucket b refl refl refl)
]

pub resolve_answer-IsAnswer :
    (id : Str) (runs : List RepoRun) (answer : Result KaziError (Option RunStatus))
    → IsAnswer (resolve_answer id runs answer)
unfolding resolve_answer
resolve_answer-IsAnswer id runs (err (unavailable x)) = a_conflict _ refl refl refl
resolve_answer-IsAnswer id runs (err (other_error x)) = no_answer _ refl refl refl
resolve_answer-IsAnswer id runs (ok none) = no_answer _ refl refl refl
resolve_answer-IsAnswer id runs (ok (some st)) =
    elim (Bool-cases (str_eq st.status (codes "converged"))) [
      | inl done ↦ rw (done, resolve_answer) (a_bucket completed refl refl refl)
      | inr going ↦ rw (going, resolve_answer) (a_bucket in_progress refl refl refl)
    ]

-- What lets a goal count as completed: its only run is complete and was not terminated, and is named;
-- or it has several, and kazi says of the goal that it has converged.
pub data IsEarned {W : Type 0} (status : Str → W → Result KaziError (Option RunStatus) × W) (w : W)
    (id : Str) (runs : List RepoRun) (r : Resolution) : Type 0 where
  by_run :
      (run : RepoRun)
      → runs ≡ run ∷ []
      → run.bucket ≡ repo_complete
      → run.status ≢ codes "terminated"
      → r.evidence ≡ some (record { run_id = run.run_id; release_ref = [] })
      → IsEarned status w id runs r
  by_kazi :
      (st : RunStatus)
      → 2 ≤ length runs
      → (status id w).0 ≡ ok (some st)
      → st.status ≡ codes "converged"
      → r.source ≡ some source_kazi_status
      → IsEarned status w id runs r

module _ {W : Type 0} (status : Str → W → Result KaziError (Option RunStatus) × W) where
  resolve_runs-IsAnswer :
      (snap : Portfolio) (id : Str) (runs : List RepoRun) (calls : ℕ) (w : W)
      → IsAnswer (resolve_runs status snap id runs calls w).0
  unfolding resolve_runs resolve_multiple
  resolve_runs-IsAnswer snap id [] calls w = resolve_idle-IsAnswer snap id
  resolve_runs-IsAnswer snap id (run ∷ []) calls w = resolve_single-IsAnswer id run
  resolve_runs-IsAnswer snap id (run ∷ more ∷ runs) calls w =
      elim (Bool-cases (leb max_status_calls calls)) [
        | inl over ↦ rw over (a_conflict _ refl refl refl)
        | inr under ↦ rw under (resolve_answer-IsAnswer id (run ∷ more ∷ runs) (status id w).0)
      ]

  -- Every resolution of a goal is a bucket, a disagreement or a reference without an answer, and
  -- only one of them.
  pub resolve_goal-IsAnswer :
      (snap : Portfolio) (id : Str) (calls : ℕ) (w : W)
      → IsAnswer (resolve_goal status snap id calls w).0
  unfolding resolve_goal
  resolve_goal-IsAnswer snap id calls w =
      resolve_runs-IsAnswer snap id (runs_for_goal snap id) calls w

  idle-completed : (snap : Portfolio) (id : Str) → (resolve_idle snap id).bucket ≢ some completed
  unfolding resolve_idle
  idle-completed snap id h = elim (list-cases (blocked_for_goal snap id)) [
    | inr (b, bs, blocked) ↦ cc (rw (blocked, resolve_idle) at h)
    | inl free ↦ elim (Bool-cases (planned_contains_goal snap id)) [
      | inl planned ↦ cc (rw (free, planned, resolve_idle) at h)
      | inr unknown ↦ cc (rw (free, unknown, resolve_idle) at h)
    ]
  ]

  bucket-completed :
      (run : RepoRun)
      → map_run_bucket run.bucket run.status ≡ some completed
      → (run.bucket ≡ repo_complete) × (run.status ≢ codes "terminated")
  unfolding map_run_bucket
  bucket-completed run h = elim (Bool-cases (str_eq run.status (codes "terminated"))) [
    | inl lost ↦ absurd (cc (rw lost at h))
    | inr fine ↦ (
      complete run.bucket (rw fine at h),
      λ e. cc (fine, (str_eq_iff run.status (codes "terminated")).1 e),
    )
  ]
    where
      complete : (b : RepoBucket) → bucket_of b ≡ some completed → b ≡ repo_complete
      complete repo_complete e = refl
      complete repo_stuck e = cc
      complete repo_in_progress e = cc
      complete other_repo_bucket e = cc

  single-IsEarned :
      (id : Str) (run : RepoRun) (w : W)
      → (resolve_single id run).bucket ≡ some completed
      → IsEarned status w id (run ∷ []) (resolve_single id run)
  unfolding resolve_single
  single-IsEarned id run w h = elim (Option-cases (map_run_bucket run.bucket run.status)) [
    | inl lost ↦ absurd (cc (rw (lost, resolve_single) at h))
    | inr (b, is) ↦
        let done : b ≡ completed = cc (rw (is, resolve_single) at h) in
        let (fine, kept) = bucket-completed run (is ∙ ap (λ (x : Bucket). some x) done) in
        by_run run refl fine kept
          (rw (is, resolve_single) (ap (λ (x : Bucket). evidence_of x run.run_id) done))
  ]

  answer-IsEarned :
      (id : Str) (runs : List RepoRun) (w : W)
      → 2 ≤ length runs
      → (resolve_answer id runs (status id w).0).bucket ≡ some completed
      → IsEarned status w id runs (resolve_answer id runs (status id w).0)
  unfolding resolve_answer
  answer-IsEarned id runs w two h = elim (Result-cases (status id w).0) [
    | inr (unavailable x, said) ↦ absurd (cc (rw (said, resolve_answer) at h))
    | inr (other_error x, said) ↦ absurd (cc (rw (said, resolve_answer) at h))
    | inl (none, said) ↦ absurd (cc (rw (said, resolve_answer) at h))
    | inl (some st, said) ↦ elim (Bool-cases (str_eq st.status (codes "converged"))) [
      | inr going ↦ absurd (cc (rw (said, going, resolve_answer) at h))
      | inl done ↦
          by_kazi st two said ((str_eq_iff st.status (codes "converged")).0 done)
            (rw (said, done, resolve_answer) refl)
    ]
  ]

  runs-IsEarned :
      (snap : Portfolio) (id : Str) (runs : List RepoRun) (calls : ℕ) (w : W)
      → (resolve_runs status snap id runs calls w).0.bucket ≡ some completed
      → IsEarned status w id runs (resolve_runs status snap id runs calls w).0
  unfolding resolve_runs resolve_multiple
  runs-IsEarned snap id [] calls w h = absurd (idle-completed snap id h)
  runs-IsEarned snap id (run ∷ []) calls w h = single-IsEarned id run w h
  runs-IsEarned snap id (run ∷ more ∷ runs) calls w h =
      elim (Bool-cases (leb max_status_calls calls)) [
        | inl over ↦ absurd (cc (rw over at h))
        | inr under ↦
            rw under (answer-IsEarned id (run ∷ more ∷ runs) w (omega arith) (rw under at h))
      ]

  -- A goal counts as completed only if that is earned: its only run is complete and was not
  -- terminated, and the evidence names it; or it has several runs, kazi was asked and says that the
  -- goal has converged. A run among several is never taken at its word.
  pub completed-IsEarned :
      (snap : Portfolio) (id : Str) (calls : ℕ) (w : W)
      → (resolve_goal status snap id calls w).0.bucket ≡ some completed
      → IsEarned status w id (runs_for_goal snap id) (resolve_goal status snap id calls w).0
  unfolding resolve_goal
  completed-IsEarned snap id calls w h = runs-IsEarned snap id (runs_for_goal snap id) calls w h
