-- ===== src/Status/Tests.antt =====
-- A join of two candidates with a portfolio in which one goal has two runs, and the theorems there.
use dira.Prelude.{
  ℕ, ◌+◌, ◌≤◌, ◌≡◌, refl, List, [], ◌∷◌, Option, none, some, arith, Str, codes, map, All, ap,
  Result, ok,
}
use dira.Ledger.Entry.{Entry, realized_by}
use dira.Ledger.Validate.Tests.{use_go}
use dira.Status.Kazi.{
  Portfolio, RepoRun, Row, completed, repo_complete, repo_stuck, source_kazi_status, not_planned,
}
use dira.Status.Join.{
  RunStatus, KaziError, JoinError, prop, parse_realized_by, resolve_goal_id, runs_for_goal,
  resolve_goal, resolve_runs, resolve_multiple, resolve_answer, run_id_for_complete,
  first_realized_by, join_target, join_entry, join_from, join, row, answered, unasked,
}
use dira.Status.Join.Earned.{IsAnswer, IsEarned, resolve_goal-IsAnswer, completed-IsEarned}
use dira.Status.Join.Rows.{join-rows, join-bounded}

-- Every goal has converged; the calls are counted.
abbrev converged : Str → ℕ → Result KaziError (Option RunStatus) × ℕ
converged id n =
    (ok (some (record { status = codes "converged"; release_ref = codes "v1" })), n + 1)

abbrev done_run : RepoRun
done_run = record {
  goal_ref = codes "g";
  run_id = codes "r1";
  status = codes "converged";
  bucket = repo_complete;
}

abbrev stuck_run : RepoRun
stuck_run = record {
  goal_ref = codes "g";
  run_id = codes "r2";
  status = codes "stuck";
  bucket = repo_stuck;
}

abbrev snapshot : Portfolio
snapshot = record {
  planned = [];
  by_repo = ((done_run ∷ []) ∷ (stuck_run ∷ []) ∷ []) ∷ [];
  blocked = [];
}

abbrev candidate : Entry
candidate = record use_go {
  edges = record { type = realized_by; to = codes "kazi:goal-g"; note = [] } ∷ [];
}

abbrev unknown : Entry
unknown = record use_go {
  id = codes "dec-0009";
  edges = record { type = realized_by; to = codes "kazi:prop-e45"; note = [] } ∷ [];
}

abbrev rows : List Row
rows =
    row candidate (
      answered completed source_kazi_status
        (some (record { run_id = codes "r1"; release_ref = codes "v1" })))
    ∷ row unknown (unasked (codes "kazi:prop-e45") not_planned)
    ∷ []

targets :
    (parse_realized_by (codes "kazi:prop-e45") ≡ some (prop, codes "e45"))
    × (parse_realized_by (codes "kazi:goal-") ≡ none)
    × (parse_realized_by (codes "kazi:task-1") ≡ none)
unfolding parse_realized_by
targets = (refl, refl, refl)

joined : join converged (ok snapshot) (candidate ∷ unknown ∷ []) 0 ≡ (ok rows, 1)
unfolding join join_from join_entry join_target first_realized_by parse_realized_by resolve_goal_id
    resolve_goal runs_for_goal resolve_runs resolve_multiple resolve_answer run_id_for_complete
joined = refl

join-rows_example :
    (map (λ (r : Row). r.id) rows ≡ map (λ (e : Entry). e.id) (candidate ∷ unknown ∷ []))
    × All (λ (r : Row). IsAnswer r.resolution) rows
join-rows_example =
    join-rows converged (ok snapshot) (candidate ∷ unknown ∷ []) 0 rows
      (ap (λ (p : Result JoinError (List Row) × ℕ). p.0) joined)

join-bounded_example : (join converged (ok snapshot) (candidate ∷ unknown ∷ []) 0).1 ≤ 0 + 25
join-bounded_example =
    join-bounded converged (λ n. n) (λ id w. omega arith) (ok snapshot) (candidate ∷ unknown ∷ []) 0

resolve_goal-IsAnswer_example : IsAnswer (resolve_goal converged snapshot (codes "g") 25 0).0
resolve_goal-IsAnswer_example = resolve_goal-IsAnswer converged snapshot (codes "g") 25 0

has_converged : (resolve_goal converged snapshot (codes "g") 0 0).0.bucket ≡ some completed
unfolding resolve_goal runs_for_goal resolve_runs resolve_multiple resolve_answer
has_converged = refl

completed-IsEarned_example :
    IsEarned converged 0
      (codes "g")
      (runs_for_goal snapshot (codes "g"))
      (resolve_goal converged snapshot (codes "g") 0 0).0
completed-IsEarned_example = completed-IsEarned converged snapshot (codes "g") 0 0 has_converged
