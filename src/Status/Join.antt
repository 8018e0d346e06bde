-- ===== src/Status/Join.antt =====
-- internal/status/join.go: the join of the candidates with kazi's portfolio. `StatusFunc`, which asks
-- kazi for one goal, is a parameter with the state that it reads and changes.
pub mod Earned
pub mod Rows
use dira.Prelude.{
  ℕ, ◌+◌, ◌≡◌, Bool, true, false, not, ◌&&◌, List, [], ◌∷◌, ◌++◌, map, Option, none, some, Str,
  codes, is_nil, any, concat_map, drop, length, leb, keep_if, if◌then◌else◌, has_prefix, one_of,
  newline, ◌==◌, str_eq, str_lt, sort, Result, ok, err,
}
use dira.Ledger.Entry.{Entry, Edge, EdgeType, realized_by}
use dira.Status.Kazi.{
  RepoBucket, Cause, RepoRun, Proposal, BlockedEntry, Portfolio, Bucket, RowSource, KaziEvidence,
  Reason, Unresolved, Ambiguous, Resolution, Row, repo_in_progress, repo_stuck, repo_complete,
  other_repo_bucket, planned_bucket, in_progress, completed, execution_blocked, source_portfolio,
  source_kazi_status, not_planned, no_record, terminated_run, proposal_for_runs, from_snapshot,
  from_kazi, statuses, bound_reached,
}

abbrev pub max_status_calls : ℕ
max_status_calls = 25

pub data Verb : Type 0 where
  prop goal : Verb

-- `(.+)$`: at least one character, and no line break.
abbrev pub ref_of : Verb → Str → Option (Verb × Str)
ref_of v s = if is_nil s then none else if any (λ c. c == newline) s then none else some (v, s)

-- `^kazi:(prop|goal)-(.+)$`
unfoldable pub parse_realized_by : Str → Option (Verb × Str)
parse_realized_by target =
    if has_prefix target (codes "kazi:prop-")
    then ref_of prop (drop 10 target)
    else if has_prefix target (codes "kazi:goal-")
    then ref_of goal (drop 10 target)
    else none

unfoldable pub find_proposal : Str → List Proposal → Option Str
find_proposal full [] = none
find_proposal full (p ∷ ps) =
    if str_eq p.proposal_ref full then some p.goal_id else find_proposal full ps

unfoldable pub resolve_goal_id : Verb → Str → Portfolio → Option Str
unfolding find_proposal
resolve_goal_id goal ref snap = some ref
resolve_goal_id prop ref snap = find_proposal (codes "prop-" ++ ref) snap.planned

unfoldable pub runs_for_goal : Portfolio → Str → List RepoRun
runs_for_goal snap id =
    concat_map (λ buckets. concat_map (keep_if (λ (r : RepoRun). str_eq r.goal_ref id)) buckets)
      snap.by_repo

unfoldable pub planned_contains_goal : Portfolio → Str → Bool
planned_contains_goal snap id = any (λ (p : Proposal). str_eq p.goal_id id) snap.planned

unfoldable pub blocked_for_goal : Portfolio → Str → List BlockedEntry
blocked_for_goal snap id = keep_if (λ (b : BlockedEntry). str_eq b.goal_ref id) snap.blocked

abbrev pub bucket_for_cause : Cause → Bucket
bucket_for_cause _ = execution_blocked

abbrev pub bucket_of : RepoBucket → Option Bucket
bucket_of repo_complete = some completed
bucket_of repo_stuck = some execution_blocked
bucket_of repo_in_progress = some in_progress
bucket_of other_repo_bucket = none

unfoldable pub map_run_bucket : RepoBucket → Str → Option Bucket
map_run_bucket b raw = if str_eq raw (codes "terminated") then none else bucket_of b

-- `distinctStatuses`, sorted.
unfoldable pub distinct : List Str → List Str → List Str
distinct [] seen = seen
distinct (s ∷ ss) seen = distinct ss (if one_of s seen then seen else seen ++ s ∷ [])

unfoldable pub distinct_statuses : List RepoRun → List Str
unfolding distinct
distinct_statuses runs = sort str_lt (distinct (map (λ (r : RepoRun). r.status) runs) [])

abbrev pub is_complete : RepoBucket → Bool
is_complete repo_complete = true
is_complete _ = false

unfoldable pub run_id_for_complete : List RepoRun → Str
run_id_for_complete [] = []
run_id_for_complete (r ∷ rs) = if is_complete r.bucket then r.run_id else run_id_for_complete rs

-- What kazi answers for one goal: its run status, if it is a run.
pub record RunStatus : Type 0 where
  pub status : Str
  pub release_ref : Str

pub data KaziError : Type 0 where
  unavailable other_error : Str → KaziError

abbrev pub answered : Bucket → RowSource → Option KaziEvidence → Resolution
answered b src ev = record {
  bucket = some b;
  source = some src;
  evidence = ev;
  ambiguous = none;
  unresolved = none;
}

abbrev pub unanswered : Str → Reason → Resolution
unanswered ref why = record {
  bucket = none;
  source = some source_portfolio;
  evidence = none;
  ambiguous = none;
  unresolved = some (record { ref = ref; reason = why });
}

abbrev pub conflicting : Ambiguous → Resolution
conflicting a = record {
  bucket = none;
  source = some source_portfolio;
  evidence = none;
  ambiguous = some a;
  unresolved = none;
}

unfoldable pub resolve_idle : Portfolio → Str → Resolution
resolve_idle snap id = elim (blocked_for_goal snap id) [
  | b ∷ _ ↦ answered (bucket_for_cause b.cause) source_portfolio none
  | [] ↦
      if planned_contains_goal snap id
      then answered planned_bucket source_portfolio none
      else unanswered id no_record
]

abbrev pub evidence_of : Bucket → Str → Option KaziEvidence
evidence_of completed run = some (record { run_id = run; release_ref = [] })
evidence_of _ run = none

unfoldable pub resolve_single : Str → RepoRun → Resolution
resolve_single id run = elim (map_run_bucket run.bucket run.status) [
  | some b ↦ answered b source_portfolio (evidence_of b run.run_id)
  | none ↦ unanswered id terminated_run
]

unfoldable pub resolve_answer :
    Str → List RepoRun → Result KaziError (Option RunStatus) → Resolution
resolve_answer id runs (err (unavailable _)) = conflicting (statuses (distinct_statuses runs))
resolve_answer id runs (err (other_error why)) = unanswered id (from_kazi why)
resolve_answer id runs (ok none) = unanswered id proposal_for_runs
resolve_answer id runs (ok (some st)) =
    if str_eq st.status (codes "converged")
    then answered completed source_kazi_status
        (some (record { run_id = run_id_for_complete runs; release_ref = st.release_ref }))
    else answered in_progress source_kazi_status none

unfoldable pub first_realized_by : List Edge → Option Str
first_realized_by [] = none
first_realized_by (e ∷ es) = if is_realized_by e.type then some e.to else first_realized_by es
  where
    is_realized_by : EdgeType → Bool
    is_realized_by realized_by = true
    is_realized_by _ = false

pub data JoinError : Type 0 where
  no_realized_by bad_target : Str → JoinError

abbrev pub row : Entry → Resolution → Row
row e r = record { id = e.id; kind = e.kind; title = e.title; resolution = r }

-- The row of an entry that kazi was not asked about: it has no source.
abbrev pub unasked : Str → Reason → Resolution
unasked ref why = record (unanswered ref why) { source = none }

module _ {W : Type 0} (status : Str → W → Result KaziError (Option RunStatus) × W) where
  -- More than one run; `calls` counts the questions so far.
  unfoldable pub resolve_multiple : Str → List RepoRun → ℕ → W → Resolution × ℕ × W
  resolve_multiple id runs calls w =
      if leb max_status_calls calls
      then (conflicting bound_reached, calls, w)
      else let (answer, w1) = status id w in (resolve_answer id runs answer, calls + 1, w1)

  unfoldable pub resolve_runs : Portfolio → Str → List RepoRun → ℕ → W → Resolution × ℕ × W
  resolve_runs snap id [] calls w = (resolve_idle snap id, calls, w)
  resolve_runs snap id (run ∷ []) calls w = (resolve_single id run, calls, w)
  resolve_runs snap id (run ∷ more ∷ runs) calls w = resolve_multiple id (run ∷ more ∷ runs) calls w

  -- `resolveGoal`
  unfoldable pub resolve_goal : Portfolio → Str → ℕ → W → Resolution × ℕ × W
  resolve_goal snap id calls w = resolve_runs snap id (runs_for_goal snap id) calls w

  -- One candidate, where the portfolio is there, or the reason that it is not.
  unfoldable pub join_target :
      Result Str Portfolio → Entry → Str → ℕ → W → Result JoinError Resolution × ℕ × W
  join_target (err why) e target calls w = (ok (unasked target (from_snapshot why)), calls, w)
  join_target (ok snap) e target calls w = elim (parse_realized_by target) [
    | none ↦ (err (bad_target e.id), calls, w)
    | some (verb, ref) ↦ elim (resolve_goal_id verb ref snap) [
      | none ↦ (ok (unasked target not_planned), calls, w)
      | some id ↦ let (r, calls1, w1) = resolve_goal snap id calls w in (ok r, calls1, w1)
    ]
  ]

  unfoldable pub join_entry :
      Result Str Portfolio → Entry → ℕ → W → Result JoinError Resolution × ℕ × W
  join_entry snap e calls w = elim (first_realized_by e.edges) [
    | none ↦ (err (no_realized_by e.id), calls, w)
    | some target ↦ join_target snap e target calls w
  ]

  unfoldable pub join_from :
      Result Str Portfolio → List Entry → ℕ → W → Result JoinError (List Row) × ℕ × W
  join_from snap [] calls w = (ok [], calls, w)
  join_from snap (e ∷ es) calls w =
      let (answer, calls1, w1) = join_entry snap e calls w in
      let (rest, calls2, w2) = join_from snap es calls1 w1 in
      elim answer [
        | err x ↦ (err x, calls1, w1)
        | ok r ↦ elim rest [
          | err x ↦ (err x, calls2, w2)
          | ok rows ↦ (ok (row e r ∷ rows), calls2, w2)
        ]
      ]

  -- `Join`
  unfoldable pub join : Result Str Portfolio → List Entry → W → Result JoinError (List Row) × W
  join snap es w = let (rows, calls, w1) = join_from snap es 0 w in (rows, w1)
