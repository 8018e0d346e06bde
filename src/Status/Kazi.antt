-- ===== src/Status/Kazi.antt =====
-- internal/kazi/types.go and internal/status/types.go: what kazi reports, and a row of the status.
-- A Go map is the list of its values, in the order in which it happens to be ranged over.
use dira.Prelude.{List, Option, Str}
use dira.Ledger.Entry.{Kind}

-- `other_repo_bucket` is a value that the decoder refuses.
pub data RepoBucket : Type 0 where
  repo_in_progress repo_stuck repo_complete other_repo_bucket : RepoBucket

pub data Cause : Type 0 where
  cause_dag cause_over_budget cause_error cause_stuck : Cause

pub record RepoRun : Type 0 where
  pub goal_ref : Str
  pub run_id : Str
  pub status : Str
  pub bucket : RepoBucket

pub record Proposal : Type 0 where
  pub proposal_ref : Str
  pub goal_id : Str

pub record BlockedEntry : Type 0 where
  pub goal_ref : Str
  pub cause : Cause

-- The fields that the join reads; `by_repo` is, for each repo, the runs under each bucket's key.
pub record Portfolio : Type 0 where
  pub planned : List Proposal
  pub by_repo : List (List (List RepoRun))
  pub blocked : List BlockedEntry

pub data Bucket : Type 0 where
  to_be_planned planned_bucket in_progress completed execution_blocked decision_blocked : Bucket

pub data RowSource : Type 0 where
  source_ledger source_portfolio source_kazi_status : RowSource

pub record KaziEvidence : Type 0 where
  pub run_id : Str
  pub release_ref : Str

-- Why a reference has no answer. `from_snapshot` and `from_kazi` carry the reason kazi gave.
pub data Reason : Type 0 where
  not_planned no_record terminated_run proposal_for_runs : Reason
  from_snapshot from_kazi : Str → Reason

pub record Unresolved : Type 0 where
  pub ref : Str
  pub reason : Reason

-- The statuses that disagree, or the note that the bound on the calls is reached.
pub data Ambiguous : Type 0 where
  statuses : List Str → Ambiguous
  bound_reached : Ambiguous

-- What `resolveGoal` returns; the empty bucket is `none`. A row is that, and which entry it is of.
pub record Resolution : Type 0 where
  pub bucket : Option Bucket
  pub source : Option RowSource
  pub evidence : Option KaziEvidence
  pub ambiguous : Option Ambiguous
  pub unresolved : Option Unresolved

pub record Row : Type 0 where
  pub id : Str
  pub kind : Kind
  pub title : Str
  pub resolution : Resolution
