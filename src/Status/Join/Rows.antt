-- ===== src/Status/Join/Rows.antt =====
-- The rows of a join, and what it asks of kazi.
use dira.Prelude.{
  ℕ, ◌+◌, ◌≤◌, ◌≡◌, inl, inr, refl, List, [], ◌∷◌, Option, arith, Str, map, leb, All, Bool-cases,
  Option-cases, Result-cases, Result, ok, err, ap, sym, subst,
}
use dira.Ledger.Entry.{Entry}
use dira.Status.Kazi.{Portfolio, RepoRun, Resolution, Row, not_planned}
use dira.Status.Join.{
  JoinError, RunStatus, KaziError, resolve_goal, resolve_runs, resolve_multiple, runs_for_goal,
  resolve_goal_id, parse_realized_by, join_target, join_entry, join_from, join, first_realized_by,
  max_status_calls, row, unasked,
}
use dira.Status.Join.Earned.{IsAnswer, no_answer, resolve_goal-IsAnswer}

ok_injective : {E A : Type 0} {a b : A} → Path (Result E A) (ok a) (ok b) → a ≡ b
ok_injective h = cc h

module _ {W : Type 0} (status : Str → W → Result KaziError (Option RunStatus) × W) where
  -- One round of the loop, if the join succeeds in the end.
  join_from-cases :
      (snap : Result Str Portfolio) (e : Entry) (es : List Entry) (calls : ℕ) (w : W)
      (rows : List Row)
      → (join_from status snap (e ∷ es) calls w).0 ≡ ok rows
      → (r : Resolution) × (rest : List Row) × ((join_entry status snap e calls w).0 ≡ ok r)
        × ((join_from status snap es
              (join_entry status snap e calls w).1
              (join_entry status snap e calls w).2).0
            ≡ ok rest)
        × (rows ≡ row e r ∷ rest)
  unfolding join_from
  join_from-cases snap e es calls w rows h =
      elim (Result-cases (join_entry status snap e calls w).0) [
        | inr (x, bad) ↦ absurd (cc (rw (bad, join_from) at h))
        | inl (r, good) ↦
            elim (Result-cases
              (join_from status snap es (join_entry status snap e calls w).1
                (join_entry status snap e calls w).2).0) [
                  | inr (x, bad) ↦ absurd (cc (rw (good, bad, join_from) at h))
                  | inl (rest, more) ↦ (
                    r,
                    rest,
                    good,
                    more,
                    let e' : Path (Result JoinError (List Row)) (ok (row e r ∷ rest)) (ok rows) =
                          rw (good, more, join_from) at h in
                        cc e',
                  )
                ]
      ]

  join_entry-IsAnswer :
      (snap : Result Str Portfolio) (e : Entry) (calls : ℕ) (w : W) (r : Resolution)
      → (join_entry status snap e calls w).0 ≡ ok r
      → IsAnswer r
  unfolding join_entry join_target
  join_entry-IsAnswer snap e calls w r h = elim (Option-cases (first_realized_by e.edges)) [
    | inl missing ↦ absurd (cc (rw (missing, join_entry) at h))
    | inr (target, to) ↦ of_target snap target (rw (to, join_entry) at h)
  ]
    where
      of_target :
          (snap : Result Str Portfolio) (target : Str)
          → (join_target status snap e target calls w).0 ≡ ok r
          → IsAnswer r
      of_target (err why) target h =
          subst (λ (x : Resolution). IsAnswer x) (ok_injective h) (no_answer _ refl refl refl)
      of_target (ok snap) target h = elim (Option-cases (parse_realized_by target)) [
        | inl bad ↦ absurd (cc (rw (bad, join_target) at h))
        | inr ((verb, ref), parsed) ↦ elim (Option-cases (resolve_goal_id verb ref snap)) [
          | inl unknown ↦
              let e' : Path (Result JoinError Resolution) (ok (unasked target not_planned)) (ok r) =
                rw (parsed, unknown, join_target) at h in
              subst (λ (x : Resolution). IsAnswer x) (ok_injective e') (no_answer _ refl refl refl)
          | inr (id, goal) ↦
              let e' : Path (Result JoinError Resolution)
                  (ok (resolve_goal status snap id calls w).0) (ok r) =
                rw (parsed, goal, join_target) at h in
              subst (λ (x : Resolution). IsAnswer x) (ok_injective e')
                (resolve_goal-IsAnswer status snap id calls w)
        ]
      ]

  -- The rows of a join are those of the candidates, in order, and each says one thing.
  join_from-rows :
      (snap : Result Str Portfolio) (es : List Entry) (calls : ℕ) (w : W) (rows : List Row)
      → (join_from status snap es calls w).0 ≡ ok rows
      → (map (λ (r : Row). r.id) rows ≡ map (λ (e : Entry). e.id) es)
        × All (λ (r : Row). IsAnswer r.resolution) rows
  unfolding join_from
  join_from-rows snap [] calls w rows h =
      let e : rows ≡ [] = sym (ok_injective h) in rw e (refl, tt)
  join_from-rows snap (e ∷ es) calls w rows h =
      let (r, rest, good, more, is) = join_from-cases snap e es calls w rows h in
      let (ids, shapes) =
        join_from-rows snap es (join_entry status snap e calls w).1
          (join_entry status snap e calls w).2 rest more in
      rw is (ap (λ l. e.id ∷ l) ids, (join_entry-IsAnswer snap e calls w r good, shapes))

  -- If a join succeeds, its rows are those of the candidates, in order, and each has a bucket, a
  -- disagreement or a reference without an answer, and only one of them.
  pub join-rows :
      (snap : Result Str Portfolio) (es : List Entry) (w : W) (rows : List Row)
      → (join status snap es w).0 ≡ ok rows
      → (map (λ (r : Row). r.id) rows ≡ map (λ (e : Entry). e.id) es)
        × All (λ (r : Row). IsAnswer r.resolution) rows
  unfolding join
  join-rows snap es w rows h = join_from-rows snap es 0 w rows h

  module _ (used : W → ℕ) (one : (id : Str) (w : W) → used (status id w).1 ≤ used w + 1) where
    -- The counter is never above the bound, and nothing is asked that it does not count.
    abbrev Counts : ℕ → W → ℕ → W → Type 0
    Counts calls w calls' w' = (calls' ≤ 25) × (used w' + calls ≤ used w + calls')

    resolve_runs-Counts :
        (snap : Portfolio) (id : Str) (runs : List RepoRun) (calls : ℕ) (w : W)
        → calls ≤ 25
        → Counts calls w
            (resolve_runs status snap id runs calls w).1
            (resolve_runs status snap id runs calls w).2
    unfolding resolve_runs resolve_multiple
    resolve_runs-Counts snap id [] calls w h = (h, omega arith)
    resolve_runs-Counts snap id (run ∷ []) calls w h = (h, omega arith)
    resolve_runs-Counts snap id (run ∷ more ∷ runs) calls w h =
        elim (Bool-cases (leb max_status_calls calls)) [
          | inl over ↦ rw over (h, omega arith)
          | inr under ↦ rw under (ground arith, let step = one id w in omega arith)
        ]

    join_entry-Counts :
        (snap : Result Str Portfolio) (e : Entry) (calls : ℕ) (w : W)
        → calls ≤ 25
        → Counts calls w (join_entry status snap e calls w).1 (join_entry status snap e calls w).2
    unfolding join_entry join_target resolve_goal
    join_entry-Counts snap e calls w h = elim (Option-cases (first_realized_by e.edges)) [
      | inl missing ↦ rw (missing, join_entry) (h, omega arith)
      | inr (target, to) ↦ rw (to, join_entry) (of_target snap target)
    ]
      where
        of_target :
            (snap : Result Str Portfolio) (target : Str)
            → Counts calls w
                (join_target status snap e target calls w).1
                (join_target status snap e target calls w).2
        of_target (err why) target = (h, omega arith)
        of_target (ok snap) target = elim (Option-cases (parse_realized_by target)) [
          | inl bad ↦ rw (bad, join_target) (h, omega arith)
          | inr ((verb, ref), parsed) ↦ elim (Option-cases (resolve_goal_id verb ref snap)) [
            | inl unknown ↦ rw (parsed, unknown, join_target) (h, omega arith)
            | inr (id, goal) ↦
                rw (parsed, goal, join_target)
                  (resolve_runs-Counts snap id (runs_for_goal snap id) calls w h)
          ]
        ]

    join_from-Counts :
        (snap : Result Str Portfolio) (es : List Entry) (calls : ℕ) (w : W)
        → calls ≤ 25
        → Counts calls w (join_from status snap es calls w).1 (join_from status snap es calls w).2
    unfolding join_from
    join_from-Counts snap [] calls w h = (h, omega arith)
    join_from-Counts snap (e ∷ es) calls w h =
        let (low, count) = join_entry-Counts snap e calls w h in
        let (low', count') =
          join_from-Counts snap es (join_entry status snap e calls w).1
            (join_entry status snap e calls w).2 low in
        elim (Result-cases (join_entry status snap e calls w).0) [
          | inr (x, bad) ↦ rw (bad, join_from) (low, count)
          | inl (r, good) ↦
              elim (Result-cases
                (join_from status snap es (join_entry status snap e calls w).1
                  (join_entry status snap e calls w).2).0) [
                    | inr (x, bad) ↦ rw (good, bad, join_from) (low', omega arith)
                    | inl (rest, more) ↦ rw (good, more, join_from) (low', omega arith)
                  ]
        ]

    -- However many candidates there are, a join asks kazi at most 25 times: what counts the calls of
    -- `status`, by at most one for each, has grown by at most 25.
    pub join-bounded :
        (snap : Result Str Portfolio) (es : List Entry) (w : W)
        → used (join status snap es w).1 ≤ used w + 25
    unfolding join
    join-bounded snap es w =
        let (low, count) = join_from-Counts snap es 0 w (omega arith) in omega arith
