-- ===== src/Chain/Terminates.antt =====
-- internal/chain/chain.go: why `Walk` ends. The directories that can be opened are finitely many, and no
-- path visits one of them twice.
use dira.Prelude.{
  unseen, unseen_lt, unseen_bounded, ℕ, zero, suc, ◌<◌, ◌≡◌, ◌≢◌, refl, false, List, [], ◌∷◌, Str,
  In, arith, length, one_of, if_both, if_split, Result, ok, err, is_nil, trim_space,
}
use dira.Config.{Parent, parse}
use dira.Chain.{
  Files, Opened, Ancestor, WalkError, unfinished, Walker, Walked, walk_above, walk_opened,
  walk_parent, walk_decls, walk_parents, walk_from, walk, prepend, followed, reached,
}

module _ (fs : Files) where
  Finishes : Walked fs → Type 1
  Finishes r = r.0 ≢ err unfinished

  prepend-Finishes :
      (out : List Ancestor) (r : Result WalkError (List Ancestor))
      → r ≢ err unfinished
      → prepend fs out r ≢ err unfinished
  prepend-Finishes out (ok grand) h e = cc
  prepend-Finishes out (err x) h e = h e

  followed-Finishes :
      (first rest : Walked fs) → Finishes first → Finishes rest → Finishes (followed fs first rest)
  unfolding Finishes
  followed-Finishes (err e, w) rest h k = h
  followed-Finishes (ok out, w) (rest, w1) h k = prepend-Finishes out rest k

  module _ (walker : Walker fs) (parent : Str) (visited : List Str)
      (h : (decls : List Parent) (w : fs.World)
        → Finishes (walker parent decls (parent ∷ visited) w)) where
    walk_above-Finishes :
        (ns : Str) (backend : Opened) (r : Result Str Str × fs.World)
        → Finishes (walk_above fs walker ns parent visited backend r)
    unfolding Finishes
    walk_above-Finishes ns backend (err e, w) = λ k. cc
    walk_above-Finishes ns backend (ok data_text, w) =
        prepend-Finishes (reached ns (parse data_text).0.tier backend ∷ []) _
          (h (parse data_text).0.parent_decls w)

  module _ (dirs : List Str)
      (finite : (d : Str) (o : Opened) (w : fs.World)
        → (fs.open_store d w).0 ≡ ok o
        → In d dirs) where
    module _ (walker : Walker fs) (visited : List Str)
        (h : (parent : Str) (decls : List Parent) (w : fs.World)
          → In parent dirs
          → one_of parent visited ≡ false
          → Finishes (walker parent decls (parent ∷ visited) w)) where
      walk_opened-Finishes :
          (ns parent : Str) (r : Result Str Opened × fs.World)
          → one_of parent visited ≡ false
          → ((o : Opened) → r.0 ≡ ok o → In parent dirs)
          → Finishes (walk_opened fs walker ns parent visited r)
      unfolding Finishes
      walk_opened-Finishes ns parent (err e, w) fresh m = λ k. cc
      walk_opened-Finishes ns parent (ok backend, w) fresh m =
          walk_above-Finishes walker parent visited (λ ds v. h parent ds v (m backend refl) fresh)
            ns backend (fs.read_config parent w)

      walk_parent-Finishes :
          (own : Str) (decl : Parent) (w : fs.World)
          → Finishes (walk_parent fs walker own decl visited w)
      unfolding walk_parent Finishes
      walk_parent-Finishes own decl w =
          let w1 = (fs.is_cancelled w).1 in
          let parent = fs.parent_dira own decl.path in
          if_both Finishes (fs.is_cancelled w).0 (λ k. cc)
            (if_both Finishes (is_nil decl.path) (λ k. cc)
              (if_split Finishes (one_of parent visited) (λ e k. cc)
                (λ e.
                  walk_opened-Finishes (trim_space decl.name) parent (fs.open_store parent w1) e
                    (λ o m. finite parent o w1 m))))

      walk_decls-Finishes :
          (own : Str) (decls : List Parent) (w : fs.World)
          → Finishes (walk_decls fs walker own decls visited w)
      unfolding Finishes
      walk_decls-Finishes own [] w = λ k. cc
      walk_decls-Finishes own (decl ∷ decls) w =
          let first = walk_parent fs walker own decl visited w in
          followed-Finishes first (walk_decls fs walker own decls visited first.1)
            (walk_parent-Finishes own decl w) (walk_decls-Finishes own decls first.1)

    walk_parents-Finishes :
        (fuel : ℕ) (own : Str) (decls : List Parent) (visited : List Str) (w : fs.World)
        → unseen dirs visited < fuel
        → Finishes (walk_parents fs fuel own decls visited w)
    unfolding walk_parents
    walk_parents-Finishes zero own decls visited w h = absurd (omega arith)
    walk_parents-Finishes (suc fuel) own decls visited w h =
        walk_decls-Finishes (walk_parents fs fuel) visited
          (λ parent ds v m fresh.
            walk_parents-Finishes fuel parent ds (parent ∷ visited) v
              (ground (arith, unseen_lt dirs visited parent m fresh)))
          own decls w

    walk_from-Finishes :
        (fuel : ℕ) (dira_dir : Str) (r : Result Str Str × fs.World)
        → length dirs < fuel
        → Finishes (walk_from fs fuel dira_dir r)
    unfolding Finishes
    walk_from-Finishes fuel dira_dir (err e, w) h = λ k. cc
    walk_from-Finishes fuel dira_dir (ok data_text, w) h =
        walk_parents-Finishes fuel dira_dir (parse data_text).0.parent_decls (dira_dir ∷ []) w
          (ground (arith, unseen_bounded dirs (dira_dir ∷ [])))

    -- A walk ends by itself: where only the listed directories can be opened, a depth above their
    -- number is never used up, whatever the configurations declare.
    pub walk_finishes :
        (fuel : ℕ) (dira_dir : Str) (w : fs.World)
        → length dirs < fuel
        → (walk fs fuel dira_dir w).0 ≢ err unfinished
    unfolding walk Finishes
    walk_finishes fuel dira_dir w h =
        if_both Finishes (fs.is_cancelled w).0 (λ k. cc)
          (if_both Finishes (is_nil (trim_space dira_dir)) (λ k. cc)
            (walk_from-Finishes fuel dira_dir (fs.read_config dira_dir (fs.is_cancelled w).1) h))
