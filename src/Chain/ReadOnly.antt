-- ===== src/Chain/ReadOnly.antt =====
-- internal/chain/chain.go: no ancestor can be written to.
use dira.Prelude.{
  ℕ, zero, suc, ◌≡◌, refl, sym, subst, ◌∙◌, List, [], ◌∷◌, Str, All, All-append, map, Option, none,
  some, if_both, Result, ok, err, is_nil, one_of, trim_space,
}
use dira.Ledger.Store.{WriteOp, write_all, read_only_store, read_only-writes}
use dira.Config.{Parent, parse}
use dira.Chain.{
  Files, Opened, Ancestor, WalkError, Walker, Walked, walk_above, walk_opened, walk_parent,
  walk_decls, walk_parents, walk_from, walk, prepend, followed, reached,
}

-- Every write to the ancestor's store, if it has one, is refused and changes nothing.
pub record Refuses (a : Ancestor) : Type 1 where
  pub refuses :
      (o : Opened) (ops : List WriteOp)
      → a.store ≡ some o
      → write_all o.store ops o.world ≡ (map (λ _. err read_only_store) ops, o.world)

RefusesAt : Option Opened → Type 0
RefusesAt none = Unit
RefusesAt (some o) =
    (ops : List WriteOp)
    → write_all o.store ops o.world ≡ (map (λ _. err read_only_store) ops, o.world)

no_store-Refuses : (a : Ancestor) → a.store ≡ none → Refuses a
no_store-Refuses a h = record { refuses = λ o ops e. absurd (cc (sym h ∙ e)) }

reached-Refuses : (ns tier : Str) (backend : Opened) → Refuses (reached ns tier backend)
unfolding RefusesAt
reached-Refuses ns tier backend = record {
  refuses = λ o ops e.
      subst RefusesAt e (λ ops. read_only-writes (some backend.store) ops backend.world) ops;
}

AllRefuse : Result WalkError (List Ancestor) → Type 1
AllRefuse (ok out) = All Refuses out
AllRefuse (err e) = Unit

prepend-AllRefuse :
    (fs : Files) (out : List Ancestor) (r : Result WalkError (List Ancestor))
    → All Refuses out
    → AllRefuse r
    → AllRefuse (prepend fs out r)
unfolding AllRefuse
prepend-AllRefuse fs out (ok grand) h k = All-append Refuses out grand h k
prepend-AllRefuse fs out (err e) h k = tt

module _ (fs : Files) where
  Safe : Walked fs → Type 1
  Safe r = AllRefuse (r.0)

  followed-Safe : (first rest : Walked fs) → Safe first → Safe rest → Safe (followed fs first rest)
  unfolding Safe AllRefuse
  followed-Safe (err e, w) rest h k = tt
  followed-Safe (ok out, w) (rest, w1) h k = prepend-AllRefuse fs out rest h k

  module _ (walker : Walker fs)
      (h : (own : Str) (decls : List Parent) (visited : List Str) (w : fs.World)
        → Safe (walker own decls visited w)) where
    walk_above-Safe :
        (ns parent : Str) (visited : List Str) (backend : Opened) (r : Result Str Str × fs.World)
        → Safe (walk_above fs walker ns parent visited backend r)
    unfolding Safe AllRefuse
    walk_above-Safe ns parent visited backend (err e, w) = (no_store-Refuses _ refl, tt)
    walk_above-Safe ns parent visited backend (ok data_text, w) =
        let cfg = (parse data_text).0 in
        prepend-AllRefuse fs (reached ns cfg.tier backend ∷ []) _
          (reached-Refuses ns cfg.tier backend, tt) (h parent cfg.parent_decls (parent ∷ visited) w)

    walk_opened-Safe :
        (ns parent : Str) (visited : List Str) (r : Result Str Opened × fs.World)
        → Safe (walk_opened fs walker ns parent visited r)
    unfolding Safe AllRefuse
    walk_opened-Safe ns parent visited (err e, w) = (no_store-Refuses _ refl, tt)
    walk_opened-Safe ns parent visited (ok backend, w) =
        walk_above-Safe ns parent visited backend (fs.read_config parent w)

    walk_parent-Safe :
        (own : Str) (decl : Parent) (visited : List Str) (w : fs.World)
        → Safe (walk_parent fs walker own decl visited w)
    unfolding walk_parent Safe AllRefuse
    walk_parent-Safe own decl visited w =
        let w1 = (fs.is_cancelled w).1 in
        let parent = fs.parent_dira own decl.path in
        if_both Safe (fs.is_cancelled w).0 tt (
          if_both Safe (is_nil decl.path) (no_store-Refuses _ refl, tt)
            (if_both Safe (one_of parent visited) tt
              (walk_opened-Safe (trim_space decl.name) parent visited (fs.open_store parent w1))))

    walk_decls-Safe :
        (own : Str) (decls : List Parent) (visited : List Str) (w : fs.World)
        → Safe (walk_decls fs walker own decls visited w)
    unfolding Safe AllRefuse
    walk_decls-Safe own [] visited w = tt
    walk_decls-Safe own (decl ∷ decls) visited w =
        let first = walk_parent fs walker own decl visited w in
        followed-Safe first (walk_decls fs walker own decls visited first.1)
          (walk_parent-Safe own decl visited w) (walk_decls-Safe own decls visited first.1)

  walk_parents-Safe :
      (fuel : ℕ) (own : Str) (decls : List Parent) (visited : List Str) (w : fs.World)
      → Safe (walk_parents fs fuel own decls visited w)
  unfolding walk_parents Safe AllRefuse
  walk_parents-Safe zero own decls visited w = tt
  walk_parents-Safe (suc fuel) own decls visited w =
      walk_decls-Safe (walk_parents fs fuel) (walk_parents-Safe fuel) own decls visited w

  walk_from-Safe :
      (fuel : ℕ) (dira_dir : Str) (r : Result Str Str × fs.World)
      → Safe (walk_from fs fuel dira_dir r)
  unfolding Safe AllRefuse
  walk_from-Safe fuel dira_dir (err e, w) = tt
  walk_from-Safe fuel dira_dir (ok data_text, w) =
      walk_parents-Safe fuel dira_dir (parse data_text).0.parent_decls (dira_dir ∷ []) w

  walk-Safe : (fuel : ℕ) (dira_dir : Str) (w : fs.World) → Safe (walk fs fuel dira_dir w)
  unfolding walk Safe AllRefuse
  walk-Safe fuel dira_dir w = if_both Safe (fs.is_cancelled w).0 tt (
      if_both Safe (is_nil (trim_space dira_dir)) tt
        (walk_from-Safe fuel dira_dir (fs.read_config dira_dir (fs.is_cancelled w).1)))

  -- Whatever is asked of the store of an ancestor that a walk has found, at any depth, every write is
  -- refused and nothing has changed.
  pub walk-Refuses :
      (fuel : ℕ) (dira_dir : Str) (w : fs.World) (out : List Ancestor)
      → (walk fs fuel dira_dir w).0 ≡ ok out
      → All Refuses out
  unfolding Safe AllRefuse
  walk-Refuses fuel dira_dir w out h = subst AllRefuse h (walk-Safe fuel dira_dir w)
