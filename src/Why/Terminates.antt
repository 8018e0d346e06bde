-- ===== src/Why/Terminates.antt =====
-- internal/why/why.go, `walk`: why it ends. The entries are finitely many, no path goes through one of them
-- twice, and an entry that is walked has been read.
use dira.Prelude.{
  ℕ, zero, suc, ◌+◌, ◌<◌, ◌≡◌, ◌≢◌, refl, sym, ◌∙◌, subst, inl, inr, true, false, not, List, [],
  ◌∷◌, Str, In, arith, length, one_of, Option-cases, some, if_both, if_split, Result, ok, err,
  ◌>>=◌, lookup, lookup-insert_cases, lookup_same, unseen, unseen_lt, unseen_bounded,
}
use dira.Ledger.Entry.{Entry, Edge, edge_type_eq, derives_from, realized_by, supersedes}
use dira.Ledger.Ident.{valid_id}
use dira.Ledger.Store.{StoreError}
use dira.Index.{Backlink}
use dira.Why.Build.{relate_edge, relate, relate_back, with_links, build_from, build}
use dira.Why.{
  Source, Node, Relation, no_node, is_oriented, is_not_found, WhyError, unfinished, no_entry,
  unreadable, Builder, put_node, at_least, remembered, read_entry, degraded, node, Visitor,
  walk_read, walk_node, walk_edge, walk_edges, walk, no_builder,
}

-- A result that is not one of the model's own two, and whose value has a property.
Ends : {A : Type 0} → (A → Type 0) → Result WhyError A → Type 0
Ends P (ok a) = P a
Ends P (err unfinished) = ⊥
Ends P (err no_entry) = ⊥
Ends P (err (unreadable id e)) = Unit

then-Ends :
    {A B : Type 0} (P : A → Type 0) (Q : B → Type 0) (r : Result WhyError A)
    (f : A → Result WhyError B)
    → Ends P r
    → ((a : A) → P a → Ends Q (f a))
    → Ends Q (r >>= f)
unfolding Ends
then-Ends P Q (ok a) f h k = k a h
then-Ends P Q (err unfinished) f h k = h
then-Ends P Q (err no_entry) f h k = h
then-Ends P Q (err (unreadable id e)) f h k = tt

module _ (src : Source) (ids : List Str)
    (finite : (id : Str) (w : src.World) (e : Entry) → (src.entry id w).0 ≡ ok e → In id ids) where
  -- What has been read is among the entries.
  Cached : Builder src.World → Type 0
  Cached b = (id : Str) (e : Entry) → lookup id b.read ≡ some e → In id ids

  -- What is read stands in the cache.
  record IsRead (id : Str) (r : Result StoreError Entry × Builder src.World) : Type 0 where
    cached : Cached (r.1)
    stored : (e : Entry) → r.0 ≡ ok e → lookup id (r.1.read) ≡ some e

  remembered-IsRead :
      (id : Str) (b : Builder src.World) (r : Result StoreError Entry × src.World)
      → ((e : Entry) → r.0 ≡ ok e → In id ids)
      → Cached b
      → IsRead id (remembered src id b r)
  unfolding Cached
  remembered-IsRead id b (err x, w) m h = record { cached = h; stored = λ e k. cc }
  remembered-IsRead id b (ok x, w) m h = record {
    cached = λ j e k. elim (lookup-insert_cases id j x e b.read k) [
      | inl (same, _) ↦ subst (λ i. In i ids) same (m x refl)
      | inr old ↦ h j e old
    ];
    stored = λ e k. lookup_same id x b.read ∙ cc;
  }

  read_entry-IsRead :
      (id : Str) (b : Builder src.World) → Cached b → IsRead id (read_entry src id b)
  unfolding read_entry Cached
  read_entry-IsRead id b h = elim (Option-cases (lookup id b.read)) [
    | inl e ↦
        rw (e, read_entry)
          (remembered-IsRead id b (src.entry id b.world) (λ x k. finite id b.world x k) h)
    | inr (x, e) ↦ rw (e, read_entry) (record { cached = h; stored = λ y k. e ∙ cc })
  ]

  -- A node that is oriented has its entry in the cache.
  record IsKnown (ref : Str) (r : Node × Builder src.World) : Type 0 where
    cached : Cached (r.1)
    stored : is_oriented r.0.standing ≡ true → (e : Entry) × (lookup ref (r.1.read) ≡ some e)

  degraded-Ends :
      (ref note : Str) (r : Result StoreError Entry × Builder src.World)
      → IsRead ref r
      → Ends (IsKnown ref) (degraded src ref note r)
  unfolding Ends Cached no_node
  degraded-Ends ref note (ok e, b) h = record {
    cached = h.cached;
    stored = λ _. (e, h.stored e refl);
  }
  degraded-Ends ref note (err e, b) h =
      if_both (Ends (IsKnown ref)) (is_not_found e)
        (record { cached = h.cached; stored = λ k. absurd (cc k) }) tt

  node-Ends :
      (ref note : Str) (b : Builder src.World) → Cached b → Ends (IsKnown ref) (node src ref note b)
  unfolding node Ends Cached no_node
  node-Ends ref note b h =
      if_both (Ends (IsKnown ref)) (not (valid_id ref))
        (record { cached = h; stored = λ k. absurd (cc k) })
        (degraded-Ends ref note (read_entry src ref b) (read_entry-IsRead ref b h))

  module _ (visit : Visitor src) (path : List Str)
      (h : (ref : Str) (e : Entry) (d : ℕ) (b : Builder src.World)
        → In ref ids
        → one_of ref path ≡ false
        → Cached b
        → Ends Cached (visit e d (ref ∷ path) b)) where
    walk_node-Ends :
        (ref : Str) (d : ℕ) (r : Node × Builder src.World)
        → one_of ref path ≡ false
        → IsKnown ref r
        → Ends Cached (walk_node src visit ref d path r)
    unfolding Ends Cached
    walk_node-Ends ref d (n, b) fresh k =
        if_both (Ends Cached) (at_least d (lookup ref b.depth)) k.cached (
          if_split (Ends Cached) (not (is_oriented n.standing)) (λ _. k.cached)
            (λ is.
              let (e, known) = k.stored (ground arith) in
              subst (λ o. Ends Cached (walk_read src visit ref d path (put_node ref d n b) o))
                (sym known) (h ref e d (put_node ref d n b) (k.cached ref e known) fresh k.cached)))

    walk_edge-Ends :
        (edge : Edge) (depth : ℕ) (b : Builder src.World)
        → Cached b
        → Ends Cached (walk_edge src visit edge depth path b)
    unfolding walk_edge Ends Cached
    walk_edge-Ends edge depth b k =
        if_both (Ends Cached) (not (edge_type_eq edge.type derives_from)) k (
          if_split (Ends Cached) (one_of edge.to path)
            (λ _. if_both Cached (one_of edge.to b.cycle) k k)
            (λ fresh.
              then-Ends (IsKnown edge.to) Cached (node src edge.to edge.note b)
                (walk_node src visit edge.to (depth + 1) path) (node-Ends edge.to edge.note b k)
                (λ r. walk_node-Ends edge.to (depth + 1) r fresh)))

    walk_edges-Ends :
        (edges : List Edge) (depth : ℕ) (b : Builder src.World)
        → Cached b
        → Ends Cached (walk_edges src visit edges depth path b)
    unfolding Ends Cached
    walk_edges-Ends [] depth b k = k
    walk_edges-Ends (edge ∷ edges) depth b k =
        then-Ends Cached Cached (walk_edge src visit edge depth path b)
          (λ c. walk_edges src visit edges depth path c) (walk_edge-Ends edge depth b k)
          (λ c m. walk_edges-Ends edges depth c m)

  walk-Ends :
      (fuel : ℕ) (e : Entry) (depth : ℕ) (path : List Str) (b : Builder src.World)
      → unseen ids path < fuel
      → Cached b
      → Ends Cached (walk src fuel e depth path b)
  unfolding walk
  walk-Ends zero e depth path b l k = absurd (omega (arith, l))
  walk-Ends (suc fuel) e depth path b l k =
      walk_edges-Ends (walk src fuel) path
        (λ ref x d c m fresh k.
          walk-Ends fuel x d (ref ∷ path) c (ground (arith, unseen_lt ids path ref m fresh)) k)
        e.edges depth b k

  relate_edge-Ends :
      (edge : Edge) (b : Builder src.World)
      → Cached b
      → Ends (λ r. Cached (r.2)) (relate_edge src edge b)
  unfolding relate_edge Ends Cached
  relate_edge-Ends edge b h =
      if_both (Ends (λ r. Cached (r.2))) (edge_type_eq edge.type realized_by) h (
        if_both (Ends (λ r. Cached (r.2))) (edge_type_eq edge.type derives_from) h (
          then-Ends (IsKnown edge.to) (λ r. Cached (r.2)) (node src edge.to edge.note b) _
            (node-Ends edge.to edge.note b h) (λ n k. k.cached)))

  relate-Ends :
      (edges : List Edge) (b : Builder src.World)
      → Cached b
      → Ends (λ r. Cached (r.2)) (relate src edges b)
  unfolding Ends Cached
  relate-Ends [] b h = h
  relate-Ends (edge ∷ edges) b h =
      then-Ends (λ r. Cached (r.2)) (λ r. Cached (r.2)) (relate_edge src edge b) _
        (relate_edge-Ends edge b h)
        (λ n k.
          then-Ends (λ r. Cached (r.2)) (λ r. Cached (r.2)) (relate src edges n.2) _
            (relate-Ends edges n.2 k) (λ r m. m))

  relate_back-Ends :
      (links : List Backlink) (b : Builder src.World)
      → Cached b
      → Ends (λ r. Cached (r.2)) (relate_back src links b)
  unfolding relate_back Ends Cached
  relate_back-Ends [] b h = h
  relate_back-Ends (link ∷ links) b h =
      then-Ends (IsKnown link.from) (λ r. Cached (r.2)) (node src link.from link.note b) _
        (node-Ends link.from link.note b h)
        (λ n k.
          then-Ends (λ r. Cached (r.2)) (λ r. Cached (r.2)) (relate_back src links n.1) _
            (relate_back-Ends links n.1 k.cached)
            (λ r m.
              if_both (λ (x : List Node × List Relation × Builder src.World). Cached (x.2))
                (edge_type_eq link.type supersedes) m m))

  with_links-Ends :
      (id : Str) (r : Result StoreError (List Backlink) × src.World) (b : Builder src.World)
      → Cached b
      → Ends (λ l. Cached (l.1)) (with_links src id r b)
  unfolding Ends Cached
  with_links-Ends id (ok links, w) b h = h
  with_links-Ends id (err e, w) b h = tt

  build_from-Ends :
      (fuel : ℕ) (query id : Str) (r : Result StoreError Entry × Builder src.World)
      → length ids < fuel
      → IsRead id r
      → Ends (λ _. Unit) (build_from src fuel query id r)
  unfolding Ends Cached
  build_from-Ends fuel query id (err e, b) l h = tt
  build_from-Ends fuel query id (ok subject, b) l h =
      then-Ends (λ r. Cached (r.2)) (λ _. Unit) (relate src subject.edges b) _
        (relate-Ends subject.edges b h.cached)
        (λ out k.
          then-Ends (λ r. Cached (r.1)) (λ _. Unit)
            (with_links src id (src.links_in id out.2.world) out.2) _
            (with_links-Ends id (src.links_in id out.2.world) out.2 k)
            (λ links k.
              then-Ends (λ r. Cached (r.2)) (λ _. Unit) (relate_back src links.0 links.1) _
                (relate_back-Ends links.0 links.1 k)
                (λ back k.
                  then-Ends Cached (λ _. Unit) (walk src fuel subject 0 (subject.id ∷ []) back.2) _
                    (walk-Ends fuel subject 0 (subject.id ∷ []) back.2
                      (ground (arith, unseen_bounded ids (subject.id ∷ []))) k)
                    (λ c k. tt))))

  -- Asking for the reasons behind an entry ends by itself, and never follows an entry that has not been
  -- read: where only the listed entries can be read, a depth above their number is never used up,
  -- whatever the edges are.
  pub build_finishes :
      (fuel : ℕ) (query id : Str) (w : src.World)
      → length ids < fuel
      → (build src fuel query id w ≢ err unfinished) × (build src fuel query id w ≢ err no_entry)
  unfolding build Ends Cached lookup
  build_finishes fuel query id w l =
      let ends =
        build_from-Ends fuel query id (read_entry src id (no_builder w)) l
          (read_entry-IsRead id (no_builder w) (λ i x k. absurd (cc k))) in
      (λ k. subst (Ends (λ _. Unit)) k ends, λ k. subst (Ends (λ _. Unit)) k ends)
