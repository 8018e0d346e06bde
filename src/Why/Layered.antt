-- ===== src/Why/Layered.antt =====
-- internal/why/why.go, `walk`: what an entry derives from stands in an earlier generation.
use dira.Prelude.{
  ℕ, zero, suc, ◌+◌, ◌≡◌, refl, sym, ◌∙◌, subst, inl, inr, true, false, not, List, [], ◌∷◌, Str, In,
  arith, one_of, str_eq, str_eq_iff, Bool-cases, Option-cases, some, if_split, ok, Dict, lookup,
  insert, lookup-insert, lookup_same,
}
use mathlib.Core.Option.{some-injective}
use dira.Ledger.Entry.{Entry, Edge, edge_type_eq, derives_from}
use dira.Why.{
  Source, Node, is_oriented, Builder, put_node, at_least, node, Visitor, walk_read, walk_node,
  walk_edge, walk_edges, walk,
}
use dira.Why.Deeper.{
  Deeper, Above, Settled, Known, Step, stay, steps, Settled-still, record_cycle-Step,
  record_cycle-some, put_node-Deeper, put_node-other, put_node-Known,
}
use dira.Why.Found.{Then, bind-Then, Then-map, Finds, node-Finds}

-- What a visit of an entry at a depth leaves.
record Visited (W : Type 0) (path : List Str) (b : Builder W) (e : Entry) (d : ℕ) (c : Builder W)
    : Type 0 where
  step : Step W path b c
  above : c.cycle ≡ [] → Above W c e d

module _ (src : Source) (visit : Visitor src)
    (h : (path : List Str) (e : Entry) (d : ℕ) (b : Builder src.World)
      → Then (Visited src.World path b e d) (visit e d path b)) where
  -- What one edge leaves: unless there is a cycle, its end is deeper.
  record Reached (path : List Str) (b : Builder src.World) (ref : Str) (d : ℕ)
      (c : Builder src.World) : Type 0 where
    step : Step src.World path b c
    deep : c.cycle ≡ [] → Deeper src.World c ref d

  module _ (path : List Str) (ref : Str) (d : ℕ) (n : Node) (b : Builder src.World)
      (off : one_of ref path ≡ false) (fresh : at_least d (lookup ref b.depth) ≡ false) where
    off_path : (r : Str) → one_of r path ≡ true → str_eq ref r ≡ false
    off_path r m = elim (Bool-cases (str_eq ref r)) [
      | inl e ↦
          absurd (cc (sym off ∙ subst (λ x. one_of x path ≡ true) (sym ((str_eq_iff ref r).0 e)) m))
      | inr e ↦ e
    ]

    put : Builder src.World
    put = put_node ref d n b

    put_is :
        {V : Type 0} (r : Str) (v : V) (m : Dict V)
        → str_eq ref r ≡ true
        → lookup r (insert ref v m) ≡ some v
    put_is r v m e = lookup-insert ref r v m ∙ rw e refl

    others-Settled :
        (r : Str)
        → str_eq ref r ≡ false
        → Known src.World b
        → Settled src.World b r
        → Settled src.World put r
    unfolding put
    others-Settled r e kn s =
        let (same_depth, same_node) = put_node-other src.World ref d n b r e in
        Settled-still src.World b (put_node ref d n b) r (put_node-Deeper src.World ref d n b fresh)
          (λ r e k. k) same_depth same_node kn s

    unresolved-Settled :
        (r : Str) → str_eq ref r ≡ true → is_oriented n.standing ≡ false → Settled src.World put r
    unfolding put Settled
    unresolved-Settled r e un k m x hk hm is hx =
        let same : n ≡ m = some-injective n m (sym (put_is r n b.nodes e) ∙ hm) in
        absurd (cc (sym un ∙ subst (λ y. is_oriented y.standing ≡ true) (sym same) is))

    Visited-Settled :
        (e : Entry) (c : Builder src.World)
        → lookup ref b.read ≡ some e
        → Visited src.World (ref ∷ path) put e d c
        → c.cycle ≡ []
        → (r : Str) → str_eq ref r ≡ true
        → Settled src.World c r
    unfolding put Settled
    Visited-Settled e c he v u r same k m x hk hm is hx =
        let is_ref : ref ≡ r = (str_eq_iff ref r).0 same in
        let on_path : one_of r (ref ∷ path) ≡ true = ground (arith, str_eq_iff r ref, is_ref) in
        let same_depth : d ≡ k =
          some-injective d k
            (sym (put_is r d b.depth same) ∙ sym (v.step.depth_fixed r on_path) ∙ hk) in
        let same_entry : e ≡ x =
          some-injective e x
            (sym (v.step.reads r e (subst (λ y. lookup y b.read ≡ some e) is_ref he)) ∙ hx) in
        subst (λ y. Above src.World c y k) same_entry
          (subst (λ y. Above src.World c e y) same_depth (v.above u))

    -- An unresolved node is put down.
    put_unresolved : is_oriented n.standing ≡ false → Step src.World path b put
    unfolding put
    put_unresolved un = record {
      deeper = put_node-Deeper src.World ref d n b fresh;
      reads = λ r e k. k;
      uncycled = λ k. k;
      depth_fixed = λ r m. (put_node-other src.World ref d n b r (off_path r m)).0;
      node_fixed = λ r m. (put_node-other src.World ref d n b r (off_path r m)).1;
      known = put_node-Known src.World ref d n b (λ is. absurd (cc (sym un ∙ is)));
      settles = λ u kn r s. elim (Bool-cases (str_eq ref r)) [
        | inl e ↦ unresolved-Settled r e un
        | inr e ↦ others-Settled r e kn s
      ];
    }

    put-Visited :
        (e : Entry) (c : Builder src.World)
        → lookup ref b.read ≡ some e
        → Visited src.World (ref ∷ path) put e d c
        → Reached path b ref d c
    unfolding put Deeper
    put-Visited e c he v = record {
      step = record {
        deeper = λ r k x. v.step.deeper r k (put_node-Deeper src.World ref d n b fresh r k x);
        reads = λ r x k. v.step.reads r x k;
        uncycled = λ k. v.step.uncycled k;
        depth_fixed = λ r m.
            v.step.depth_fixed r (ground (arith, m))
            ∙ (put_node-other src.World ref d n b r (off_path r m)).0;
        node_fixed = λ r m.
            v.step.node_fixed r (ground (arith, m))
            ∙ (put_node-other src.World ref d n b r (off_path r m)).1;
        known = λ k. v.step.known (put_node-Known src.World ref d n b (λ is. (e, he)) k);
        settles = λ u kn r s. elim (Bool-cases (str_eq ref r)) [
          | inl same ↦ Visited-Settled e c he v u r same
          | inr other ↦
              v.step.settles u (put_node-Known src.World ref d n b (λ is. (e, he)) kn) r
                (others-Settled r other kn s)
        ];
      };
      deep = λ u. v.step.deeper ref d (d, lookup_same ref d b.depth, omega arith);
    }

  at_least-Deeper :
      (ref : Str) (d : ℕ) (b : Builder src.World)
      → at_least d (lookup ref b.depth) ≡ true
      → Deeper src.World b ref d
  unfolding Deeper
  at_least-Deeper ref d b h = elim (Option-cases (lookup ref b.depth)) [
    | inl e ↦ absurd (cc (rw e at h))
    | inr (k, e) ↦
        let known : at_least d (some k) ≡ true = subst (λ x. at_least d x ≡ true) e h in
        (k, e, ground arith)
  ]

  walk_node-Reached :
      (path : List Str) (ref : Str) (d : ℕ) (a : Builder src.World) (r : Node × Builder src.World)
      → one_of ref path ≡ false
      → Finds src path a ref r
      → Then (Reached path a ref d) (walk_node src visit ref d path r)
  unfolding Then Deeper put
  walk_node-Reached path ref d a (n, b) off f =
      if_split (Then (Reached path a ref d)) (at_least d (lookup ref b.depth))
        (λ known. record { step = f.step; deep = λ _. at_least-Deeper ref d b known })
        (λ fresh.
          if_split (Then (Reached path a ref d)) (not (is_oriented n.standing))
            (λ un. record {
              step =
                  steps src.World path a b (put_node ref d n b) f.step
                    (put_unresolved path ref d n b off fresh (ground arith));
              deep = λ _. (d, lookup_same ref d b.depth, omega arith);
            })
            (λ is.
              let (e, he) = f.stored (ground arith) in
              subst
                (λ x.
                  Then (Reached path a ref d)
                    (walk_read src visit ref d path (put_node ref d n b) x))
                (sym he)
                (Then-map (Visited src.World (ref ∷ path) (put_node ref d n b) e d)
                  (Reached path a ref d) (visit e d (ref ∷ path) (put_node ref d n b))
                  (h (ref ∷ path) e d (put_node ref d n b))
                  (λ c v. after (put-Visited path ref d n b off fresh e c he v)))))
    where
      after : {c : Builder src.World} → Reached path b ref d c → Reached path a ref d c
      after {c} x = record { step = steps src.World path a b c f.step x.step; deep = x.deep }

  -- What the edges of a list leave.
  record Passed (path : List Str) (b : Builder src.World) (edges : List Edge) (d : ℕ)
      (c : Builder src.World) : Type 0 where
    step : Step src.World path b c
    deep :
        c.cycle ≡ []
        → (edge : Edge) → In edge edges
        → edge_type_eq edge.type derives_from ≡ true
        → Deeper src.World c edge.to (suc d)

  walk_edge-Passed :
      (path : List Str) (edge : Edge) (d : ℕ) (b : Builder src.World)
      → Then (Passed path b (edge ∷ []) d) (walk_edge src visit edge d path b)
  unfolding walk_edge Then
  walk_edge-Passed path edge d b =
      if_split (Then (Passed path b (edge ∷ []) d)) (not (edge_type_eq edge.type derives_from))
        (λ other. record {
          step = stay src.World path b;
          deep = λ u e m is. absurd (
              cc (
                sym (not_derived other)
                ∙ subst (λ y. edge_type_eq y.type derives_from ≡ true) (is_only e m) is));
        })
        (λ is.
          if_split (Then (Passed path b (edge ∷ []) d)) (one_of edge.to path)
            (λ on. record {
              step = record_cycle-Step src.World path edge.to b;
              deep = λ u e m is. absurd (record_cycle-some src.World edge.to b u);
            })
            (λ off.
              bind-Then (Finds src path b edge.to) (Passed path b (edge ∷ []) d)
                (node src edge.to edge.note b) _ (node-Finds src path b edge.to edge.note)
                (λ r f.
                  Then-map (Reached path b edge.to (d + 1)) (Passed path b (edge ∷ []) d)
                    (walk_node src visit edge.to (d + 1) path r)
                    (walk_node-Reached path edge.to (d + 1) b r off f)
                    (λ c x. record {
                      step = x.step;
                      deep = λ u e m is.
                          subst (λ y. Deeper src.World c y.to (suc d)) (sym (is_only e m))
                            (subst (Deeper src.World c edge.to) next (x.deep u));
                    }))))
    where
      next : d + 1 ≡ suc d
      next = omega arith

      is_only : (e : Edge) → In e (edge ∷ []) → e ≡ edge
      is_only e (inl same) = same
      is_only e (inr m) = absurd m

      not_derived :
          not (edge_type_eq edge.type derives_from) ≡ true
          → edge_type_eq edge.type derives_from ≡ false
      not_derived k = ground arith

  walk_edges-Passed :
      (path : List Str) (edges : List Edge) (d : ℕ) (b : Builder src.World)
      → Then (Passed path b edges d) (walk_edges src visit edges d path b)
  unfolding Then
  walk_edges-Passed path [] d b = record {
    step = stay src.World path b;
    deep = λ u edge m. absurd m;
  }
  walk_edges-Passed path (edge ∷ edges) d b =
      bind-Then (Passed path b (edge ∷ []) d) (Passed path b (edge ∷ edges) d)
        (walk_edge src visit edge d path b) _ (walk_edge-Passed path edge d b)
        (λ a x.
          Then-map (Passed path a edges d) (Passed path b (edge ∷ edges) d)
            (walk_edges src visit edges d path a) (walk_edges-Passed path edges d a)
            (λ c y. record {
              step = steps src.World path b a c x.step y.step;
              deep = λ u e m is. elim m [
                | inl same ↦ y.step.deeper e.to (suc d) (x.deep (y.step.uncycled u) e (inl same) is)
                | inr rest ↦ y.deep u e rest is
              ];
            }))

walk-Visited :
    (src : Source) (fuel : ℕ) (path : List Str) (e : Entry) (d : ℕ) (b : Builder src.World)
    → Then (Visited src.World path b e d) (walk src fuel e d path b)
unfolding walk Then Above
walk-Visited src zero path e d b = tt
walk-Visited src (suc fuel) path e d b =
    Then-map (Passed src (walk src fuel) (walk-Visited src fuel) path b e.edges d)
      (Visited src.World path b e d) (walk_edges src (walk src fuel) e.edges d path b)
      (walk_edges-Passed src (walk src fuel) (walk-Visited src fuel) path e.edges d b)
      (λ c x. record { step = x.step; above = x.deep })

-- Nothing that an entry derives from stands in its generation or in a later one.
pub record IsLayered (W : Type 0) (subject : Entry) (c : Builder W) : Type 0 where
  pub from_subject : Above W c subject 0
  pub from_each : (ref : Str) → Settled W c ref

-- Unless a cycle was found, the depths that a walk records are in layers: what the subject derives from
-- is recorded at depth 1 or deeper, and what any entry that was walked derives from is recorded
-- deeper than that entry. The walk begins with nothing recorded.
pub walk-IsLayered :
    (src : Source) (fuel : ℕ) (subject : Entry) (b c : Builder src.World)
    → b.depth ≡ []
    → b.nodes ≡ []
    → walk src fuel subject 0 (subject.id ∷ []) b ≡ ok c
    → c.cycle ≡ []
    → IsLayered src.World subject c
unfolding Then Settled Known lookup
walk-IsLayered src fuel subject b c ed en ran uncycled =
    let v : Visited src.World (subject.id ∷ []) b subject 0 c =
      subst (Then (Visited src.World (subject.id ∷ []) b subject 0)) ran
        (walk-Visited src fuel (subject.id ∷ []) subject 0 b) in
    record {
      from_subject = v.above uncycled;
      from_each = λ ref.
          v.step.settles uncycled (λ r n k is. absurd (cc (subst (λ m. lookup r m ≡ some n) en k)))
            ref (λ d n e k l is he. absurd (cc (subst (λ m. lookup ref m ≡ some d) ed k)));
    }
