-- ===== src/Why/Deeper.antt =====
-- internal/why/why.go, `walk`: the depths that it records. A step of the walk loses nothing, and leaves the
-- refs on its path alone.
use dira.Prelude.{
  ◌++◌, ℕ, suc, ◌≤◌, ◌≡◌, ◌≢◌, refl, sym, ◌∙◌, ap, subst, inl, inr, true, false, List, [], ◌∷◌, Str,
  In, arith, one_of, str_eq, str_eq_iff, Bool-cases, some, if_both, if_split, lookup, lookup-insert,
  lookup-insert_cases,
}
use mathlib.Core.Option.{some-injective}
use dira.Ledger.Entry.{Entry, Edge, edge_type_eq, derives_from}
use dira.Why.{Node, is_oriented, Builder, record_cycle, put_node, at_least}

module _ (W : Type 0) where
  -- A ref is recorded at a depth, or deeper.
  unfoldable pub Deeper : Builder W → Str → ℕ → Type 0
  Deeper b ref k = (d : ℕ) × (lookup ref b.depth ≡ some d) × (k ≤ d)

  -- What an entry derives from is deeper than a depth.
  unfoldable pub Above : Builder W → Entry → ℕ → Type 0
  Above b e d =
      (edge : Edge)
      → In edge e.edges
      → edge_type_eq edge.type derives_from ≡ true
      → Deeper b edge.to (suc d)

  -- Where a ref is recorded with an entry, what that entry derives from is deeper than the ref.
  unfoldable pub Settled : Builder W → Str → Type 0
  Settled b ref =
      (d : ℕ) (n : Node) (e : Entry)
      → lookup ref b.depth ≡ some d
      → lookup ref b.nodes ≡ some n
      → is_oriented n.standing ≡ true
      → lookup ref b.read ≡ some e
      → Above b e d

  -- A node that is oriented has its entry in the cache.
  unfoldable pub Known : Builder W → Type 0
  Known b =
      (ref : Str) (n : Node)
      → lookup ref b.nodes ≡ some n
      → is_oriented n.standing ≡ true
      → (e : Entry) × (lookup ref b.read ≡ some e)

  pub record Step (path : List Str) (b c : Builder W) : Type 0 where
    pub deeper : (ref : Str) (k : ℕ) → Deeper b ref k → Deeper c ref k
    pub reads : (ref : Str) (e : Entry) → lookup ref b.read ≡ some e → lookup ref c.read ≡ some e
    pub uncycled : c.cycle ≡ [] → b.cycle ≡ []
    pub depth_fixed : (ref : Str) → one_of ref path ≡ true → lookup ref c.depth ≡ lookup ref b.depth
    pub node_fixed : (ref : Str) → one_of ref path ≡ true → lookup ref c.nodes ≡ lookup ref b.nodes
    pub known : Known b → Known c
    pub settles : c.cycle ≡ [] → Known b → (ref : Str) → Settled b ref → Settled c ref

  pub stay : (path : List Str) (b : Builder W) → Step path b b
  stay path b = record {
    deeper = λ r k h. h;
    reads = λ r e h. h;
    uncycled = λ h. h;
    depth_fixed = λ r h. refl;
    node_fixed = λ r h. refl;
    known = λ h. h;
    settles = λ u h r s. s;
  }

  pub steps : (path : List Str) (a b c : Builder W) → Step path a b → Step path b c → Step path a c
  steps path a b c s t = record {
    deeper = λ r k h. t.deeper r k (s.deeper r k h);
    reads = λ r e h. t.reads r e (s.reads r e h);
    uncycled = λ h. s.uncycled (t.uncycled h);
    depth_fixed = λ r h. t.depth_fixed r h ∙ s.depth_fixed r h;
    node_fixed = λ r h. t.node_fixed r h ∙ s.node_fixed r h;
    known = λ h. t.known (s.known h);
    settles = λ u h r x. t.settles u (s.known h) r (s.settles (t.uncycled u) h r x);
  }

  -- A ref whose depth and node are kept stays settled.
  pub Settled-still :
      (b c : Builder W) (ref : Str)
      → ((r : Str) (k : ℕ) → Deeper b r k → Deeper c r k)
      → ((r : Str) (e : Entry) → lookup r b.read ≡ some e → lookup r c.read ≡ some e)
      → lookup ref c.depth ≡ lookup ref b.depth
      → lookup ref c.nodes ≡ lookup ref b.nodes
      → Known b
      → Settled b ref
      → Settled c ref
  unfolding Settled Known Above
  Settled-still b c ref deeper reads same_depth same_node known h d n e hd hn is he edge m de =
      let (x, hx) = known ref n (sym same_node ∙ hn) is in
      let same_entry : x ≡ e = some-injective x e (sym (reads ref x hx) ∙ he) in
      deeper edge.to (suc d) (
        h d n x (sym same_depth ∙ hd) (sym same_node ∙ hn) is hx edge
          (subst (λ y. In edge y.edges) (sym same_entry) m) de)

  -- Reading more changes no depth.
  pub read_more :
      (path : List Str) (b c : Builder W)
      → ((r : Str) (e : Entry) → lookup r b.read ≡ some e → lookup r c.read ≡ some e)
      → c.depth ≡ b.depth
      → c.nodes ≡ b.nodes
      → c.cycle ≡ b.cycle
      → Step path b c
  unfolding Deeper Known
  read_more path b c reads ed en ec =
      let deeper : (r : Str) (k : ℕ) → Deeper b r k → Deeper c r k =
        λ r k h. (h.0, ap (lookup r) ed ∙ h.1, h.2) in
      record {
        deeper = deeper;
        reads = reads;
        uncycled = λ h. sym ec ∙ h;
        depth_fixed = λ r h. ap (lookup r) ed;
        node_fixed = λ r h. ap (lookup r) en;
        known =
            λ h r n k is. let (e, he) = h r n (sym (ap (lookup r) en) ∙ k) is in (e, reads r e he);
        settles =
            λ u h r s. Settled-still b c r deeper reads (ap (lookup r) ed) (ap (lookup r) en) h s;
      }

  append_some : (xs : List Str) (x : Str) → xs ++ x ∷ [] ≢ []
  append_some [] x h = cc
  append_some (y ∷ ys) x h = cc

  -- A cycle is never forgotten, and nothing else changes.
  pub record_cycle-Step :
      (path : List Str) (ref : Str) (b : Builder W) → Step path b (record_cycle ref b)
  unfolding Deeper Known
  record_cycle-Step path ref b = if_both (Step path b) (one_of ref b.cycle) (stay path b) (record {
    deeper = λ r k h. h;
    reads = λ r e h. h;
    uncycled = λ h. absurd (append_some b.cycle ref h);
    depth_fixed = λ r h. refl;
    node_fixed = λ r h. refl;
    known = λ h. h;
    settles = λ u h r s. absurd (append_some b.cycle ref u);
  })

  pub record_cycle-some : (ref : Str) (b : Builder W) → (record_cycle ref b).cycle ≢ []
  record_cycle-some ref b =
      if_split (λ (c : Builder W). c.cycle ≢ []) (one_of ref b.cycle) (λ m. go b.cycle m)
        (λ _. append_some b.cycle ref)
    where
      go : (xs : List Str) → one_of ref xs ≡ true → xs ≢ []
      go [] h k = cc
      go (x ∷ xs) h k = cc

  -- A node that is put down at a greater depth.
  module _ (ref : Str) (d : ℕ) (n : Node) (b : Builder W) where
    pub put_node-Deeper :
        at_least d (lookup ref b.depth) ≡ false
        → (r : Str) (k : ℕ) → Deeper b r k
        → Deeper (put_node ref d n b) r k
    unfolding Deeper
    put_node-Deeper fresh r k (known, h, l) = elim (Bool-cases (str_eq ref r)) [
      | inl e ↦
          let was : lookup ref b.depth ≡ some known =
            subst (λ x. lookup x b.depth ≡ some known) (sym ((str_eq_iff ref r).0 e)) h in
          let less : at_least d (some known) ≡ false =
            subst (λ x. at_least d x ≡ false) was fresh in
          (d, lookup-insert ref r d b.depth ∙ rw e refl, ground arith)
      | inr e ↦ (known, lookup-insert ref r d b.depth ∙ rw e h, l)
    ]

    pub put_node-other :
        (r : Str)
        → str_eq ref r ≡ false
        → (lookup r (put_node ref d n b).depth ≡ lookup r b.depth)
          × (lookup r (put_node ref d n b).nodes ≡ lookup r b.nodes)
    put_node-other r e =
        (lookup-insert ref r d b.depth ∙ rw e refl, lookup-insert ref r n b.nodes ∙ rw e refl)

    pub put_node-Known :
        (is_oriented n.standing ≡ true → (e : Entry) × (lookup ref b.read ≡ some e))
        → Known b
        → Known (put_node ref d n b)
    unfolding Known
    put_node-Known stored h r m hm is = elim (lookup-insert_cases ref r n m b.nodes hm) [
      | inl (same, it) ↦
          subst (λ x. (e : Entry) × (lookup x b.read ≡ some e)) same
            (stored (subst (λ x. is_oriented x.standing ≡ true) (sym it) is))
      | inr old ↦ h r m old is
    ]
