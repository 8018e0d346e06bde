-- ===== src/Why/Found.antt =====
-- internal/why/why.go, `entry` and `node`: what is read stays in the cache, and no depth changes by it.
use dira.Prelude.{
  ◌≡◌, refl, sym, ◌∙◌, subst, inl, inr, true, not, List, Str, str_eq, str_eq_iff, Bool-cases,
  Option-cases, none, some, if_both, Result, ok, err, ◌>>=◌, lookup, insert, lookup-insert,
  lookup_same,
}
use dira.Ledger.Entry.{Entry}
use dira.Ledger.Ident.{valid_id}
use dira.Ledger.Store.{StoreError}
use dira.Why.{
  Source, Node, no_node, is_oriented, is_not_found, Builder, remembered, read_entry, degraded, node,
}
use dira.Why.Deeper.{Step, stay, read_more}

-- What holds of a value, if there is one.
unfoldable pub Then : {E A : Type 0} → (A → Type 0) → Result E A → Type 0
Then P (ok a) = P a
Then P (err e) = Unit

pub bind-Then :
    {E A B : Type 0} (P : A → Type 0) (Q : B → Type 0) (r : Result E A) (f : A → Result E B)
    → Then P r
    → ((a : A) → P a → Then Q (f a))
    → Then Q (r >>= f)
unfolding Then
bind-Then P Q (ok a) f h k = k a h
bind-Then P Q (err e) f h k = tt

pub Then-map :
    {E A : Type 0} (P Q : A → Type 0) (r : Result E A) → Then P r → ((a : A) → P a → Q a) → Then Q r
unfolding Then
Then-map P Q (ok a) h k = k a h
Then-map P Q (err e) h k = tt

module _ (src : Source) (path : List Str) (b : Builder src.World) where
  W : Type 0
  W = src.World

  -- An entry that is read stands in the cache.
  pub record IsStored (id : Str) (r : Result StoreError Entry × Builder src.World) : Type 0 where
    pub step : Step src.World path b (r.1)
    pub stored : (e : Entry) → r.0 ≡ ok e → lookup id (r.1.read) ≡ some e

  insert_fresh :
      (id : Str) (x : Entry)
      → lookup id b.read ≡ none
      → (r : Str) (e : Entry) → lookup r b.read ≡ some e
      → lookup r (insert id x b.read) ≡ some e
  insert_fresh id x new r e h = elim (Bool-cases (str_eq id r)) [
    | inl same ↦
        absurd
          (cc (sym new ∙ subst (λ y. lookup y b.read ≡ some e) (sym ((str_eq_iff id r).0 same)) h))
    | inr other ↦ lookup-insert id r x b.read ∙ rw other h
  ]

  remembered-IsStored :
      (id : Str) (r : Result StoreError Entry × src.World)
      → lookup id b.read ≡ none
      → IsStored id (remembered src id b r)
  remembered-IsStored id (err x, w) new = record {
    step = read_more src.World path b _ (λ r e h. h) refl refl refl;
    stored = λ e k. cc;
  }
  remembered-IsStored id (ok x, w) new = record {
    step =
        read_more src.World path b (record b { world = w; read = insert id x b.read })
          (insert_fresh id x new) refl refl refl;
    stored = λ e k. lookup_same id x b.read ∙ cc;
  }

  read_entry-IsStored : (id : Str) → IsStored id (read_entry src id b)
  unfolding read_entry
  read_entry-IsStored id = elim (Option-cases (lookup id b.read)) [
    | inl e ↦ rw (e, read_entry) (remembered-IsStored id (src.entry id b.world) e)
    | inr (x, e) ↦
        rw (e, read_entry) (record { step = stay src.World path b; stored = λ y k. e ∙ cc })
  ]

  -- A node that is oriented has its entry in the cache.
  pub record Finds (ref : Str) (r : Node × Builder src.World) : Type 0 where
    pub step : Step src.World path b (r.1)
    pub stored : is_oriented r.0.standing ≡ true → (e : Entry) × (lookup ref (r.1.read) ≡ some e)

  degraded-Finds :
      (ref note : Str) (r : Result StoreError Entry × Builder src.World)
      → IsStored ref r
      → Then (Finds ref) (degraded src ref note r)
  unfolding Then no_node
  degraded-Finds ref note (ok e, c) h = record { step = h.step; stored = λ _. (e, h.stored e refl) }
  degraded-Finds ref note (err e, c) h =
      if_both (Then (Finds ref)) (is_not_found e)
        (record { step = h.step; stored = λ k. absurd (cc k) }) tt

  pub node-Finds : (ref note : Str) → Then (Finds ref) (node src ref note b)
  unfolding node Then no_node
  node-Finds ref note =
      if_both (Then (Finds ref)) (not (valid_id ref))
        (record { step = stay src.World path b; stored = λ k. absurd (cc k) })
        (degraded-Finds ref note (read_entry src ref b) (read_entry-IsStored ref))
