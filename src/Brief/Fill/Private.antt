-- ===== src/Brief/Fill/Private.antt =====
-- internal/brief/render.go: what the ancestors in a brief show of private entries.
use dira.Prelude.{
  ℕ, arith, codes, ◌≡◌, refl, ap, ◌∙◌, Bool, true, false, Bool-cases, Option-cases, inl, inr, List,
  [], ◌∷◌, ◌++◌, map, Str, none, some, Result, ok, err, length,
}
use dira.Ledger.Entry.{Entry}
use dira.Chain.{Ancestor, WalkError}
use dira.Brief.{Times, Options}
use dira.Render.{entry_row}
use dira.Brief.Paint.{painter, item_indent, cap_warning, chain_item, status, title}
use dira.Brief.Paint.Private.{hidden, title_hidden, status_hidden, ChainSource}
use dira.Brief.Fill.{
  Fill, add, one_more_kept, with_section, active_intents, add_chain_entries, chain_heading,
  chain_label, add_ancestors, chain_walked, fill_chain,
}
use dira.Brief.Fill.Hiding.{
  hiding_ancestor, hiding_walked, hiding_source, hidden_kept, veiled, veiled_options,
  active_intents-hidden, hiding_opened,
}

module _ (t : Times) (W : Type 0) (entry : Str → W → Result Str Entry × W)
    (is_cancelled : W → Bool × W) (o : Options t W) where
  length-hidden : (es : List Entry) → length (map hidden es) ≡ length es
  length-hidden [] = refl
  length-hidden (e ∷ es) = omega (arith, length-hidden es)

  chain_item-hidden :
      (ns : Str) (e : Entry)
      → chain_item t W
          (veiled t W entry is_cancelled o)
          (veiled_options t W entry is_cancelled o)
          ns
          (hidden e)
        ≡ chain_item t W entry o ns e
  unfolding chain_item veiled veiled_options
  chain_item-hidden ns e =
      let painted : Str → Str → Str → Str = λ id shown right.
        (entry_row item_indent item_indent (ns ++ codes ":" ++ id) shown right
          (painter t W entry o)).text in
      ap
        (λ id.
          painted id (title (hidden e)) (status t W (veiled t W entry is_cancelled o) (hidden e)))
        ((hidden_kept e).0)
      ∙ ap (λ shown. painted e.id shown (status t W (veiled t W entry is_cancelled o) (hidden e)))
          (title_hidden t W entry e)
      ∙ ap (λ right. painted e.id (title e) right) (status_hidden t W entry e)

  add_chain_entries-hidden :
      (i : ℕ) (ns pending : Str) (es : List Entry) (m : Fill)
      → add_chain_entries t W
          (veiled t W entry is_cancelled o)
          is_cancelled
          (veiled_options t W entry is_cancelled o)
          i
          ns
          pending
          (map hidden es)
          m
        ≡ add_chain_entries t W entry is_cancelled o i ns pending es m
  unfolding add_chain_entries veiled_options
  add_chain_entries-hidden i ns pending [] m = refl
  add_chain_entries-hidden i ns pending (e ∷ es) m =
      rw (chain_item-hidden ns e, add_chain_entries)
        (elim (Option-cases
          (add o.max_tokens (pending ++ chain_item t W entry o ns e) (some i) m)) [
            | inl full ↦ rw (full, add_chain_entries) refl
            | inr (n, fits) ↦
                rw (fits, add_chain_entries)
                  (add_chain_entries-hidden i ns [] es (one_more_kept i n))
          ])

  -- One ancestor's part.
  added :
      Options t W
      → (Str → W → Result Str Entry × W)
      → Ancestor
      → Fill
      → List Entry
      → ℕ
      → Bool × Fill
  added p reading a m es n =
      add_chain_entries t W reading is_cancelled p (length m.sections) a.namespace
        (chain_heading t W reading is_cancelled p a n) es (with_section a.namespace n m)

  added-hidden :
      (a : Ancestor) (m : Fill)
      → let es =
          active_intents t W
            (veiled t W entry is_cancelled o)
            is_cancelled
            (veiled_options t W entry is_cancelled o)
            (hiding_opened a.store) in
        let shown = active_intents t W entry is_cancelled o a.store in
        added
          (veiled_options t W entry is_cancelled o)
          (veiled t W entry is_cancelled o)
          (hiding_ancestor a)
          m
          es
          (length es)
        ≡ added o entry a m shown (length shown)
  unfolding added chain_label cap_warning
  added-hidden a m =
      let shown = active_intents t W entry is_cancelled o a.store in
      ap
        (λ es.
          added (veiled_options t W entry is_cancelled o) (veiled t W entry is_cancelled o)
            (hiding_ancestor a) m es (length es))
        (active_intents-hidden t W entry is_cancelled o a.store)
      ∙ ap
          (added (veiled_options t W entry is_cancelled o) (veiled t W entry is_cancelled o)
            (hiding_ancestor a) m (map hidden shown))
          (length-hidden shown)
      ∙ add_chain_entries-hidden (length m.sections) a.namespace
          (chain_heading t W entry is_cancelled o a (length shown)) shown
          (with_section a.namespace (length shown) m)

  add_ancestors-hidden :
      (ancestors : List Ancestor) (m : Fill) (w : W)
      → add_ancestors t W
          (veiled t W entry is_cancelled o)
          is_cancelled
          (veiled_options t W entry is_cancelled o)
          (map hiding_ancestor ancestors)
          m
          w
        ≡ add_ancestors t W entry is_cancelled o ancestors m w
  unfolding add_ancestors added
  add_ancestors-hidden [] m w = refl
  add_ancestors-hidden (a ∷ ancestors) m w = elim (Bool-cases (is_cancelled w).0) [
    | inl stop ↦ rw (stop, add_ancestors) refl
    | inr more ↦
        rw (more, add_ancestors)
          (onward (added-hidden a m) (λ n. add_ancestors-hidden ancestors n (is_cancelled w).1))
  ]
    where
      onward :
          {r q : Bool × Fill}
          → r ≡ q
          → ((n : Fill)
              → add_ancestors t W
                  (veiled t W entry is_cancelled o)
                  is_cancelled
                  (veiled_options t W entry is_cancelled o)
                  (map hiding_ancestor ancestors)
                  n
                  (is_cancelled w).1
                ≡ add_ancestors t W entry is_cancelled o ancestors n (is_cancelled w).1)
          → ◌≡◌ {A = Fill × W}
              (elim r.0 [
                | false ↦ (r.1, (is_cancelled w).1)
                | true ↦
                    add_ancestors t W
                      (veiled t W entry is_cancelled o)
                      is_cancelled
                      (veiled_options t W entry is_cancelled o)
                      (map hiding_ancestor ancestors)
                      r.1
                      (is_cancelled w).1
              ])
              (elim q.0 [
                | false ↦ (q.1, (is_cancelled w).1)
                | true ↦ add_ancestors t W entry is_cancelled o ancestors q.1 (is_cancelled w).1
              ])
      onward {r} {q = (false, n)} same rest =
          (ap
            (λ (x : Bool × Fill). elim x.0 as (λ _. Fill × W) [
              | false ↦ (x.1, (is_cancelled w).1)
              | true ↦
                  add_ancestors t W (veiled t W entry is_cancelled o) is_cancelled
                    (veiled_options t W entry is_cancelled o) (map hiding_ancestor ancestors) x.1
                    (is_cancelled w).1
            ])
            same)
      onward {r} {q = (true, n)} same rest =
          (ap
            (λ (x : Bool × Fill). elim x.0 as (λ _. Fill × W) [
              | false ↦ (x.1, (is_cancelled w).1)
              | true ↦
                  add_ancestors t W (veiled t W entry is_cancelled o) is_cancelled
                    (veiled_options t W entry is_cancelled o) (map hiding_ancestor ancestors) x.1
                    (is_cancelled w).1
            ])
            same)
          ∙ rest n

  pub fill_chain-hidden :
      (m : Fill) (w : W)
      → fill_chain t W
          (veiled t W entry is_cancelled o)
          is_cancelled
          (veiled_options t W entry is_cancelled o)
          (hiding_source t W o.chain_source)
          m
          w
        ≡ fill_chain t W entry is_cancelled o o.chain_source m w
  unfolding fill_chain
  fill_chain-hidden m w = of_source o.chain_source
    where
      walked :
          (r : Result WalkError (List Ancestor) × W)
          → chain_walked t W
              (veiled t W entry is_cancelled o)
              is_cancelled
              (veiled_options t W entry is_cancelled o)
              m
              (hiding_walked r)
            ≡ chain_walked t W entry is_cancelled o m r
      walked (err e, w1) = refl
      walked (ok ancestors, w1) = add_ancestors-hidden ancestors m w1

      of_source :
          (source : ChainSource t W)
          → fill_chain t W
              (veiled t W entry is_cancelled o)
              is_cancelled
              (veiled_options t W entry is_cancelled o)
              (hiding_source t W source)
              m
              w
            ≡ fill_chain t W entry is_cancelled o source m w
      of_source none = refl
      of_source (some source) = walked (source w)
