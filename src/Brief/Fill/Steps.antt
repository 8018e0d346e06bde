-- ===== src/Brief/Fill/Steps.antt =====
-- internal/brief/render.go: what the steps of the filling preserve, it preserves as a whole.
use dira.Prelude.{
  ℕ, zero, suc, ◌+◌, ◌≡◌, ◌≤◌, ◌<◌, refl, ap, sym, ◌∙◌, inl, inr, Bool, List, [], ◌∷◌, ◌++◌, Str,
  Option, none, some, Option-cases, Bool-cases, All, arith, ltb, Result, ok, err, is_nil, length,
  length-append,
}
use mathlib.Core.Option.{some-injective}
use dira.Ledger.Entry.{Entry}
use dira.Render.Ends.{EndsLine, EndsLine-append, row-EndsLine}
use dira.Index.{Ref}
use dira.Chain.{Ancestor, WalkError}
use dira.Brief.{Times, Options, Section, LoadedSection}
use dira.Brief.Tokens.{tokens}
use dira.Brief.Paint.{painter, item_indent, item, chain_item}
use dira.Brief.Paint.Ends.{item-EndsLine, chain_item-EndsLine}
use dira.Brief.Fill.{
  Fill, SectionResult, add, put_down, add_blocks, add_entries, add_sections, add_chain_entries,
  add_ancestors, fill_chain, chain_walked, one_more_kept, with_section, at_index, empty_section,
  heading_of, chain_heading, active_intents,
}

-- A property of what is filled that a block, an entry with its count, and a new section keep.
pub record Preserves (max : ℕ) (Inv : Fill → Type 0) : Type 0 where
  pub block :
      (text : Str) (m n : Fill) → EndsLine text → Inv m → add max text none m ≡ some n → Inv n
  pub entry :
      (text : Str) (i : ℕ) (m n : Fill)
      → EndsLine text
      → i < length m.sections
      → Inv m
      → add max text (some i) m ≡ some n
      → Inv (one_more_kept i n)
  pub section : (name : Str) (total : ℕ) (m : Fill) → Inv m → Inv (with_section name total m)

-- What fits is put down as it is.
pub add-some :
    (max : ℕ) (text : Str) (section : Option ℕ) (m n : Fill)
    → add max text section m ≡ some n
    → (put_down text section m ≡ n) × (m.spent + tokens text ≤ max)
unfolding add
add-some max text section m n e = elim (Bool-cases (ltb max (m.spent + tokens text))) [
  | inl over ↦ absurd (cc (rw (over, add) at e))
  | inr fits ↦ (some-injective (put_down text section m) n (rw (fits, add) at e), ground arith)
]

length-at_index :
    (f : SectionResult → SectionResult) (i : ℕ) (ss : List SectionResult)
    → length (at_index f i ss) ≡ length ss
length-at_index f i [] = refl
length-at_index f zero (s ∷ ss) = refl
length-at_index f (suc i) (s ∷ ss) = ap suc (length-at_index f i ss)

pub add_blocks-Inv :
    (max : ℕ) (Inv : Fill → Type 0) (keeps : Preserves max Inv) (blocks : List Str) (m : Fill)
    → All EndsLine blocks
    → Inv m
    → Inv ((add_blocks max blocks m).1)
add_blocks-Inv max Inv keeps [] m k h = h
add_blocks-Inv max Inv keeps (block ∷ blocks) m (k, ks) h =
    elim (Option-cases (add max block none m)) [
      | inl e ↦ rw (e, add_blocks) h
      | inr (n, e) ↦
          rw (e, add_blocks)
            (add_blocks-Inv max Inv keeps blocks n ks (keeps.block block m n k h e))
    ]

module _ (t : Times) (W : Type 0) (entry : Str → W → Result Str Entry × W)
    (is_cancelled : W → Bool × W) (o : Options t W) (Inv : Fill → Type 0)
    (keeps : Preserves o.max_tokens Inv) where
  -- The property, and that the counts are still those of the sections.
  unfoldable pub Held : ℕ → Fill → Type 0
  Held count m = Inv m × (length m.sections ≡ count)

  next-Held :
      (text : Str) (i count : ℕ) (m n : Fill)
      → EndsLine text
      → i < count
      → Held count m
      → add o.max_tokens text (some i) m ≡ some n
      → Held count (one_more_kept i n)
  unfolding Held
  next-Held text i count m n k l (h, s) e =
      let same : n.sections ≡ m.sections =
        sym (ap (λ (x : Fill). x.sections) ((add-some o.max_tokens text (some i) m n e).0)) in
      (keeps.entry text i m n k (rw s l) h e, length-at_index _ i n.sections ∙ ap length same ∙ s)

  block-Held :
      (text : Str) (count : ℕ) (m n : Fill)
      → EndsLine text
      → Held count m
      → add o.max_tokens text none m ≡ some n
      → Held count n
  unfolding Held
  block-Held text count m n k (h, s) e =
      let same : n.sections ≡ m.sections =
        sym (ap (λ (x : Fill). x.sections) ((add-some o.max_tokens text none m n e).0)) in
      (keeps.block text m n k h e, ap length same ∙ s)

  add_entries-Held :
      (i count : ℕ) (pending : Str) (refs : List Ref) (m : Fill) (w : W)
      → i < count
      → Held count m
      → Held count ((add_entries t W entry is_cancelled o i pending refs m w).1)
  unfolding add_entries
  add_entries-Held i count pending [] m w l h = h
  add_entries-Held i count pending (ref ∷ refs) m w l h =
      let painted = item t W entry o ref.id w in
      elim (Option-cases (add o.max_tokens (pending ++ painted.0) (some i) m)) [
        | inl e ↦ rw (e, add_entries) h
        | inr (n, e) ↦
            rw (e, add_entries)
              (add_entries-Held i count [] refs (one_more_kept i n) painted.1 l (
                next-Held (pending ++ painted.0) i count m n
                  (EndsLine-append pending painted.0 (item-EndsLine t W entry o ref.id w)) l h e))
      ]

  empty_section-EndsLine : (s : Section t W) → EndsLine (empty_section t W entry is_cancelled o s)
  unfolding empty_section
  empty_section-EndsLine s = row-EndsLine item_indent item_indent s.empty [] (painter t W entry o)

  pub add_sections-Held :
      (i count : ℕ) (ls : List (LoadedSection t W)) (m : Fill) (w : W)
      → i + length ls ≤ count
      → Held count m
      → Held count ((add_sections t W entry is_cancelled o i ls m w).1)
  unfolding add_sections
  add_sections-Held i count [] m w l h = h
  add_sections-Held i count (s ∷ ls) m w l h = elim (Bool-cases (is_nil s.refs)) [
    | inl none_of_it ↦
        let text =
          heading_of t W entry is_cancelled o s.section
          ++ empty_section t W entry is_cancelled o s.section in
        let ends =
          EndsLine-append (heading_of t W entry is_cancelled o s.section)
            (empty_section t W entry is_cancelled o s.section) (empty_section-EndsLine s.section) in
        elim (Option-cases (add o.max_tokens text none m)) [
          | inl e ↦ rw (none_of_it, e, add_sections) h
          | inr (n, e) ↦
              rw (none_of_it, e, add_sections)
                (add_sections-Held (i + 1) count ls n w (omega arith)
                  (block-Held text count m n ends h e))
        ]
    | inr some_of_it ↦
        let heading = heading_of t W entry is_cancelled o s.section in
        let added = add_entries t W entry is_cancelled o i heading s.refs m w in
        let held = add_entries-Held i count heading s.refs m w (omega arith) h in
        elim (Bool-cases added.0) [
          | inl e ↦
              rw (some_of_it, e, add_sections)
                (add_sections-Held (i + 1) count ls added.1 added.2 (omega arith) held)
          | inr e ↦ rw (some_of_it, e, add_sections) held
        ]
  ]

  add_chain_entries-Held :
      (i count : ℕ) (ns pending : Str) (es : List Entry) (m : Fill)
      → i < count
      → Held count m
      → Held count ((add_chain_entries t W entry is_cancelled o i ns pending es m).1)
  unfolding add_chain_entries
  add_chain_entries-Held i count ns pending [] m l h = h
  add_chain_entries-Held i count ns pending (e ∷ es) m l h =
      let text = chain_item t W entry o ns e in
      elim (Option-cases (add o.max_tokens (pending ++ text) (some i) m)) [
        | inl over ↦ rw (over, add_chain_entries) h
        | inr (n, fits) ↦
            rw (fits, add_chain_entries)
              (add_chain_entries-Held i count ns [] es (one_more_kept i n) l (
                next-Held (pending ++ text) i count m n
                  (EndsLine-append pending text (chain_item-EndsLine t W entry o ns e)) l h fits))
      ]

  add_ancestors-Inv :
      (found : List Ancestor) (m : Fill) (w : W)
      → Inv m
      → Inv ((add_ancestors t W entry is_cancelled o found m w).0)
  unfolding add_ancestors Held
  add_ancestors-Inv [] m w h = h
  add_ancestors-Inv (a ∷ found) m w h =
      let stopped = is_cancelled w in
      let entries = active_intents t W entry is_cancelled o a.store in
      let heading = chain_heading t W entry is_cancelled o a (length entries) in
      let begun = with_section a.namespace (length entries) m in
      let added =
        add_chain_entries t W entry is_cancelled o (length m.sections) a.namespace heading entries
          begun in
      let held : Inv (added.1) × (length (added.1.sections) ≡ suc (length m.sections)) =
        add_chain_entries-Held (length m.sections) (suc (length m.sections)) a.namespace heading
          entries begun (omega arith)
          (
            keeps.section a.namespace (length entries) m h,
            omega (
              arith,
              length-append m.sections
                  (record { name = a.namespace; kept = 0; total = length entries } ∷ []),
            ),
          ) in
      elim (Bool-cases stopped.0) [
        | inl s ↦ rw (s, add_ancestors) h
        | inr s ↦ elim (Bool-cases added.0) [
          | inl e ↦ rw (s, e, add_ancestors) (add_ancestors-Inv found added.1 stopped.1 (held.0))
          | inr e ↦ rw (s, e, add_ancestors) (held.0)
        ]
      ]

  chain_walked-Inv :
      (m : Fill) (r : Result WalkError (List Ancestor) × W)
      → Inv m
      → Inv ((chain_walked t W entry is_cancelled o m r).0)
  chain_walked-Inv m (err e, w) h = h
  chain_walked-Inv m (ok found, w) h = add_ancestors-Inv found m w h

  pub fill_chain-Inv :
      (source : Option (W → Result WalkError (List Ancestor) × W)) (m : Fill) (w : W)
      → Inv m
      → Inv ((fill_chain t W entry is_cancelled o source m w).0)
  unfolding fill_chain
  fill_chain-Inv none m w h = h
  fill_chain-Inv (some source) m w h = chain_walked-Inv m (source w) h
