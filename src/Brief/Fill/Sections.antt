-- ===== src/Brief/Fill/Sections.antt =====
-- internal/brief/render.go: what the sections of a brief show of private entries.
use dira.Prelude.{
  ℕ, ◌+◌, ◌≡◌, refl, ap, ◌∙◌, Bool, true, false, Bool-cases, Option-cases, inl, inr, List, [], ◌∷◌,
  ◌++◌, Str, none, some, is_nil, Result,
}
use dira.Ledger.Entry.{Entry}
use dira.Index.{Ref}
use dira.Brief.{Times, Options, LoadedSection}
use dira.Brief.Paint.{item}
use dira.Brief.Paint.Private.{item-redacted}
use dira.Brief.Fill.{Fill, add, one_more_kept, add_entries, add_sections, empty_section, heading_of}
use dira.Brief.Fill.Hiding.{hiding_source, veiled, veiled_options}

module _ (t : Times) (W : Type 0) (entry : Str → W → Result Str Entry × W)
    (is_cancelled : W → Bool × W) (o : Options t W) where
  add_entries-hidden :
      (i : ℕ) (pending : Str) (refs : List Ref) (m : Fill) (w : W)
      → add_entries t W
          (veiled t W entry is_cancelled o)
          is_cancelled
          (veiled_options t W entry is_cancelled o)
          i
          pending
          refs
          m
          w
        ≡ add_entries t W entry is_cancelled o i pending refs m w
  unfolding add_entries veiled veiled_options
  add_entries-hidden i pending [] m w = refl
  add_entries-hidden i pending (ref ∷ refs) m w =
      let painted = item t W entry o ref.id w in
      let same = item-redacted t W entry o (hiding_source t W o.chain_source) ref.id w in
      rw (same, add_entries)
        (elim (Option-cases (add o.max_tokens (pending ++ painted.0) (some i) m)) [
          | inl full ↦ rw (full, add_entries) (ap (λ (x : Str × W). (false, m, x.1)) same)
          | inr (n, fits) ↦
              rw (fits, add_entries)
                (ap
                    (λ (x : Str × W).
                      add_entries t W (veiled t W entry is_cancelled o) is_cancelled
                        (veiled_options t W entry is_cancelled o) i [] refs (one_more_kept i n) x.1)
                    same
                  ∙ add_entries-hidden i [] refs (one_more_kept i n) painted.1)
        ])

  pub add_sections-hidden :
      (i : ℕ) (loaded : List (LoadedSection t W)) (m : Fill) (w : W)
      → add_sections t W
          (veiled t W entry is_cancelled o)
          is_cancelled
          (veiled_options t W entry is_cancelled o)
          i
          loaded
          m
          w
        ≡ add_sections t W entry is_cancelled o i loaded m w
  unfolding add_sections empty_section veiled_options
  add_sections-hidden i [] m w = refl
  add_sections-hidden i (l ∷ ls) m w = elim (Bool-cases (is_nil l.refs)) [
    | inl empty ↦
        elim (Option-cases (
          add o.max_tokens
            (heading_of t W entry is_cancelled o l.section
              ++ empty_section t W entry is_cancelled o l.section)
            none m)) [
              | inl full ↦ rw (empty, full, add_sections) refl
              | inr (n, fits) ↦ rw (empty, fits, add_sections) (add_sections-hidden (i + 1) ls n w)
            ]
    | inr some_refs ↦
        rw (some_refs, add_sections)
          (onward (add_entries-hidden i (heading_of t W entry is_cancelled o l.section) l.refs m w)
            (λ n w1. add_sections-hidden (i + 1) ls n w1))
  ]
    where
      onward :
          {r q : Bool × Fill × W}
          → r ≡ q
          → ((n : Fill) (w1 : W)
              → add_sections t W
                  (veiled t W entry is_cancelled o)
                  is_cancelled
                  (veiled_options t W entry is_cancelled o)
                  (i + 1)
                  ls
                  n
                  w1
                ≡ add_sections t W entry is_cancelled o (i + 1) ls n w1)
          → ◌≡◌ {A = Bool × Fill × W}
              (elim r.0 [
                | true ↦
                    add_sections t W
                      (veiled t W entry is_cancelled o)
                      is_cancelled
                      (veiled_options t W entry is_cancelled o)
                      (i + 1)
                      ls
                      r.1
                      r.2
                | false ↦ (true, r.1, r.2)
              ])
              (elim q.0 [
                | true ↦ add_sections t W entry is_cancelled o (i + 1) ls q.1 q.2
                | false ↦ (true, q.1, q.2)
              ])
      onward {r} {q = (false, n, w1)} same rest =
          (ap
            (λ (x : Bool × Fill × W). elim x.0 as (λ _. Bool × Fill × W) [
              | true ↦
                  add_sections t W (veiled t W entry is_cancelled o) is_cancelled
                    (veiled_options t W entry is_cancelled o) (i + 1) ls x.1 x.2
              | false ↦ (true, x.1, x.2)
            ])
            same)
      onward {r} {q = (true, n, w1)} same rest =
          (ap
            (λ (x : Bool × Fill × W). elim x.0 as (λ _. Bool × Fill × W) [
              | true ↦
                  add_sections t W (veiled t W entry is_cancelled o) is_cancelled
                    (veiled_options t W entry is_cancelled o) (i + 1) ls x.1 x.2
              | false ↦ (true, x.1, x.2)
            ])
            same)
          ∙ rest n w1
