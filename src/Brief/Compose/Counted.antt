-- ===== src/Brief/Compose/Counted.antt =====
-- internal/brief/render.go, `compose`: the counts of the sections.
use dira.Prelude.{
  ℕ, zero, suc, ◌+◌, ◌-◌, ◌≡◌, ◌<◌, refl, ap, subst, ◌∙◌, false, Bool, List, [], ◌∷◌, ◌++◌, Str,
  Option, none, some, arith, leb, ◌==◌, if◌then◌else◌, if_both, Result, length,
}
use dira.Ledger.Entry.{Entry}
use dira.Brief.{Times, Options, LoadedSection}
use dira.Brief.Tokens.{tokens}
use dira.Brief.Fill.{Fill, Piece, SectionResult, one_more_kept, at_index}
use dira.Brief.Fill.Steps.{Preserves, add-some}
use dira.Brief.Compose.Filled.{filled-Inv}
use dira.Brief.Compose.{omitted, one_less_kept, give_back, filled, compose, footer, started}

abbrev is_of : ℕ → Option ℕ → Bool
is_of i none = false
is_of i (some j) = i == j

-- How many pieces are entries of a section.
abbrev pub pieces_of : ℕ → List Piece → ℕ
pieces_of i [] = 0
pieces_of i (p ∷ ps) = (if is_of i p.section then 1 else 0) + pieces_of i ps

abbrev pub kept_at : ℕ → List SectionResult → ℕ
kept_at i [] = 0
kept_at zero (s ∷ ss) = s.kept
kept_at (suc i) (s ∷ ss) = kept_at i ss

-- Each section counts the pieces of it that are written.
pub record IsCounted (m : Fill) : Type 0 where
  pub counted : (i : ℕ) → kept_at i m.sections ≡ pieces_of i m.written

kept_at-more :
    (i j : ℕ) (ss : List SectionResult)
    → i < length ss
    → kept_at j (at_index (λ s. record s { kept = s.kept + 1 }) i ss)
      ≡ (if j == i then 1 else 0) + kept_at j ss
kept_at-more i j [] h = absurd (omega (arith, h))
kept_at-more zero zero (s ∷ ss) h = omega arith
kept_at-more zero (suc j) (s ∷ ss) h = ground arith
kept_at-more (suc i) zero (s ∷ ss) h = ground arith
kept_at-more (suc i) (suc j) (s ∷ ss) h = ground (arith, kept_at-more i j ss)

kept_at-less :
    (i j : ℕ) (ss : List SectionResult)
    → kept_at j (at_index (λ s. record s { kept = s.kept - 1 }) i ss)
      ≡ kept_at j ss - (if j == i then 1 else 0)
kept_at-less i j [] = ground arith
kept_at-less zero zero (s ∷ ss) = ground arith
kept_at-less zero (suc j) (s ∷ ss) = ground arith
kept_at-less (suc i) zero (s ∷ ss) = ground arith
kept_at-less (suc i) (suc j) (s ∷ ss) = ground (arith, kept_at-less i j ss)

kept_at-new :
    (j : ℕ) (ss : List SectionResult) (name : Str) (total : ℕ)
    → kept_at j (ss ++ record { name = name; kept = 0; total = total } ∷ []) ≡ kept_at j ss
kept_at-new zero [] name total = refl
kept_at-new (suc j) [] name total = refl
kept_at-new zero (s ∷ ss) name total = refl
kept_at-new (suc j) (s ∷ ss) name total = kept_at-new j ss name total

IsCounted-Preserves : (max : ℕ) → Preserves max IsCounted
IsCounted-Preserves max = record {
  block = λ text m n k h e.
      subst IsCounted ((add-some max text none m n e).0)
        (record { counted = λ i. omega (arith, h.counted i) });
  entry = λ text i m n k l h e.
      subst (λ n. IsCounted (one_more_kept i n)) ((add-some max text (some i) m n e).0)
        (record {
          counted = λ j.
              kept_at-more i j m.sections l ∙ ap (λ x. (if j == i then 1 else 0) + x) (h.counted j);
        });
  section =
      λ name total m h. record { counted = λ i. kept_at-new i m.sections name total ∙ h.counted i };
}

one_less_kept-counted :
    (p : Piece) (ps : List Piece) (ss : List SectionResult)
    → ((i : ℕ) → kept_at i ss ≡ pieces_of i (p ∷ ps))
    → (i : ℕ) → kept_at i (one_less_kept p.section ss) ≡ pieces_of i ps
one_less_kept-counted p ps ss h i = go p.section (h i)
  where
    go :
        (section : Option ℕ)
        → kept_at i ss ≡ (if is_of i section then 1 else 0) + pieces_of i ps
        → kept_at i (one_less_kept section ss) ≡ pieces_of i ps
    go none e = omega (arith, e)
    go (some j) e = omega (arith, kept_at-less j i ss, e)

module _ (t : Times) (W : Type 0) (entry : Str → W → Result Str Entry × W)
    (is_cancelled : W → Bool × W) (o : Options t W) where
  give_back-IsCounted :
      (ps : List Piece) (spent : ℕ) (ss : List SectionResult)
      → ((i : ℕ) → kept_at i ss ≡ pieces_of i ps)
      → IsCounted ((give_back t W entry is_cancelled o ps spent ss).1)
  unfolding give_back
  give_back-IsCounted [] spent ss h =
      if_both (λ (r : Str × Fill). IsCounted (r.1)) (omitted ss == 0) (record { counted = h })
        (if_both (λ (r : Str × Fill). IsCounted (r.1))
          (leb (spent + tokens (footer t W entry is_cancelled o ss)) o.max_tokens)
          (record { counted = h }) (record { counted = h }))
  give_back-IsCounted (p ∷ ps) spent ss h =
      if_both (λ (r : Str × Fill). IsCounted (r.1)) (omitted ss == 0) (record { counted = h })
        (if_both (λ (r : Str × Fill). IsCounted (r.1))
          (leb (spent + tokens (footer t W entry is_cancelled o ss)) o.max_tokens)
          (record { counted = h })
          (give_back-IsCounted ps (spent - p.cost) (one_less_kept p.section ss)
            (one_less_kept-counted p ps ss h)))

  started-counted :
      (loaded : List (LoadedSection t W)) (i : ℕ)
      → kept_at i ((started t W entry is_cancelled o loaded).sections) ≡ 0
  started-counted [] i = refl
  started-counted (l ∷ ls) zero = refl
  started-counted (l ∷ ls) (suc i) = started-counted ls i

  -- In what `compose` returns, each section counts exactly the entries of it that are written, also
  -- after entries were given back.
  pub compose-IsCounted :
      (loaded : List (LoadedSection t W)) (w : W)
      → IsCounted ((compose t W entry is_cancelled o loaded w).0.rest)
  unfolding compose
  compose-IsCounted loaded w =
      let m = (filled t W entry is_cancelled o loaded w).0 in
      let h =
        filled-Inv t W entry is_cancelled o IsCounted (IsCounted-Preserves o.max_tokens) loaded w
          (record { counted = started-counted loaded }) in
      give_back-IsCounted m.written m.spent m.sections h.counted
