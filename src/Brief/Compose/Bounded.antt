-- ===== src/Brief/Compose/Bounded.antt =====
-- internal/brief/render.go, `compose`: the ceiling holds, whatever the ledger and its chain contain.
use dira.Prelude.{
  ℕ, ◌+◌, ◌-◌, ◌≡◌, ◌≤◌, ◌⊎◌, refl, subst, inl, inr, true, Bool, List, [], ◌∷◌, ◌++◌, Str, Option,
  none, some, All, arith, leb, ◌==◌, if_both, if_split, Result, newline, append_assoc,
}
use dira.Ledger.Entry.{Entry}
use dira.Render.Ends.{EndsLine, ends_line, EndsLine-append}
use dira.Brief.{Times, Options, LoadedSection}
use dira.Brief.Tokens.{tokens}
use dira.Brief.Tokens.Additive.{tokens_additive}
use dira.Brief.Fill.{Fill, Piece, SectionResult, add}
use dira.Brief.Fill.Steps.{Preserves, add-some}
use dira.Brief.Compose.Filled.{filled-Inv}
use dira.Brief.Compose.{omitted, one_less_kept, give_back, text_of, filled, compose, footer}

unfoldable pub costs : List Piece → ℕ
costs [] = 0
costs (p ∷ ps) = p.cost + costs ps

-- A piece costs its tokens and ends with its line.
pub record IsPiece (p : Piece) : Type 0 where
  pub cost_is : p.cost ≡ tokens p.text
  pub ends_it : EndsLine p.text

pub record Budget (max : ℕ) (m : Fill) : Type 0 where
  pub spent_is : m.spent ≡ costs m.written
  pub pieces : All IsPiece m.written
  pub within : m.spent ≤ max

add-Budget :
    (max : ℕ) (text : Str) (section : Option ℕ) (m n : Fill)
    → EndsLine text
    → Budget max m
    → add max text section m ≡ some n
    → Budget max n
unfolding costs
add-Budget max text section m n k h e =
    let (same, fits) = add-some max text section m n e in
    subst (Budget max) same (record {
      spent_is = omega (arith, h.spent_is);
      pieces = (record { cost_is = refl; ends_it = k }, h.pieces);
      within = fits;
    })

pub Budget-Preserves : (max : ℕ) → Preserves max (Budget max)
Budget-Preserves max = record {
  block = λ text m n k h e. add-Budget max text none m n k h e;
  entry = λ text i m n k l h e.
      let b = add-Budget max text (some i) m n k h e in
      record { spent_is = b.spent_is; pieces = b.pieces; within = b.within };
  section =
      λ name total m h. record { spent_is = h.spent_is; pieces = h.pieces; within = h.within };
}

tokens_sub : (a b : Str) → EndsLine a → tokens (a ++ b) ≤ tokens a + tokens b
tokens_sub _ b (ends_line s) =
    rw (append_assoc s (newline ∷ []) b) (ground (arith, tokens_additive s b))

text_of-costs :
    (ps : List Piece)
    → All IsPiece ps
    → (tokens (text_of ps) ≤ costs ps) × ((text_of ps ≡ []) ⊎ EndsLine (text_of ps))
unfolding costs tokens
text_of-costs [] h = (omega arith, inl refl)
text_of-costs (p ∷ ps) (h, hs) =
    let (paid, empty_or_ends) = text_of-costs ps hs in
    (
      elim empty_or_ends [
        | inl e ↦ rw e (omega (arith, h.cost_is))
        | inr e ↦ omega (arith, tokens_sub (text_of ps) p.text e, h.cost_is, paid)
      ],
      inr (EndsLine-append (text_of ps) p.text h.ends_it),
    )

text_of-tail :
    (ps : List Piece) (tail : Str)
    → All IsPiece ps
    → tokens (text_of ps ++ tail) ≤ costs ps + tokens tail
text_of-tail ps tail h =
    let (paid, empty_or_ends) = text_of-costs ps h in
    elim empty_or_ends [
      | inl e ↦ rw e (omega arith)
      | inr e ↦ omega (arith, tokens_sub (text_of ps) tail e, paid)
    ]

fitting : (spent c n max : ℕ) → spent ≡ c → leb (spent + n) max ≡ true → c + n ≤ max
fitting spent c n max e h = ground arith

-- What is left after pieces were given back, with the notice.
record Fits (max : ℕ) (r : Str × Fill) : Type 0 where
  pieces : All IsPiece (r.1.written)
  within : costs (r.1.written) + tokens (r.0) ≤ max

module _ (t : Times) (W : Type 0) (entry : Str → W → Result Str Entry × W)
    (is_cancelled : W → Bool × W) (o : Options t W) where
  give_back-Fits :
      (ps : List Piece) (spent : ℕ) (ss : List SectionResult)
      → All IsPiece ps
      → spent ≡ costs ps
      → spent ≤ o.max_tokens
      → Fits o.max_tokens (give_back t W entry is_cancelled o ps spent ss)
  unfolding give_back costs
  give_back-Fits [] spent ss h e l =
      if_both (Fits o.max_tokens) (omitted ss == 0) (record { pieces = tt; within = omega arith })
        (if_split (Fits o.max_tokens)
          (leb (spent + tokens (footer t W entry is_cancelled o ss)) o.max_tokens)
          (λ fits. record { pieces = tt; within = fitting spent _ _ o.max_tokens e fits })
          (λ _. record { pieces = tt; within = omega arith }))
  give_back-Fits (p ∷ ps) spent ss (h, hs) e l =
      if_both (Fits o.max_tokens) (omitted ss == 0)
        (record { pieces = (h, hs); within = omega (arith, e, l) })
        (if_split (Fits o.max_tokens)
          (leb (spent + tokens (footer t W entry is_cancelled o ss)) o.max_tokens)
          (λ fits. record { pieces = (h, hs); within = fitting spent _ _ o.max_tokens e fits })
          (λ _.
            give_back-Fits ps (spent - p.cost) (one_less_kept p.section ss) hs (omega (arith, e))
              (omega (arith, l))))

  -- The tokens of what `compose` returns are at most the ceiling, whatever the entries, the sections,
  -- the notices and the chain are, and the count that it reports is that of its text.
  pub compose_bounded :
      (loaded : List (LoadedSection t W)) (w : W)
      → (tokens (compose t W entry is_cancelled o loaded w).0.out ≤ o.max_tokens)
        × ((compose t W entry is_cancelled o loaded w).0.count
            ≡ tokens (compose t W entry is_cancelled o loaded w).0.out)
  unfolding compose costs
  compose_bounded loaded w =
      let m = (filled t W entry is_cancelled o loaded w).0 in
      let b =
        filled-Inv t W entry is_cancelled o (Budget o.max_tokens) (Budget-Preserves o.max_tokens)
          loaded w (record { spent_is = refl; pieces = tt; within = omega arith }) in
      let given = give_back t W entry is_cancelled o m.written m.spent m.sections in
      let fits = give_back-Fits m.written m.spent m.sections b.pieces b.spent_is b.within in
      (omega (arith, text_of-tail (given.1.written) (given.0) fits.pieces, fits.within), refl)
