-- ===== src/Brief/Compose/Private.antt =====
-- internal/brief/render.go, `compose`: what a whole brief shows of private entries, those of the ledger and
-- those of its ancestors.
use dira.Prelude.{
  ℕ, codes, ◌+◌, ◌-◌, ◌≡◌, refl, ap, ◌∙◌, Bool, true, false, List, [], ◌∷◌, ◌++◌, Str, is_nil, leb,
  ◌==◌, Result, ◌&&◌, if◌then◌else◌, trim_space,
}
use dira.Ledger.Entry.{Entry}
use dira.Brief.{Times, Options, LoadedSection}
use dira.Brief.Tokens.{tokens}
use dira.Render.{row}
use dira.Brief.Paint.{guidance, painter, preamble, notice_blocks, paragraph, chain_notice}
use dira.Brief.Paint.Private.{redacted}
use dira.Brief.Fill.{Fill, Piece, SectionResult, add_blocks, add_sections}
use dira.Brief.Compose.{
  compose, filled, fill_local, chained, give_back, footer, omitted, one_less_kept, Composed,
  started, text_of,
}
use dira.Brief.Fill.Hiding.{veiled, veiled_options, hiding_source}
use dira.Brief.Fill.Private.{fill_chain-hidden}
use dira.Brief.Fill.Sections.{add_sections-hidden}

module _ (t : Times) (W : Type 0) (entry : Str → W → Result Str Entry × W)
    (is_cancelled : W → Bool × W) (o : Options t W) where
  notice_blocks-hidden :
      (notices : List Str)
      → notice_blocks t W
          (veiled t W entry is_cancelled o)
          (veiled_options t W entry is_cancelled o)
          notices
        ≡ notice_blocks t W entry o notices
  unfolding notice_blocks paragraph veiled_options
  notice_blocks-hidden [] = refl
  notice_blocks-hidden (notice ∷ notices) =
      ap (λ rest. if is_nil (trim_space notice) then rest else paragraph t W entry o notice ∷ rest)
        (notice_blocks-hidden notices)

  preamble-hidden :
      preamble t W (veiled t W entry is_cancelled o) (veiled_options t W entry is_cancelled o)
      ≡ preamble t W entry o
  unfolding preamble paragraph chain_notice veiled_options
  preamble-hidden =
      ap
        (λ blocks.
          (row [] [] (codes "dira brief — " ++ o.ledger ++ codes " · " ++ t.date o.now) []
              (painter t W entry o)).text
            ∷ (if o.context then paragraph t W entry o guidance ∷ [] else [])
          ++ (if o.chain then paragraph t W entry o (chain_notice t W entry o) ∷ [] else [])
          ++ blocks)
        (notice_blocks-hidden o.notices)

  give_back-hidden :
      (written : List Piece) (spent : ℕ) (ss : List SectionResult)
      → give_back t W
          (veiled t W entry is_cancelled o)
          is_cancelled
          (veiled_options t W entry is_cancelled o)
          written
          spent
          ss
        ≡ give_back t W entry is_cancelled o written spent ss
  unfolding give_back footer veiled_options
  give_back-hidden [] spent ss = refl
  give_back-hidden (last ∷ written) spent ss =
      ap
        (λ less.
          if omitted ss == 0
          then ([], record { written = last ∷ written; spent = spent; sections = ss })
          else if leb (spent + tokens (footer t W entry is_cancelled o ss)) o.max_tokens
          then (
            footer t W entry is_cancelled o ss,
            record { written = last ∷ written; spent = spent; sections = ss },
          )
          else less)
        (give_back-hidden written (spent - last.cost) (one_less_kept last.section ss))

  fill_local-hidden :
      (loaded : List (LoadedSection t W)) (go_on : Bool) (m : Fill) (w : W)
      → fill_local t W
          (veiled t W entry is_cancelled o)
          is_cancelled
          (veiled_options t W entry is_cancelled o)
          loaded
          (go_on, m)
          w
        ≡ fill_local t W entry is_cancelled o loaded (go_on, m) w
  unfolding veiled_options
  fill_local-hidden loaded false m w = refl
  fill_local-hidden loaded true m w =
      ap
        (λ (r : Bool × Fill × W).
          chained t W (veiled t W entry is_cancelled o) is_cancelled
            (veiled_options t W entry is_cancelled o) r.0 r.1 r.2)
        (add_sections-hidden t W entry is_cancelled o 0 loaded m w)
      ∙ of_flag (add_sections t W entry is_cancelled o 0 loaded m w)
    where
      of_flag :
          (r : Bool × Fill × W)
          → chained t W
              (veiled t W entry is_cancelled o)
              is_cancelled
              (veiled_options t W entry is_cancelled o)
              r.0
              r.1
              r.2
            ≡ chained t W entry is_cancelled o r.0 r.1 r.2
      of_flag (go_on, n, w1) =
          ap (λ (x : Fill × W). if go_on && o.chain then x else (n, w1))
            (fill_chain-hidden t W entry is_cancelled o n w1)

  filled-hidden :
      (loaded : List (LoadedSection t W)) (w : W)
      → filled t W
          (veiled t W entry is_cancelled o)
          is_cancelled
          (veiled_options t W entry is_cancelled o)
          loaded
          w
        ≡ filled t W entry is_cancelled o loaded w
  unfolding filled veiled_options
  filled-hidden loaded w =
      ap
        (λ blocks.
          fill_local t W (veiled t W entry is_cancelled o) is_cancelled
            (veiled_options t W entry is_cancelled o) loaded
            (add_blocks o.max_tokens blocks (started t W entry is_cancelled o loaded)) w)
        preamble-hidden
      ∙ (let (go_on, n) =
            add_blocks o.max_tokens (preamble t W entry o)
              (started t W entry is_cancelled o loaded) in
          fill_local-hidden loaded go_on n w)

  -- For the same loaded sections a whole brief, its text with the counts, is the same if the titles, bodies, alternatives and tags of all
  -- private entries are taken away, both in what the ledger's entries are read as and in the stores of
  -- the ancestors that the walk over the chain gives.
  pub compose-redacted :
      (loaded : List (LoadedSection t W)) (w : W)
      → compose t W
          (λ id v. redacted (entry id v))
          is_cancelled
          (record o { chain_source = hiding_source t W o.chain_source })
          loaded
          w
        ≡ compose t W entry is_cancelled o loaded w
  unfolding compose veiled veiled_options
  compose-redacted loaded w =
      ap
        (λ (r : Fill × W).
          let (tail, n) =
            give_back t W (veiled t W entry is_cancelled o) is_cancelled
              (veiled_options t W entry is_cancelled o) r.0.written r.0.spent r.0.sections in
          let out = text_of n.written ++ tail in
          let made : Composed = record { out = out; count = tokens out; rest = n } in (made, r.1))
        (filled-hidden loaded w)
      ∙ (let m = (filled t W entry is_cancelled o loaded w).0 in
          ap
            (λ (r : Str × Fill).
              let out = text_of r.1.written ++ r.0 in
              let made : Composed = record { out = out; count = tokens out; rest = r.1 } in
              (made, (filled t W entry is_cancelled o loaded w).1))
            (give_back-hidden m.written m.spent m.sections))
