-- ===== src/Brief/Compose/Notice.antt =====
-- internal/brief/render.go, `footer` and `commas`: what the notice says, word by word.
use dira.Prelude.{
  ℕ, ◌-◌, ◌≡◌, ◌≤◌, ◌⊎◌, refl, sym, ap, ◌∙◌, Bool, true, false, List, [], ◌∷◌, ◌++◌, Str, codes,
  All, In, inl, inr, arith, ltb, is_nil, is_space, fields, fields-append, append_assoc,
  if◌then◌else◌, Result,
}
use dira.Ledger.Entry.{Entry}
use dira.Render.{line, row}
use dira.Render.Ends.{line-EndsLine, row-EndsLine}
use dira.Render.Words.{AreBlanks, row-fields, line-fields, fields-blanks}
use dira.Brief.{Times, Options}
use dira.Brief.Paint.{painter, commas, decimal_text, thousands}
use dira.Brief.Fill.{SectionResult}
use dira.Brief.Compose.{footer, dropped, nine_spaces}

-- A text has among its words how many entries a section lacks, and then the section's name.
pub record Mentions (notice : Str) (s : SectionResult) : Type 0 where
  pub before : Str
  pub stop : ℕ
  pub after : Str
  pub stop_is : (stop ≡ 32) ⊎ (stop ≡ b',')
  pub words_are :
      fields notice
      ≡ fields
          (before ++ 32 ∷ (decimal_text (s.total - s.kept) ++ codes " " ++ s.name ++ stop ∷ after))

-- Every section is whole, or the text says what it lacks.
abbrev pub AreMentioned : Str → List SectionResult → Type 0
AreMentioned notice = All (λ s. (s.total ≤ s.kept) ⊎ Mentions notice s)

record IsListed (x text : Str) : Type 0 where
  before : Str
  stop : ℕ
  after : Str
  stop_is : (stop ≡ 32) ⊎ (stop ≡ b',')
  text_is : text ≡ before ++ 32 ∷ (x ++ stop ∷ after)

commas-IsListed :
    (x : Str) (ps : List Str) (post : Str) → In x ps → IsListed x (32 ∷ (commas ps ++ 32 ∷ post))
commas-IsListed x [] post m = absurd m
commas-IsListed x (p ∷ []) post (inl e) = record {
  before = [];
  stop = 32;
  after = post;
  stop_is = inl refl;
  text_is = rw e refl;
}
commas-IsListed x (p ∷ []) post (inr m) = absurd m
commas-IsListed x (p ∷ q ∷ []) post (inl e) = record {
  before = [];
  stop = 32;
  after = codes "and " ++ q ++ 32 ∷ post;
  stop_is = inl refl;
  text_is = rw e (
      ap (λ s. 32 ∷ s)
        (ap (λ s. s ++ 32 ∷ post) (append_assoc p (codes " and ") q)
          ∙ append_assoc p (codes " and " ++ q) (32 ∷ post)));
}
commas-IsListed x (p ∷ q ∷ []) post (inr (inl e)) = record {
  before = 32 ∷ (p ++ codes " and");
  stop = 32;
  after = post;
  stop_is = inl refl;
  text_is = rw e (
      ap (λ s. 32 ∷ s)
        (ap (λ s. s ++ 32 ∷ post) (append_assoc p (codes " and ") q)
          ∙ append_assoc p (codes " and " ++ q) (32 ∷ post)
          ∙ sym (append_assoc p (codes " and") (32 ∷ (q ++ 32 ∷ post)))));
}
commas-IsListed x (p ∷ q ∷ []) post (inr (inr m)) = absurd m
commas-IsListed x (p ∷ q ∷ r ∷ ps) post (inl e) = record {
  before = [];
  stop = b',';
  after = 32 ∷ (commas (q ∷ r ∷ ps) ++ 32 ∷ post);
  stop_is = inr refl;
  text_is = rw e (
      ap (λ s. 32 ∷ s)
        (ap (λ s. s ++ 32 ∷ post) (append_assoc p (codes ", ") (commas (q ∷ r ∷ ps)))
          ∙ append_assoc p (codes ", " ++ commas (q ∷ r ∷ ps)) (32 ∷ post)));
}
commas-IsListed x (p ∷ q ∷ r ∷ ps) post (inr m) =
    let rest = commas-IsListed x (q ∷ r ∷ ps) post m in
    record {
      before = 32 ∷ (p ++ codes ",") ++ rest.before;
      stop = rest.stop;
      after = rest.after;
      stop_is = rest.stop_is;
      text_is =
          ap (λ s. 32 ∷ s)
            (ap (λ s. s ++ 32 ∷ post) (append_assoc p (codes ", ") (commas (q ∷ r ∷ ps)))
              ∙ append_assoc p (codes ", " ++ commas (q ∷ r ∷ ps)) (32 ∷ post)
              ∙ sym (append_assoc p (codes ",") (32 ∷ (commas (q ∷ r ∷ ps) ++ 32 ∷ post)))
              ∙ ap (λ s. (p ++ codes ",") ++ s) rest.text_is
              ∙ sym
                  (append_assoc (p ++ codes ",") rest.before (32 ∷ (x ++ rest.stop ∷ rest.after))));
    }

space_is : is_space 32 ≡ true
unfolding is_space
space_is = refl

no_fields : fields [] ≡ []
unfolding fields
no_fields = refl

nine-AreBlanks : AreBlanks (codes "         ")
nine-AreBlanks = (refl, (refl, (refl, (refl, (refl, (refl, (refl, (refl, (refl, tt)))))))))

blank_fields : fields (codes "         ") ≡ []
unfolding fields
blank_fields = refl

omitted_apart : (s : Str) → fields (codes "omitted  " ++ s) ≡ fields (codes "omitted  ") ++ fields s
unfolding fields
omitted_apart s = fields-append (codes "omitted ") 32 s space_is ∙ ap (λ x. x ++ fields s) same
  where
    same : fields (codes "omitted ") ≡ fields (codes "omitted  ")
    same = refl

module _ (t : Times) (W : Type 0) (entry : Str → W → Result Str Entry × W)
    (is_cancelled : W → Bool × W) (o : Options t W) where
  abbrev count_of : SectionResult → Str
  count_of s = decimal_text (s.total - s.kept) ++ codes " " ++ s.name

  dropped-In :
      (ss : List SectionResult)
      → All (λ s. (s.total ≤ s.kept) ⊎ In (count_of s) (dropped t W entry is_cancelled o ss)) ss
  dropped-In [] = tt
  dropped-In (s ∷ ss) = step s ss _ (ltb 0 (s.total - s.kept)) refl (dropped-In ss)
    where
      listed_behind :
          (p : Str) (ps : List Str) (ss : List SectionResult)
          → All (λ s. (s.total ≤ s.kept) ⊎ In (count_of s) ps) ss
          → All (λ s. (s.total ≤ s.kept) ⊎ In (count_of s) (p ∷ ps)) ss
      listed_behind p ps [] h = tt
      listed_behind p ps (s ∷ ss) (inl whole, h) = (inl whole, listed_behind p ps ss h)
      listed_behind p ps (s ∷ ss) (inr m, h) = (inr (inr m), listed_behind p ps ss h)

      step :
          (s : SectionResult) (ss : List SectionResult) (rest : List Str) (b : Bool)
          → ltb 0 (s.total - s.kept) ≡ b
          → All (λ x. (x.total ≤ x.kept) ⊎ In (count_of x) rest) ss
          → All
              (λ x. (x.total ≤ x.kept) ⊎ In (count_of x) (if b then count_of s ∷ rest else rest))
              (s ∷ ss)
      step s ss rest true lacks h = (inr (inl refl), listed_behind (count_of s) rest ss h)
      step s ss rest false whole h = (inl (ground arith), h)

  -- What stands behind the list, and the second row.
  ceiling_text : Str
  ceiling_text = codes "— over the " ++ thousands o.max_tokens ++ codes "-token ceiling (cst-0001)"

  advice : Str
  advice = codes "the oldest of each go first; `dira why <id>` prints any entry in full"

  abbrev listing : List SectionResult → Str
  listing ss = commas (dropped t W entry is_cancelled o ss)

  first_row-is :
      (ss : List SectionResult)
      → listing ss
          ++ codes " — over the "
          ++ thousands o.max_tokens
          ++ codes "-token ceiling (cst-0001)"
        ≡ listing ss ++ 32 ∷ ceiling_text
  unfolding ceiling_text
  first_row-is ss =
      ap (λ s. s ++ codes "-token ceiling (cst-0001)")
        (append_assoc (listing ss) (codes " — over the ") (thousands o.max_tokens))
      ∙ append_assoc (listing ss) (codes " — over the " ++ thousands o.max_tokens)
          (codes "-token ceiling (cst-0001)")

  -- The words of the notice, where something is left out.
  footer-fields :
      (ss : List SectionResult)
      → is_nil (dropped t W entry is_cancelled o ss) ≡ false
      → fields (footer t W entry is_cancelled o ss)
        ≡ fields (codes "omitted " ++ 32 ∷ (listing ss ++ 32 ∷ (ceiling_text ++ 32 ∷ advice)))
  unfolding footer ceiling_text advice
  footer-fields ss some_dropped =
      let p = line [] (painter t W entry o) in
      let q = row (codes "omitted  ") nine (listing ss ++ 32 ∷ ceiling_text) [] p in
      let first : fields q.text
          ≡ fields (codes "omitted  ") ++ fields (listing ss ++ 32 ∷ ceiling_text) =
        row-fields (codes "omitted  ") nine (listing ss ++ 32 ∷ ceiling_text) p omitted_apart
          nine-AreBlanks (inr (line-EndsLine [] (painter t W entry o)))
        ∙ ap (λ x. x ++ (fields (codes "omitted  ") ++ fields (listing ss ++ 32 ∷ ceiling_text)))
            opening in
      let second : fields (row nine nine advice [] q).text ≡ fields q.text ++ fields advice =
        row-fields nine nine advice q
          (λ s. fields-blanks nine s nine-AreBlanks ∙ ap (λ x. x ++ fields s) (sym blank_fields))
          nine-AreBlanks
          (inr (row-EndsLine (codes "omitted  ") nine (listing ss ++ 32 ∷ ceiling_text) [] p))
        ∙ ap (λ x. fields q.text ++ (x ++ fields advice)) blank_fields in
      let joined : fields (listing ss ++ 32 ∷ (ceiling_text ++ 32 ∷ advice))
          ≡ fields (listing ss ++ 32 ∷ ceiling_text) ++ fields advice =
        ap fields (sym (append_assoc (listing ss) (32 ∷ ceiling_text) (32 ∷ advice)))
        ∙ fields-append (listing ss ++ 32 ∷ ceiling_text) 32 advice space_is in
      rw (some_dropped, first_row-is ss)
        (second
          ∙ ap (λ x. x ++ fields advice) first
          ∙ append_assoc (fields (codes "omitted  ")) (fields (listing ss ++ 32 ∷ ceiling_text))
              (fields advice)
          ∙ ap (λ x. fields (codes "omitted  ") ++ x) (sym joined)
          ∙ sym (omitted_apart (listing ss ++ 32 ∷ (ceiling_text ++ 32 ∷ advice))))
    where
      nine : Str
      nine = nine_spaces t W entry is_cancelled o

      opening : fields (line [] (painter t W entry o)).text ≡ []
      opening =
          line-fields [] (painter t W entry o) (inl refl)
          ∙ ap (λ x. x ++ fields []) no_fields
          ∙ no_fields

  -- The notice says of every section what it lacks.
  pub footer-AreMentioned :
      (ss : List SectionResult) → AreMentioned (footer t W entry is_cancelled o ss) ss
  unfolding fields decimal_text
  footer-AreMentioned ss = each ss (dropped-In ss)
    where
      not_nil : (x : Str) (ps : List Str) → In x ps → is_nil ps ≡ false
      not_nil x [] m = absurd m
      not_nil x (p ∷ ps) m = refl

      mention :
          (s : SectionResult)
          → In (count_of s) (dropped t W entry is_cancelled o ss)
          → Mentions (footer t W entry is_cancelled o ss) s
      mention s m =
          let ps = dropped t W entry is_cancelled o ss in
          let l = commas-IsListed (count_of s) ps (ceiling_text ++ 32 ∷ advice) m in
          record {
            before = codes "omitted " ++ l.before;
            stop = l.stop;
            after = l.after;
            stop_is = l.stop_is;
            words_are =
                footer-fields ss (not_nil (count_of s) ps m)
                ∙ ap (λ x. fields (codes "omitted " ++ x)) l.text_is
                ∙ ap fields (
                    sym (
                      append_assoc (codes "omitted ") l.before
                        (32 ∷ (count_of s ++ l.stop ∷ l.after))));
          }

      each :
          (all : List SectionResult)
          → All
              (λ s. (s.total ≤ s.kept) ⊎ In (count_of s) (dropped t W entry is_cancelled o ss))
              all
          → AreMentioned (footer t W entry is_cancelled o ss) all
      each [] h = tt
      each (s ∷ more) (inl whole, h) = (inl whole, each more h)
      each (s ∷ more) (inr m, h) = (inr (mention s m), each more h)
