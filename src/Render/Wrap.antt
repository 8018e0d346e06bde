-- ===== src/Render/Wrap.antt =====
-- internal/render/painter.go, `Lines`: what wrapping does to the words of a text.
use dira.Prelude.{
  ◌∙◌, ap, ℕ, ◌+◌, ◌≡◌, ◌≤◌, ◌⊎◌, inl, inr, refl, true, List, [], ◌∷◌, ◌++◌, Str, length, leb,
  fields, is_space, concat_map, All, In, IsWord, fields-append, fields-word, fields-IsWord,
  append_assoc, Bool-cases, arith, length-append,
}
use dira.Render.{at_least_one, fill_lines, lines_of, lines}

space_separates : is_space 32 ≡ true
unfolding is_space
space_separates = refl

no_words : fields [] ++ [] ≡ []
unfolding fields
no_words = refl

fill_lines-fields :
    (width : ℕ) (current : Str) (words : List Str)
    → All (IsWord is_space) words
    → concat_map fields (fill_lines width current words) ≡ fields current ++ words
unfolding fill_lines
fill_lines-fields width current [] h = refl
fill_lines-fields width current (word ∷ words) (h, hs) =
    elim (Bool-cases (leb (length current + 1 + length word) width)) [
      | inl e ↦
          rw (e, fill_lines)
            (fill_lines-fields width (current ++ 32 ∷ word) words hs
              ∙ ap (λ x. x ++ words) (fields-append current 32 word space_separates)
              ∙ ap (λ x. (fields current ++ x) ++ words) (fields-word word h)
              ∙ append_assoc (fields current) (word ∷ []) words)
      | inr e ↦ rw (e, fill_lines, fill_lines-fields width word words hs, fields-word word h)
    ]

lines_of-fields :
    (words : List Str) (width : ℕ)
    → All (IsWord is_space) words
    → concat_map fields (lines_of width words) ≡ words
lines_of-fields [] width h = no_words
lines_of-fields (word ∷ words) width (h, hs) =
    rw (fill_lines-fields (at_least_one width) word words hs, fields-word word h)

-- Wrapping keeps the words of the text, each whole and in its place: read one after another, the
-- words of the lines are those of the text.
pub lines-fields : (text : Str) (width : ℕ) → concat_map fields (lines text width) ≡ fields text
unfolding lines
lines-fields text width = lines_of-fields (fields text) width (fields-IsWord text)

module _ (width : ℕ) (all_words : List Str) where
  -- A line that fits, or a single word.
  Fits : Str → Type 0
  Fits l = (length l ≤ width) ⊎ In l all_words

  fill_lines-fit :
      (current : Str) (words : List Str)
      → Fits current
      → ((w : Str) → In w words → In w all_words)
      → All Fits (fill_lines width current words)
  unfolding fill_lines Fits
  fill_lines-fit current [] h sub = (h, tt)
  fill_lines-fit current (word ∷ words) h sub =
      elim (Bool-cases (leb (length current + 1 + length word) width)) [
        | inl e ↦
            rw (e, fill_lines)
              (fill_lines-fit (current ++ 32 ∷ word) words
                (inl (ground (arith, length-append current (32 ∷ word), e))) (λ w m. sub w (inr m)))
        | inr e ↦
            rw (e, fill_lines)
              (h, fill_lines-fit word words (inr (sub word (inl refl))) (λ w m. sub w (inr m)))
      ]

lines_of-fit :
    (words : List Str) (width : ℕ) → All (Fits (at_least_one width) words) (lines_of width words)
unfolding Fits
lines_of-fit [] width = (inl (omega arith), tt)
lines_of-fit (word ∷ words) width =
    fill_lines-fit (at_least_one width) (word ∷ words) word words (inr (inl refl)) (λ w m. inr m)

-- No line is wider than the width, except for a single word of the text that stands alone.
pub lines_fit :
    (text : Str) (width : ℕ)
    → All (λ l. (length l ≤ at_least_one width) ⊎ In l (fields text)) (lines text width)
unfolding lines Fits
lines_fit text width = lines_of-fit (fields text) width
