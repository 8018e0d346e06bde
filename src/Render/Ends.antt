-- ===== src/Render/Ends.antt =====
-- internal/render/painter.go: what is painted ends with its line.
use dira.Prelude.{
  codes, ℕ, ◌≡◌, refl, subst, false, List, [], ◌∷◌, ◌++◌, Str, newline, append_assoc, is_nil,
  if_both, if◌then◌else◌, ◌==◌, trim_right, fields, length, leb, ltb, ◌+◌, ◌-◌, Bool-cases, inl,
  inr,
}
use dira.Render.{
  Painter, line, fill_lines, lines_of, lines, paint_rest, first_line, paint_lines, paint_trailing,
  row, entry_row, squeezed, spaces,
}

pub data EndsLine : Str → Type 0 where
  ends_line : (s : Str) → EndsLine (s ++ newline ∷ [])

-- A line may be put after any text.
pub EndsLine-append : (a b : Str) → EndsLine b → EndsLine (a ++ b)
EndsLine-append a _ (ends_line s) =
    subst EndsLine (append_assoc a s (newline ∷ [])) (ends_line (a ++ s))

pub line-EndsLine : (s : Str) (p : Painter) → EndsLine ((line s p).text)
unfolding line
line-EndsLine s p = ends_line (p.text ++ trim_right (λ c. c == 32) s)

paint_rest-EndsLine :
    (cont : Str) (texts : List Str) (p : Painter)
    → EndsLine p.text
    → EndsLine ((paint_rest cont texts p).text)
unfolding paint_rest
paint_rest-EndsLine cont [] p h = h
paint_rest-EndsLine cont (text ∷ texts) p h =
    paint_rest-EndsLine cont texts (line (cont ++ text) p) (line-EndsLine (cont ++ text) p)

Ends : Painter → Type 0
Ends p = EndsLine p.text

first_line-EndsLine :
    (prefix right text : Str) (p : Painter) → Ends (first_line prefix right text p)
unfolding Ends
first_line-EndsLine prefix right text p =
    if_both Ends (is_nil right) (line-EndsLine (prefix ++ text) p) (line-EndsLine _ p)

paint_lines-EndsLine :
    (prefix cont right : Str) (texts : List Str) (p : Painter)
    → is_nil texts ≡ false
    → Ends (paint_lines prefix cont right texts p)
unfolding Ends
paint_lines-EndsLine prefix cont right [] p h = cc
paint_lines-EndsLine prefix cont right (text ∷ texts) p h =
    paint_rest-EndsLine cont texts (first_line prefix right text p)
      (first_line-EndsLine prefix right text p)

fill_lines-some :
    (width : ℕ) (current : Str) (words : List Str) → is_nil (fill_lines width current words) ≡ false
unfolding fill_lines
fill_lines-some width current [] = refl
fill_lines-some width current (word ∷ words) =
    elim (Bool-cases (leb (length current + 1 + length word) width)) [
      | inl e ↦ rw (e, fill_lines) (fill_lines-some width (current ++ 32 ∷ word) words)
      | inr e ↦ rw (e, fill_lines) refl
    ]

pub lines-some : (text : Str) (width : ℕ) → is_nil (lines text width) ≡ false
unfolding lines
lines-some text width = go (fields text)
  where
    go : (words : List Str) → is_nil (lines_of width words) ≡ false
    go [] = refl
    go (word ∷ words) = fill_lines-some _ word words

paint_trailing-EndsLine :
    (cont trailing : Str) (p : Painter) → Ends p → Ends (paint_trailing cont trailing p)
unfolding Ends
paint_trailing-EndsLine cont trailing p h = if_both Ends (is_nil trailing) h (line-EndsLine _ p)

pub row-EndsLine :
    (prefix cont left right : Str) (p : Painter) → EndsLine ((row prefix cont left right p).text)
unfolding row Ends
row-EndsLine prefix cont left right p =
    let moves = squeezed prefix right p in
    let shown = if moves then [] else right in
    let avail = p.width - length prefix in
    let room = if is_nil shown then avail else avail - (length right + 2) in
    let wide = if ltb room p.floor then p.floor else room in
    let texts = lines left wide in
    paint_trailing-EndsLine cont (if moves then right else [])
      (paint_lines prefix cont shown texts p)
      (paint_lines-EndsLine prefix cont shown texts p (lines-some left wide))

pub entry_row-EndsLine :
    (prefix cont ref title right : Str) (p : Painter)
    → EndsLine ((entry_row prefix cont ref title right p).text)
unfolding entry_row
entry_row-EndsLine prefix cont ref title right p =
    row-EndsLine (prefix ++ ref ++ codes "  ") (cont ++ spaces (length ref + 2)) title right p
