-- ===== src/Render.antt =====
-- internal/render/painter.go: the column layout of dira's text output. A painter is what it has painted
-- so far, at a width and with a floor under the space that is kept for text.
pub mod Wrap
pub mod Ends
pub mod Words
mod Tests
use dira.Prelude.{
  ℕ, zero, suc, ◌+◌, ◌-◌, ◌≡◌, Bool, true, false, List, [], ◌∷◌, ◌++◌, Str, codes, length, leb, ltb,
  is_nil, if◌then◌else◌, fields, trim_right, newline, ◌==◌, replicate,
}

pub record Painter : Type 0 where
  pub text : Str
  pub width : ℕ
  pub floor : ℕ

abbrev pub at_least_one : ℕ → ℕ
at_least_one n = if ltb n 1 then 1 else n

-- `New`
abbrev pub new_painter : ℕ → ℕ → Painter
new_painter width floor = record {
  text = [];
  width = at_least_one width;
  floor = at_least_one floor;
}

abbrev pub spaces : ℕ → Str
spaces n = replicate n 32

-- `Line`
unfoldable pub line : Str → Painter → Painter
line s p = record p { text = p.text ++ trim_right (λ c. c == 32) s ++ newline ∷ [] }

-- The loop of `Lines`; `current` is the line that is being filled.
unfoldable pub fill_lines : ℕ → Str → List Str → List Str
fill_lines width current [] = current ∷ []
fill_lines width current (word ∷ words) =
    if leb (length current + 1 + length word) width
    then fill_lines width (current ++ 32 ∷ word) words
    else current ∷ fill_lines width word words

abbrev pub lines_of : ℕ → List Str → List Str
lines_of width [] = [] ∷ []
lines_of width (word ∷ words) = fill_lines (at_least_one width) word words

-- `Lines`
unfoldable pub lines : Str → ℕ → List Str
unfolding fill_lines fields
lines text width = lines_of width (fields text)

unfoldable pub paint_rest : Str → List Str → Painter → Painter
paint_rest cont [] p = p
paint_rest cont (text ∷ texts) p = paint_rest cont texts (line (cont ++ text) p)

-- The first line of a row, with what stands at the right margin.
abbrev pub first_line : Str → Str → Str → Painter → Painter
first_line prefix right text p =
    if is_nil right
    then line (prefix ++ text) p
    else let pad = p.width - length prefix - length text - length right in
      line (prefix ++ text ++ spaces (if ltb pad 2 then 2 else pad) ++ right) p

abbrev pub paint_lines : Str → Str → Str → List Str → Painter → Painter
paint_lines prefix cont right [] p = p
paint_lines prefix cont right (text ∷ texts) p =
    paint_rest cont texts (first_line prefix right text p)

-- A right margin that has no room on the first line.
abbrev pub paint_trailing : Str → Str → Painter → Painter
paint_trailing cont trailing p =
    if is_nil trailing
    then p
    else let pad = p.width - length trailing in
      line (spaces (if ltb pad (length cont) then length cont else pad) ++ trailing) p

abbrev pub squeezed : Str → Str → Painter → Bool
squeezed prefix right p = ltb (p.width - length prefix - length right - 2) p.floor

-- `Row`. Where Go's differences fall below zero, they are below the floor, which is at least one.
unfoldable pub row : Str → Str → Str → Str → Painter → Painter
unfolding lines paint_rest line
row prefix cont left right p =
    let avail = p.width - length prefix in
    let moves = squeezed prefix right p in
    let shown = if moves then [] else right in
    let trailing = if moves then right else [] in
    let room = if is_nil shown then avail else avail - (length right + 2) in
    paint_trailing cont trailing
      (paint_lines prefix cont shown (lines left (if ltb room p.floor then p.floor else room)) p)

-- `EntryRow` and `EntryBlock`
unfoldable pub entry_row : Str → Str → Str → Str → Str → Painter → Painter
entry_row prefix cont ref title right p =
    row (prefix ++ ref ++ codes "  ") (cont ++ spaces (length ref + 2)) title right p

unfoldable pub entry_block : Str → Str → Str → Str → Str → Str → Painter → Painter
unfolding entry_row
entry_block prefix cont ref title right note p =
    let painted = entry_row prefix cont ref title right p in
    let under = cont ++ spaces (length ref + 4) in
    if is_nil note then painted else row under under note [] painted

-- `Label`
unfoldable pub label : Str → Str → Str → Painter → Painter
label prefix name text p =
    let gap = name ++ codes "  " in row (prefix ++ gap) (prefix ++ spaces (length gap)) text [] p
