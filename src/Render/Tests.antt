-- ===== src/Render/Tests.antt =====
-- Rows at concrete widths, and the theorems at a concrete text.
use dira.Prelude.{
  ◌≡◌, ◌≤◌, ◌⊎◌, refl, [], ◌∷◌, ◌++◌, Str, codes, newline, length, fields, concat_map, All, In,
  fields_func, fields_loop, trim_right, is_space, trim_left,
}
use dira.Render.{lines, fill_lines, at_least_one, new_painter, row, paint_rest, line}
use dira.Render.Wrap.{lines-fields, lines_fit}

abbrev text : Str
text = codes "one two  three four"

wrapped : lines text 9 ≡ codes "one two" ∷ codes "three" ∷ codes "four" ∷ []
unfolding lines fill_lines fields fields_func fields_loop is_space
wrapped = refl

-- A status is set at the right margin of the first line.
painted :
    (row (codes "a ") (codes "  ") (codes "one two three") (codes "ok") (new_painter 14 6)).text
    ≡ codes "a one two   ok" ++ newline ∷ codes "  three" ++ newline ∷ []
unfolding row lines fill_lines fields fields_func fields_loop is_space paint_rest line trim_right
    trim_left
painted = refl

lines-fields_example : concat_map fields (lines text 9) ≡ fields text
lines-fields_example = lines-fields text 9

lines_fit_example : All (λ l. (length l ≤ at_least_one 4) ⊎ In l (fields text)) (lines text 4)
lines_fit_example = lines_fit text 4
