-- ===== src/Frontmatter.antt =====
-- frontmatter/frontmatter.go: an entry's file is cut into its YAML frontmatter and its body.
pub mod RoundTrip
mod Tests
use dira.Prelude.{
  Bool, true, false, List, [], ◌∷◌, ◌++◌, Option, none, some, Str, codes, str_eq, ◌==◌, ◌||◌, ◌&&◌,
  if◌then◌else◌, split, join, newline, trim_right, concat_map, has_prefix, drop, not,
}

-- `strings.ReplaceAll(content, "\r\n", "\n")`
unfoldable pub fold_crlf : Str → Str
fold_crlf [] = []
fold_crlf (c ∷ []) = c ∷ []
fold_crlf (c ∷ d ∷ s) =
    let rest = fold_crlf (d ∷ s) in if (c == 13) && (d == newline) then rest else c ∷ rest

abbrev pub delimiter : Str
delimiter = codes "---"

-- A line that closes the block: blanks and tabs at its end do not count.
unfoldable pub closes : Str → Bool
unfolding trim_right
closes line = str_eq (trim_right (λ c. (c == 32) || (c == 9)) line) delimiter

-- Each line with its line break.
abbrev pub unlines : List Str → Str
unlines = concat_map (λ l. l ++ newline ∷ [])

-- The loop over the lines: those in front of the closing line, and those after it.
unfoldable pub close_at : List Str → Option (List Str × List Str)
unfolding closes
close_at [] = none
close_at (line ∷ lines) = elim (closes line) [
  | true ↦ some ([], lines)
  | false ↦ elim (close_at lines) [ none ↦ none | some (front, body) ↦ some (line ∷ front, body) ]
]

abbrev pub parts : Option (List Str × List Str) → Option (Str × Str)
parts none = none
parts (some (front, body)) = some (unlines front, join body (newline ∷ []))

-- `Split` of a text whose line breaks are folded; without a block there is `ErrMissing`.
unfoldable pub split_text : Str → Option (Str × Str)
unfolding close_at split
split_text text =
    if has_prefix text (codes "---" ++ newline ∷ [])
    then parts (close_at (split (drop 4 text) newline))
    else none

-- `Split`
unfoldable pub split_file : Str → Option (Str × Str)
unfolding fold_crlf split_text
split_file content = split_text (fold_crlf content)
