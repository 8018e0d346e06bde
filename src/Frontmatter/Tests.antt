-- ===== src/Frontmatter/Tests.antt =====
-- Files that are cut, and the round trip at one of them.
use dira.Prelude.{
  ◌≡◌, ◌≢◌, refl, arith, List, [], ◌∷◌, ◌++◌, Str, codes, some, none, newline, split, trim_right,
  trim_left, All,
}
use dira.Frontmatter.{split_file, split_text, fold_crlf, close_at, closes, unlines}
use dira.Frontmatter.RoundTrip.{IsLine, file_of, split_file-file_of}

abbrev one_field : List Str
one_field = codes "a: b" ∷ []

-- A carriage return in front of a line break is lost, in the body too.
cuts :
    (split_file (
        codes "---"
        ++ newline ∷ codes "a"
        ++ newline ∷ codes "--- "
        ++ newline ∷ codes "x"
        ++ 13 ∷ newline ∷ [])
      ≡ some (codes "a" ++ newline ∷ [], codes "x" ++ newline ∷ []))
    × (split_file (codes "---" ++ newline ∷ codes "a") ≡ none)
unfolding split_file split_text fold_crlf close_at closes split trim_right trim_left
cuts = (refl, refl)

one_field-AllIsLine : All IsLine one_field
unfolding closes trim_right trim_left
one_field-AllIsLine = (
  record {
    one_line = (omega arith, (omega arith, (omega arith, (omega arith, tt))));
    inside = refl;
  },
  tt,
)

no_return : All (λ c. c ≢ 13) (file_of one_field (codes "x"))
no_return = ground arith

split_file-file_of_example :
    split_file (file_of one_field (codes "x")) ≡ some (unlines one_field, codes "x")
split_file-file_of_example = split_file-file_of one_field (codes "x") one_field-AllIsLine no_return
