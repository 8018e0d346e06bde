-- ===== src/Frontmatter/RoundTrip.antt =====
-- frontmatter/frontmatter.go: a file that is put together from a block and a body is cut into them again.
use dira.Prelude.{
  ◌&&◌, trim_right, trim_left, join-split, ◌≡◌, ◌≢◌, refl, ap, ◌∙◌, false, List, [], ◌∷◌, ◌++◌, Str,
  some, All, arith, newline, split, ◌==◌, split-append, split_none,
}
use dira.Frontmatter.{
  fold_crlf, closes, unlines, close_at, split_file, split_text, parts, delimiter,
}

fold_crlf_same : (s : Str) → All (λ c. c ≢ 13) s → fold_crlf s ≡ s
unfolding fold_crlf
fold_crlf_same [] h = refl
fold_crlf_same (c ∷ []) h = refl
fold_crlf_same (c ∷ d ∷ s) (h, hs) =
    rw (not_a_break h, fold_crlf) (ap (λ x. c ∷ x) (fold_crlf_same (d ∷ s) hs))
  where
    not_a_break : c ≢ 13 → ((c == 13) && (d == newline)) ≡ false
    not_a_break h = ground arith

-- A file as it is written: the opening line, the lines of the block, the closing line and the body.
abbrev pub block : List Str → Str → Str
block [] body = delimiter ++ newline ∷ body
block (l ∷ ls) body = l ++ newline ∷ block ls body

abbrev pub file_of : List Str → Str → Str
file_of ls body = delimiter ++ newline ∷ block ls body

-- A line of the block: one line, which does not close it.
pub record IsLine (l : Str) : Type 0 where
  pub one_line : All (λ c. c ≢ newline) l
  pub inside : closes l ≡ false

dashes : All (λ c. c ≢ newline) delimiter
dashes = (omega arith, (omega arith, (omega arith, tt)))

closed : (body : Str) → close_at (delimiter ∷ split body newline) ≡ some ([], split body newline)
unfolding close_at closes trim_right trim_left
closed body = refl

close_at-block :
    (ls : List Str) (body : Str)
    → All IsLine ls
    → close_at (split (block ls body) newline) ≡ some (ls, split body newline)
unfolding close_at
close_at-block [] body h =
    ap close_at (
      split-append delimiter newline body
      ∙ ap (λ x. x ++ split body newline) (split_none delimiter newline dashes))
    ∙ closed body
close_at-block (l ∷ ls) body (h, hs) =
    rw
      (
        split-append l newline (block ls body),
        split_none l newline h.one_line,
        h.inside,
        close_at,
        close_at-block ls body hs,
      )
      refl

-- A file without carriage returns that is put together from the lines of a block and a body is cut into
-- exactly these: the block line by line, and the body as it is.
pub split_file-file_of :
    (ls : List Str) (body : Str)
    → All IsLine ls
    → All (λ c. c ≢ 13) (file_of ls body)
    → split_file (file_of ls body) ≡ some (unlines ls, body)
unfolding split_file split_text
split_file-file_of ls body h k =
    ap split_text (fold_crlf_same (file_of ls body) k)
    ∙ ap parts (close_at-block ls body h)
    ∙ ap (λ x. some (unlines ls, x)) (join-split body newline)
