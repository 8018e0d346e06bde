-- ===== src/Brief/Tokens/Additive.antt =====
-- internal/brief/tokens.go, `Tokens`: the count of a text that is put together from blocks.
use dira.Prelude.{
  fields, fields_func, fields_loop, ℕ, ◌+◌, ◌≡◌, refl, ap, ◌∙◌, List, [], ◌∷◌, ◌++◌, Str, is_nil,
  if◌then◌else◌, split, split-append, newline, arith,
}
use dira.Brief.Tokens.{tokens, sum_lines, line_tokens}

sum_lines-append : (xs ys : List Str) → sum_lines (xs ++ ys) ≡ sum_lines xs + sum_lines ys
sum_lines-append [] ys = omega arith
sum_lines-append (x ∷ xs) ys = omega (arith, sum_lines-append xs ys)

tokens-lines :
    (a : Str) (c : ℕ) (b : Str) → tokens (a ++ c ∷ b) ≡ sum_lines (split (a ++ c ∷ b) newline)
unfolding tokens
tokens-lines [] c b = refl
tokens-lines (d ∷ a) c b = refl

tokens-break :
    (a b : Str)
    → tokens (a ++ newline ∷ b) ≡ sum_lines (split a newline) + sum_lines (split b newline)
tokens-break a b =
    tokens-lines a newline b
    ∙ ap sum_lines (split-append a newline b)
    ∙ sum_lines-append (split a newline) (split b newline)

no_line : sum_lines (split [] newline) ≡ 1
unfolding split line_tokens fields fields_func fields_loop
no_line = refl

-- The tokens of a text are those of its first lines and those of the rest, less the one token that
-- the first part is charged for what follows its last line break.
pub tokens_additive :
    (a b : Str)
    → tokens (a ++ newline ∷ b) + (if is_nil b then 0 else 1)
      ≡ tokens (a ++ newline ∷ []) + tokens b
unfolding tokens
tokens_additive a [] = omega (arith)
tokens_additive a (c ∷ b) =
    omega (arith, tokens-break a [], tokens-break a (c ∷ b), no_line, tokens-lines [] c b)
