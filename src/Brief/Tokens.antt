-- ===== src/Brief/Tokens.antt =====
-- internal/brief/tokens.go: the token counter.
pub mod Additive
pub mod Pieces
use dira.Prelude.{
  ℕ, ◌+◌, ◌-◌, ◌*◌, ◌/◌, Bool, true, false, ◌&&◌, ◌||◌, List, [], ◌∷◌, Str, is_nil, ltb, leb,
  if◌then◌else◌, fields, split, newline, rune_len, byte_len, length, is_lower, is_digit, ◌==◌,
}

pub data RuneClass : Type 0 where
  class_none class_letter class_digit class_other : RuneClass

abbrev pub class_eq : RuneClass → RuneClass → Bool
class_eq class_none class_none = true
class_eq class_letter class_letter = true
class_eq class_digit class_digit = true
class_eq class_other class_other = true
class_eq _ _ = false

abbrev pub class_of : ℕ → RuneClass
class_of r =
    if is_lower r || (leb b'A' r && leb r b'Z')
    then class_letter
    else if is_digit r
    then class_digit
    else class_other

abbrev pub letters_per_piece : ℕ
letters_per_piece = 4

-- What `wordPieces` keeps while it reads a word.
pub record Count : Type 0 where
  pub pieces : ℕ
  pub run : ℕ
  pub class : RuneClass

-- What a run costs when it ends.
abbrev pub run_cost : RuneClass → ℕ → ℕ
run_cost class_letter run = (run + letters_per_piece - 1) / letters_per_piece
run_cost _ run = run

-- `flush`
abbrev pub flushed : Count → Count
flushed n =
    if n.run == 0 then n else record n { pieces = n.pieces + run_cost n.class n.run; run = 0 }

abbrev pub change_class : RuneClass → Count → Count
change_class c n = if class_eq c n.class then n else record (flushed n) { class = c }

abbrev pub one_more : Count → Count
one_more n = record n { run = n.run + 1 }

unfoldable pub count_rune : ℕ → Count → Count
count_rune r n =
    if ltb 127 r
    then (let m = flushed n in record m { class = class_none; pieces = m.pieces + rune_len r })
    else one_more (change_class (class_of r) n)

abbrev pub count_runes : Str → Count → Count
count_runes [] n = n
count_runes (r ∷ w) n = count_runes w (count_rune r n)

-- `wordPieces`
unfoldable pub word_pieces : Str → ℕ
word_pieces word =
    let n = flushed (count_runes word (record { pieces = 0; run = 0; class = class_none })) in
    if n.pieces == 0 then 1 else n.pieces

abbrev pub sum_pieces : List Str → ℕ
sum_pieces [] = 0
sum_pieces (w ∷ ws) = word_pieces w + sum_pieces ws

abbrev pub sum_bytes : List Str → ℕ
sum_bytes [] = 0
sum_bytes (w ∷ ws) = byte_len w + sum_bytes ws

abbrev pub words_tokens : List Str → ℕ
words_tokens [] = 1
words_tokens (w ∷ ws) =
    let pieces = sum_pieces (w ∷ ws) in
    let byte_floor = (length ws + sum_bytes (w ∷ ws) + 2) / 3 in
    1 + (if ltb pieces byte_floor then byte_floor else pieces)

-- One round of the loop of `Tokens`.
unfoldable pub line_tokens : Str → ℕ
line_tokens line = words_tokens (fields line)

abbrev pub sum_lines : List Str → ℕ
sum_lines [] = 0
sum_lines (l ∷ ls) = line_tokens l + sum_lines ls

-- `Tokens`
unfoldable pub tokens : Str → ℕ
tokens [] = 0
tokens (c ∷ s) = sum_lines (split (c ∷ s) newline)
