-- ===== src/Brief/Tokens/Pieces.antt =====
-- internal/brief/tokens.go, `wordPieces`: how far the estimate can be from the bytes of a word.
use dira.Prelude.{
  ℕ, ◌+◌, ◌*◌, ◌≡◌, ◌≤◌, refl, false, Bool-cases, inl, inr, [], ◌∷◌, Str, is_nil, ltb, rune_len,
  byte_len, ◌==◌, arith,
}
use dira.Brief.Tokens.{
  Count, RuneClass, class_none, class_letter, class_digit, class_other, run_cost, flushed,
  change_class, count_rune, count_runes, class_of, class_eq, word_pieces,
}

-- The bytes that are read lie between the pieces and four times the pieces, the open run counted as
-- its letters.
Covers : Count → ℕ → Type 0
Covers n b = (b ≤ 4 * n.pieces + n.run) × (n.pieces + n.run ≤ b)

run_cost_bounds : (c : RuneClass) (run : ℕ) → (run ≤ 4 * run_cost c run) × (run_cost c run ≤ run)
run_cost_bounds class_letter run = (omega arith, omega arith)
run_cost_bounds class_none run = (omega arith, omega arith)
run_cost_bounds class_digit run = (omega arith, omega arith)
run_cost_bounds class_other run = (omega arith, omega arith)

flushed-Covers : (n : Count) (b : ℕ) → Covers n b → Covers (flushed n) b × ((flushed n).run ≡ 0)
unfolding Covers
flushed-Covers n b h = elim (Bool-cases (n.run == 0)) [
  | inl e ↦ rw e (h, ground arith)
  | inr e ↦ rw e (ground (arith, run_cost_bounds n.class n.run), refl)
]

change_class-Covers : (c : RuneClass) (n : Count) (b : ℕ) → Covers n b → Covers (change_class c n) b
unfolding Covers
change_class-Covers c n b h = elim (Bool-cases (class_eq c n.class)) [
  | inl e ↦ rw e h
  | inr e ↦ rw e ((flushed-Covers n b h).0)
]

count_rune-Covers :
    (r : ℕ) (n : Count) (b : ℕ) → Covers n b → Covers (count_rune r n) (b + rune_len r)
unfolding Covers count_rune
count_rune-Covers r n b h = elim (Bool-cases (ltb 127 r)) [
  | inl e ↦ rw (e, count_rune) (ground (arith, flushed-Covers n b h))
  | inr e ↦ rw (e, count_rune) (ground (arith, change_class-Covers (class_of r) n b h))
]

count_runes-Covers :
    (w : Str) (n : Count) (b : ℕ) → Covers n b → Covers (count_runes w n) (b + byte_len w)
unfolding Covers
count_runes-Covers [] n b h = ground (arith, h)
count_runes-Covers (r ∷ w) n b h =
    ground
      (arith, count_runes-Covers w (count_rune r n) (b + rune_len r) (count_rune-Covers r n b h))

some_bytes : (c : ℕ) → 1 ≤ rune_len c
some_bytes c = ground arith

-- A word that is not empty is charged at most its bytes, and at least a quarter of them.
pub word_pieces_bounds :
    (w : Str) → is_nil w ≡ false → (word_pieces w ≤ byte_len w) × (byte_len w ≤ 4 * word_pieces w)
unfolding word_pieces Covers
word_pieces_bounds [] h = cc
word_pieces_bounds (c ∷ w) h =
    let last = count_runes (c ∷ w) (record { pieces = 0; run = 0; class = class_none }) in
    let covers : Covers last (0 + byte_len (c ∷ w)) =
      count_runes-Covers (c ∷ w) _ 0 (omega arith, omega arith) in
    ground (arith, flushed-Covers last _ covers, some_bytes c)
