-- ===== src/Ledger/Write/Numbers.antt =====
-- `FormatID` and `idNumber`: a number is read back from its id, and the id is well-formed.
use dira.Prelude.{
  ℕ, zero, suc, ◌+◌, ◌-◌, ◌*◌, ◌/◌, ◌%◌, ◌≤◌, ◌<◌, ◌≡◌, ◌≢◌, ◌∙◌, refl, true, [], ◌∷◌, ◌++◌, some,
  arith, Str, length, all, is_digit, str_eq_refl, ltb, Bool-cases, inl, inr,
}
use mathlib.Core.List.{concat-ne-nil}
use dira.Ledger.Entry.{Kind, prefix}
use dira.Ledger.Validate.WellFormed.{IsIdOf, cut-prefix}
use dira.Ledger.Write.{digits, pad_four, format_id, max_int, decimal, id_number}

decimal-append : (xs : Str) (c n : ℕ) → decimal n (xs ++ c ∷ []) ≡ decimal n xs * 10 + (c - b'0')
decimal-append [] c n = refl
decimal-append (x ∷ xs) c n = decimal-append xs c (n * 10 + (x - b'0'))

decimal-digits : (fuel n : ℕ) → n < fuel → decimal 0 (digits fuel n) ≡ n
unfolding digits
decimal-digits zero n h = absurd (omega arith)
decimal-digits (suc fuel) n h = elim (Bool-cases (ltb n 10)) [
  | inl small ↦ ground arith
  | inr big ↦
      rw (big, decimal-append (digits fuel (n / 10)) (b'0' + n % 10) 0)
        (ground (arith, decimal-digits fuel (n / 10)))
]

all-append :
    (xs ys : Str) → all is_digit xs ≡ true → all is_digit ys ≡ true → all is_digit (xs ++ ys) ≡ true
all-append [] ys h k = k
all-append (x ∷ xs) ys h k = ground (arith, all-append xs ys)

all-digits : (fuel n : ℕ) → all is_digit (digits fuel n) ≡ true
unfolding digits
all-digits zero n = refl
all-digits (suc fuel) n = elim (Bool-cases (ltb n 10)) [
  | inl small ↦ ground arith
  | inr big ↦ rw big (all-append (digits fuel (n / 10)) _ (all-digits fuel (n / 10)) (ground arith))
]

pad_four_lem :
    (s : Str)
    → s ≢ []
    → all is_digit s ≡ true
    → (decimal 0 (pad_four s) ≡ decimal 0 s)
      × (all is_digit (pad_four s) ≡ true)
      × (4 ≤ length (pad_four s))
unfolding pad_four
pad_four_lem [] h d = absurd (h refl)
pad_four_lem (a ∷ []) h d = ground arith
pad_four_lem (a ∷ b ∷ []) h d = ground arith
pad_four_lem (a ∷ b ∷ c ∷ []) h d = ground arith
pad_four_lem (a ∷ b ∷ c ∷ e ∷ s) h d = ground arith

digits-ne-nil : (n : ℕ) → digits (suc n) n ≢ []
unfolding digits
digits-ne-nil n h = elim (Bool-cases (ltb n 10)) [
  | inl small ↦ ground arith
  | inr big ↦ concat-ne-nil _ (digits n (n / 10)) (rw big at h)
]

number_text : (n : ℕ) → Str
number_text n = pad_four (digits (suc n) n)

number_text_lem :
    (n : ℕ)
    → (decimal 0 (number_text n) ≡ n)
      × (all is_digit (number_text n) ≡ true)
      × (4 ≤ length (number_text n))
unfolding number_text
number_text_lem n =
    let (value, ds, four) =
      pad_four_lem (digits (suc n) n) (digits-ne-nil n) (all-digits (suc n) n) in
    (value ∙ decimal-digits (suc n) n (omega arith), ds, four)

-- `FormatID` writes a well-formed id of its kind.
pub format_id-IsIdOf : (k : Kind) (n : ℕ) → IsIdOf k (format_id k n)
unfolding format_id number_text
format_id-IsIdOf k n =
    let (_, ds, four) = number_text_lem n in (pad_four (digits (suc n) n), refl, four, ds)

-- The number that `Add` put into an id is read back from it, for every kind of the vocabulary and
-- every number that an `int` holds.
pub id_number-format_id :
    (k : Kind) (n : ℕ) → prefix k ≢ [] → n ≤ max_int → id_number (format_id k n) k ≡ some n
unfolding id_number format_id number_text
id_number-format_id k n known fits =
    let (value, ds, four) = number_text_lem n in
    let (at_dash, among) = cut-prefix k (pad_four (digits (suc n) n)) known in
    ground (arith, str_eq_refl (prefix k))
