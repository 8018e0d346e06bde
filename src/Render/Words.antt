-- ===== src/Render/Words.antt =====
-- internal/render/painter.go: the words of a row without a right margin are those of its prefix and its text.
use mathlib.Core.List.{reverse, reverse-append, reverse-reverse, append_assoc, append-nil}
use dira.Prelude.{
  ℕ, ◌≡◌, ◌⊎◌, refl, sym, ap, subst, ◌∙◌, false, true, List, [], ◌∷◌, ◌++◌, Str, newline,
  concat_map, All, All-append, is_nil, is_space, fields, fields-append, trim_left, trim_right, ◌==◌,
  Bool-cases, inl, inr, arith, ◌-◌, length, ltb, if◌then◌else◌,
}
use dira.Render.{Painter, line, lines, paint_rest, paint_lines, row, squeezed}
use dira.Render.Ends.{EndsLine, ends_line, lines-some, line-EndsLine}
use dira.Render.Wrap.{lines-fields}

abbrev pub AreBlanks : Str → Type 0
AreBlanks = All (λ c. c ≡ 32)

space_is : is_space 32 ≡ true
unfolding is_space
space_is = refl

break_is : is_space newline ≡ true
unfolding is_space
break_is = refl

no_fields : fields [] ≡ []
unfolding fields
no_fields = refl

pub fields-blanks : (b s : Str) → AreBlanks b → fields (b ++ s) ≡ fields s
fields-blanks [] s h = refl
fields-blanks (c ∷ b) s (h, hs) = rw h (
    fields-append [] 32 (b ++ s) space_is
    ∙ ap (λ x. x ++ fields (b ++ s)) no_fields
    ∙ fields-blanks b s hs)

fields-blanks_behind : (a b : Str) → AreBlanks b → fields (a ++ b) ≡ fields a
fields-blanks_behind a [] h = ap fields (append-nil a)
fields-blanks_behind a (c ∷ b) (h, hs) = rw h (
    fields-append a 32 b space_is
    ∙ ap (λ x. fields a ++ x) (ap fields (sym (append-nil b)) ∙ fields-blanks b [] hs ∙ no_fields)
    ∙ append-nil (fields a))

trim_left-blanks : (s : Str) → (b : Str) × AreBlanks b × (s ≡ b ++ trim_left (λ c. c == 32) s)
unfolding trim_left
trim_left-blanks [] = ([], tt, refl)
trim_left-blanks (c ∷ s) = elim (Bool-cases (c == 32)) [
  | inr kept ↦ ([], tt, rw (kept, trim_left) refl)
  | inl blank ↦
      let (b, h, same) = trim_left-blanks s in
      (c ∷ b, (ground arith, h), rw (blank, trim_left) (ap (λ x. c ∷ x) same))
]

All-reverse : (P : ℕ → Type 0) (s : Str) → All P s → All P (reverse s)
All-reverse P [] h = tt
All-reverse P (c ∷ s) (p, h) =
    subst (All P) (sym (reverse-append (c ∷ []) s))
      (All-append P (reverse s) (c ∷ []) (All-reverse P s h) (p, tt))

trim_right-fields : (s : Str) → fields (trim_right (λ c. c == 32) s) ≡ fields s
unfolding trim_right
trim_right-fields s =
    let (b, h, same) = trim_left-blanks (reverse s) in
    let kept = trim_left (λ c. c == 32) (reverse s) in
    let split : s ≡ reverse kept ++ reverse b =
      sym (reverse-reverse s) ∙ ap reverse same ∙ reverse-append b kept in
    sym (
      ap fields split
      ∙ fields-blanks_behind (reverse kept) (reverse b) (All-reverse (λ c. c ≡ 32) b h))

-- A text that ends with its line, or nothing at all.
abbrev pub IsClosed : Str → Type 0
IsClosed a = (a ≡ []) ⊎ EndsLine a

fields-broken : (a b : Str) → fields (a ++ newline ∷ b) ≡ fields a ++ fields b
fields-broken a b = fields-append a newline b break_is

fields-closed : (a b : Str) → IsClosed a → fields (a ++ b) ≡ fields a ++ fields b
fields-closed a b (inl e) = rw (e, no_fields) refl
fields-closed a b (inr (ends_line s)) =
    ap fields (append_assoc s (newline ∷ []) b)
    ∙ fields-broken s b
    ∙ ap (λ x. x ++ fields b)
        (sym (fields-broken s [] ∙ ap (λ x. fields s ++ x) no_fields ∙ append-nil (fields s)))

pub line-fields :
    (s : Str) (p : Painter) → IsClosed p.text → fields (line s p).text ≡ fields p.text ++ fields s
unfolding line
line-fields s p h =
    let kept = trim_right (λ c. c == 32) s in
    fields-broken (p.text ++ kept) []
    ∙ ap (λ x. fields (p.text ++ kept) ++ x) no_fields
    ∙ append-nil (fields (p.text ++ kept))
    ∙ fields-closed p.text kept h
    ∙ ap (λ x. fields p.text ++ x) (trim_right-fields s)

paint_rest-fields :
    (cont : Str) (texts : List Str) (p : Painter)
    → AreBlanks cont
    → IsClosed p.text
    → fields (paint_rest cont texts p).text ≡ fields p.text ++ concat_map fields texts
unfolding paint_rest
paint_rest-fields cont [] p b h = sym (append-nil (fields p.text))
paint_rest-fields cont (text ∷ texts) p b h =
    paint_rest-fields cont texts (line (cont ++ text) p) b (inr (line-EndsLine (cont ++ text) p))
    ∙ ap (λ x. x ++ concat_map fields texts)
        (line-fields (cont ++ text) p h ∙ ap (λ x. fields p.text ++ x) (fields-blanks cont text b))
    ∙ append_assoc (fields p.text) (fields text) (concat_map fields texts)

paint_lines-fields :
    (prefix cont : Str) (texts : List Str) (p : Painter)
    → ((s : Str) → fields (prefix ++ s) ≡ fields prefix ++ fields s)
    → AreBlanks cont
    → IsClosed p.text
    → is_nil texts ≡ false
    → fields (paint_lines prefix cont [] texts p).text
      ≡ fields p.text ++ (fields prefix ++ concat_map fields texts)
paint_lines-fields prefix cont [] p apart b h some_text = cc
paint_lines-fields prefix cont (text ∷ texts) p apart b h some_text =
    paint_rest-fields cont texts (line (prefix ++ text) p) b
      (inr (line-EndsLine (prefix ++ text) p))
    ∙ ap (λ x. x ++ concat_map fields texts)
        (line-fields (prefix ++ text) p h ∙ ap (λ x. fields p.text ++ x) (apart text))
    ∙ append_assoc (fields p.text) (fields prefix ++ fields text) (concat_map fields texts)
    ∙ ap (λ x. fields p.text ++ x)
        (append_assoc (fields prefix) (fields text) (concat_map fields texts))

-- A row without a right margin adds the words of its prefix and then those of its text.
pub row-fields :
    (prefix cont left : Str) (p : Painter)
    → ((s : Str) → fields (prefix ++ s) ≡ fields prefix ++ fields s)
    → AreBlanks cont
    → IsClosed p.text
    → fields (row prefix cont left [] p).text ≡ fields p.text ++ (fields prefix ++ fields left)
unfolding row
row-fields prefix cont left p apart b h = elim (Bool-cases (squeezed prefix [] p)) [
  | inl moves ↦ rw moves (painted wide)
  | inr stays ↦ rw stays (painted wide)
]
  where
    wide : ℕ
    wide = let room = p.width - length prefix in if ltb room p.floor then p.floor else room

    painted :
        (wide : ℕ)
        → fields (paint_lines prefix cont [] (lines left wide) p).text
          ≡ fields p.text ++ (fields prefix ++ fields left)
    painted wide =
        paint_lines-fields prefix cont (lines left wide) p apart b h (lines-some left wide)
        ∙ ap (λ x. fields p.text ++ (fields prefix ++ x)) (lines-fields left wide)
