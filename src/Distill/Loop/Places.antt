-- ===== src/Distill/Loop/Places.antt =====
-- Places in a list, as the loop over the keystrokes uses them.
use dira.Prelude.{
  ℕ, zero, suc, ◌≤◌, ◌<◌, ◌≡◌, refl, List, [], ◌∷◌, ◌++◌, map, length, take, some, arith, ap, subst,
  sym, ◌∙◌,
}
use dira.Distill.Loop.{get_elem?, set_elem, without_last}

pub get_elem-lt :
    {A : Type 0} (xs : List A) (i : ℕ) → i < length xs → (x : A) × (get_elem? xs i ≡ some x)
unfolding get_elem?
get_elem-lt [] i h = absurd (omega arith)
get_elem-lt (x ∷ xs) zero h = (x, refl)
get_elem-lt (x ∷ xs) (suc i) h = get_elem-lt xs i (omega arith)

pub take-get_elem :
    {A B : Type 0} (f : A → B) (xs : List A) (i : ℕ) (x : A)
    → get_elem? xs i ≡ some x
    → take (suc i) (map f xs) ≡ take i (map f xs) ++ f x ∷ []
unfolding get_elem?
take-get_elem f [] i x h = absurd (cc)
take-get_elem f (y ∷ xs) zero x h = let e : y ≡ x = cc in ap (λ z. f z ∷ []) e
take-get_elem f (y ∷ xs) (suc i) x h = ap (λ r. f y ∷ r) (take-get_elem f xs i x h)

pub take-set_elem :
    {A B : Type 0} (f : A → B) (xs : List A) (i : ℕ) (y : A)
    → take i (map f (set_elem xs i y)) ≡ take i (map f xs)
unfolding set_elem
take-set_elem f [] i y = refl
take-set_elem f (x ∷ xs) zero y = refl
take-set_elem f (x ∷ xs) (suc i) y = ap (λ r. f x ∷ r) (take-set_elem f xs i y)

pub length-set_elem :
    {A : Type 0} (xs : List A) (i : ℕ) (y : A) → length (set_elem xs i y) ≡ length xs
unfolding set_elem
length-set_elem [] i y = refl
length-set_elem (x ∷ xs) zero y = refl
length-set_elem (x ∷ xs) (suc i) y = ap suc (length-set_elem xs i y)

pub without_last-snoc : {A : Type 0} (xs : List A) (x : A) → without_last (xs ++ x ∷ []) ≡ some xs
unfolding without_last
without_last-snoc [] x = refl
without_last-snoc (y ∷ []) x = refl
without_last-snoc (y ∷ z ∷ xs) x = rw (without_last-snoc (z ∷ xs) x) refl

pub snoc_injective : {A : Type 0} (xs ys : List A) (x y : A) → xs ++ x ∷ [] ≡ ys ++ y ∷ [] → xs ≡ ys
snoc_injective xs ys x y h =
    let one : without_last (ys ++ y ∷ []) ≡ some xs =
      subst (λ zs. without_last zs ≡ some xs) h (without_last-snoc xs x) in
    cc (one, without_last-snoc ys y)

pub length-map : {A B : Type 0} (f : A → B) (xs : List A) → length (map f xs) ≡ length xs
length-map f [] = refl
length-map f (x ∷ xs) = ap suc (length-map f xs)

pub length-take : {A : Type 0} (n : ℕ) (xs : List A) → n ≤ length xs → length (take n xs) ≡ n
length-take zero xs h = refl
length-take (suc n) [] h = absurd (omega arith)
length-take (suc n) (x ∷ xs) h = ap suc (length-take n xs (omega arith))

pub map-snoc :
    {A B : Type 0} (f : A → B) (xs : List A) (x : A) → map f (xs ++ x ∷ []) ≡ map f xs ++ f x ∷ []
map-snoc f [] x = refl
map-snoc f (y ∷ xs) x = ap (λ r. f y ∷ r) (map-snoc f xs x)

pub map-set_elem :
    {A B : Type 0} (f : A → B) (xs : List A) (i : ℕ) (x y : A)
    → get_elem? xs i ≡ some x
    → f y ≡ f x
    → map f (set_elem xs i y) ≡ map f xs
unfolding get_elem? set_elem
map-set_elem f [] i x y h e = refl
map-set_elem f (z ∷ xs) zero x y h e =
    let same : z ≡ x = cc in ap (λ b. b ∷ map f xs) (e ∙ ap f (sym same))
map-set_elem f (z ∷ xs) (suc i) x y h e = ap (λ r. f z ∷ r) (map-set_elem f xs i x y h e)

abbrev last_or : {A : Type 0} → A → List A → A
last_or d [] = d
last_or d (x ∷ xs) = last_or x xs

last_or-snoc : {A : Type 0} (d : A) (xs : List A) (x : A) → last_or d (xs ++ x ∷ []) ≡ x
last_or-snoc d [] x = refl
last_or-snoc d (y ∷ xs) x = last_or-snoc y xs x

pub snoc_last : {A : Type 0} (xs ys : List A) (x y : A) → xs ++ x ∷ [] ≡ ys ++ y ∷ [] → x ≡ y
snoc_last xs ys x y h = sym (last_or-snoc x xs x) ∙ ap (last_or x) h ∙ last_or-snoc x ys y
