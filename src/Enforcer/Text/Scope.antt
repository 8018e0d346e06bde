-- ===== src/Enforcer/Text/Scope.antt =====
-- What the negation scope of a clause comes to.
use dira.Prelude.{
  ℕ, suc, ◌+◌, ◌≤◌, ◌<◌, ◌≡◌, refl, ap, ◌∙◌, Bool, true, false, ◌||◌, List, [], ◌∷◌, ◌++◌, Option,
  none, some, arith, Str, length, is_nil, if◌then◌else◌, ltb, all, any, Bool-cases, inl, inr, ◌⊎◌,
  length-append, append-nil,
}
use dira.Enforcer.Words.{is_cue, is_stopword, stem}
use dira.Enforcer.Text.{
  Term, Span, first_cue, last_content, negated_range, terms_at, scope_negation,
}

-- The content words of a clause, all of one polarity.
pub contents : Bool → List Str → Span
contents b [] = []
contents b (w ∷ ws) =
    let rest = contents b ws in
    if is_cue w || is_stopword w
    then rest
    else if is_nil (stem w)
    then rest
    else record { word = stem w; negated = b } ∷ rest

abbrev pub NoCue : List Str → Type 0
NoCue ws = any is_cue ws ≡ false

-- Every place from `i` on gets the polarity `b`.
terms_at-contents :
    (b : Bool) (from before i : ℕ) (ws : List Str)
    → ((j : ℕ) → i ≤ j → j < i + length ws → (ltb from j || ltb j before) ≡ b)
    → terms_at from before i ws ≡ contents b ws
unfolding terms_at contents
terms_at-contents b from before i [] h = refl
terms_at-contents b from before i (w ∷ ws) h = rw (
  terms_at-contents b from before (suc i) ws (λ j p q. h j (omega arith) (omega arith)),
  h i (omega arith) (omega arith),
)

if_append :
    (a b : Bool) (u v : Span) (t : Term)
    → (if a then u ++ v else if b then u ++ v else t ∷ (u ++ v))
      ≡ (if a then u else if b then u else t ∷ u) ++ v
if_append true b u v t = refl
if_append false true u v t = refl
if_append false false u v t = refl

terms_at-append :
    (from before i : ℕ) (xs ys : List Str)
    → terms_at from before i (xs ++ ys)
      ≡ terms_at from before i xs ++ terms_at from before (i + length xs) ys
unfolding terms_at
terms_at-append from before i [] ys = ap (λ (k : ℕ). terms_at from before k ys) (omega arith)
terms_at-append from before i (x ∷ xs) ys =
    let shift : i + suc (length xs) ≡ suc i + length xs = omega arith in
    rw (shift, terms_at-append from before (suc i) xs ys)
      (if_append (is_cue x || is_stopword x) (is_nil (stem x)) _ _ _)

first_cue-none : (i : ℕ) (ws : List Str) → NoCue ws → first_cue i ws ≡ none
unfolding first_cue
first_cue-none i [] h = refl
first_cue-none i (w ∷ ws) h = ground (arith, first_cue-none (suc i) ws)

first_cue_at :
    (i : ℕ) (pre post : List Str) (cue : Str)
    → NoCue pre
    → is_cue cue ≡ true
    → first_cue i (pre ++ cue ∷ post) ≡ some (i + length pre)
unfolding first_cue
first_cue_at i [] post cue h c = rw c (ap {B = Option ℕ} some (omega arith))
first_cue_at i (w ∷ pre) post cue h c = ground (arith, first_cue_at (suc i) pre post cue)

last_content-none : (i : ℕ) (ws : List Str) → all is_cue ws ≡ true → last_content i ws ≡ none
unfolding last_content
last_content-none i [] h = refl
last_content-none i (w ∷ ws) h = ground (arith, last_content-none (suc i) ws)

last_content-some :
    (i : ℕ) (ws : List Str)
    → all is_cue ws ≡ false
    → (l : ℕ) × (last_content i ws ≡ some l) × (i ≤ l) × (l < i + length ws)
unfolding last_content
last_content-some i [] h = absurd (cc)
last_content-some i (w ∷ ws) h = elim (Bool-cases (all is_cue ws)) [
  | inr more ↦
      let (l, e, low, high) = last_content-some (suc i) ws more in
      (l, rw e refl, omega arith, omega arith)
  | inl rest ↦ (i, ground (arith, last_content-none (suc i) ws rest), omega arith, omega arith)
]

last_content-append :
    (i : ℕ) (xs ys : List Str) (l : ℕ)
    → last_content (i + length xs) ys ≡ some l
    → last_content i (xs ++ ys) ≡ some l
unfolding last_content
last_content-append i [] ys l h = ap (λ (k : ℕ). last_content k ys) (omega arith) ∙ h
last_content-append i (x ∷ xs) ys l h =
    let e : i + suc (length xs) ≡ suc i + length xs = omega arith in
    rw (last_content-append (suc i) xs ys l (rw e at h)) refl

-- With nothing but cues behind `xs`, the last content word is in `xs`.
last_content_front :
    (i : ℕ) (xs ys : List Str)
    → all is_cue ys ≡ true
    → (last_content i (xs ++ ys) ≡ none)
      ⊎ ((l : ℕ) × (last_content i (xs ++ ys) ≡ some l) × (l < i + length xs))
unfolding last_content
last_content_front i [] ys h = inl (last_content-none i ys h)
last_content_front i (x ∷ xs) ys h = elim (last_content_front (suc i) xs ys h) [
  | inr (l, e, high) ↦ inr (l, rw e refl, omega arith)
  | inl e ↦ elim (Bool-cases (is_cue x)) [
    | inl cue ↦ inl (rw (e, cue) refl)
    | inr word ↦ inr (i, rw (e, word) refl, omega arith)
  ]
]

-- How a clause is read: a clause with no cue is asserted. Otherwise the words behind the first cue
-- are negated, unless all of them are cues: then it is the words in front that are.
pub data Reads (ws : List Str) (sp : Span) : Type 0 where
  asserted : NoCue ws → sp ≡ contents false ws → Reads ws sp
  cue_opens :
      (pre post : List Str) (cue : Str)
      → ws ≡ pre ++ cue ∷ post
      → NoCue pre
      → is_cue cue ≡ true
      → all is_cue post ≡ false
      → sp ≡ contents false pre ++ contents true post
      → Reads ws sp
  cue_closes :
      (pre post : List Str) (cue : Str)
      → ws ≡ pre ++ cue ∷ post
      → NoCue pre
      → is_cue cue ≡ true
      → all is_cue post ≡ true
      → sp ≡ contents true pre
      → Reads ws sp

split_at_cue :
    (ws : List Str)
    → NoCue ws
      ⊎ ((pre post : List Str) × (cue : Str) × (ws ≡ pre ++ cue ∷ post)
          × NoCue pre
          × (is_cue cue ≡ true))
split_at_cue [] = inl refl
split_at_cue (w ∷ ws) = elim (Bool-cases (is_cue w)) [
  | inl cue ↦ inr ([], ws, w, refl, refl, cue)
  | inr word ↦ elim (split_at_cue ws) [
    | inl none_left ↦ inl (ground arith)
    | inr (pre, post, cue, e, before, is) ↦ inr (w ∷ pre, post, cue, rw e refl, ground arith, is)
  ]
]

-- A cue contributes no term.
terms_at_cue :
    (from before i : ℕ) (cue : Str) (post : List Str)
    → is_cue cue ≡ true
    → terms_at from before i (cue ∷ post) ≡ terms_at from before (suc i) post
unfolding terms_at
terms_at_cue from before i cue post h = rw h refl

contents_cues : (b : Bool) (ws : List Str) → all is_cue ws ≡ true → contents b ws ≡ []
unfolding contents
contents_cues b [] h = refl
contents_cues b (w ∷ ws) h = ground (arith, contents_cues b ws)

range_none : (ws : List Str) → first_cue 0 ws ≡ none → negated_range ws ≡ (length ws, 0)
unfolding negated_range
range_none ws h = rw (h, negated_range)

range_opens :
    (ws : List Str) (f l : ℕ)
    → first_cue 0 ws ≡ some f
    → last_content 0 ws ≡ some l
    → f < l
    → negated_range ws ≡ (f, 0)
unfolding negated_range
range_opens ws f l h k lt = ground arith

range_closes :
    (ws : List Str) (f : ℕ)
    → first_cue 0 ws ≡ some f
    → (last_content 0 ws ≡ none) ⊎ ((l : ℕ) × (last_content 0 ws ≡ some l) × (l < f))
    → negated_range ws ≡ (length ws, f)
unfolding negated_range
range_closes ws f h (inl k) = ground arith
range_closes ws f h (inr (l, k, lt)) = ground arith

scope_at :
    (ws : List Str) (from before : ℕ)
    → negated_range ws ≡ (from, before)
    → scope_negation ws ≡ terms_at from before 0 ws
unfolding scope_negation
scope_at ws from before h = rw (h, scope_negation)

scope_asserted : (ws : List Str) → NoCue ws → scope_negation ws ≡ contents false ws
scope_asserted ws h =
    scope_at ws (length ws) 0 (range_none ws (first_cue-none 0 ws h))
    ∙ terms_at-contents false (length ws) 0 0 ws (λ j p q. ground arith)

module _ (pre post : List Str) (cue : Str) (before : NoCue pre) (is : is_cue cue ≡ true) where
  first_at : first_cue 0 (pre ++ cue ∷ post) ≡ some (length pre)
  first_at = first_cue_at 0 pre post cue before is ∙ ap {B = Option ℕ} some (omega arith)

  length_clause : length (pre ++ cue ∷ post) ≡ length pre + suc (length post)
  length_clause = length-append pre (cue ∷ post)

  -- The terms of the clause, where the places in front of the cue have one polarity and those
  -- behind it have one.
  terms_split :
      (b c : Bool) (from to : ℕ)
      → ((j : ℕ) → j < length pre → (ltb from j || ltb j to) ≡ b)
      → ((j : ℕ)
          → length pre < j
          → j < suc (length pre + length post)
          → (ltb from j || ltb j to) ≡ c)
      → terms_at from to 0 (pre ++ cue ∷ post) ≡ contents b pre ++ contents c post
  terms_split b c from to front back =
      let one = terms_at-contents b from to 0 pre (λ j p q. front j (omega arith)) in
      let two =
        terms_at-contents c from to (suc (length pre)) post
          (λ j p q. back j (omega arith) (omega arith)) in
      let shift : 0 + length pre ≡ length pre = omega arith in
      terms_at-append from to 0 pre (cue ∷ post)
      ∙ rw (one, shift, terms_at_cue from to (length pre) cue post is, two) refl

  scope_opens :
      all is_cue post ≡ false
      → scope_negation (pre ++ cue ∷ post) ≡ contents false pre ++ contents true post
  scope_opens h =
      let ws = pre ++ cue ∷ post in
      let (l, e, low, high) = last_content-some (suc (length pre)) post h in
      let last : last_content 0 ws ≡ some l = last_content-append 0 pre (cue ∷ post) l (
        last_behind (0 + length pre) l
          (ap (λ (k : ℕ). last_content (suc k) post) (omega arith) ∙ e)) in
      scope_at ws (length pre) 0 (range_opens ws (length pre) l first_at last low)
      ∙ terms_split false true (length pre) 0 (λ j p. ground arith) (λ j p q. ground arith)
    where
      last_behind :
          (i l : ℕ) → last_content (suc i) post ≡ some l → last_content i (cue ∷ post) ≡ some l
      last_behind i l h = unfold last_content in rw h

  scope_closes : all is_cue post ≡ true → scope_negation (pre ++ cue ∷ post) ≡ contents true pre
  scope_closes h =
      let ws = pre ++ cue ∷ post in
      let range =
        range_closes ws (length pre) first_at
          (front (last_content_front 0 pre (cue ∷ post) (rw (is, h) refl))) in
      scope_at ws (length ws) (length pre) range
      ∙ terms_split true false (length ws) (length pre) (λ j p. ground arith)
          (λ j p q. ground (arith, length_clause))
      ∙ rw (contents_cues false post h) (append-nil _)
    where
      front :
          (last_content 0 (pre ++ cue ∷ post) ≡ none)
            ⊎ ((l : ℕ) × (last_content 0 (pre ++ cue ∷ post) ≡ some l) × (l < 0 + length pre))
          → (last_content 0 (pre ++ cue ∷ post) ≡ none)
            ⊎ ((l : ℕ) × (last_content 0 (pre ++ cue ∷ post) ≡ some l) × (l < length pre))
      front (inl k) = inl k
      front (inr (l, k, lt)) = inr (l, k, omega arith)

-- Every clause is read in one of these ways: with no cue it is asserted as written. Otherwise the
-- content words behind the first cue are negated and those in front of it are asserted, unless
-- nothing but cues stands behind it: then the content words in front of it are negated.
pub scope_negation-Reads : (ws : List Str) → Reads ws (scope_negation ws)
scope_negation-Reads ws = elim (split_at_cue ws) [
  | inl none_left ↦ asserted none_left (scope_asserted ws none_left)
  | inr (pre, post, cue, e, before, is) ↦ elim (Bool-cases (all is_cue post)) [
    | inl closes ↦
        cue_closes pre post cue e before is closes
          (ap scope_negation e ∙ scope_closes pre post cue before is closes)
    | inr opens ↦
        cue_opens pre post cue e before is opens
          (ap scope_negation e ∙ scope_opens pre post cue before is opens)
  ]
]
