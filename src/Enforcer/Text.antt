-- ===== src/Enforcer/Text.antt =====
-- internal/enforcer/text.go: a text as spans of content words with their polarity.
pub mod Scope
use Prim.Native.String.{String}
use dira.Prelude.{
  ℕ, zero, suc, ◌+◌, ◌≡◌, refl, Bool, true, false, not, ◌&&◌, ◌||◌, List, [], ◌∷◌, ◌++◌, map,
  Option, none, some, Str, codes, length, is_nil, ltb, leb, ◌==◌, if◌then◌else◌, str_eq, any,
  fields, fields_func, is_digit, is_lower, keep_if, concat_map, join,
}
use dira.Enforcer.Words.{is_breaker, is_cue, is_stopword, stem}

pub record Term : Type 0 where
  pub word : Str
  pub negated : Bool

abbrev pub Span : Type 0
Span = List Term

-- `Text.spans`; `Text.raw` is kept for diagnostics, and nothing reads it.
abbrev pub Text : Type 0
Text = List Span

-- The punctuation that `splitSpans` cuts at.
abbrev pub ends_span : ℕ → Bool
ends_span r =
    any (λ c. r == c)
      (b',' ∷ b';' ∷ b':' ∷ b'.' ∷ b'!' ∷ b'?' ∷ 10 ∷ b'(' ∷ b')' ∷ b'[' ∷ b']' ∷ b'{' ∷ b'}' ∷ 34
        ∷ 0x2014 ∷ 0x2013 ∷ [])

unfoldable pub split_spans : Str → List Str
unfolding fields_func
split_spans s = fields_func s ends_span

-- `strings.ToLower` as far as it reaches a letter of ASCII: the two signs outside ASCII whose lower
-- case is such a letter are U+0130 and U+212A. The rest become blanks below, whatever their case.
abbrev pub to_lower : ℕ → ℕ
to_lower c =
    if leb b'A' c && leb c b'Z'
    then c + 32
    else if c == 0x130
    then b'i'
    else if c == 0x212a
    then b'k'
    else c

-- Letters and digits stay, apostrophes go, and anything else is a blank.
abbrev pub normalise : Str → Str
normalise [] = []
normalise (c ∷ s) =
    let r = to_lower c in
    if is_lower r || is_digit r
    then r ∷ normalise s
    else if (r == 39) || (r == 0x2019)
    then normalise s
    else 32 ∷ normalise s

unfoldable pub words_of : Str → List Str
unfolding fields
words_of chunk = fields (normalise chunk)

-- The place of the first cue, and of the last word that is none.
unfoldable pub first_cue : ℕ → List Str → Option ℕ
first_cue i [] = none
first_cue i (w ∷ ws) = if is_cue w then some i else first_cue (suc i) ws

unfoldable pub last_content : ℕ → List Str → Option ℕ
last_content i [] = none
last_content i (w ∷ ws) = elim (last_content (suc i) ws) [
  | some j ↦ some j
  | none ↦ if is_cue w then none else some i
]

-- `negateFrom` and `negateBefore`; the source's -1 for `negateBefore` is 0 here, below no place.
unfoldable pub negated_range : List Str → ℕ × ℕ
negated_range words = elim (first_cue 0 words) [
  | none ↦ (length words, 0)
  | some f ↦ elim (last_content 0 words) [
    | none ↦ (length words, f)
    | some l ↦ if ltb l f then (length words, f) else (f, 0)
  ]
]

unfoldable pub terms_at : ℕ → ℕ → ℕ → List Str → Span
terms_at from before i [] = []
terms_at from before i (w ∷ ws) =
    let rest = terms_at from before (suc i) ws in
    if is_cue w || is_stopword w
    then rest
    else if is_nil (stem w)
    then rest
    else record { word = stem w; negated = ltb from i || ltb i before } ∷ rest

-- `scopeNegation`: one clause.
unfoldable pub scope_negation : List Str → Span
scope_negation words = let (from, before) = negated_range words in terms_at from before 0 words

-- `flush`, which does nothing at an empty clause.
abbrev pub flush_clause : List Str → Span
flush_clause [] = []
flush_clause (w ∷ ws) = scope_negation (w ∷ ws)

abbrev pub cue_next : List Str → Bool
cue_next [] = false
cue_next (w ∷ ws) = is_cue w

-- The loop of `toSpan`; `clause` is words[start:i].
unfoldable pub span_loop : List Str → List Str → Span
span_loop clause [] = flush_clause clause
span_loop clause (w ∷ ws) = elim (is_breaker w && not (cue_next ws)) [
  | true ↦ flush_clause clause ++ span_loop [] ws
  | false ↦ span_loop (clause ++ w ∷ []) ws
]

unfoldable pub to_span : Str → Span
unfolding span_loop words_of scope_negation negated_range first_cue last_content terms_at is_cue
    is_stopword is_breaker stem
to_span chunk = span_loop [] (words_of chunk)

unfoldable pub parse : Str → Text
unfolding to_span split_spans
parse s = keep_if (λ sp. not (is_nil sp)) (map to_span (split_spans s))

abbrev pub is_empty : Text → Bool
is_empty t = is_nil t

abbrev pub positive : String → Term
positive w = record { word = codes w; negated = false }

abbrev pub negative : String → Term
negative w = record { word = codes w; negated = true }

polarity :
    (parse (codes "no cache at all") ≡ (negative "cach" ∷ []) ∷ [])
    × (parse (codes "Cache nothing!") ≡ (negative "cach" ∷ []) ∷ [])
    × (parse (codes "cache query results")
        ≡ (positive "cach" ∷ positive "query" ∷ positive "result" ∷ []) ∷ [])
unfolding parse
polarity = (refl, refl, refl)
