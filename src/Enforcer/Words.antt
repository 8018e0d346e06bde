-- ===== src/Enforcer/Words.antt =====
-- internal/enforcer/text.go: the word lists, and the suffix stripper.
use Prim.Native.String.{String}
use mathlib.Core.List.{reverse}
use dira.Prelude.{
  ℕ, ◌-◌, ◌≡◌, refl, Bool, not, ◌&&◌, ◌||◌, List, [], ◌∷◌, ◌++◌, Str, codes, length, take, any, leb,
  ltb, one_of, has_suffix, if◌then◌else◌, ◌==◌,
}

-- `spanBreakers`: the words that end a clause.
abbrev pub span_breakers : List Str
span_breakers =
    codes "and"
    ∷ codes "but"
    ∷ codes "so"
    ∷ codes "then"
    ∷ codes "while"
    ∷ codes "which"
    ∷ codes "that"
    ∷ codes "though"
    ∷ codes "although"
    ∷ codes "because"
    ∷ codes "when"
    ∷ codes "whereas"
    ∷ codes "plus"
    ∷ codes "yet"
    ∷ codes "however"
    ∷ codes "whether"
    ∷ []

-- `negationCues`: the words that flip the polarity of a clause.
abbrev pub negation_cues : List Str
negation_cues =
    codes "no"
    ∷ codes "not"
    ∷ codes "never"
    ∷ codes "none"
    ∷ codes "nothing"
    ∷ codes "without"
    ∷ codes "cannot"
    ∷ codes "cant"
    ∷ codes "dont"
    ∷ codes "doesnt"
    ∷ codes "isnt"
    ∷ codes "arent"
    ∷ codes "wont"
    ∷ codes "nor"
    ∷ codes "neither"
    ∷ codes "non"
    ∷ codes "instead"
    ∷ codes "rather"
    ∷ codes "reject"
    ∷ codes "rejects"
    ∷ codes "rejected"
    ∷ codes "forbid"
    ∷ codes "forbids"
    ∷ codes "forbidden"
    ∷ codes "prohibit"
    ∷ codes "prohibits"
    ∷ codes "avoid"
    ∷ codes "avoids"
    ∷ codes "refuse"
    ∷ codes "refuses"
    ∷ codes "declined"
    ∷ codes "exclude"
    ∷ codes "excludes"
    ∷ codes "skip"
    ∷ codes "skips"
    ∷ codes "disclaim"
    ∷ codes "disclaims"
    ∷ codes "ruled"
    ∷ []

-- `stopwords`: dropped after the polarity is resolved.
abbrev pub stopwords : List Str
stopwords =
    codes "a"
    ∷ codes "an"
    ∷ codes "the"
    ∷ codes "of"
    ∷ codes "to"
    ∷ codes "in"
    ∷ codes "on"
    ∷ codes "at"
    ∷ codes "by"
    ∷ codes "for"
    ∷ codes "from"
    ∷ codes "with"
    ∷ codes "as"
    ∷ codes "is"
    ∷ codes "are"
    ∷ codes "was"
    ∷ codes "were"
    ∷ codes "be"
    ∷ codes "been"
    ∷ codes "being"
    ∷ codes "it"
    ∷ codes "its"
    ∷ codes "this"
    ∷ codes "these"
    ∷ codes "those"
    ∷ codes "we"
    ∷ codes "you"
    ∷ codes "your"
    ∷ codes "our"
    ∷ codes "us"
    ∷ codes "they"
    ∷ codes "them"
    ∷ codes "their"
    ∷ codes "he"
    ∷ codes "she"
    ∷ codes "i"
    ∷ codes "my"
    ∷ codes "me"
    ∷ codes "will"
    ∷ codes "would"
    ∷ codes "can"
    ∷ codes "could"
    ∷ codes "should"
    ∷ codes "shall"
    ∷ codes "may"
    ∷ codes "might"
    ∷ codes "must"
    ∷ codes "do"
    ∷ codes "does"
    ∷ codes "did"
    ∷ codes "done"
    ∷ codes "have"
    ∷ codes "has"
    ∷ codes "had"
    ∷ codes "if"
    ∷ codes "else"
    ∷ codes "than"
    ∷ codes "there"
    ∷ codes "here"
    ∷ codes "what"
    ∷ codes "who"
    ∷ codes "whom"
    ∷ codes "whose"
    ∷ codes "how"
    ∷ codes "why"
    ∷ codes "all"
    ∷ codes "any"
    ∷ codes "some"
    ∷ codes "each"
    ∷ codes "both"
    ∷ codes "more"
    ∷ codes "most"
    ∷ codes "other"
    ∷ codes "another"
    ∷ codes "such"
    ∷ codes "only"
    ∷ codes "own"
    ∷ codes "same"
    ∷ codes "too"
    ∷ codes "very"
    ∷ codes "just"
    ∷ codes "into"
    ∷ codes "over"
    ∷ codes "under"
    ∷ codes "out"
    ∷ codes "up"
    ∷ codes "down"
    ∷ codes "about"
    ∷ codes "after"
    ∷ codes "before"
    ∷ codes "between"
    ∷ codes "through"
    ∷ codes "during"
    ∷ codes "per"
    ∷ codes "via"
    ∷ codes "let"
    ∷ codes "lets"
    ∷ codes "get"
    ∷ codes "gets"
    ∷ codes "one"
    ∷ codes "two"
    ∷ codes "also"
    ∷ codes "still"
    ∷ codes "already"
    ∷ codes "ever"
    ∷ codes "even"
    ∷ codes "much"
    ∷ codes "many"
    ∷ []

unfoldable pub is_breaker : Str → Bool
is_breaker w = one_of w span_breakers

unfoldable pub is_cue : Str → Bool
is_cue w = one_of w negation_cues

unfoldable pub is_stopword : Str → Bool
is_stopword w = one_of w stopwords

-- `w[:len(w)-n]`; a normalised word is ASCII, so its bytes are its code points.
abbrev pub drop_last : ℕ → Str → Str
drop_last n w = take (length w - n) w

abbrev pub ends : String → Str → Bool
ends t w = has_suffix w (codes t)

-- The vowels, `s` and `l`: a doubled one of these is kept.
abbrev kept_doubles : List ℕ
kept_doubles = b'a' ∷ b'e' ∷ b'i' ∷ b'o' ∷ b'u' ∷ b's' ∷ b'l' ∷ []

unfoldable pub undouble : Str → Str
undouble w = elim (reverse w) [
  | [] ↦ w
  | a ∷ rest ↦ elim rest [
    | [] ↦ w
    | b ∷ _ ↦
        if ltb (length w) 3 || not (a == b) || any (λ v. a == v) kept_doubles
        then w
        else drop_last 1 w
  ]
]

-- The plural endings.
unfoldable pub strip_plural : Str → Str
strip_plural w =
    if ends "sses" w
    then drop_last 2 w
    else if ends "ies" w && ltb 4 (length w)
    then drop_last 3 w ++ codes "y"
    else if ends "ss" w || ends "us" w || ends "is" w
    then w
    else if ends "shes" w || ends "ches" w || ends "xes" w || ends "zes" w || ends "ses" w
    then drop_last 2 w
    else if ends "s" w
    then drop_last 1 w
    else w

-- The endings of verbs and adverbs, from five characters on.
unfoldable pub strip_verbal : Str → Str
unfolding undouble
strip_verbal w =
    if ltb (length w) 5
    then w
    else if ends "ence" w || ends "ance" w
    then drop_last 4 w
    else if ends "ing" w
    then undouble (drop_last 3 w)
    else if ends "edly" w
    then undouble (drop_last 4 w)
    else if ends "ed" w
    then undouble (drop_last 2 w)
    else if ends "ly" w
    then drop_last 2 w
    else w

unfoldable pub strip_e : Str → Str
strip_e w = if leb 5 (length w) && ends "e" w then drop_last 1 w else w

unfoldable pub stem : Str → Str
unfolding strip_plural strip_verbal strip_e
stem w = if leb (length w) 3 then w else strip_e (strip_verbal (strip_plural w))

stems :
    (stem (codes "running") ≡ codes "run")
    × (stem (codes "processes") ≡ codes "process")
    × (stem (codes "required") ≡ codes "requir")
    × (stem (codes "requires") ≡ codes "requir")
    × (stem (codes "queries") ≡ codes "query")
    × (stem (codes "basis") ≡ codes "basis")
unfolding stem
stems = (refl, refl, refl, refl, refl, refl)
