-- ===== src/Enforcer/Match.antt =====
-- internal/enforcer/text.go and match.go: bags, phrases, document frequency, and the score of a plan
-- against a unit. A `map[term]bool` is the list of its keys, each once; Go leaves the order open in
-- which a mass is summed up, and here it is the order of the text.
pub mod Runs
use dira.Prelude.{
  ℕ, zero, suc, ◌+◌, ◌≡◌, refl, Bool, true, false, not, ◌&&◌, ◌||◌, List, [], ◌∷◌, ◌++◌, map,
  Option, none, some, Str, codes, is_nil, length, take, drop, ltb, leb, ◌==◌, if◌then◌else◌, str_eq,
  any, all, keep_if, concat_map, one_of, split, Dict, lookup, insert, join,
}
use dira.Ledger.Entry.{Entry, Alternative, Kind, constraint}
use dira.Enforcer.Text.{Term, Span, Text, parse, is_empty}
use dira.Enforcer.Target.{MatchUnit, enforcement_set, retired_set}
use dira.Enforcer.Float.{Float}

abbrev pub bool_eq : Bool → Bool → Bool
bool_eq true b = b
bool_eq false b = not b

abbrev pub term_eq : Term → Term → Bool
term_eq a b = str_eq a.word b.word && bool_eq a.negated b.negated

-- `out[t] = true` on the keys of a set.
abbrev pub put_term : Term → List Term → List Term
put_term t ts = if any (term_eq t) ts then ts else ts ++ t ∷ []

abbrev pub put_word : Str → List Str → List Str
put_word w ws = if one_of w ws then ws else ws ++ w ∷ []

abbrev pub strip_polarity : Term → Term
strip_polarity t = record t { negated = false }

unfoldable pub bag_span : Bool → Span → List Term → List Term
bag_span polarised [] out = out
bag_span polarised (t ∷ sp) out =
    bag_span polarised sp (put_term (if polarised then t else strip_polarity t) out)

unfoldable pub bag_from : Bool → Text → List Term → List Term
unfolding bag_span
bag_from polarised [] out = out
bag_from polarised (sp ∷ t) out = bag_from polarised t (bag_span polarised sp out)

-- `Text.Bag`
unfoldable pub bag : Text → Bool → List Term
unfolding bag_from
bag t polarised = bag_from polarised t []

-- `Text.PositiveBag`: what the text asserts, without the polarity.
unfoldable pub positive_bag : Text → List Term
positive_bag t = bag (map (keep_if (λ tm. not tm.negated)) t) false

unfoldable pub words_in : List Term → List Str → List Str
words_in [] out = out
words_in (t ∷ ts) out = words_in ts (put_word t.word out)

-- `Text.Words`
unfoldable pub words : Text → List Str
unfolding words_in
words t = words_in (concat_map (λ sp. sp) t) []

abbrev pub uniform : Bool → Span → Bool
uniform polarity window = all (λ tm. bool_eq tm.negated polarity) window

abbrev pub phrase_key : Bool → Span → Str
phrase_key polarised window =
    let key = join (map (λ tm. tm.word) window) (codes " ") in
    elim window [ [] ↦ key | tm ∷ _ ↦ if polarised && tm.negated then codes "!" ++ key else key ]

abbrev pub is_uniform : Span → Bool
is_uniform [] = true
is_uniform (tm ∷ rest) = uniform tm.negated rest

-- The windows of `n` terms that start in a span, from its front to its end.
unfoldable pub span_phrases : ℕ → Bool → Span → List Str → List Str
span_phrases n polarised [] out = out
span_phrases n polarised (tm ∷ sp) out =
    let window = take n (tm ∷ sp) in
    let full = leb n (length (tm ∷ sp)) in
    span_phrases n polarised sp
      (if full && is_uniform window then put_word (phrase_key polarised window) out else out)

unfoldable pub phrases_from : ℕ → Bool → Text → List Str → List Str
unfolding span_phrases
phrases_from n polarised [] out = out
phrases_from n polarised (sp ∷ t) out = phrases_from n polarised t (span_phrases n polarised sp out)

-- `Text.Phrases`
unfoldable pub phrases : Text → ℕ → Bool → List Str
unfolding phrases_from
phrases t n polarised = if ltb n 2 then [] else phrases_from n polarised t []

abbrev pub is_negated_phrase : Str → Bool
is_negated_phrase [] = false
is_negated_phrase (c ∷ _) = c == b'!'

unfoldable pub positive_phrases : Text → ℕ → List Str
positive_phrases t n = keep_if (λ p. not (is_negated_phrase p)) (phrases t n true)

abbrev pub trim_bang : Str → Str
trim_bang [] = []
trim_bang (c ∷ w) = if c == b'!' then w else c ∷ w

unfoldable pub split_phrase : Str → List Str
unfolding split
split_phrase phrase =
    map trim_bang (keep_if (λ w. not (is_nil w) && not (str_eq w (codes "!"))) (split phrase 32))

-- `uniformRuns`: a span cut into its longest stretches of one polarity.
unfoldable pub runs_loop : Span → Span → List Span
runs_loop run [] = if is_nil run then [] else run ∷ []
runs_loop [] (tm ∷ sp) = runs_loop (tm ∷ []) sp
runs_loop (first ∷ run) (tm ∷ sp) = elim (bool_eq tm.negated first.negated) [
  | true ↦ runs_loop ((first ∷ run) ++ tm ∷ []) sp
  | false ↦ (first ∷ run) ∷ runs_loop (tm ∷ []) sp
]

unfoldable pub uniform_runs : Span → List Span
unfolding runs_loop
uniform_runs sp = runs_loop [] sp

-- One term of the plan against one of the run.
abbrev pub agrees : Bool → Term → Term → Bool
agrees polarised want got =
    str_eq got.word want.word
    && (if polarised then bool_eq got.negated want.negated else not got.negated)

-- The run stands at the front of the span.
unfoldable pub starts_with_run : Bool → Span → Span → Bool
starts_with_run polarised [] sp = true
starts_with_run polarised (want ∷ run) [] = false
starts_with_run polarised (want ∷ run) (got ∷ sp) =
    agrees polarised want got && starts_with_run polarised run sp

-- The run stands at some place of the span. An empty run would stand in an empty span too.
unfoldable pub span_contains : Bool → Span → Span → Bool
unfolding starts_with_run
span_contains polarised run [] = starts_with_run polarised run []
span_contains polarised run (got ∷ sp) =
    starts_with_run polarised run (got ∷ sp) || span_contains polarised run sp

unfoldable pub contains_run : Text → Span → Bool → Bool
unfolding span_contains
contains_run plan run polarised = any (span_contains polarised run) plan

-- A body counts for a constraint alone.
abbrev pub constraint_body : Kind → Str → Str
constraint_body constraint body = codes " " ++ body
constraint_body _ body = []

-- `documentText`: what an entry contributes to the document frequency.
unfoldable pub document_text : Entry → Text
document_text e =
    let tags = concat_map (λ tag. codes " " ++ tag) e.tags in
    let alts =
      concat_map (λ (alt : Alternative). codes " " ++ alt.option ++ codes " " ++ alt.why_not)
        e.alternatives in
    parse (e.title ++ tags ++ alts ++ constraint_body e.kind e.body)

-- `idf`: how many documents there are, and in how many of them a word stands.
pub record Idf : Type 0 where
  pub docs : ℕ
  pub df : Dict ℕ

abbrev pub df_of : Idf → Str → ℕ
df_of f w = elim (lookup w f.df) [ none ↦ 0 | some n ↦ n ]

abbrev pub count_word : Str → Dict ℕ → Dict ℕ
count_word w df = insert w (elim (lookup w df) [ none ↦ 1 | some n ↦ n + 1 ]) df

abbrev pub count_words : List Str → Dict ℕ → Dict ℕ
count_words [] df = df
count_words (w ∷ ws) df = count_words ws (count_word w df)

abbrev pub new_idf : Idf
new_idf = record { docs = 0; df = [] }

unfoldable pub observe : Idf → Text → Idf
unfolding words
observe f t = record { docs = f.docs + 1; df = count_words (words t) f.df }

unfoldable pub observe_all : Idf → List Entry → Idf
observe_all f [] = f
observe_all f (e ∷ es) = observe_all (observe f (document_text e)) es
