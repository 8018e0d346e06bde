-- ===== src/Enforcer/Target.antt =====
-- internal/enforcer/target.go: which stretches of which entries a plan is checked against.
pub mod Closed
use dira.Prelude.{
  ℕ, ◌≡◌, refl, Bool, true, false, not, ◌&&◌, ◌||◌, List, [], ◌∷◌, ◌++◌, Option, none, some, Str,
  codes, is_nil, length, take, leb, ◌==◌, if◌then◌else◌, str_eq, str_lt, join, fields, trim_space,
  keep_if, cons_head, newline, concat_map, Dict, lookup, insert,
}
use dira.Ledger.Entry.{
  Kind, State, Edge, EdgeType, Alternative, Entry, decision, constraint, accepted, rejected, active,
  superseded, supersedes,
}
use dira.Enforcer.Text.{Text, parse, is_empty}

-- `no_basis` is the empty basis of a citation that is not filled in yet.
pub data Basis : Type 0 where
  no_basis basis_alternative basis_decision basis_constraint : Basis

pub record Citation : Type 0 where
  pub entry : Str
  pub kind : Kind
  pub state : State
  pub date : Str
  pub private : Bool
  pub basis : Basis
  pub title : Str
  pub option : Str
  pub why_not : Str
  pub revisit_if : Str

-- `unit`: one matchable stretch of an entry, and the citation that a hit on it gives.
pub record MatchUnit : Type 0 where
  pub text : Text
  pub citation : Citation
  pub polarised : Bool
  pub phrase_only : Bool
  pub prose : Bool
  pub superseded_by : Str
  pub superseder_enforced : Bool

-- The first ten characters of the stamp; a valid stamp is ASCII.
unfoldable pub entry_date : Entry → Str
entry_date e =
    let stamp = if is_nil e.updated then e.created else e.updated in
    if leb 10 (length stamp) then take 10 stamp else stamp

unfoldable pub collapse : Str → Str
unfolding fields
collapse s = join (fields s) (codes " ")

-- `strings.Split(clean, "\n\n")`
unfoldable pub paragraphs : Str → List Str
paragraphs [] = [] ∷ []
paragraphs (a ∷ []) = (a ∷ []) ∷ []
paragraphs (a ∷ b ∷ s) = elim ((a == newline) && (b == newline)) [
  | true ↦ [] ∷ paragraphs s
  | false ↦ cons_head a (paragraphs (b ∷ s))
]

abbrev pub blank_next : Str → Bool
blank_next [] = false
blank_next (c ∷ s) = (c == 32) || (c == newline)

abbrev pub emit : Str → List Str → List Str
emit s rest = if is_nil (trim_space s) then rest else trim_space s ∷ rest

-- The loop over a paragraph; `cur` is para[start:i].
unfoldable pub sentence_loop : Str → Str → List Str
sentence_loop cur [] = emit cur []
sentence_loop cur (c ∷ s) = elim ((c == b'.') && blank_next s) [
  | true ↦ emit (cur ++ c ∷ []) (sentence_loop [] s)
  | false ↦ sentence_loop (cur ++ c ∷ []) s
]

abbrev pub paragraph_sentences : Str → List Str
paragraph_sentences para = if is_nil para then [] else sentence_loop [] para

unfoldable pub sentences : Str → List Str
unfolding paragraphs sentence_loop trim_space
sentences body =
    let clean = keep_if (λ c. not (c == b'`')) body in
    concat_map (λ para. paragraph_sentences (trim_space para)) (paragraphs clean)

abbrev pub base_citation : Entry → Citation
base_citation e = record {
  entry = e.id;
  kind = e.kind;
  state = e.state;
  date = entry_date e;
  private = e.private;
  basis = no_basis;
  title = e.title;
  option = [];
  why_not = [];
  revisit_if = [];
}

abbrev pub plain_unit : Text → Citation → MatchUnit
plain_unit t c = record {
  text = t;
  citation = c;
  polarised = false;
  phrase_only = false;
  prose = false;
  superseded_by = [];
  superseder_enforced = false;
}

-- `if text := Parse(s); !text.Empty() { append }`
abbrev pub unless_empty : Text → MatchUnit → List MatchUnit → List MatchUnit
unless_empty t u rest = if is_empty t then rest else u ∷ rest

abbrev pub alternative_citation : Alternative → Citation → Citation
alternative_citation alt base = record base {
  basis = basis_alternative;
  option = collapse alt.option;
  why_not = collapse alt.why_not;
  revisit_if = collapse alt.revisit_if;
}

-- The two units of an alternative: what was proposed, and why it was refused.
abbrev pub option_unit : Alternative → Citation → MatchUnit
option_unit alt base = record (plain_unit (parse alt.option) (alternative_citation alt base)) {
  polarised = true;
}

abbrev pub why_not_unit : Alternative → Citation → MatchUnit
why_not_unit alt base = record (plain_unit (parse alt.why_not) (alternative_citation alt base)) {
  polarised = true;
  phrase_only = true;
  prose = true;
}

unfoldable pub units_of : List Alternative → Citation → List MatchUnit
units_of [] base = []
units_of (alt ∷ alts) base =
    unless_empty (parse alt.option) (option_unit alt base)
      (unless_empty (parse alt.why_not) (why_not_unit alt base) (units_of alts base))

unfoldable pub alternative_units : Entry → Citation → List MatchUnit
unfolding units_of
alternative_units e base = units_of e.alternatives base

abbrev pub heading : Entry → Str
heading e = if is_nil e.tags then e.title else e.title ++ codes " " ++ join e.tags (codes " ")

unfoldable pub sentence_units : List Str → Citation → List MatchUnit
sentence_units [] c = []
sentence_units (s ∷ ss) c =
    let text = parse s in
    unless_empty text (record (plain_unit text c) { prose = true }) (sentence_units ss c)

-- The heading's unit stands even if it has no content word.
unfoldable pub constraint_units : Entry → Citation → List MatchUnit
unfolding sentence_units sentences
constraint_units e base =
    let c = record base { basis = basis_constraint } in
    record (plain_unit (parse (heading e)) c) { prose = true } ∷ sentence_units (sentences e.body) c

-- The rows of the table that enforce something.
abbrev pub is_accepted_decision : Kind → State → Bool
is_accepted_decision decision accepted = true
is_accepted_decision _ _ = false

abbrev pub is_rejected_decision : Kind → State → Bool
is_rejected_decision decision rejected = true
is_rejected_decision _ _ = false

abbrev pub is_superseded_decision : Kind → State → Bool
is_superseded_decision decision superseded = true
is_superseded_decision _ _ = false

abbrev pub is_active_constraint : Kind → State → Bool
is_active_constraint constraint active = true
is_active_constraint _ _ = false

-- A rejected decision is matched on its own title.
abbrev pub title_unit : Entry → MatchUnit
title_unit e =
    record (plain_unit (parse e.title) (record (base_citation e) { basis = basis_decision })) {
      polarised = true;
    }

unfoldable pub units_for : Entry → List MatchUnit
units_for e =
    if is_accepted_decision e.kind e.state
    then alternative_units e (base_citation e)
    else if is_rejected_decision e.kind e.state
    then title_unit e ∷ alternative_units e (base_citation e)
    else if is_active_constraint e.kind e.state
    then constraint_units e (base_citation e)
    else []

unfoldable pub enforcement_set : List Entry → List MatchUnit
enforcement_set [] = []
enforcement_set (e ∷ es) = units_for e ++ enforcement_set es

pub record Superseder : Type 0 where
  pub id : Str
  pub enforced : Bool

abbrev pub is_supersedes : EdgeType → Bool
is_supersedes supersedes = true
is_supersedes _ = false

-- One edge: the lowest id that claims the target is held.
unfoldable pub claim : Entry → Edge → Dict Superseder → Dict Superseder
claim e edge held =
    if not (is_supersedes edge.type)
    then held
    else let mine : Superseder = record { id = e.id; enforced = not (is_nil (units_for e)) } in
      elim (lookup edge.to held) [
        | none ↦ insert edge.to mine held
        | some h ↦ if not (str_lt e.id h.id) then held else insert edge.to mine held
      ]

unfoldable pub claims : Entry → List Edge → Dict Superseder → Dict Superseder
claims e [] held = held
claims e (edge ∷ edges) held = claims e edges (claim e edge held)

unfoldable pub superseders : List Entry → Dict Superseder → Dict Superseder
superseders [] held = held
superseders (e ∷ es) held = superseders es (claims e e.edges held)

abbrev pub replaced_by : Str → Dict Superseder → Superseder
replaced_by id held = elim (lookup id held) [
  | none ↦ record { id = []; enforced = false }
  | some h ↦ h
]

abbrev pub redirect : Superseder → List MatchUnit → List MatchUnit
redirect by [] = []
redirect by (u ∷ us) =
    record u { superseded_by = by.id; superseder_enforced = by.enforced } ∷ redirect by us

unfoldable pub retired_units : Dict Superseder → List Entry → List MatchUnit
retired_units held [] = []
retired_units held (e ∷ es) =
    let rest = retired_units held es in
    if is_superseded_decision e.kind e.state
    then redirect (replaced_by e.id held) (alternative_units e (base_citation e)) ++ rest
    else rest

unfoldable pub retired_set : List Entry → List MatchUnit
unfolding retired_units
retired_set es = retired_units (superseders es []) es
