-- ===== src/Config.antt =====
-- internal/config/config.go: the reading of .dira/config.toml. A problem is a value with its line; the
-- reading never fails.
pub mod WellFormed
mod Tests
use dira.Prelude.{
  ℕ, zero, suc, ◌+◌, ◌-◌, Bool, true, false, not, ◌&&◌, ◌||◌, List, [], ◌∷◌, ◌++◌, Option, none,
  some, Str, codes, str_eq, ltb, leb, ◌==◌, if◌then◌else◌, is_nil, is_digit, all, any, map, split,
  cut, newline, trim_space, has_prefix,
}
use dira.Ledger.Write.{decimal, max_int}

pub data ℤ : Type 0 where
  pos negsuc : ℕ → ℤ

abbrev negated : ℕ → ℤ
negated zero = pos 0
negated (suc n) = negsuc n

abbrev digits_value : Str → Option ℕ
digits_value s = if not (is_nil s) && all is_digit s then some (decimal 0 s) else none

-- `strconv.Atoi`
unfoldable pub signed_atoi : Str → Option ℤ
signed_atoi [] = none
signed_atoi (c ∷ s) =
    if c == b'-'
    then elim (digits_value s) [
      | none ↦ none
      | some n ↦ if leb n (max_int + 1) then some (negated n) else none
    ]
    else elim (digits_value (if c == b'+' then s else c ∷ s)) [
      | none ↦ none
      | some n ↦ if leb n max_int then some (pos n) else none
    ]

pub record Parent : Type 0 where
  pub name : Str
  pub path : Str
  pub ref : Str
  pub visibility : Str
  pub label : Str

-- A tier and a name that are not set are empty, and a ceiling that is not set is 0.
pub record Config : Type 0 where
  pub name : Str
  pub tier : Str
  pub max_tokens : ℕ
  pub parents : List Str
  pub parent_decls : List Parent

pub data Problem : Type 0 where
  not_a_number : ℕ → Str → Problem
  not_positive : ℕ → ℤ → Problem
  not_a_table not_a_pair bad_visibility declared_twice : ℕ → Str → Problem

abbrev pub visibility_private : Str
visibility_private = codes "private"

abbrev pub visibility_public : Str
visibility_public = codes "public"

-- `Parent.Private`
abbrev pub is_private : Parent → Bool
is_private p = str_eq p.visibility visibility_private

abbrev drop_last : ℕ → Str → Option Str
drop_last r [] = none
drop_last r (c ∷ []) = if c == r then some [] else none
drop_last r (c ∷ d ∷ s) = elim (drop_last r (d ∷ s)) [ none ↦ none | some t ↦ some (c ∷ t) ]

-- What stands between two marks that a text starts and ends with.
abbrev pub between : ℕ → ℕ → Str → Option Str
between l r [] = none
between l r (c ∷ s) = if c == l then drop_last r s else none

abbrev pub quote : ℕ
quote = 34

unfoldable pub unquote : Str → Str
unfolding trim_space
unquote value =
    let trimmed = trim_space value in
    elim (between quote quote trimmed) [ none ↦ trimmed | some s ↦ s ]

-- `stripComment`; the flag says whether a quote is open.
unfoldable pub strip_comment : Bool → Str → Str
strip_comment quoted [] = []
strip_comment quoted (c ∷ s) =
    let rest = strip_comment (if c == quote then not quoted else quoted) s in
    if (c == b'#') && not quoted then [] else c ∷ rest

-- `splitFields`; `field` is the part that is being read.
unfoldable pub split_fields : Bool → Str → Str → List Str
split_fields quoted field [] = field ∷ []
split_fields quoted field (c ∷ s) = elim ((c == b',') && not quoted) [
  | true ↦ field ∷ split_fields quoted [] s
  | false ↦ split_fields (if c == quote then not quoted else quoted) (field ++ c ∷ []) s
]

unfoldable pub inline_table : Str → Option Str
unfolding trim_space
inline_table value = between b'{' b'}' (trim_space value)

-- The cases of a field's key.
abbrev pub set_field : Str → Str → ℕ → Parent → Parent × List Problem
set_field key value n parent =
    if str_eq key (codes "path")
    then (record parent { path = value }, [])
    else if str_eq key (codes "ref")
    then (record parent { ref = value }, [])
    else if str_eq key (codes "label")
    then (record parent { label = value }, [])
    else if not (str_eq key (codes "visibility"))
    then (parent, [])
    else if str_eq value visibility_private || str_eq value visibility_public
    then (record parent { visibility = value }, [])
    else (record parent { visibility = visibility_private }, bad_visibility n parent.name ∷ [])

-- One field of a declaration.
unfoldable pub read_field : Str → ℕ → Parent → Parent × List Problem
unfolding trim_space unquote cut
read_field field n parent =
    if is_nil (trim_space field) then (parent, []) else elim (cut field b'=') [
      | none ↦ (parent, not_a_pair n parent.name ∷ [])
      | some (key, value) ↦ set_field (trim_space key) (unquote value) n parent
    ]

abbrev pub read_fields : List Str → ℕ → Parent → Parent × List Problem
read_fields [] n parent = (parent, [])
read_fields (field ∷ fields) n parent =
    let (read, first) = read_field field n parent in
    let (last, rest) = read_fields fields n read in (last, first ++ rest)

-- `parseParent`
unfoldable pub parse_parent : Str → Str → ℕ → Parent × List Problem
unfolding inline_table split_fields read_field
parse_parent name value n =
    let parent : Parent = record {
      name = name;
      path = [];
      ref = [];
      visibility = [];
      label = [];
    } in
    elim (inline_table value) [
      | none ↦ (parent, not_a_table n name ∷ [])
      | some body ↦ read_fields (split_fields false [] body) n parent
    ]

-- What `Parse` keeps from line to line.
pub record Scan : Type 0 where
  pub section : Str
  pub cfg : Config
  pub problems : List Problem

abbrev pub reported : List Problem → Scan → Scan
reported ps s = record s { problems = s.problems ++ ps }

abbrev pub read_max_tokens : Option ℤ → Str → ℕ → Scan → Scan
read_max_tokens none value n s = reported (not_a_number n value ∷ []) s
read_max_tokens (some (negsuc k)) value n s = reported (not_positive n (negsuc k) ∷ []) s
read_max_tokens (some (pos zero)) value n s = reported (not_positive n (pos 0) ∷ []) s
read_max_tokens (some (pos (suc k))) value n s = record s {
  cfg = record (s.cfg) { max_tokens = suc k };
}

abbrev pub declares : Str → List Parent → Bool
declares name = any (λ p. str_eq p.name name)

abbrev pub add_parent : Parent × List Problem → ℕ → Scan → Scan
add_parent (parent, reports) n s =
    let seen = reported reports s in
    if declares parent.name s.cfg.parent_decls
    then reported (declared_twice n parent.name ∷ []) seen
    else record seen { cfg = record (s.cfg) { parent_decls = s.cfg.parent_decls ++ parent ∷ [] } }

-- The cases of a key, in its section.
unfoldable pub read_key : Str → Str → ℕ → Scan → Scan
unfolding unquote signed_atoi parse_parent
read_key key value n s =
    if str_eq s.section (codes "ledger") && str_eq key (codes "name")
    then record s { cfg = record (s.cfg) { name = unquote value } }
    else if str_eq s.section (codes "ledger") && str_eq key (codes "tier")
    then record s { cfg = record (s.cfg) { tier = unquote value } }
    else if str_eq s.section (codes "brief") && str_eq key (codes "max_tokens")
    then read_max_tokens (signed_atoi (unquote value)) value n s
    else if str_eq s.section (codes "parents")
    then add_parent (parse_parent key value n) n s
    else s

-- What a line says: a key, or nothing; and before that, the name of a section.
unfoldable pub read_pair : Option (Str × Str) → ℕ → Scan → Scan
unfolding trim_space strip_comment read_key
read_pair none n s = s
read_pair (some (key, value)) n s =
    read_key (trim_space key) (trim_space (strip_comment false value)) n s

unfoldable pub read_header : Option Str → Str → ℕ → Scan → Scan
unfolding trim_space read_pair cut
read_header (some name) line n s = record s { section = trim_space name }
read_header none line n s = read_pair (cut line b'=') n s

-- One round of the loop of `Parse`.
unfoldable pub read_line : Str → ℕ → Scan → Scan
unfolding trim_space read_header
read_line raw n s =
    let line = trim_space raw in
    if is_nil line || has_prefix line (codes "#")
    then s
    else read_header (between b'[' b']' line) line n s

abbrev pub read_lines : List Str → ℕ → Scan → Scan
read_lines [] n s = s
read_lines (raw ∷ raws) n s = read_lines raws (n + 1) (read_line raw n s)

abbrev pub no_config : Config
no_config = record { name = []; tier = []; max_tokens = 0; parents = []; parent_decls = [] }

-- `Parse`
unfoldable pub parse : Str → Config × List Problem
unfolding read_line split
parse data_text =
    let s =
      read_lines (split data_text newline) 1
        (record { section = []; cfg = no_config; problems = [] }) in
    (record (s.cfg) { parents = map (λ p. p.name) s.cfg.parent_decls }, s.problems)
