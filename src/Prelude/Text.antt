-- ===== src/Prelude/Text.antt =====
-- Texts as lists of code points, and the functions of Go's `strings` package that dira calls.
use Prim.Native.Nat.{ℕ, ◌+◌}
use Prim.Native.Char.{code}
use Prim.Native.String.{String}
use mathlib.Core.Path.{◌≡◌, refl}
use mathlib.Core.Logic.{◌↔◌}
use mathlib.Core.Bool.{Bool, true, false, ◌&&◌, ◌||◌}
use mathlib.Core.Option.{Option, none, some}
use mathlib.Core.List.{List, [], ◌∷◌, ◌++◌, reverse}
use native.Mathlib.Omega.{arith}
use dira.Prelude.Tests.{ltb, leb, ◌==◌, if◌then◌else◌}
use dira.Prelude.Lists.{any}

abbrev pub Str : Type 0
Str = List ℕ

-- The code points of a literal.
abbrev pub codes : String → Str
codes String.[] = []
codes (String.◌∷◌ c s) = code c ∷ codes s

abbrev pub str_eq : Str → Str → Bool
str_eq [] [] = true
str_eq (a ∷ s) (b ∷ t) = (a == b) && str_eq s t
str_eq _ _ = false

pub str_eq_iff : (s t : Str) → (str_eq s t ≡ true) ↔ (s ≡ t)
str_eq_iff [] [] = ground arith
str_eq_iff [] (b ∷ t) = ground arith
str_eq_iff (a ∷ s) [] = ground arith
str_eq_iff (a ∷ s) (b ∷ t) = ground (arith, str_eq_iff s t)

pub str_eq_refl : (s : Str) → str_eq s s ≡ true
str_eq_refl s = (str_eq_iff s s).1 refl

-- `m[s]` for a `map[string]bool` written out.
abbrev pub one_of : Str → List Str → Bool
one_of s = any (str_eq s)

-- Go orders strings by bytes, and UTF-8 keeps the order of the code points.
abbrev pub str_lt : Str → Str → Bool
str_lt [] [] = false
str_lt [] (b ∷ t) = true
str_lt (a ∷ s) [] = false
str_lt (a ∷ s) (b ∷ t) = ltb a b || ((a == b) && str_lt s t)

pub str_lt_asymmetric : (s t : Str) → str_lt s t ≡ true → str_lt t s ≡ false
str_lt_asymmetric [] [] h = refl
str_lt_asymmetric [] (b ∷ t) h = refl
str_lt_asymmetric (a ∷ s) [] h = cc
str_lt_asymmetric (a ∷ s) (b ∷ t) h = ground (arith, str_lt_asymmetric s t)

pub str_lt_negative_transitive :
    (s t u : Str) → str_lt s t ≡ false → str_lt t u ≡ false → str_lt s u ≡ false
str_lt_negative_transitive [] [] [] h k = refl
str_lt_negative_transitive [] [] (c ∷ u) h k = k
str_lt_negative_transitive [] (b ∷ t) u h k = cc
str_lt_negative_transitive (a ∷ s) t [] h k = refl
str_lt_negative_transitive (a ∷ s) [] (c ∷ u) h k = cc
str_lt_negative_transitive (a ∷ s) (b ∷ t) (c ∷ u) h k =
    ground (arith, str_lt_negative_transitive s t u)

-- Two strings of which neither comes first are the same.
pub str_lt_total : (s t : Str) → str_lt s t ≡ false → str_lt t s ≡ false → s ≡ t
str_lt_total [] [] h k = refl
str_lt_total [] (b ∷ t) h k = cc
str_lt_total (a ∷ s) [] h k = cc
str_lt_total (a ∷ s) (b ∷ t) h k = ground (arith, str_lt_total s t)

abbrev pub newline : ℕ
newline = 10

-- The bytes of one code point, `utf8.RuneLen`, and `len` of a string.
abbrev pub rune_len : ℕ → ℕ
rune_len c = if ltb c 0x80 then 1 else if ltb c 0x800 then 2 else if ltb c 0x10000 then 3 else 4

abbrev pub byte_len : Str → ℕ
byte_len [] = 0
byte_len (c ∷ s) = rune_len c + byte_len s

-- `unicode.IsSpace`.
unfoldable pub is_space : ℕ → Bool
is_space c =
    (leb 9 c && leb c 13)
    || (c == 32)
    || (c == 0x85)
    || (c == 0xa0)
    || (c == 0x1680)
    || (leb 0x2000 c && leb c 0x200a)
    || (c == 0x2028)
    || (c == 0x2029)
    || (c == 0x202f)
    || (c == 0x205f)
    || (c == 0x3000)

abbrev pub has_prefix : Str → Str → Bool
has_prefix s [] = true
has_prefix [] (p ∷ ps) = false
has_prefix (c ∷ s) (p ∷ ps) = (c == p) && has_prefix s ps

abbrev pub has_suffix : Str → Str → Bool
has_suffix s t = has_prefix (reverse s) (reverse t)

-- Cut at every code point that passes the test, and drop the empty parts: `strings.FieldsFunc`.
abbrev pub flush : Str → List Str → List Str
flush [] rest = rest
flush (c ∷ cur) rest = (c ∷ cur) ∷ rest

unfoldable pub fields_loop : (ℕ → Bool) → Str → Str → List Str
fields_loop sep cur [] = flush cur []
fields_loop sep cur (c ∷ s) = elim (sep c) [
  | true ↦ flush cur (fields_loop sep [] s)
  | false ↦ fields_loop sep (cur ++ c ∷ []) s
]

unfoldable pub fields_func : Str → (ℕ → Bool) → List Str
unfolding fields_loop
fields_func s sep = fields_loop sep [] s

unfoldable pub fields : Str → List Str
unfolding fields_func is_space
fields s = fields_func s is_space

-- Put a code point in front of the first part.
abbrev pub cons_head : ℕ → List Str → List Str
cons_head c [] = (c ∷ []) ∷ []
cons_head c (p ∷ ps) = (c ∷ p) ∷ ps

-- `strings.Split` at a single code point: there is always a part.
unfoldable pub split : Str → ℕ → List Str
split [] sep = [] ∷ []
split (c ∷ s) sep = if c == sep then [] ∷ split s sep else cons_head c (split s sep)

abbrev pub join : List Str → Str → Str
join [] sep = []
join (p ∷ []) sep = p
join (p ∷ q ∷ ps) sep = p ++ sep ++ join (q ∷ ps) sep

-- `strings.Cut` at a single code point.
unfoldable pub cut : Str → ℕ → Option (Str × Str)
cut [] sep = none
cut (c ∷ s) sep =
    if c == sep
    then some ([], s)
    else elim (cut s sep) [ none ↦ none | some (a, b) ↦ some (c ∷ a, b) ]

unfoldable pub trim_left : (ℕ → Bool) → Str → Str
trim_left p [] = []
trim_left p (c ∷ s) = if p c then trim_left p s else c ∷ s

unfoldable pub trim_right : (ℕ → Bool) → Str → Str
unfolding trim_left
trim_right p s = reverse (trim_left p (reverse s))

unfoldable pub trim_space : Str → Str
unfolding trim_right is_space
trim_space s = trim_right is_space (trim_left is_space s)

abbrev pub is_digit : ℕ → Bool
is_digit c = leb b'0' c && leb c b'9'

abbrev pub is_lower : ℕ → Bool
is_lower c = leb b'a' c && leb c b'z'
