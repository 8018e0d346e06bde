-- ===== src/Ledger/Ident.antt =====
-- Ids and refs: `ValidID`, `ValidRef`, the tag pattern, and `KindForPrefix`. The regular expressions
-- of ledger/entry.go are read as functions on the text.
use dira.Prelude.{
  ℕ, ◌≡◌, Bool, true, false, ◌&&◌, ◌||◌, List, [], ◌∷◌, Option, none, some, Str, codes, str_eq,
  one_of, cut, is_digit, is_lower, leb, length, all, if◌then◌else◌, ◌==◌, refl,
}
use dira.Ledger.Entry.{Kind, prefix, kinds}

abbrev pub dash : ℕ
dash = b'-'

abbrev pub colon : ℕ
colon = b':'

abbrev pub prefixes : List Str
prefixes = codes "int" ∷ codes "dec" ∷ codes "qst" ∷ codes "cst" ∷ codes "note" ∷ []

-- `[0-9]{4,}` to the end of the text.
abbrev pub four_digits : Str → Bool
four_digits s = leb 4 (length s) && all is_digit s

-- `^(int|dec|qst|cst|note)-[0-9]{4,}$`
unfoldable pub valid_id : Str → Bool
unfolding cut
valid_id s = elim (cut s dash) [
  | none ↦ false
  | some (p, digits) ↦ one_of p prefixes && four_digits digits
]

-- `[a-z][a-z0-9_-]*`
abbrev pub valid_namespace : Str → Bool
valid_namespace [] = false
valid_namespace (c ∷ s) =
    is_lower c && all (λ d. is_lower d || is_digit d || (d == b'_') || (d == dash)) s

-- `^([a-z][a-z0-9_-]*:)?(int|dec|qst|cst|note)-[0-9]{4,}$`
unfoldable pub valid_ref : Str → Bool
unfolding valid_id
valid_ref s = elim (cut s colon) [
  | none ↦ valid_id s
  | some (ns, id) ↦ valid_namespace ns && valid_id id
]

-- `^[a-z0-9][a-z0-9-]*$`
unfoldable pub valid_tag : Str → Bool
valid_tag [] = false
valid_tag (c ∷ s) =
    (is_lower c || is_digit c) && all (λ d. is_lower d || is_digit d || (d == dash)) s

abbrev find_prefix : Str → List Kind → Option Kind
find_prefix p [] = none
find_prefix p (k ∷ ks) = if str_eq (prefix k) p then some k else find_prefix p ks

unfoldable pub kind_for_prefix : Str → Option Kind
kind_for_prefix p = find_prefix p kinds

ids :
    (valid_id (codes "dec-0014") ≡ true)
    × (valid_id (codes "dec-14") ≡ false)
    × (valid_ref (codes "sire:int-0002") ≡ true)
    × (valid_ref (codes "Sire:int-0002") ≡ false)
unfolding valid_ref
ids = (refl, refl, refl, refl)
