-- ===== src/Chain/Tests.antt =====
-- A chain of two ledgers, one that cannot be opened and one that has no path, and the theorems at it.
use dira.Prelude.{
  ◌≡◌, ◌≢◌, ◌↔◌, refl, inl, inr, true, false, List, [], ◌∷◌, ◌++◌, Str, codes, newline, arith,
  split, cut, trim_space, str_eq, str_eq_iff, Bool-cases, if◌then◌else◌, In, All, ok, err, some,
  none,
}
use dira.Ledger.Ident.{valid_ref}
use dira.Ledger.Validate.Tests.{use_go}
use dira.Ledger.Write.Tests.{memory}
use dira.Config.{
  parse, read_line, read_header, read_pair, read_key, parse_parent, read_field, unquote,
  strip_comment, split_fields, signed_atoi, inline_table,
}
use dira.Chain.{
  Files, Opened, Ancestor, walk, walk_parents, walk_parent, reached, unfinished, not_opened,
  resolve, resolve_in, oriented, withheld, undeclared, split_ref,
}
use dira.Chain.Terminates.{walk_finishes}
use dira.Chain.ReadOnly.{Refuses, walk-Refuses}
use dira.Chain.Outcome.{resolve_in_lem, is_declared, IsOutOfReach}

abbrev declaring : Str → Str → Str
declaring ns path =
    codes "[parents]" ++ newline ∷ ns ++ codes " = { path = \"" ++ path ++ codes "\" }"

abbrev config_of : Str → Str
config_of dir =
    if str_eq dir (codes "root")
    then declaring (codes "me") (codes "up")
    else if str_eq dir (codes "up")
    then declaring (codes "co") (codes "top")
    else []

abbrev opened : Opened
opened = record { store = memory; world = use_go ∷ [] }

-- Paths are directories, and only `up` can be opened.
abbrev two_dirs : Files
two_dirs = record {
  World = Unit {0};
  is_cancelled = λ w. (false, w);
  read_config = λ dir w. (ok (config_of dir), w);
  open_store =
      λ dir w. (if str_eq dir (codes "up") then ok opened else err (codes "no such directory"), w);
  parent_dira = λ own path. path;
}

abbrev chain_of_two : List Ancestor
chain_of_two =
    reached (codes "me") [] opened
    ∷ record {
      namespace = codes "co";
      tier = [];
      store = none;
      err = some (not_opened (codes "no such directory"));
    }
    ∷ []

walked : walk two_dirs 2 (codes "root") tt ≡ (ok chain_of_two, tt)
unfolding walk walk_parents walk_parent parse split read_line read_header read_pair read_key
    parse_parent read_field unquote strip_comment split_fields signed_atoi inline_table cut
    trim_space
walked = refl

resolved :
    ((resolve two_dirs 2 (codes "root") (codes "me:dec-0001") tt).0 ≡ ok (oriented use_go))
    × ((resolve two_dirs 2 (codes "root") (codes "co:dec-0001") tt).0 ≡ ok withheld)
    × ((resolve two_dirs 2 (codes "root") (codes "em:dec-0001") tt).0 ≡ err undeclared)
unfolding resolve resolve_in split_ref valid_ref walk walk_parents walk_parent parse split read_line
    read_header read_pair read_key parse_parent read_field unquote strip_comment split_fields
    signed_atoi inline_table cut trim_space
resolved = (refl, refl, refl)

only_up :
    (d : Str) (o : Opened) (w : Unit {0})
    → (two_dirs.open_store d w).0 ≡ ok o
    → In d (codes "up" ∷ [])
only_up d o w h = elim (Bool-cases (str_eq d (codes "up"))) [
  | inl e ↦ inl ((str_eq_iff d (codes "up")).0 e)
  | inr e ↦ absurd (cc (rw e at h))
]

walk_finishes_example : (walk two_dirs 2 (codes "root") tt).0 ≢ err unfinished
walk_finishes_example =
    walk_finishes two_dirs (codes "up" ∷ []) only_up 2 (codes "root") tt (omega arith)

walked_out : (walk two_dirs 2 (codes "root") tt).0 ≡ ok chain_of_two
walked_out = rw walked refl

walk-Refuses_example : All Refuses chain_of_two
walk-Refuses_example = walk-Refuses two_dirs 2 (codes "root") tt chain_of_two walked_out

resolve_in_lem_example :
    ((resolve_in (codes "co") (codes "dec-0001") false chain_of_two ≡ ok withheld)
      ↔ ((is_declared (codes "co") chain_of_two ≡ true) × IsOutOfReach (codes "co") chain_of_two))
    × ((resolve_in (codes "co") (codes "dec-0001") false chain_of_two ≡ err undeclared)
        ↔ (is_declared (codes "co") chain_of_two ≡ false))
resolve_in_lem_example = resolve_in_lem (codes "co") (codes "dec-0001") chain_of_two
