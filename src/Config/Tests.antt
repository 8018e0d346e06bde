-- ===== src/Config/Tests.antt =====
-- A configuration as it may stand in a repository, and the theorems at it.
use dira.Prelude.{
  ◌≡◌, ◌≢◌, refl, true, [], ◌∷◌, Str, codes, newline, join, str_eq_iff, split, cut, trim_space,
}
use dira.Config.{
  Parent, parse, read_line, read_header, read_pair, read_key, parse_parent, read_field, unquote,
  strip_comment, split_fields, signed_atoi, inline_table, bad_visibility, declared_twice,
  not_positive, pos, visibility_public, set_field, is_private,
}
use dira.Config.WellFormed.{IsConfig, parse-IsConfig, set_field-private}

abbrev config_file : Str
config_file =
    join
      (codes "[ledger]"
        ∷ codes "name = \"dira\" # ours"
        ∷ codes "[brief]"
        ∷ codes "max_tokens = 0"
        ∷ codes "[parents]"
        ∷ codes "me = { path = \"../a,b\", visibility = \"privat\" }"
        ∷ codes "me = { path = \"..\" }"
        ∷ [])
      (newline ∷ [])

abbrev me : Parent
me = record {
  name = codes "me";
  path = codes "../a,b";
  ref = [];
  visibility = codes "private";
  label = [];
}

parsed : parse config_file ≡ (
  record {
    name = codes "dira";
    tier = [];
    max_tokens = 0;
    parents = codes "me" ∷ [];
    parent_decls = me ∷ [];
  },
  not_positive 4 (pos 0) ∷ bad_visibility 6 (codes "me") ∷ declared_twice 7 (codes "me") ∷ [],
)
unfolding parse split read_line read_header read_pair read_key parse_parent read_field unquote
    strip_comment split_fields signed_atoi inline_table cut trim_space
parsed = refl

parse-IsConfig_example : IsConfig ((parse config_file).0)
parse-IsConfig_example = parse-IsConfig config_file

typo : codes "privat" ≢ visibility_public
typo e = absurd (cc ((str_eq_iff (codes "privat") visibility_public).1 e))

set_field-private_example :
    is_private ((set_field (codes "visibility") (codes "privat") 6 me).0) ≡ true
set_field-private_example = set_field-private (codes "privat") 6 me typo
