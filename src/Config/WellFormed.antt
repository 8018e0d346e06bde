-- ===== src/Config/WellFormed.antt =====
-- internal/config/config.go: what a caller of `Parse` may rely on, whatever the file says.
use dira.Prelude.{
  str_eq, ◌&&◌, newline, split, ◌+◌, codes, true, ℕ, zero, suc, Option, none, some, Option-cases,
  str_eq_iff, All-append, false, trim_space, cut, if_both, ◌≡◌, ◌⊎◌, inl, inr, refl, ◌≢◌, List, [],
  ◌∷◌, ◌++◌, Str, AreApart, All, map, Bool-cases, arith,
}
use dira.Config.{
  no_config, read_pair, strip_comment, read_header, set_field, is_private, Config, Parent, Scan,
  Problem, ℤ, pos, negsuc, parse, read_field, read_fields, parse_parent, inline_table, split_fields,
  add_parent, read_max_tokens, read_key, signed_atoi, unquote, read_lines, read_line,
  visibility_private, visibility_public, declares, between,
}

-- A visibility that is not stated is empty.
unfoldable pub KnowsVisibility : Parent → Type 0
KnowsVisibility p =
    (p.visibility ≡ []) ⊎ (p.visibility ≡ visibility_private) ⊎ (p.visibility ≡ visibility_public)

-- The parents have distinct names, and no visibility but the two words and the empty one.
pub record IsConfig (c : Config) : Type 0 where
  pub names : c.parents ≡ map (λ p. p.name) c.parent_decls
  pub apart : AreApart (λ p q. p.name ≢ q.name) c.parent_decls
  pub visible : All KnowsVisibility c.parent_decls

record Holds (s : Scan) : Type 0 where
  apart : AreApart (λ p q. p.name ≢ q.name) s.cfg.parent_decls
  visible : All KnowsVisibility s.cfg.parent_decls

read_field-Knows :
    (field : Str) (n : ℕ) (p : Parent)
    → KnowsVisibility p
    → KnowsVisibility ((read_field field n p).0)
unfolding KnowsVisibility read_field
read_field-Knows field n p h = ground arith

read_fields-Knows :
    (fields : List Str) (n : ℕ) (p : Parent)
    → KnowsVisibility p
    → KnowsVisibility ((read_fields fields n p).0)
read_fields-Knows [] n p h = h
read_fields-Knows (field ∷ fields) n p h =
    read_fields-Knows fields n ((read_field field n p).0) (read_field-Knows field n p h)

parse_parent-Knows : (name value : Str) (n : ℕ) → KnowsVisibility ((parse_parent name value n).0)
unfolding KnowsVisibility parse_parent
parse_parent-Knows name value n = elim (Option-cases (inline_table value)) [
  | inl e ↦ rw (e, parse_parent) (inl refl)
  | inr (body, e) ↦
      rw (e, parse_parent) (read_fields-Knows (split_fields false [] body) n _ (inl refl))
]

others_differ :
    (name : Str) (ps : List Parent) → declares name ps ≡ false → All (λ p. p.name ≢ name) ps
others_differ name [] h = tt
others_differ name (p ∷ ps) h = ground (arith, str_eq_iff p.name name, others_differ name ps)

AreApart-snoc :
    (ps : List Parent) (q : Parent)
    → AreApart (λ a b. a.name ≢ b.name) ps
    → All (λ p. p.name ≢ q.name) ps
    → AreApart (λ a b. a.name ≢ b.name) (ps ++ q ∷ [])
AreApart-snoc [] q a h = (tt, tt)
AreApart-snoc (p ∷ ps) q (d, a) (h, hs) =
    (All-append _ ps (q ∷ []) d (h, tt), AreApart-snoc ps q a hs)

add_parent-Holds :
    (p : Parent × List Problem) (n : ℕ) (s : Scan)
    → KnowsVisibility (p.0)
    → Holds s
    → Holds (add_parent p n s)
add_parent-Holds (p, reports) n s k h = elim (Bool-cases (declares p.name s.cfg.parent_decls)) [
  | inl e ↦ rw e (record { apart = h.apart; visible = h.visible })
  | inr e ↦ rw e (record {
    apart = AreApart-snoc s.cfg.parent_decls p h.apart (others_differ p.name s.cfg.parent_decls e);
    visible = All-append _ s.cfg.parent_decls (p ∷ []) h.visible (k, tt);
  })
]

read_max_tokens-Holds :
    (tokens : Option ℤ) (value : Str) (n : ℕ) (s : Scan)
    → Holds s
    → Holds (read_max_tokens tokens value n s)
read_max_tokens-Holds none value n s h = record { apart = h.apart; visible = h.visible }
read_max_tokens-Holds (some (pos zero)) value n s h = record {
  apart = h.apart;
  visible = h.visible;
}
read_max_tokens-Holds (some (pos (suc k))) value n s h = record {
  apart = h.apart;
  visible = h.visible;
}
read_max_tokens-Holds (some (negsuc k)) value n s h = record {
  apart = h.apart;
  visible = h.visible;
}

read_key-Holds : (key value : Str) (n : ℕ) (s : Scan) → Holds s → Holds (read_key key value n s)
unfolding read_key
read_key-Holds key value n s h =
    if_both Holds (str_eq s.section (codes "ledger") && str_eq key (codes "name")) (same h) (
      if_both Holds (str_eq s.section (codes "ledger") && str_eq key (codes "tier")) (same h) (
        if_both Holds (str_eq s.section (codes "brief") && str_eq key (codes "max_tokens"))
          (read_max_tokens-Holds (signed_atoi (unquote value)) value n s h)
          (if_both Holds (str_eq s.section (codes "parents"))
            (add_parent-Holds (parse_parent key value n) n s (parse_parent-Knows key value n) h)
            h)))
  where
    same :
        {name tier : Str}
        → Holds s
        → Holds (record s { cfg = record (s.cfg) { name = name; tier = tier } })
    same h = record { apart = h.apart; visible = h.visible }

read_pair-Holds :
    (pair : Option (Str × Str)) (n : ℕ) (s : Scan) → Holds s → Holds (read_pair pair n s)
unfolding read_pair
read_pair-Holds none n s h = h
read_pair-Holds (some (key, value)) n s h =
    read_key-Holds (trim_space key) (trim_space (strip_comment false value)) n s h

read_header-Holds :
    (name : Option Str) (line : Str) (n : ℕ) (s : Scan)
    → Holds s
    → Holds (read_header name line n s)
unfolding read_header
read_header-Holds (some name) line n s h = record { apart = h.apart; visible = h.visible }
read_header-Holds none line n s h = read_pair-Holds (cut line b'=') n s h

read_line-Holds : (raw : Str) (n : ℕ) (s : Scan) → Holds s → Holds (read_line raw n s)
unfolding read_line
read_line-Holds raw n s h =
    if_both Holds _ h
      (read_header-Holds (between b'[' b']' (trim_space raw)) (trim_space raw) n s h)

read_lines-Holds : (raws : List Str) (n : ℕ) (s : Scan) → Holds s → Holds (read_lines raws n s)
read_lines-Holds [] n s h = h
read_lines-Holds (raw ∷ raws) n s h =
    read_lines-Holds raws (n + 1) (read_line raw n s) (read_line-Holds raw n s h)

-- Whatever the file says, the parents that are read have distinct names, which are listed in their
-- order, and the visibility of each is empty, `private` or `public`.
pub parse-IsConfig : (file : Str) → IsConfig ((parse file).0)
unfolding parse
parse-IsConfig file =
    let last =
      read_lines-Holds (split file newline) 1
        (record { section = []; cfg = no_config; problems = [] })
        (record { apart = tt; visible = tt }) in
    record { names = refl; apart = last.apart; visible = last.visible }

-- A field `visibility` whose value is not `public` makes its parent private, also where the value is
-- not a word that dira knows.
pub set_field-private :
    (value : Str) (n : ℕ) (p : Parent)
    → value ≢ visibility_public
    → is_private ((set_field (codes "visibility") value n p).0) ≡ true
set_field-private value n p h =
    ground (arith, str_eq_iff value visibility_private, str_eq_iff value visibility_public)
