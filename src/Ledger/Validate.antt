-- ===== src/Ledger/Validate.antt =====
-- `Entry.Validate` and `ValidateDraft` of ledger/entry.go and ledger/draft.go. The text of an error
-- is left out: a violation names the rule, and the place in a list. Whether a text is an RFC3339
-- timestamp is what Go's `time.Parse` says: a parameter.
pub mod WellFormed
pub mod Tests
use dira.Prelude.{
  ℕ, suc, ◌≡◌, refl, Bool, true, false, not, ◌&&◌, ◌||◌, List, [], ◌∷◌, ◌++◌, Option, none, some,
  arith, Str, codes, length, leb, is_nil, any, if◌then◌else◌, Result, ok, err, ◌>>=◌, ◌>>◌, require,
  str_eq, one_of, cut,
}
use dira.Ledger.Entry.{
  Kind, State, EdgeType, Hook, Tier, Edge, Alternative, Source, AppliesWhen, Entry, prefix, states,
  staged, decision, realized_by, state_eq, edge_type_eq, hook_eq, tier_eq, edge_types, hooks, tiers,
  other_hook, other_tier,
}
use dira.Ledger.Ident.{valid_id, valid_ref, valid_tag, dash}

pub data Violation : Type 0 where
  bad_id bad_kind wrong_prefix title_length bad_state no_created bad_created bad_updated : Violation
  no_alternatives no_action bad_hook bad_tier excerpt_length : Violation
  edge_type edge_no_target edge_target edge_note : ℕ → Violation
  no_option option_length no_why_not : ℕ → Violation
  bad_tag duplicate_tag : ℕ → Violation

abbrev pub Check : Type 0
Check = Result Violation (Unit {0})

abbrev pub valid_state : Kind → State → Bool
valid_state k s = any (state_eq s) (states k)

abbrev pub valid_edge_type : EdgeType → Bool
valid_edge_type t = any (edge_type_eq t) edge_types

abbrev pub valid_hook : Hook → Bool
valid_hook h = any (hook_eq h) hooks

abbrev pub valid_tier : Tier → Bool
valid_tier t = any (tier_eq t) tiers

-- The part of an id in front of its first dash, or all of it.
abbrev pub id_prefix : Str → Str
id_prefix id = elim (cut id dash) [ none ↦ id | some (p, _) ↦ p ]

unfoldable pub check_edge : ℕ → Edge → Check
unfolding valid_ref
check_edge i e = do
  require (valid_edge_type e.type) (edge_type i)
  require (not (is_nil e.to)) (edge_no_target i)
  require (edge_type_eq e.type realized_by || valid_ref e.to) (edge_target i)
  require (leb (length e.note) 280) (edge_note i)

unfoldable pub check_edges : ℕ → List Edge → Check
unfolding check_edge
check_edges i [] = ok tt
check_edges i (e ∷ es) = check_edge i e >> check_edges (suc i) es

unfoldable pub check_alternative : ℕ → Alternative → Check
check_alternative i a = do
  require (not (is_nil a.option)) (no_option i)
  require (leb (length a.option) 200) (option_length i)
  require (not (is_nil a.why_not)) (no_why_not i)

unfoldable pub check_alternatives : ℕ → List Alternative → Check
unfolding check_alternative
check_alternatives i [] = ok tt
check_alternatives i (a ∷ as') = check_alternative i a >> check_alternatives (suc i) as'

-- The loop over the tags; `seen` holds those before this one.
unfoldable pub check_tags : ℕ → List Str → List Str → Check
unfolding valid_tag
check_tags i seen [] = ok tt
check_tags i seen (t ∷ ts) = do
  require (valid_tag t) (bad_tag i)
  require (not (one_of t seen)) (duplicate_tag i)
  check_tags (suc i) (t ∷ seen) ts

unfoldable pub check_source : Option Source → Check
check_source none = ok tt
check_source (some s) = do
  require (hook_eq s.hook (other_hook []) || valid_hook s.hook) bad_hook
  require (tier_eq s.tier (other_tier []) || valid_tier s.tier) bad_tier
  require (leb (length s.excerpt) 1000) excerpt_length

unfoldable pub check_applies_when : Option AppliesWhen → Check
check_applies_when none = ok tt
check_applies_when (some a) = require (not (is_nil a.action)) no_action

abbrev pub is_decision : Kind → Bool
is_decision decision = true
is_decision _ = false

-- What `ValidateDraft` puts in for the fields that are stamped later.
abbrev pub draft_probe : Entry → Entry
draft_probe e = record e {
  id = prefix e.kind ++ codes "-0000";
  created = if is_nil e.created then codes "1970-01-01T00:00:00Z" else e.created;
}

module _ (is_timestamp : Str → Bool) where
  -- The checks above the loops: id, kind, title, state, timestamps, and the roads not taken.
  unfoldable pub check_head : Entry → Check
  unfolding valid_id prefix states
  check_head e = do
    require (valid_id e.id) bad_id
    require (not (is_nil (prefix e.kind))) bad_kind
    require (str_eq (id_prefix e.id) (prefix e.kind)) wrong_prefix
    require (leb 3 (length e.title) && leb (length e.title) 120) title_length
    require (valid_state e.kind e.state) bad_state
    require (not (is_nil e.created)) no_created
    require (is_timestamp e.created) bad_created
    require (is_nil e.updated || is_timestamp e.updated) bad_updated
    require (not (is_decision e.kind && not (state_eq e.state staged) && is_nil e.alternatives))
        no_alternatives

  -- `Entry.Validate`: the first violation, in the source's order.
  unfoldable pub validate : Entry → Check
  unfolding check_head check_edges check_alternatives check_tags check_applies_when check_source
  validate e = do
    check_head e
    check_edges 0 e.edges
    check_alternatives 0 e.alternatives
    check_tags 0 [] e.tags
    check_applies_when e.applies_when
    check_source e.source

  -- `ValidateDraft`: the same rules for an entry whose id is not allocated yet.
  unfoldable pub validate_draft : Entry → Check
  unfolding validate
  validate_draft e = do require (not (is_nil (prefix e.kind))) bad_kind; validate (draft_probe e)
