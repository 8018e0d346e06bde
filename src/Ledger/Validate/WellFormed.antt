-- ===== src/Ledger/Validate/WellFormed.antt =====
-- What a valid entry is, said without the code, and that `Validate` accepts exactly those.
use dira.Prelude.{
  ℕ, suc, ◌≡◌, ◌≢◌, ◌↔◌, ◌⊎◌, inl, inr, ◌≤◌, refl, Bool, true, List, [], ◌∷◌, ◌++◌, Option, none,
  some, arith, Str, length, all, is_nil, require, not, codes, if◌then◌else◌, Option-cases,
  str_eq_refl, is_digit, one_of, ok, All, In, >>-ok_iff, any_iff-In, str_eq, str_eq_iff, cut_sound,
  cut,
}
use dira.Ledger.Entry.{
  Kind, intent, other_kind, Edge, Alternative, Source, AppliesWhen, Entry, prefix, states, staged,
  decision, realized_by, edge_types, hooks, tiers, other_hook, edge_type_eq, edge_type_eq_iff,
  state_eq_iff, hook_eq_iff, tier_eq_iff, other_tier, state_eq, hook_eq, tier_eq,
}
use dira.Ledger.Ident.{valid_id, valid_ref, valid_tag, dash, prefixes}
use dira.Ledger.Validate.{
  bad_kind, draft_probe, check_edge, check_edges, check_alternative, check_alternatives, check_tags,
  check_source, check_applies_when, check_head, validate, validate_draft, id_prefix, validate_draft,
}

pub record IsEdge (e : Edge) : Type 0 where
  pub known : In e.type edge_types
  pub target : e.to ≢ []
  pub internal : (e.type ≡ realized_by) ⊎ (valid_ref e.to ≡ true)
  pub short : length e.note ≤ 280

pub record IsAlternative (a : Alternative) : Type 0 where
  pub option : a.option ≢ []
  pub short : length a.option ≤ 200
  pub reason : a.why_not ≢ []

pub record IsSource (s : Source) : Type 0 where
  pub hook : (s.hook ≡ other_hook []) ⊎ In s.hook hooks
  pub tier : (s.tier ≡ other_tier []) ⊎ In s.tier tiers
  pub short : length s.excerpt ≤ 1000

-- Every tag has the tag syntax and stands once.
abbrev pub AreTags : List Str → List Str → Type 0
AreTags seen [] = Unit
AreTags seen (t ∷ ts) = (valid_tag t ≡ true) × (¬ In t seen) × AreTags (t ∷ seen) ts

check_edge_iff : (i : ℕ) (e : Edge) → (check_edge i e ≡ ok tt) ↔ IsEdge e
unfolding check_edge
check_edge_iff i e = ground (
  arith,
  any_iff-In edge_type_eq edge_type_eq_iff e.type edge_types,
  edge_type_eq_iff e.type realized_by,
)

check_edges_iff : (i : ℕ) (es : List Edge) → (check_edges i es ≡ ok tt) ↔ All IsEdge es
unfolding check_edges
check_edges_iff i [] = ground arith
check_edges_iff i (e ∷ es) = ground (
  arith,
  >>-ok_iff (check_edge i e) (check_edges (suc i) es),
  check_edge_iff i e,
  check_edges_iff (suc i) es,
)

check_alternative_iff :
    (i : ℕ) (a : Alternative) → (check_alternative i a ≡ ok tt) ↔ IsAlternative a
unfolding check_alternative
check_alternative_iff i a = ground arith

check_alternatives_iff :
    (i : ℕ) (xs : List Alternative) → (check_alternatives i xs ≡ ok tt) ↔ All IsAlternative xs
unfolding check_alternatives
check_alternatives_iff i [] = ground arith
check_alternatives_iff i (x ∷ xs) = ground (
  arith,
  >>-ok_iff (check_alternative i x) (check_alternatives (suc i) xs),
  check_alternative_iff i x,
  check_alternatives_iff (suc i) xs,
)

check_tags_iff : (i : ℕ) (seen ts : List Str) → (check_tags i seen ts ≡ ok tt) ↔ AreTags seen ts
unfolding check_tags
check_tags_iff i seen [] = ground arith
check_tags_iff i seen (t ∷ ts) =
    ground (arith, any_iff-In str_eq str_eq_iff t seen, check_tags_iff (suc i) (t ∷ seen) ts)

abbrev pub IsSourced : Option Source → Type 0
IsSourced none = Unit
IsSourced (some s) = IsSource s

check_source_iff : (s : Option Source) → (check_source s ≡ ok tt) ↔ IsSourced s
unfolding check_source
check_source_iff none = ground arith
check_source_iff (some s) = ground (
  arith,
  any_iff-In hook_eq hook_eq_iff s.hook hooks,
  any_iff-In tier_eq tier_eq_iff s.tier tiers,
  hook_eq_iff s.hook (other_hook []),
  tier_eq_iff s.tier (other_tier []),
)

abbrev pub HasAction : Option AppliesWhen → Type 0
HasAction none = Unit
HasAction (some a) = a.action ≢ []

check_applies_when_iff : (a : Option AppliesWhen) → (check_applies_when a ≡ ok tt) ↔ HasAction a
unfolding check_applies_when
check_applies_when_iff none = ground arith
check_applies_when_iff (some a) = ground arith

-- An id is the prefix of the kind, a dash, and four digits or more.
abbrev pub IsIdOf : Kind → Str → Type 0
IsIdOf k id =
    (digits : Str) × (id ≡ prefix k ++ dash ∷ digits)
    × (4 ≤ length digits)
    × (all is_digit digits ≡ true)

pub cut-prefix :
    (k : Kind) (digits : Str)
    → prefix k ≢ []
    → (cut (prefix k ++ dash ∷ digits) dash ≡ some (prefix k, digits))
      × (one_of (prefix k) prefixes ≡ true)
unfolding cut prefix
cut-prefix (other_kind _) digits h = absurd (h refl)
cut-prefix intent digits h = (refl, refl)
cut-prefix _ digits h = (refl, refl)

check_id_iff :
    (k : Kind) (id : Str)
    → prefix k ≢ []
    → ((valid_id id ≡ true) × (str_eq (id_prefix id) (prefix k) ≡ true)) ↔ IsIdOf k id
unfolding valid_id
check_id_iff k id known = (
  λ (valid, same). elim (Option-cases (cut id dash)) [
    | inl e ↦ ground arith
    | inr ((p, digits), e) ↦ (
      digits,
      ground (arith, cut_sound id dash e, str_eq_iff p (prefix k)),
      ground arith,
      ground arith,
    )
  ],
  λ (digits, e, four, ds). ground (arith, cut-prefix k digits known, str_eq_refl (prefix k)),
)

stamped :
    (s default : Str) (p : Str → Bool)
    → s ≢ []
    → p (if is_nil s then default else s) ≡ true
    → p s ≡ true
stamped [] default p c h = absurd (c refl)
stamped (_ ∷ _) default p c h = h

module _ (is_timestamp : Str → Bool) where
  pub record IsHead (e : Entry) : Type 0 where
    pub named : IsIdOf e.kind e.id
    pub known : prefix e.kind ≢ []
    pub titled : (3 ≤ length e.title) × (length e.title ≤ 120)
    pub placed : In e.state (states e.kind)
    pub created : (e.created ≢ []) × (is_timestamp e.created ≡ true)
    pub updated : (e.updated ≡ []) ⊎ (is_timestamp e.updated ≡ true)
    pub considered : e.kind ≡ decision → e.state ≢ staged → e.alternatives ≢ []

  check_head_iff : (e : Entry) → (check_head is_timestamp e ≡ ok tt) ↔ IsHead e
  unfolding check_head
  check_head_iff e = (
    λ h. record {
      named = (check_id_iff e.kind e.id (ground arith)).0 (ground arith, ground arith);
      known = ground arith;
      titled = ground arith;
      placed = ground (arith, any_iff-In state_eq state_eq_iff e.state (states e.kind));
      created = ground arith;
      updated = ground arith;
      considered = λ k s n. ground (arith, state_eq_iff e.state staged);
    },
    λ h. ground (
      arith,
      (check_id_iff e.kind e.id h.known).1 h.named,
      any_iff-In state_eq state_eq_iff e.state (states e.kind),
      state_eq_iff e.state staged,
      h.considered,
    ),
  )

  pub record IsValid (e : Entry) : Type 0 where
    pub head : IsHead e
    pub edges : All IsEdge e.edges
    pub alternatives : All IsAlternative e.alternatives
    pub tags : AreTags [] e.tags
    pub action : HasAction e.applies_when
    pub source : IsSourced e.source

  -- `Validate` accepts an entry exactly if it is well-formed: the id carries its kind's prefix and
  -- at least four digits, the title has 3 to 120 characters, the kind allows the state, the timestamps
  -- parse, a decision that is not staged has an alternative, and the edges, alternatives, tags,
  -- trigger and source keep their rules.
  pub validate_iff : (e : Entry) → (validate is_timestamp e ≡ ok tt) ↔ IsValid e
  unfolding validate
  validate_iff e =
      let head = >>-ok_iff (check_head is_timestamp e) in
      let edges = >>-ok_iff (check_edges 0 e.edges) in
      let alts = >>-ok_iff (check_alternatives 0 e.alternatives) in
      let tags = >>-ok_iff (check_tags 0 [] e.tags) in
      let trigger = >>-ok_iff (check_applies_when e.applies_when) (check_source e.source) in
      (
        λ h.
            let (h1, r1) = (head _).0 h in
            let (h2, r2) = (edges _).0 r1 in
            let (h3, r3) = (alts _).0 r2 in
            let (h4, r4) = (tags _).0 r3 in
            let (h5, h6) = trigger.0 r4 in
            record {
              head = (check_head_iff e).0 h1;
              edges = (check_edges_iff 0 e.edges).0 h2;
              alternatives = (check_alternatives_iff 0 e.alternatives).0 h3;
              tags = (check_tags_iff 0 [] e.tags).0 h4;
              action = (check_applies_when_iff e.applies_when).0 h5;
              source = (check_source_iff e.source).0 h6;
            },
        λ v. (head _).1 (
          (check_head_iff e).1 v.head,
          (edges _).1 (
            (check_edges_iff 0 e.edges).1 v.edges,
            (alts _).1 (
              (check_alternatives_iff 0 e.alternatives).1 v.alternatives,
              (tags _).1 (
                (check_tags_iff 0 [] e.tags).1 v.tags,
                trigger.1 (
                  (check_applies_when_iff e.applies_when).1 v.action,
                  (check_source_iff e.source).1 v.source,
                ),
              ),
            ),
          ),
        ),
      )

  -- A draft that `ValidateDraft` accepts and that has a creation time is accepted by `Validate`
  -- under every id of its kind.
  pub validate_draft-any_id :
      (e : Entry) (id : Str)
      → validate_draft is_timestamp e ≡ ok tt
      → e.created ≢ []
      → IsIdOf e.kind id
      → validate is_timestamp (record e { id = id }) ≡ ok tt
  unfolding validate_draft
  validate_draft-any_id e id h c named =
      let passed = ((>>-ok_iff (require (not (is_nil (prefix e.kind))) bad_kind) _).0 h).1 in
      let v = (validate_iff (draft_probe e)).0 passed in
      let stamp : (e.created ≢ []) × (is_timestamp e.created ≡ true) =
        (c, stamped e.created (codes "1970-01-01T00:00:00Z") is_timestamp c v.head.created.1) in
      (validate_iff (record e { id = id })).1 (record {
        head = record {
          named = named;
          known = v.head.known;
          titled = v.head.titled;
          placed = v.head.placed;
          created = stamp;
          updated = v.head.updated;
          considered = v.head.considered;
        };
        edges = v.edges;
        alternatives = v.alternatives;
        tags = v.tags;
        action = v.action;
        source = v.source;
      })
