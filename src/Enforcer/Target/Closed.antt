-- ===== src/Enforcer/Target/Closed.antt =====
-- The enforcement set is closed: what a unit of it can come from.
use dira.Prelude.{
  ◌≡◌, ◌⊎◌, inl, inr, refl, true, false, List, [], ◌∷◌, arith, Str, In, In-append_cases,
  In-append_left, In-append_right, Bool-cases, ap, subst,
}
use dira.Ledger.Entry.{
  Kind, State, Alternative, Entry, decision, constraint, accepted, rejected, active,
}
use dira.Enforcer.Text.{Text, parse, is_empty}
use dira.Enforcer.Target.{
  Citation, MatchUnit, basis_decision, basis_constraint, base_citation, title_unit, option_unit,
  why_not_unit, alternative_citation, units_of, alternative_units, sentence_units, constraint_units,
  units_for, enforcement_set, unless_empty, is_accepted_decision, is_rejected_decision,
  is_active_constraint, sentences,
}

-- The three rows of the table that enforce something.
pub data IsEnforced (e : Entry) : Type 0 where
  accepted_decision : e.kind ≡ decision → e.state ≡ accepted → IsEnforced e
  rejected_decision : e.kind ≡ decision → e.state ≡ rejected → IsEnforced e
  active_constraint : e.kind ≡ constraint → e.state ≡ active → IsEnforced e

-- What a citation may quote: an alternative of the entry, with the condition that would reopen it;
-- a rejected decision's own title; or a constraint. Only the first offers a condition.
pub data Quotes (e : Entry) (c : Citation) : Type 0 where
  an_alternative :
      (alt : Alternative)
      → In alt e.alternatives
      → e.kind ≡ decision
      → c ≡ alternative_citation alt (base_citation e)
      → Quotes e c
  the_decision :
      e.state ≡ rejected → c ≡ record (base_citation e) { basis = basis_decision } → Quotes e c
  the_constraint :
      e.kind ≡ constraint → c ≡ record (base_citation e) { basis = basis_constraint } → Quotes e c

In-unless_empty :
    (t : Text) (u x : MatchUnit) (rest : List MatchUnit)
    → In u (unless_empty t x rest)
    → (u ≡ x) ⊎ In u rest
In-unless_empty t u x rest h = elim (Bool-cases (is_empty t)) [
  | inl e ↦ inr (rw e at h)
  | inr e ↦ rw e at h
]

units_of-In :
    (alts : List Alternative) (base : Citation) (u : MatchUnit)
    → In u (units_of alts base)
    → (alt : Alternative) × In alt alts × (u.citation ≡ alternative_citation alt base)
unfolding units_of
units_of-In [] base u h = absurd h
units_of-In (alt ∷ alts) base u h = elim (In-unless_empty (parse alt.option) u _ _ h) [
  | inl e ↦ (alt, inl refl, ap (λ (x : MatchUnit). x.citation) e)
  | inr h' ↦ elim (In-unless_empty (parse alt.why_not) u _ _ h') [
    | inl e ↦ (alt, inl refl, ap (λ (x : MatchUnit). x.citation) e)
    | inr later ↦ let (a, m, e) = units_of-In alts base u later in (a, inr m, e)
  ]
]

sentence_units-In :
    (ss : List Str) (c : Citation) (u : MatchUnit) → In u (sentence_units ss c) → u.citation ≡ c
unfolding sentence_units
sentence_units-In [] c u h = absurd h
sentence_units-In (s ∷ ss) c u h = elim (In-unless_empty (parse s) u _ _ h) [
  | inl e ↦ ap (λ (x : MatchUnit). x.citation) e
  | inr later ↦ sentence_units-In ss c u later
]

accepted_lem :
    (k : Kind) (s : State) → is_accepted_decision k s ≡ true → (k ≡ decision) × (s ≡ accepted)
accepted_lem k s h = ground arith

rejected_lem :
    (k : Kind) (s : State) → is_rejected_decision k s ≡ true → (k ≡ decision) × (s ≡ rejected)
rejected_lem k s h = ground arith

constraint_lem :
    (k : Kind) (s : State) → is_active_constraint k s ≡ true → (k ≡ constraint) × (s ≡ active)
constraint_lem k s h = ground arith

alternative_units-Quotes :
    (e : Entry) (u : MatchUnit)
    → e.kind ≡ decision
    → In u (alternative_units e (base_citation e))
    → Quotes e u.citation
unfolding alternative_units
alternative_units-Quotes e u k h =
    let (alt, m, c) = units_of-In e.alternatives (base_citation e) u h in an_alternative alt m k c

rejected-Quotes :
    (e : Entry) (u : MatchUnit)
    → e.kind ≡ decision
    → e.state ≡ rejected
    → In u (title_unit e ∷ alternative_units e (base_citation e))
    → Quotes e u.citation
rejected-Quotes e u k s (inl own) = the_decision s (ap (λ (x : MatchUnit). x.citation) own)
rejected-Quotes e u k s (inr alt) = alternative_units-Quotes e u k alt

constraint-Quotes :
    (e : Entry) (u : MatchUnit)
    → e.kind ≡ constraint
    → In u (constraint_units e (base_citation e))
    → Quotes e u.citation
unfolding constraint_units
constraint-Quotes e u k (inl own) = the_constraint k (ap (λ (x : MatchUnit). x.citation) own)
constraint-Quotes e u k (inr later) =
    the_constraint k (sentence_units-In (sentences e.body) _ u later)

pub units_for-Quotes :
    (e : Entry) (u : MatchUnit) → In u (units_for e) → IsEnforced e × Quotes e u.citation
unfolding units_for
units_for-Quotes e u h = elim (Bool-cases (is_accepted_decision e.kind e.state)) [
  | inl yes_accepted ↦
      let (k, s) = accepted_lem e.kind e.state yes_accepted in
      (accepted_decision k s, alternative_units-Quotes e u k (rw yes_accepted at h))
  | inr n1 ↦ elim (Bool-cases (is_rejected_decision e.kind e.state)) [
    | inl yes_rejected ↦
        let (k, s) = rejected_lem e.kind e.state yes_rejected in
        (rejected_decision k s, rejected-Quotes e u k s (rw (n1, yes_rejected) at h))
    | inr n2 ↦ elim (Bool-cases (is_active_constraint e.kind e.state)) [
      | inl yes_active ↦
          let (k, s) = constraint_lem e.kind e.state yes_active in
          (active_constraint k s, constraint-Quotes e u k (rw (n1, n2, yes_active) at h))
      | inr n3 ↦ absurd (let left : In u [] = rw (n1, n2, n3) at h in left)
    ]
  ]
]

-- The enforcement set is closed: each of its units comes from an entry of the ledger that is an
-- accepted or a rejected decision or an active constraint, never a staged or superseded one, and
-- cites that entry's own alternative, its own title, or the constraint.
pub enforcement_set-closed :
    (es : List Entry) (u : MatchUnit)
    → In u (enforcement_set es)
    → (e : Entry) × In e es × IsEnforced e × Quotes e u.citation
unfolding enforcement_set
enforcement_set-closed [] u h = absurd h
enforcement_set-closed (e ∷ es) u h =
    elim (In-append_cases u (units_for e) (enforcement_set es) h) [
      | inl own ↦
          let (enforced, quotes) = units_for-Quotes e u own in (e, inl refl, enforced, quotes)
      | inr other ↦
          let (x, m, enforced, quotes) = enforcement_set-closed es u other in
          (x, inr m, enforced, quotes)
    ]

unless_empty-here :
    (t : Text) (x : MatchUnit) (rest : List MatchUnit)
    → is_empty t ≡ false
    → In x (unless_empty t x rest)
unless_empty-here t x rest h = rw h (inl refl)

unless_empty-later :
    (t : Text) (u x : MatchUnit) (rest : List MatchUnit) → In u rest → In u (unless_empty t x rest)
unless_empty-later t u x rest m = elim (Bool-cases (is_empty t)) [
  | inl e ↦ rw e m
  | inr e ↦ rw e (inr m)
]

units_of-option :
    (alts : List Alternative) (base : Citation) (alt : Alternative)
    → In alt alts
    → is_empty (parse alt.option) ≡ false
    → In (option_unit alt base) (units_of alts base)
unfolding units_of
units_of-option (a ∷ alts) base alt (inl e) h =
    subst (λ (x : Alternative). In (option_unit alt base) (units_of (x ∷ alts) base)) e
      (unless_empty-here (parse alt.option) (option_unit alt base) _ h)
units_of-option (a ∷ alts) base alt (inr m) h =
    unless_empty-later (parse a.option) _ (option_unit a base) _ (
      unless_empty-later (parse a.why_not) _ (why_not_unit a base) _
        (units_of-option alts base alt m h))
units_of-option [] base alt m h = absurd m

enforcement_set-In :
    (es : List Entry) (e : Entry) (u : MatchUnit)
    → In e es
    → In u (units_for e)
    → In u (enforcement_set es)
unfolding enforcement_set
enforcement_set-In (x ∷ es) e u (inl same) h =
    In-append_left u (units_for x) (enforcement_set es)
      (subst (λ (y : Entry). In u (units_for y)) same h)
enforcement_set-In (x ∷ es) e u (inr m) h =
    In-append_right u (units_for x) (enforcement_set es) (enforcement_set-In es e u m h)
enforcement_set-In [] e u m h = absurd m

-- Every alternative of an accepted or rejected decision that has a content word is in the
-- enforcement set, under a citation with its reason and its condition.
pub enforcement_set_complete :
    (es : List Entry) (e : Entry) (alt : Alternative)
    → In e es
    → e.kind ≡ decision
    → (e.state ≡ accepted) ⊎ (e.state ≡ rejected)
    → In alt e.alternatives
    → is_empty (parse alt.option) ≡ false
    → In (option_unit alt (base_citation e)) (enforcement_set es)
unfolding units_for alternative_units
enforcement_set_complete es e alt m k s a h =
    let own = units_of-option e.alternatives (base_citation e) alt a h in
    enforcement_set-In es e (option_unit alt (base_citation e)) m (elim s [
      | inl acc ↦ let t : is_accepted_decision e.kind e.state ≡ true = ground arith in rw t own
      | inr rej ↦
          let t : is_accepted_decision e.kind e.state ≡ false = ground arith in
          let t' : is_rejected_decision e.kind e.state ≡ true = ground arith in rw (t, t') (inr own)
    ])
