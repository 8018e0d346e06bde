-- ===== src/Ledger/Validate/Tests.antt =====
-- A valid entry, entries that `Validate` refuses, and the theorems at the first.
use dira.Prelude.{◌≡◌, refl, ◌↔◌, true, false, Bool, [], ◌∷◌, none, arith, Str, codes, ok, err}
use dira.Ledger.Entry.{prefix, Entry, decision, accepted, staged, active, informs}
use dira.Ledger.Validate.{
  validate, validate_draft, no_alternatives, bad_state, duplicate_tag, wrong_prefix,
}
use dira.Ledger.Validate.WellFormed.{IsValid, IsIdOf, validate_iff}

abbrev pub any_time : Str → Bool
any_time [] = false
any_time (_ ∷ _) = true

abbrev pub use_go : Entry
use_go = record {
  id = codes "dec-0001";
  kind = decision;
  title = codes "Go over Elixir";
  state = accepted;
  created = codes "2026-07-29T20:00:00Z";
  updated = [];
  tags = codes "lang" ∷ [];
  edges = record { type = informs; to = codes "sire:int-0002"; note = [] } ∷ [];
  alternatives =
      record { option = codes "Elixir"; why_not = codes "one binary"; revisit_if = [] } ∷ [];
  source = none;
  confirmed_by = [];
  adr = [];
  private = false;
  applies_when = none;
  body = [];
  version = [];
}

accepted_entry : validate any_time use_go ≡ ok tt
unfolding validate
accepted_entry = refl

refusals :
    (validate any_time (record use_go { alternatives = [] }) ≡ err no_alternatives)
    × (validate any_time (record use_go { alternatives = []; state = staged }) ≡ ok tt)
    × (validate any_time (record use_go { state = active }) ≡ err bad_state)
    × (validate any_time (record use_go { id = codes "cst-0001" }) ≡ err wrong_prefix)
    × (validate any_time (record use_go { tags = codes "a" ∷ codes "a" ∷ [] })
        ≡ err (duplicate_tag 1))
unfolding validate
refusals = (refl, refl, refl, refl, refl)

validate_iff_example : (validate any_time use_go ≡ ok tt) ↔ IsValid any_time use_go
validate_iff_example = validate_iff any_time use_go

pub draft : validate_draft any_time (record use_go { id = [] }) ≡ ok tt
unfolding validate_draft
draft = refl

id_of : IsIdOf decision (codes "dec-0042")
unfolding prefix
id_of = (codes "0042", refl, omega arith, refl)
