-- ===== src/Brief.antt =====
-- internal/brief/brief.go: what a brief is asked for, its sections, and what they select.
pub mod Tokens
pub mod Paint
pub mod Fill
pub mod Compose
mod Tests
use dira.Prelude.{
  ℕ, ◌*◌, Bool, true, false, not, List, [], ◌∷◌, Option, none, some, Str, codes, is_nil, ltb, leb,
  ◌==◌, if◌then◌else◌, keep_if, take, length, byte_len, Result, ok, err,
}
use dira.Ledger.Entry.{
  Kind, State, question, intent, decision, note, opened, active, accepted, blocks,
}
use dira.Index.{Index, Selector, Ref}
use dira.Chain.{Ancestor, WalkError}

abbrev pub default_max_tokens : ℕ
default_max_tokens = 1500

abbrev pub default_width : ℕ
default_width = 80

abbrev pub min_width : ℕ
min_width = 56

abbrev pub text_floor : ℕ
text_floor = 24

-- Seven days in nanoseconds.
abbrev pub note_window : ℕ
note_window = 7 * 24 * 3600 * 1000000000

-- What the code uses of Go's package `time`.
pub record Times : Type 1 where
  pub Time : Type 0
  pub parse : Str → Option Time
  pub before : Time → Time → Bool
  pub minus : Time → ℕ → Time
  pub date : Time → Str
  pub is_zero : Time → Bool

module _ (t : Times) (W : Type 0) where
  -- `ChainSource` reads, so it takes and returns what can be read. A ceiling or a width below 0 is
  -- treated as 0 is.
  pub record Options : Type 1 where
    pub max_tokens : ℕ
    pub width : ℕ
    pub now : t.Time
    pub ledger : Str
    pub context : Bool
    pub chain : Bool
    pub parents : List Str
    pub chain_source : Option (W → Result WalkError (List Ancestor) × W)
    pub notices : List Str

  -- `normalised`; `present` is what `time.Now` answers.
  unfoldable pub normalised : t.Time → Options → Options
  normalised present o =
      let width = if o.width == 0 then default_width else o.width in
      record o {
        max_tokens = if o.max_tokens == 0 then default_max_tokens else o.max_tokens;
        width = if ltb width min_width then min_width else width;
        now = if t.is_zero o.now then present else o.now;
        ledger = if is_nil o.ledger then codes "this ledger" else o.ledger;
      }

  pub record Section : Type 1 where
    pub name : Str
    pub empty : Str
    pub selector : Selector
    pub fresh : Option (Ref → Options → Bool)

  pub record LoadedSection : Type 1 where
    pub section : Section
    pub refs : List Ref

  abbrev pub stamp : Str → Str → Str
  stamp updated created = if is_nil updated then created else updated

  abbrev at_or_after : Option t.Time → t.Time → Bool
  at_or_after none from = true
  at_or_after (some at) from = not (t.before at from)

  unfoldable pub within : Str → t.Time → ℕ → Bool
  within ts now window = at_or_after (t.parse ts) (t.minus now window)

  abbrev pub chosen : Kind → State → Selector
  chosen k s = record { kinds = k ∷ []; states = s ∷ []; with_edge = none; limit = 0 }

  unfoldable pub sections : List Section
  unfolding within
  sections =
      record {
        name = codes "open blockers";
        empty = codes "none — nothing in this ledger is waiting on an unanswered question";
        selector = record (chosen question opened) { with_edge = some blocks };
        fresh = none;
      }
      ∷ record {
        name = codes "current focus";
        empty = codes "none — no intent is active";
        selector = chosen intent active;
        fresh = none;
      }
      ∷ record {
        name = codes "recent decisions";
        empty = codes "none — nothing has been accepted yet";
        selector = chosen decision accepted;
        fresh = none;
      }
      ∷ record {
        name = codes "fresh notes";
        empty = codes "none — no note was written in the last week";
        selector = chosen note active;
        fresh = some (λ ref o. within (stamp ref.updated ref.created) o.now note_window);
      }
      ∷ []

  abbrev kept : Option (Ref → Options → Bool) → Options → List Ref → List Ref
  kept none o refs = refs
  kept (some fresh) o refs = keep_if (λ ref. fresh ref o) refs

  module _ (select : Selector → W → Result Str (List Ref) × W) where
    abbrev loaded_more :
        LoadedSection → Result Str (List LoadedSection) → Result Str (List LoadedSection)
    loaded_more l (ok ls) = ok (l ∷ ls)
    loaded_more l (err e) = err e

    -- The loop of `load`.
    abbrev pub load_sections : Options → List Section → W → Result Str (List LoadedSection) × W
    load_sections o [] w = (ok [], w)
    load_sections o (spec ∷ specs) w =
        let (answer, w1) = select spec.selector w in
        let rest = load_sections o specs w1 in
        elim answer [
          | err e ↦ (err e, w1)
          | ok refs ↦ (
            loaded_more (record { section = spec; refs = kept spec.fresh o refs }) rest.0,
            rest.1,
          )
        ]

    -- `load`
    unfoldable pub load : Options → W → Result Str (List LoadedSection) × W
    unfolding sections
    load o w = load_sections o sections w
