-- ===== src/Brief/Fill.antt =====
-- internal/brief/render.go: how `compose` and `fillChain` fill the ceiling, block by block.
pub mod Steps
pub mod Hiding
pub mod Sections
pub mod Private
use dira.Prelude.{
  ℕ, zero, suc, ◌+◌, Bool, true, false, ◌&&◌, List, [], ◌∷◌, ◌++◌, Option, none, some, Str, codes,
  is_nil, ltb, if◌then◌else◌, length, cut, newline, str_eq, str_lt, sort, Result, ok, err,
}
use dira.Ledger.Entry.{Entry, Kind, intent, active, state_eq}
use dira.Ledger.Ident.{kind_for_prefix, dash}
use dira.Ledger.Store.{Store, StoreError, EntryInfo}
use dira.Render.{row}
use dira.Index.{Ref}
use dira.Chain.{Ancestor, Opened, WalkError}
use dira.Brief.{Times, Options, Section, LoadedSection}
use dira.Brief.Tokens.{tokens}
use dira.Brief.Paint.{painter, item_indent, item, cap_warning, chain_item}

pub record SectionResult : Type 0 where
  pub name : Str
  pub kept : ℕ
  pub total : ℕ

-- `section` is none where a block is not an entry.
pub record Piece : Type 0 where
  pub text : Str
  pub cost : ℕ
  pub section : Option ℕ

-- What `compose` keeps: the pieces that are written, the last one first, what they cost, and the
-- counts of `Result.Sections`.
pub record Fill : Type 0 where
  pub written : List Piece
  pub spent : ℕ
  pub sections : List SectionResult

abbrev pub at_index : (SectionResult → SectionResult) → ℕ → List SectionResult → List SectionResult
at_index f i [] = []
at_index f zero (s ∷ ss) = f s ∷ ss
at_index f (suc i) (s ∷ ss) = s ∷ at_index f i ss

abbrev pub one_more_kept : ℕ → Fill → Fill
one_more_kept i m = record m {
  sections = at_index (λ s. record s { kept = s.kept + 1 }) i m.sections;
}

abbrev pub put_down : Str → Option ℕ → Fill → Fill
put_down text section m = record m {
  written = record { text = text; cost = tokens text; section = section } ∷ m.written;
  spent = m.spent + tokens text;
}

-- The closure `add`: nothing where the text does not fit.
unfoldable pub add : ℕ → Str → Option ℕ → Fill → Option Fill
unfolding tokens
add max text section m =
    if ltb max (m.spent + tokens text) then none else some (put_down text section m)

abbrev pub with_section : Str → ℕ → Fill → Fill
with_section name total m = record m {
  sections = m.sections ++ record { name = name; kept = 0; total = total } ∷ [];
}

-- The loop over the preamble; the flag is `filling`.
abbrev pub add_blocks : ℕ → List Str → Fill → Bool × Fill
add_blocks max [] m = (true, m)
add_blocks max (block ∷ blocks) m = elim (add max block none m) [
  | none ↦ (false, m)
  | some n ↦ add_blocks max blocks n
]

abbrev pub is_intent : Option Kind → Bool
is_intent (some intent) = true
is_intent _ = false

abbrev pub names_intent : Str → Bool
names_intent id = elim (cut id dash) [
  | none ↦ false
  | some (prefix, _) ↦ is_intent (kind_for_prefix prefix)
]

module _ (t : Times) (W : Type 0) (entry : Str → W → Result Str Entry × W)
    (is_cancelled : W → Bool × W) (o : Options t W) where
  -- The entries of a section; `pending` is the heading until one of them is written.
  unfoldable pub add_entries : ℕ → Str → List Ref → Fill → W → Bool × Fill × W
  unfolding item add
  add_entries i pending [] m w = (true, m, w)
  add_entries i pending (ref ∷ refs) m w =
      let (text, w1) = item t W entry o ref.id w in
      elim (add o.max_tokens (pending ++ text) (some i) m) [
        | none ↦ (false, m, w1)
        | some n ↦ add_entries i [] refs (one_more_kept i n) w1
      ]

  unfoldable pub empty_section : Section t W → Str
  unfolding row
  empty_section s = (row item_indent item_indent s.empty [] (painter t W entry o)).text

  abbrev pub heading_of : Section t W → Str
  heading_of s = newline ∷ s.name ++ newline ∷ []

  -- The loop over the sections. What it answers is `filling`: an empty section that does not fit ends
  -- it, and an entry that does not fit leaves the loop without a change of it.
  unfoldable pub add_sections : ℕ → List (LoadedSection t W) → Fill → W → Bool × Fill × W
  unfolding add_entries empty_section add
  add_sections i [] m w = (true, m, w)
  add_sections i (l ∷ ls) m w =
      let heading = heading_of l.section in
      elim (is_nil l.refs) [
        | true ↦ elim (add o.max_tokens (heading ++ empty_section l.section) none m) [
          | none ↦ (false, m, w)
          | some n ↦ add_sections (i + 1) ls n w
        ]
        | false ↦
            let (fits, n, w1) = add_entries i heading l.refs m w in
            elim fits [ true ↦ add_sections (i + 1) ls n w1 | false ↦ (true, n, w1) ]
      ]

  -- `chainLabel`
  unfoldable pub chain_label : Ancestor → Str
  chain_label a =
      if str_eq a.tier (codes "workspace")
      then a.namespace ++ codes " — bets"
      else if str_eq a.tier (codes "person")
      then a.namespace ++ codes " — directions"
      else a.namespace ++ codes " — active intents"

  -- The entries that `activeIntents` reads, in the order of the list.
  unfoldable pub read_intents : (s : Store) → List EntryInfo → s.World → List Entry
  unfolding kind_for_prefix cut
  read_intents s [] w = []
  read_intents s (info ∷ infos) w = elim (names_intent info.id) [
    | false ↦ read_intents s infos w
    | true ↦
        let (answer, w1) = s.get info.id w in
        let rest = read_intents s infos w1 in
        elim answer [
          | err e ↦ rest
          | ok e ↦ if is_intent (some e.kind) && state_eq e.state active then e ∷ rest else rest
        ]
  ]

  abbrev pub intents_listed :
      (s : Store) → Result StoreError (List EntryInfo) × s.World → List Entry
  intents_listed s (err e, w) = []
  intents_listed s (ok infos, w) = sort (λ a b. str_lt a.id b.id) (read_intents s infos w)

  -- `activeIntents`
  unfoldable pub active_intents : Option Opened → List Entry
  unfolding read_intents sort
  active_intents none = []
  active_intents (some o) = intents_listed o.store (o.store.list o.world)

  unfoldable pub add_chain_entries : ℕ → Str → Str → List Entry → Fill → Bool × Fill
  unfolding chain_item add
  add_chain_entries i ns pending [] m = (true, m)
  add_chain_entries i ns pending (e ∷ es) m =
      elim (add o.max_tokens (pending ++ chain_item t W entry o ns e) (some i) m) [
        | none ↦ (false, m)
        | some n ↦ add_chain_entries i ns [] es (one_more_kept i n)
      ]

  abbrev pub chain_heading : Ancestor → ℕ → Str
  chain_heading a count =
      newline ∷ chain_label a ++ newline ∷ cap_warning t W entry a.namespace count

  -- The loop of `fillChain`.
  unfoldable pub add_ancestors : List Ancestor → Fill → W → Fill × W
  unfolding active_intents add_chain_entries chain_label cap_warning
  add_ancestors [] m w = (m, w)
  add_ancestors (a ∷ ancestors) m w =
      let (stop, w1) = is_cancelled w in
      let entries = active_intents a.store in
      let (fits, n) =
        add_chain_entries (length m.sections) a.namespace (chain_heading a (length entries)) entries
          (with_section a.namespace (length entries) m) in
      elim stop [
        | true ↦ (m, w1)
        | false ↦ elim fits [ false ↦ (n, w1) | true ↦ add_ancestors ancestors n w1 ]
      ]

  abbrev pub chain_walked : Fill → Result WalkError (List Ancestor) × W → Fill × W
  chain_walked m (err e, w) = (m, w)
  chain_walked m (ok ancestors, w) = add_ancestors ancestors m w

  -- `fillChain`
  unfoldable pub fill_chain :
      Option (W → Result WalkError (List Ancestor) × W) → Fill → W → Fill × W
  unfolding add_ancestors
  fill_chain none m w = (m, w)
  fill_chain (some source) m w = chain_walked m (source w)
