-- ===== src/Brief/Tests.antt =====
-- A brief of one ledger with a chain, and the theorems at it.
use dira.Prelude.{
  ℕ, ◌+◌, ◌≡◌, ◌≤◌, refl, true, false, Bool, List, [], ◌∷◌, ◌++◌, Str, codes, none, some, ltb, ◌-◌,
  ◌==◌, str_eq, if◌then◌else◌, is_nil, map, take, replicate, newline, Result, ok, err, Option,
  length,
}
use dira.Prelude.{
  split, fields, fields_func, fields_loop, is_space, trim_space, trim_right, trim_left, sort,
  sort_insert, cut,
}
use dira.Ledger.Write.{digits}
use dira.Ledger.Ident.{kind_for_prefix, valid_id}
use dira.Render.{row, entry_row, line, lines, fill_lines, paint_rest}
use dira.Ledger.Entry.{prefix, Entry, decision, accepted, intent, active}
use dira.Ledger.Validate.Tests.{use_go}
use dira.Ledger.Write.Tests.{memory}
use dira.Index.{Ref}
use dira.Chain.{Ancestor, reached}
use dira.Brief.{Times, Options, LoadedSection}
use dira.Brief.Tokens.{tokens, word_pieces, line_tokens, count_rune}
use dira.Brief.Tokens.Additive.{tokens_additive}
use dira.Brief.Paint.{
  item, cap_warning, thousands, decimal_text, preamble, paragraph, chain_notice, notice_blocks,
  paint_item, paint_entry, paint_blocks, describe, chain_item, status,
}
use dira.Brief.Paint.Private.{redacted}
use dira.Brief.Fill.{
  add, empty_section, add_sections, add_entries, fill_chain, add_ancestors, add_chain_entries,
  active_intents, read_intents, chain_label, SectionResult,
}
use dira.Brief.Compose.{filled, give_back, compose, footer}
use dira.Brief.Fill.Hiding.{hiding_source}
use dira.Brief.Compose.Private.{compose-redacted}
use dira.Brief.Compose.Bounded.{compose_bounded}
use dira.Brief.Compose.Counted.{IsCounted, compose-IsCounted}

abbrev seconds : Times
seconds = record {
  Time = ℕ;
  parse = λ s. none;
  before = ltb;
  minus = λ n m. n - m;
  date = λ n. codes "2026-01-02";
  is_zero = λ n. n == 0;
}

abbrev secret : Entry
secret = record use_go { private = true }

abbrev reading : Str → Unit {0} → Result Str Entry × Unit {0}
reading id w = (if str_eq id use_go.id then ok secret else err (codes "no such file"), w)

abbrev never : Unit {0} → Bool × Unit {0}
never w = (false, w)

abbrev an_intent : Entry
an_intent = record use_go {
  id = codes "int-0001";
  kind = intent;
  state = active;
  title = codes "go";
  private = true;
}

abbrev parent : Ancestor
parent = reached (codes "me") [] (record { store = memory; world = an_intent ∷ [] })

abbrev asked : Options seconds (Unit {0})
asked = record {
  max_tokens = 100;
  width = 80;
  now = 5;
  ledger = codes "dira";
  context = false;
  chain = true;
  parents = [];
  chain_source = some (λ w. (ok (parent ∷ []), w));
  notices = [];
}

abbrev ref_named : Str → Ref
ref_named id = record {
  id = id;
  kind = decision;
  state = accepted;
  title = [];
  created = [];
  updated = [];
  private = true;
}

abbrev loaded : List (LoadedSection seconds (Unit {0}))
loaded =
    record {
      section = record {
        name = codes "recent decisions";
        empty = codes "none";
        selector = record { kinds = []; states = []; with_edge = none; limit = 0 };
        fresh = none;
      };
      refs = ref_named use_go.id ∷ ref_named (codes "dec-0009") ∷ [];
    }
    ∷ []

counted : (word_pieces (codes "dec-0002") ≡ 6) × (tokens (codes "a decision" ++ newline ∷ []) ≡ 6)
unfolding tokens word_pieces line_tokens count_rune dira.Prelude.split dira.Prelude.fields
    dira.Prelude.fields_func dira.Prelude.fields_loop dira.Prelude.is_space
counted = (refl, refl)

tokens_additive_example :
    tokens (codes "one" ++ newline ∷ codes "two") + (if is_nil (codes "two") then 0 else 1)
    ≡ tokens (codes "one" ++ newline ∷ []) + tokens (codes "two")
tokens_additive_example = tokens_additive (codes "one") (codes "two")

compose_bounded_example :
    (tokens (compose seconds (Unit {0}) reading never asked loaded tt).0.out ≤ 100)
    × ((compose seconds (Unit {0}) reading never asked loaded tt).0.count
        ≡ tokens (compose seconds (Unit {0}) reading never asked loaded tt).0.out)
compose_bounded_example = compose_bounded seconds (Unit {0}) reading never asked loaded tt

compose-IsCounted_example :
    IsCounted ((compose seconds (Unit {0}) reading never asked loaded tt).0.rest)
compose-IsCounted_example = compose-IsCounted seconds (Unit {0}) reading never asked loaded tt

compose-redacted_example :
    compose seconds
      (Unit {0})
      (λ id v. redacted (reading id v))
      never
      (record asked { chain_source = hiding_source seconds (Unit {0}) asked.chain_source })
      loaded
      tt
    ≡ compose seconds (Unit {0}) reading never asked loaded tt
compose-redacted_example = compose-redacted seconds (Unit {0}) reading never asked loaded tt

-- A local entry that does not fit ends the filling of the sections, and a shorter entry of an ancestor is
-- still written after it.
abbrev long_title : Entry
long_title = record use_go { title = take 900 (replicate 900 b'x') }

abbrev skipping : List SectionResult
skipping =
    (compose seconds (Unit {0}) (λ id w. (ok long_title, w)) never
      (record asked { max_tokens = 250 }) loaded tt).0.rest.sections

chain_after_refusal :
    (map (λ (s : SectionResult). s.kept) skipping ≡ 0 ∷ 1 ∷ [])
    × (map (λ (s : SectionResult). s.total) skipping ≡ 2 ∷ 1 ∷ [])
unfolding compose filled give_back add_sections add_entries fill_chain add_ancestors
    add_chain_entries active_intents read_intents chain_label cap_warning footer thousands
    decimal_text digits preamble paragraph chain_notice notice_blocks item paint_item paint_entry
    paint_blocks describe chain_item status empty_section add tokens word_pieces line_tokens
    count_rune split fields fields_func fields_loop is_space trim_space trim_right trim_left row
    entry_row line lines fill_lines paint_rest sort sort_insert kind_for_prefix cut valid_id prefix
chain_after_refusal = (refl, refl)
