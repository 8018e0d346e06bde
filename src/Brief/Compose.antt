-- ===== src/Brief/Compose.antt =====
-- internal/brief/render.go, `compose`: the ceiling is filled, and then entries are given back so that the
-- notice of what was left out fits.
pub mod Filled
pub mod Bounded
pub mod Counted
pub mod Private
pub mod Notice
pub mod Named
use dira.Prelude.{
  ℕ, zero, suc, ◌+◌, ◌-◌, Bool, true, false, not, ◌&&◌, List, [], ◌∷◌, ◌++◌, Option, none, some,
  Str, codes, is_nil, ltb, leb, ◌==◌, if◌then◌else◌, length, map, cut, newline, str_eq, str_lt,
  sort, Result, ok, err,
}
use dira.Ledger.Entry.{Entry, Kind, State, intent, active, state_eq}
use dira.Ledger.Ident.{kind_for_prefix, dash}
use dira.Ledger.Store.{Store, StoreError, EntryInfo}
use dira.Render.{Painter, line, row}
use dira.Index.{Ref}
use dira.Chain.{Ancestor, Opened, WalkError}
use dira.Brief.{Times, Options, Section, LoadedSection}
use dira.Brief.Tokens.{tokens}
use dira.Brief.Paint.{
  painter, item_indent, item, preamble, cap_warning, chain_item, commas, thousands, decimal_text,
}
use dira.Brief.Fill.{
  Fill, Piece, SectionResult, at_index, add, add_blocks, add_sections, fill_chain,
}

-- `Result.Omitted`
abbrev pub omitted : List SectionResult → ℕ
omitted [] = 0
omitted (s ∷ ss) = (s.total - s.kept) + omitted ss

abbrev pub one_less_kept : Option ℕ → List SectionResult → List SectionResult
one_less_kept none ss = ss
one_less_kept (some i) ss = at_index (λ s. record s { kept = s.kept - 1 }) i ss

abbrev pub text_of : List Piece → Str
text_of [] = []
text_of (p ∷ ps) = text_of ps ++ p.text

pub record Composed : Type 0 where
  pub out : Str
  pub count : ℕ
  pub rest : Fill

module _ (t : Times) (W : Type 0) (entry : Str → W → Result Str Entry × W)
    (is_cancelled : W → Bool × W) (o : Options t W) where
  abbrev pub dropped : List SectionResult → List Str
  dropped [] = []
  dropped (s ∷ ss) =
      let rest = dropped ss in
      let n = s.total - s.kept in
      if ltb 0 n then (decimal_text n ++ codes " " ++ s.name) ∷ rest else rest

  abbrev nine_spaces : Str
  nine_spaces = codes "         "

  -- `footer`
  unfoldable pub footer : List SectionResult → Str
  unfolding line row thousands decimal_text
  footer ss =
      if is_nil (dropped ss)
      then []
      else let p = line [] (painter t W entry o) in
        let q =
          row (codes "omitted  ") nine_spaces
            (commas (dropped ss)
              ++ codes " — over the "
              ++ thousands o.max_tokens
              ++ codes "-token ceiling (cst-0001)")
            [] p in
        (row nine_spaces nine_spaces
          (codes "the oldest of each go first; `dira why <id>` prints any entry in full") [] q).text

  -- The loop that gives pieces back, the last one first, until the notice fits: the tail and what is
  -- left.
  unfoldable pub give_back : List Piece → ℕ → List SectionResult → Str × Fill
  unfolding footer tokens
  give_back [] spent ss =
      let m : Fill = record { written = []; spent = spent; sections = ss } in
      if omitted ss == 0
      then ([], m)
      else if leb (spent + tokens (footer ss)) o.max_tokens
      then (footer ss, m)
      else ([], m)
  give_back (last ∷ written) spent ss =
      let m : Fill = record { written = last ∷ written; spent = spent; sections = ss } in
      let less = give_back written (spent - last.cost) (one_less_kept last.section ss) in
      if omitted ss == 0
      then ([], m)
      else if leb (spent + tokens (footer ss)) o.max_tokens
      then (footer ss, m)
      else less

  -- What `filling && opts.Chain && opts.ChainSource != nil` guards.
  abbrev pub chained : Bool → Fill → W → Fill × W
  chained filling m w =
      if filling && o.chain then fill_chain t W entry is_cancelled o o.chain_source m w else (m, w)

  abbrev pub started : List (LoadedSection t W) → Fill
  started loaded = record {
    written = [];
    spent = 0;
    sections = map (λ l. record { name = l.section.name; kept = 0; total = length l.refs }) loaded;
  }

  -- After the preamble, and after the sections: each with the flag `filling`.
  abbrev pub fill_local : List (LoadedSection t W) → Bool × Fill → W → Fill × W
  fill_local loaded (false, m) w = (m, w)
  fill_local loaded (true, m) w =
      let (go_on, n, w1) = add_sections t W entry is_cancelled o 0 loaded m w in chained go_on n w1

  -- The pieces before any is given back.
  unfoldable pub filled : List (LoadedSection t W) → W → Fill × W
  unfolding preamble add_sections fill_chain add
  filled loaded w =
      fill_local loaded (add_blocks o.max_tokens (preamble t W entry o) (started loaded)) w

  -- `compose`
  unfoldable pub compose : List (LoadedSection t W) → W → Composed × W
  unfolding filled give_back tokens
  compose loaded w =
      let (m, w1) = filled loaded w in
      let (tail, n) = give_back m.written m.spent m.sections in
      let out = text_of n.written ++ tail in
      (record { out = out; count = tokens out; rest = n }, w1)
