-- ===== src/Brief/Paint.antt =====
-- internal/brief/render.go and internal/brief/cap.go: the blocks of a brief as they are painted.
pub mod Ends
pub mod Private
use dira.Prelude.{
  ℕ, suc, ◌+◌, ◌-◌, ◌*◌, ◌/◌, ◌%◌, Bool, true, false, not, ◌&&◌, ◌||◌, List, [], ◌∷◌, ◌++◌, Option,
  none, some, Str, codes, is_nil, ltb, leb, ◌==◌, if◌then◌else◌, length, byte_len, take, join,
  newline, trim_space, Result, ok, err, map,
}
use dira.Ledger.Entry.{Entry, Edge, blocks, edge_type_eq, state_text}
use dira.Ledger.Ident.{valid_id}
use dira.Ledger.Write.{digits}
use dira.Render.{Painter, new_painter, line, row, entry_row, spaces}
use dira.Chain.{Ancestor}
use dira.Brief.{Times, Options, text_floor, stamp}

-- What an entry is called here where it is private: `title`.
abbrev pub title : Entry → Str
title e = if e.private then codes "(private — cited by reference only)" else e.title

-- A timestamp is ASCII, so its first ten bytes are its first ten letters.
abbrev pub day : Str → Str
day ts = if leb 10 (length ts) then take 10 ts else ts

unfoldable pub decimal_text : ℕ → Str
unfolding digits
decimal_text n = digits (suc n) n

-- `thousands`: the digits in front, with a comma where a multiple of three is left.
abbrev pub grouped : Bool → Str → Str
grouped first [] = []
grouped first (c ∷ s) =
    let rest = grouped false s in
    if not first && (length (c ∷ s) % 3 == 0) then b',' ∷ c ∷ rest else c ∷ rest

unfoldable pub thousands : ℕ → Str
unfolding decimal_text
thousands n = grouped true (decimal_text n)

abbrev pub plural : ℕ → Str → Str → Str
plural n one many = if n == 1 then one else many

abbrev pub commas : List Str → Str
commas [] = []
commas (p ∷ []) = p
commas (p ∷ q ∷ []) = p ++ codes " and " ++ q
commas (p ∷ q ∷ r ∷ ps) = p ++ codes ", " ++ commas (q ∷ r ∷ ps)

abbrev pub item_indent : Str
item_indent = codes "  "

abbrev pub guidance : Str
guidance =
    codes "Settled records from this repository's ledger, injected at session start. "
    ++ codes "Treat them as decided: run `dira check \"<plan>\"` before planning something that "
    ++ codes "may contradict one, and `dira why <id>` for the reasoning behind any line."

module _ (t : Times) (W : Type 0) (entry : Str → W → Result Str Entry × W) where
  abbrev pub painter : Options t W → Painter
  painter o = new_painter o.width text_floor

  unfoldable pub status : Entry → Str
  unfolding trim_space
  status e = trim_space (state_text e.state ++ codes " " ++ day (stamp t W e.updated e.created))

  abbrev pub described : Str → Result Str Entry × W → Str × W
  described ref (err e, w) = (ref, w)
  described ref (ok target, w) =
      (if target.private then ref else ref ++ codes " — " ++ target.title, w)

  unfoldable pub describe : Str → W → Str × W
  unfolding valid_id
  describe ref w = if not (valid_id ref) then (ref, w) else described ref (entry ref w)

  -- The loop of `item` over the edges.
  unfoldable pub paint_blocks : Str → List Edge → Painter → W → Painter × W
  unfolding describe row
  paint_blocks under [] p w = (p, w)
  paint_blocks under (edge ∷ edges) p w = elim (edge_type_eq edge.type blocks) [
    | false ↦ paint_blocks under edges p w
    | true ↦
        let (named, w1) = describe edge.to w in
        paint_blocks under edges (row under under (codes "blocks " ++ named) [] p) w1
  ]

  -- The rows of an entry, given what is shown of it.
  unfoldable pub paint_entry : Options t W → Str → Str → Str → List Edge → W → Str × W
  unfolding paint_blocks entry_row
  paint_entry o id shown right edges w =
      let under = item_indent ++ spaces (length id + 4) in
      let p = entry_row item_indent item_indent id shown right (painter o) in
      let (q, w1) = paint_blocks under edges p w in (q.text, w1)

  unfoldable pub paint_item : Options t W → Str → Result Str Entry × W → Str × W
  unfolding paint_entry entry_row status
  paint_item o id (err e, w) = (
    (entry_row item_indent item_indent id (codes "(this entry could not be read)") []
        (painter o)).text,
    w,
  )
  paint_item o id (ok e, w) = paint_entry o e.id (title e) (status e) e.edges w

  -- `item`
  unfoldable pub item : Options t W → Str → W → Str × W
  unfolding paint_item
  item o id w = paint_item o id (entry id w)

  -- One block that is a paragraph: an empty line and a row.
  unfoldable pub paragraph : Options t W → Str → Str
  unfolding line row
  paragraph o text = (row [] [] text [] (line [] (painter o))).text

  unfoldable pub chain_notice : Options t W → Str
  unfolding decimal_text
  chain_notice o =
      if is_nil o.parents
      then codes "chain: no parent ledger is configured ([parents] in .dira/config.toml is empty), "
        ++ codes "so this brief is this repository's ledger alone."
      else codes "chain: "
        ++ plural (length o.parents) (codes "one parent ledger is")
            (decimal_text (length o.parents) ++ codes " parent ledgers are")
        ++ codes " configured as "
        ++ join o.parents (codes ", ")
        ++ codes "."

  unfoldable pub notice_blocks : Options t W → List Str → List Str
  unfolding trim_space paragraph
  notice_blocks o [] = []
  notice_blocks o (notice ∷ notices) =
      let rest = notice_blocks o notices in
      if is_nil (trim_space notice) then rest else paragraph o notice ∷ rest

  -- `preamble`
  unfoldable pub preamble : Options t W → List Str
  unfolding row paragraph chain_notice notice_blocks
  preamble o =
      (row [] [] (codes "dira brief — " ++ o.ledger ++ codes " · " ++ t.date o.now) []
          (painter o)).text
        ∷ (if o.context then paragraph o guidance ∷ [] else [])
      ++ (if o.chain then paragraph o (chain_notice o) ∷ [] else [])
      ++ notice_blocks o o.notices

  abbrev pub idiomatic_max : ℕ
  idiomatic_max = 7

  -- `capWarning`
  unfoldable pub cap_warning : Str → ℕ → Str
  unfolding decimal_text
  cap_warning namespace count =
      if leb count idiomatic_max
      then []
      else namespace
        ++ codes "  ⚠ idiomatic range — "
        ++ decimal_text count
        ++ codes " active, three to seven is idiomatic, not a limit"
        ++ newline ∷ []

  unfoldable pub chain_item : Options t W → Str → Entry → Str
  unfolding entry_row status
  chain_item o namespace e =
      (entry_row item_indent item_indent (namespace ++ codes ":" ++ e.id) (title e) (status e)
        (painter o)).text
