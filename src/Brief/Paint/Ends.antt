-- ===== src/Brief/Paint/Ends.antt =====
-- internal/brief/render.go: each block that is painted ends with its line.
use dira.Prelude.{
  Str, List, [], ◌∷◌, ◌++◌, Result, ok, err, All, Bool-cases, inl, inr, All-append, is_nil,
  trim_space, codes, if_both, if◌then◌else◌, length, ◌+◌,
}
use dira.Ledger.Entry.{Entry, Edge, edge_type_eq, blocks}
use dira.Render.{Painter, row, entry_row, line, spaces}
use dira.Render.Ends.{EndsLine, row-EndsLine, entry_row-EndsLine}
use dira.Brief.{Times, Options}
use dira.Brief.Paint.{
  painter, describe, paint_blocks, paint_entry, paint_item, item, paragraph, notice_blocks,
  preamble, chain_item, item_indent, status, title, chain_notice, guidance,
}

module _ (t : Times) (W : Type 0) (entry : Str → W → Result Str Entry × W) (o : Options t W) where
  paint_blocks-EndsLine :
      (under : Str) (edges : List Edge) (p : Painter) (w : W)
      → EndsLine p.text
      → EndsLine ((paint_blocks t W entry under edges p w).0.text)
  unfolding paint_blocks
  paint_blocks-EndsLine under [] p w h = h
  paint_blocks-EndsLine under (edge ∷ edges) p w h =
      elim (Bool-cases (edge_type_eq edge.type blocks)) [
        | inl e ↦
            let named = describe t W entry edge.to w in
            rw (e, paint_blocks)
              (paint_blocks-EndsLine under edges (row under under (codes "blocks " ++ named.0) [] p)
                named.1 (row-EndsLine under under (codes "blocks " ++ named.0) [] p))
        | inr e ↦ rw (e, paint_blocks) (paint_blocks-EndsLine under edges p w h)
      ]

  paint_entry-EndsLine :
      (id shown right : Str) (edges : List Edge) (w : W)
      → EndsLine ((paint_entry t W entry o id shown right edges w).0)
  unfolding paint_entry
  paint_entry-EndsLine id shown right edges w =
      let p = entry_row item_indent item_indent id shown right (painter t W entry o) in
      paint_blocks-EndsLine (item_indent ++ spaces (length id + 4)) edges p w
        (entry_row-EndsLine item_indent item_indent id shown right (painter t W entry o))

  paint_item-EndsLine :
      (id : Str) (r : Result Str Entry × W) → EndsLine ((paint_item t W entry o id r).0)
  unfolding paint_item
  paint_item-EndsLine id (err e, w) =
      entry_row-EndsLine item_indent item_indent id (codes "(this entry could not be read)") []
        (painter t W entry o)
  paint_item-EndsLine id (ok e, w) =
      paint_entry-EndsLine e.id (title e) (status t W entry e) e.edges w

  pub item-EndsLine : (id : Str) (w : W) → EndsLine ((item t W entry o id w).0)
  unfolding item
  item-EndsLine id w = paint_item-EndsLine id (entry id w)

  paragraph-EndsLine : (text : Str) → EndsLine (paragraph t W entry o text)
  unfolding paragraph
  paragraph-EndsLine text = row-EndsLine [] [] text [] (line [] (painter t W entry o))

  notice_blocks-EndsLine : (notices : List Str) → All EndsLine (notice_blocks t W entry o notices)
  unfolding notice_blocks
  notice_blocks-EndsLine [] = tt
  notice_blocks-EndsLine (notice ∷ notices) =
      if_both (All EndsLine) (is_nil (trim_space notice)) (notice_blocks-EndsLine notices)
        (paragraph-EndsLine notice, notice_blocks-EndsLine notices)

  pub preamble-EndsLine : All EndsLine (preamble t W entry o)
  unfolding preamble
  preamble-EndsLine =
      let context = if o.context then paragraph t W entry o guidance ∷ [] else [] in
      let chain = if o.chain then paragraph t W entry o (chain_notice t W entry o) ∷ [] else [] in
      (
        row-EndsLine [] [] (codes "dira brief — " ++ o.ledger ++ codes " · " ++ t.date o.now) []
            (painter t W entry o),
        All-append EndsLine (context ++ chain) (notice_blocks t W entry o o.notices)
            (All-append EndsLine context chain
              (if_both (All EndsLine) o.context (paragraph-EndsLine guidance, tt) tt)
              (if_both (All EndsLine) o.chain (paragraph-EndsLine (chain_notice t W entry o), tt)
                tt))
            (notice_blocks-EndsLine o.notices),
      )

  pub chain_item-EndsLine : (ns : Str) (e : Entry) → EndsLine (chain_item t W entry o ns e)
  unfolding chain_item
  chain_item-EndsLine ns e =
      entry_row-EndsLine item_indent item_indent (ns ++ codes ":" ++ e.id) (title e)
        (status t W entry e) (painter t W entry o)
