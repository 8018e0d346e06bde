-- ===== src/Brief/Paint/Private.antt =====
-- internal/brief/render.go, `item` and `describe`: what a brief shows of a private entry.
use dira.Prelude.{
  ◌≡◌, refl, ap, not, Bool-cases, inl, inr, List, [], ◌∷◌, ◌++◌, Str, codes, Option, Result, ok,
  err, if◌then◌else◌, length, ◌+◌,
}
use dira.Ledger.Entry.{Entry, Edge, edge_type_eq, blocks}
use dira.Ledger.Ident.{valid_id}
use dira.Render.{Painter, row, entry_row, spaces}
use dira.Chain.{Ancestor, WalkError}
use dira.Brief.{Times, Options}
use dira.Brief.Paint.{
  described, describe, paint_blocks, paint_entry, paint_item, item, title, status, painter,
  item_indent,
}

-- A private entry without what it says: its title, its body, its alternatives and its tags.
abbrev pub hidden : Entry → Entry
hidden e = if e.private then record e { title = []; body = []; alternatives = []; tags = [] } else e

abbrev pub redacted : {E W : Type 0} → Result E Entry × W → Result E Entry × W
redacted (ok e, w) = (ok (hidden e), w)
redacted (err e, w) = (err e, w)

abbrev pub ChainSource : (t : Times) (W : Type 0) → Type 1
ChainSource t W = Option (W → Result WalkError (List Ancestor) × W)

module _ (t : Times) (W : Type 0) (entry : Str → W → Result Str Entry × W) where
  abbrev pub hiding : Str → W → Result Str Entry × W
  hiding id w = redacted (entry id w)

  described-redacted :
      (ref : Str) (r : Result Str Entry × W)
      → described t W hiding ref (redacted r) ≡ described t W entry ref r
  described-redacted ref (err e, w) = refl
  described-redacted ref (ok e, w) = elim (Bool-cases e.private) [
    | inl h ↦ rw h refl
    | inr h ↦ rw h refl
  ]

  describe-redacted : (ref : Str) (w : W) → describe t W hiding ref w ≡ describe t W entry ref w
  unfolding describe
  describe-redacted ref w =
      ap (λ x. if not (valid_id ref) then (ref, w) else x) (described-redacted ref (entry ref w))

  paint_blocks-redacted :
      (under : Str) (edges : List Edge) (p : Painter) (w : W)
      → paint_blocks t W hiding under edges p w ≡ paint_blocks t W entry under edges p w
  unfolding paint_blocks
  paint_blocks-redacted under [] p w = refl
  paint_blocks-redacted under (edge ∷ edges) p w =
      elim (Bool-cases (edge_type_eq edge.type blocks)) [
        | inl e ↦
            let named = describe t W entry edge.to w in
            rw (e, paint_blocks, describe-redacted edge.to w)
              (paint_blocks-redacted under edges (row under under (codes "blocks " ++ named.0) [] p)
                named.1)
        | inr e ↦ rw (e, paint_blocks) (paint_blocks-redacted under edges p w)
      ]

  paint_entry-redacted :
      (o : Options t W) (src : ChainSource t W) (id shown right : Str) (edges : List Edge) (w : W)
      → paint_entry t W hiding (record o { chain_source = src }) id shown right edges w
        ≡ paint_entry t W entry o id shown right edges w
  unfolding paint_entry
  paint_entry-redacted o src id shown right edges w =
      let p = entry_row item_indent item_indent id shown right (painter t W entry o) in
      ap (λ (r : Painter × W). (r.0.text, r.1))
        (paint_blocks-redacted (item_indent ++ spaces (length id + 4)) edges p w)

  pub title_hidden : (e : Entry) → title (hidden e) ≡ title e
  title_hidden e = elim (Bool-cases e.private) [ inl h ↦ rw h refl | inr h ↦ rw h refl ]

  pub status_hidden : (e : Entry) → status t W hiding (hidden e) ≡ status t W entry e
  unfolding status
  status_hidden e = elim (Bool-cases e.private) [ inl h ↦ rw h refl | inr h ↦ rw h refl ]

  pub id_hidden : (e : Entry) → ((hidden e).id ≡ e.id) × ((hidden e).edges ≡ e.edges)
  id_hidden e = elim (Bool-cases e.private) [
    | inl h ↦ rw h (refl, refl)
    | inr h ↦ rw h (refl, refl)
  ]

  paint_item-redacted :
      (o : Options t W) (src : ChainSource t W) (id : Str) (r : Result Str Entry × W)
      → paint_item t W hiding (record o { chain_source = src }) id (redacted r)
        ≡ paint_item t W entry o id r
  unfolding paint_item
  paint_item-redacted o src id (err e, w) = refl
  paint_item-redacted o src id (ok e, w) =
      rw ((id_hidden e).0, (id_hidden e).1, title_hidden e, status_hidden e)
        (paint_entry-redacted o src e.id (title e) (status t W entry e) e.edges w)

  -- What a brief shows of an entry, and of the entries that it blocks, is the same if the titles, bodies,
  -- alternatives and tags of all private entries are taken away, whatever chain is asked for.
  pub item-redacted :
      (o : Options t W) (src : ChainSource t W) (id : Str) (w : W)
      → item t W (λ i v. redacted (entry i v)) (record o { chain_source = src }) id w
        ≡ item t W entry o id w
  unfolding item
  item-redacted o src id w = paint_item-redacted o src id (entry id w)
