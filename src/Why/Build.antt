-- ===== src/Why/Build.antt =====
-- internal/why/why.go: `Build` and `Resolve`.
use dira.Prelude.{
  ℕ, true, false, List, [], ◌∷◌, ◌++◌, Str, if◌then◌else◌, Result, ok, err, ◌>>=◌, sort,
}
use dira.Ledger.Entry.{Entry, Edge, supersedes, derives_from, realized_by, edge_type_eq}
use dira.Ledger.Store.{StoreError}
use dira.Index.{Backlink}
use dira.Why.{
  Source, Node, Artifact, Relation, ReasonChain, WhyError, unreadable, Builder, no_builder,
  oriented, read_entry, node, walk,
}
use dira.Why.Order.{generations, relation_less}

module _ (src : Source) where
  -- An edge of the subject: `realized_by` is an artifact, `derives_from` is walked later, and any other one
  -- is a relation.
  unfoldable pub relate_edge :
      Edge → Builder src.World → Result WhyError (List Artifact × List Relation × Builder src.World)
  unfolding node
  relate_edge edge b =
      if edge_type_eq edge.type realized_by
      then ok (record { target = edge.to; note = edge.note } ∷ [], [], b)
      else if edge_type_eq edge.type derives_from
      then ok ([], [], b)
      else (node src edge.to edge.note b >>= λ n.
          ok ([], record { type = edge.type; incoming = false; node = n.0 } ∷ [], n.1))

  abbrev pub relate :
      List Edge
      → Builder src.World
      → Result WhyError (List Artifact × List Relation × Builder src.World)
  relate [] b = ok ([], [], b)
  relate (edge ∷ edges) b =
      relate_edge edge b >>= λ n. relate edges n.2 >>= λ r. ok (n.0 ++ r.0, n.1 ++ r.1, r.2)

  -- The backlinks: `supersedes` on its own, any other one as a relation.
  unfoldable pub relate_back :
      List Backlink
      → Builder src.World
      → Result WhyError (List Node × List Relation × Builder src.World)
  unfolding node
  relate_back [] b = ok ([], [], b)
  relate_back (link ∷ links) b = node src link.from link.note b >>= λ n.
      relate_back links n.1 >>= λ r. ok (
        if edge_type_eq link.type supersedes
        then (n.0 ∷ r.0, r.1, r.2)
        else (r.0, record { type = link.type; incoming = true; node = n.0 } ∷ r.1, r.2))

  abbrev pub built :
      Str
      → Entry
      → List Artifact × List Relation
      → List Node × List Relation
      → Builder src.World
      → ReasonChain
  built query subject out back b = record {
    query = query;
    subject = oriented subject [];
    arising = generations b.depth b.nodes;
    alternatives = subject.alternatives;
    realized = out.0;
    adr = subject.adr;
    superseded_by = back.0;
    related = sort relation_less (out.1 ++ back.1);
    cycle = b.cycle;
  }

  abbrev pub with_links :
      Str
      → Result StoreError (List Backlink) × src.World
      → Builder src.World
      → Result WhyError (List Backlink × Builder src.World)
  with_links id (err e, w) b = err (unreadable id e)
  with_links id (ok links, w) b = ok (links, record b { world = w })

  abbrev pub build_from :
      ℕ → Str → Str → Result StoreError Entry × Builder src.World → Result WhyError ReasonChain
  build_from fuel query id (err e, b) = err (unreadable id e)
  build_from fuel query id (ok subject, b) = relate subject.edges b >>= λ out.
      with_links id (src.links_in id out.2.world) out.2 >>= λ links.
      relate_back links.0 links.1 >>= λ back.
      walk src fuel subject 0 (subject.id ∷ []) back.2 >>= λ c.
      ok (built query subject (out.0, out.1) (back.0, back.1) c)

  -- `Build`
  unfoldable pub build : ℕ → Str → Str → src.World → Result WhyError ReasonChain
  unfolding read_entry relate_edge relate_back walk generations relation_less sort oriented
  build fuel query id w = build_from fuel query id (read_entry src id (no_builder w))

  abbrev pub resolve_one :
      Str → Result StoreError Entry × src.World → Result WhyError (Node × src.World)
  resolve_one id (err e, w) = err (unreadable id e)
  resolve_one id (ok e, w) = ok (oriented e [], w)

  abbrev pub resolve_all : List Str → src.World → Result WhyError (List Node)
  resolve_all [] w = ok []
  resolve_all (id ∷ ids) w =
      resolve_one id (src.entry id w) >>= λ n. resolve_all ids n.1 >>= λ ns. ok (n.0 ∷ ns)

  abbrev pub resolve_found :
      Str → Result StoreError (List Str) × src.World → Result WhyError (List Node)
  resolve_found query (err e, w) = err (unreadable query e)
  resolve_found query (ok ids, w) = resolve_all ids w

  -- `Resolve`
  unfoldable pub resolve : Str → src.World → Result WhyError (List Node)
  unfolding oriented
  resolve query w = resolve_found query (src.find query w)
