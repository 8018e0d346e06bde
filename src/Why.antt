-- ===== src/Why.antt =====
-- internal/why/why.go: the chain of reasons behind an entry. `Source` is an interface; the map from a ref to
-- its depth and the one to its node are dictionaries.
pub mod Order
pub mod Build
pub mod Terminates
pub mod Deeper
pub mod Found
pub mod Layered
mod Tests
use dira.Prelude.{
  ℕ, zero, suc, ◌+◌, ◌-◌, Bool, true, false, not, ◌&&◌, ◌||◌, List, [], ◌∷◌, ◌++◌, Option, none,
  some, Str, codes, str_eq, str_lt, one_of, is_nil, ltb, leb, ◌==◌, if◌then◌else◌, Result, ok, err,
  ◌>>=◌, Dict, lookup, insert, sort, keep_if, map,
}
use dira.Ledger.Entry.{
  Entry, Edge, Kind, State, EdgeType, Alternative, supersedes, derives_from, informs, blocks,
  realized_by, edge_type_eq,
}
use dira.Ledger.Ident.{valid_id}
use dira.Ledger.Store.{StoreError, not_found}
use dira.Index.{Backlink}

pub record Source : Type 1 where
  pub World : Type 0
  pub find : Str → World → Result StoreError (List Str) × World
  pub entry : Str → World → Result StoreError Entry × World
  pub links_in : Str → World → Result StoreError (List Backlink) × World

-- `Resolution`
pub data Standing : Type 0 where
  oriented_node unresolved : Standing

-- The fields that come from the entry are empty where the ref is unresolved.
pub record Node : Type 0 where
  pub ref : Str
  pub kind : Option Kind
  pub state : Option State
  pub title : Str
  pub date : Str
  pub note : Str
  pub private : Bool
  pub standing : Standing

pub record Artifact : Type 0 where
  pub target : Str
  pub note : Str

pub record Relation : Type 0 where
  pub type : EdgeType
  pub incoming : Bool
  pub node : Node

pub record ReasonChain : Type 0 where
  pub query : Str
  pub subject : Node
  pub arising : List (List Node)
  pub alternatives : List Alternative
  pub realized : List Artifact
  pub adr : Str
  pub superseded_by : List Node
  pub related : List Relation
  pub cycle : List Str

-- `unfinished` and `no_entry` are not errors of the code: the model answers the first when its fuel is used
-- up, and the second where the code would follow a nil pointer.
pub data WhyError : Type 0 where
  unreadable : Str → StoreError → WhyError
  unfinished no_entry : WhyError

-- `oriented`
unfoldable pub oriented : Entry → Str → Node
oriented e note = record {
  ref = e.id;
  kind = some e.kind;
  state = some e.state;
  title = e.title;
  date = if is_nil e.updated then e.created else e.updated;
  note = note;
  private = e.private;
  standing = oriented_node;
}

unfoldable pub no_node : Str → Str → Node
no_node ref note = record {
  ref = ref;
  kind = none;
  state = none;
  title = [];
  date = [];
  note = note;
  private = false;
  standing = unresolved;
}

abbrev pub is_oriented : Standing → Bool
is_oriented oriented_node = true
is_oriented unresolved = false

abbrev is_not_found : StoreError → Bool
is_not_found not_found = true
is_not_found _ = false

-- What `Build` keeps, and the world that it reads.
pub record Builder (W : Type 0) : Type 0 where
  pub world : W
  pub read : Dict Entry
  pub depth : Dict ℕ
  pub nodes : Dict Node
  pub cycle : List Str

abbrev pub no_builder : {W : Type 0} → W → Builder W
no_builder w = record { world = w; read = []; depth = []; nodes = []; cycle = [] }

abbrev pub record_cycle : {W : Type 0} → Str → Builder W → Builder W
record_cycle ref b = if one_of ref b.cycle then b else record b { cycle = b.cycle ++ ref ∷ [] }

-- Whether a ref is known at a depth that is not smaller.
abbrev pub at_least : ℕ → Option ℕ → Bool
at_least d none = false
at_least d (some known) = leb d known

abbrev pub put_node : {W : Type 0} → Str → ℕ → Node → Builder W → Builder W
put_node ref d n b = record b { depth = insert ref d b.depth; nodes = insert ref n b.nodes }

module _ (src : Source) where
  abbrev pub remembered :
      Str
      → Builder src.World
      → Result StoreError Entry × src.World
      → Result StoreError Entry × Builder src.World
  remembered id b (err e, w) = (err e, record b { world = w })
  remembered id b (ok e, w) = (ok e, record b { world = w; read = insert id e b.read })

  -- `builder.entry`
  unfoldable pub read_entry : Str → Builder src.World → Result StoreError Entry × Builder src.World
  read_entry id b = elim (lookup id b.read) [
    | some e ↦ (ok e, b)
    | none ↦ remembered id b (src.entry id b.world)
  ]

  -- `errors.Is(err, ledger.ErrNotFound)` turns a failure into an unresolved node.
  abbrev pub degraded :
      Str
      → Str
      → Result StoreError Entry × Builder src.World
      → Result WhyError (Node × Builder src.World)
  degraded ref note (ok e, b) = ok (oriented e note, b)
  degraded ref note (err e, b) =
      if is_not_found e then ok (no_node ref note, b) else err (unreadable ref e)

  -- `builder.node`
  unfoldable pub node : Str → Str → Builder src.World → Result WhyError (Node × Builder src.World)
  unfolding read_entry valid_id oriented no_node
  node ref note b =
      if not (valid_id ref) then ok (no_node ref note, b) else degraded ref note (read_entry ref b)

  -- How an entry is walked: its depth, and the refs on the path to it.
  abbrev pub Visitor : Type 0
  Visitor = Entry → ℕ → List Str → Builder src.World → Result WhyError (Builder src.World)

  abbrev pub walk_read :
      Visitor
      → Str
      → ℕ
      → List Str
      → Builder src.World
      → Option Entry
      → Result WhyError (Builder src.World)
  walk_read walker ref d path b none = err no_entry
  walk_read walker ref d path b (some parent) = walker parent d (ref ∷ path) b

  -- What follows once the node of a ref is there.
  abbrev pub walk_node :
      Visitor → Str → ℕ → List Str → Node × Builder src.World → Result WhyError (Builder src.World)
  walk_node walker ref d path (n, b) =
      let c = put_node ref d n b in
      if at_least d (lookup ref b.depth)
      then ok b
      else if not (is_oriented n.standing)
      then ok c
      else walk_read walker ref d path c (lookup ref c.read)

  -- One round of the loop of `walk`.
  unfoldable pub walk_edge :
      Visitor → Edge → ℕ → List Str → Builder src.World → Result WhyError (Builder src.World)
  unfolding node
  walk_edge walker edge depth path b =
      if not (edge_type_eq edge.type derives_from)
      then ok b
      else if one_of edge.to path
      then ok (record_cycle edge.to b)
      else node edge.to edge.note b >>= λ r. walk_node walker edge.to (depth + 1) path r

  abbrev pub walk_edges :
      Visitor → List Edge → ℕ → List Str → Builder src.World → Result WhyError (Builder src.World)
  walk_edges walker [] depth path b = ok b
  walk_edges walker (edge ∷ edges) depth path b =
      walk_edge walker edge depth path b >>= λ c. walk_edges walker edges depth path c

  -- `builder.walk`, to a depth of the recursion.
  unfoldable pub walk : ℕ → Visitor
  unfolding walk_edge
  walk zero entry depth path b = err unfinished
  walk (suc fuel) entry depth path b = walk_edges (walk fuel) entry.edges depth path b
