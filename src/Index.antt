-- ===== src/Index.antt =====
-- internal/index/query.go: what the index answers. The index is a cache in SQLite over the files; it is
-- an interface here.
use dira.Prelude.{ℕ, Bool, List, Str, Result, Option}
use dira.Ledger.Entry.{Entry, Kind, State, EdgeType}

pub record Ref : Type 0 where
  pub id : Str
  pub kind : Kind
  pub state : State
  pub title : Str
  pub created : Str
  pub updated : Str
  pub private : Bool

pub record Backlink : Type 0 where
  pub from : Str
  pub type : EdgeType
  pub note : Str

-- No kinds and no states select all, and a limit of 0 is none.
pub record Selector : Type 0 where
  pub kinds : List Kind
  pub states : List State
  pub with_edge : Option EdgeType
  pub limit : ℕ

-- `Select`, `Entry` and `In`. An error is its text.
pub record Index : Type 1 where
  pub World : Type 0
  pub select : Selector → World → Result Str (List Ref) × World
  pub entry : Str → World → Result Str Entry × World
  pub links_in : Str → World → Result Str (List Backlink) × World
