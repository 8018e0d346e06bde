-- ===== src/Chain.antt =====
-- internal/chain: the ledgers that a ledger's `[parents]` declare, directly or through others, and
-- what a namespaced ref resolves to. Package `local`, which opens directories, and the context are the
-- interface `Files`.
pub mod Terminates
pub mod ReadOnly
pub mod Outcome
mod Tests
use dira.Prelude.{
  ℕ, zero, suc, Bool, true, false, not, List, [], ◌∷◌, ◌++◌, Option, none, some, Str, codes, str_eq,
  one_of, is_nil, if◌then◌else◌, cut, trim_space, Result, ok, err,
}
use dira.Ledger.Entry.{Entry}
use dira.Ledger.Ident.{valid_ref}
use dira.Ledger.Store.{Store, StoreError, read_only}
use dira.Config.{Parent, parse}

-- A store that has been opened, and what it can see.
pub record Opened : Type 1 where
  pub store : Store
  pub world : store.World

-- Why an ancestor that is declared has no store: `Ancestor.Err`.
pub data Unreachable : Type 0 where
  no_path : Unreachable
  not_opened not_read : Str → Unreachable

pub record Ancestor : Type 1 where
  pub namespace : Str
  pub tier : Str
  pub store : Option Opened
  pub err : Option Unreachable

-- `unfinished` is not an error of the code: it is what the model answers when its fuel is used up.
pub data WalkError : Type 0 where
  cancelled no_directory unfinished : WalkError
  unreadable : Str → WalkError
  cycle : Str → Str → WalkError

-- `ctx.Err`, `local.ReadConfig`, `local.Open` and `local.ParentDira`.
pub record Files : Type 1 where
  pub World : Type 0
  pub is_cancelled : World → Bool × World
  pub read_config : Str → World → Result Str Str × World
  pub open_store : Str → World → Result Str Opened × World
  pub parent_dira : Str → Str → Str

abbrev pub reached : Str → Str → Opened → Ancestor
reached ns tier backend = record {
  namespace = ns;
  tier = tier;
  store = some (record { store = read_only (some backend.store); world = backend.world });
  err = none;
}

module _ (fs : Files) where
  abbrev pub Walked : Type 1
  Walked = Result WalkError (List Ancestor) × fs.World

  abbrev pub unreachable : Str → Unreachable → fs.World → Walked
  unreachable ns why w =
      (ok (record { namespace = ns; tier = []; store = none; err = some why } ∷ []), w)

  abbrev pub prepend :
      List Ancestor → Result WalkError (List Ancestor) → Result WalkError (List Ancestor)
  prepend out (ok grand) = ok (out ++ grand)
  prepend out (err e) = err e

  -- How the parents of a ledger are walked: its directory, its declarations, and the directories on the
  -- path to it.
  abbrev pub Walker : Type 1
  Walker = Str → List Parent → List Str → fs.World → Walked

  -- A parent whose configuration was read.
  abbrev pub walk_above :
      Walker → Str → Str → List Str → Opened → Result Str Str × fs.World → Walked
  walk_above walker ns parent visited backend (err e, w) = unreachable ns (not_read e) w
  walk_above walker ns parent visited backend (ok data_text, w) =
      let cfg = (parse data_text).0 in
      let (grand, w1) = walker parent cfg.parent_decls (parent ∷ visited) w in
      (prepend (reached ns cfg.tier backend ∷ []) grand, w1)

  abbrev pub walk_opened : Walker → Str → Str → List Str → Result Str Opened × fs.World → Walked
  walk_opened walker ns parent visited (err e, w) = unreachable ns (not_opened e) w
  walk_opened walker ns parent visited (ok backend, w) =
      walk_above walker ns parent visited backend (fs.read_config parent w)

  -- One round of the loop of `walkParents`.
  unfoldable pub walk_parent : Walker → Str → Parent → List Str → fs.World → Walked
  unfolding trim_space
  walk_parent walker own decl visited w =
      let (stop, w1) = fs.is_cancelled w in
      let ns = trim_space decl.name in
      let parent = fs.parent_dira own decl.path in
      if stop
      then (err cancelled, w1)
      else if is_nil decl.path
      then unreachable ns no_path w1
      else if one_of parent visited
      then (err (cycle parent own), w1)
      else walk_opened walker ns parent visited (fs.open_store parent w1)

  abbrev pub followed : Walked → Walked → Walked
  followed (err e, w) rest = (err e, w)
  followed (ok out, w) (rest, w1) = (prepend out rest, w1)

  abbrev pub walk_decls : Walker → Walker
  walk_decls walker own [] visited w = (ok [], w)
  walk_decls walker own (decl ∷ decls) visited w =
      let first = walk_parent walker own decl visited w in
      followed first (walk_decls walker own decls visited first.1)

  -- `walkParents`, to a depth.
  unfoldable pub walk_parents : ℕ → Walker
  unfolding walk_parent
  walk_parents zero own decls visited w = (err unfinished, w)
  walk_parents (suc fuel) own decls visited w = walk_decls (walk_parents fuel) own decls visited w

  abbrev pub walk_from : ℕ → Str → Result Str Str × fs.World → Walked
  walk_from fuel dira_dir (err e, w) = (err (unreadable e), w)
  walk_from fuel dira_dir (ok data_text, w) =
      walk_parents fuel dira_dir (parse data_text).0.parent_decls (dira_dir ∷ []) w

  -- `Walk`
  unfoldable pub walk : ℕ → Str → fs.World → Walked
  unfolding walk_parents trim_space
  walk fuel dira_dir w =
      let (stop, w1) = fs.is_cancelled w in
      if stop
      then (err cancelled, w1)
      else if is_nil (trim_space dira_dir)
      then (err no_directory, w1)
      else walk_from fuel dira_dir (fs.read_config dira_dir w1)

-- `splitRef`
unfoldable pub split_ref : Str → Str × Str
unfolding cut
split_ref ref = elim (cut ref b':') [ none ↦ ([], ref) | some parts ↦ parts ]

-- The two states of `Resolve`, and its errors.
pub data Resolution : Type 0 where
  oriented : Entry → Resolution
  withheld : Resolution

pub data ResolveError : Type 0 where
  malformed undeclared : ResolveError
  not_walked : WalkError → ResolveError
  not_got : StoreError → ResolveError

abbrev pub got : Result StoreError Entry → Result ResolveError Resolution
got (ok e) = ok (oriented e)
got (err e) = err (not_got e)

-- The loop of `Resolve`; the flag says whether the namespace has been seen.
unfoldable pub resolve_in : Str → Str → Bool → List Ancestor → Result ResolveError Resolution
resolve_in ns id declared [] = if declared then ok withheld else err undeclared
resolve_in ns id declared (a ∷ ancestors) =
    if not (str_eq a.namespace ns) then resolve_in ns id declared ancestors else elim a.store [
      | none ↦ resolve_in ns id true ancestors
      | some o ↦ got (o.store.get id o.world).0
    ]

abbrev resolve_walked :
    Str → Str → Result WalkError (List Ancestor) → Result ResolveError Resolution
resolve_walked ns id (err e) = err (not_walked e)
resolve_walked ns id (ok ancestors) = resolve_in ns id false ancestors

-- `Resolve`
unfoldable pub resolve :
    (fs : Files) → ℕ → Str → Str → fs.World → Result ResolveError Resolution × fs.World
unfolding valid_ref split_ref walk resolve_in
resolve fs fuel dira_dir ref w =
    if not (valid_ref ref)
    then (err malformed, w)
    else let (ancestors, w1) = walk fs fuel dira_dir w in
      (resolve_walked (split_ref ref).0 (split_ref ref).1 ancestors, w1)
