-- ===== src/Ledger/Store.antt =====
-- ledger/store.go and ledger/readonly.go: the store behind a ledger as an interface, and the
-- wrapper that only reads.
use dira.Prelude.{◌≡◌, refl, List, [], ◌∷◌, map, Option, none, some, Str, Result, err}
use dira.Ledger.Entry.{Entry}

-- `ErrNotFound`, `ErrExists`, the two errors of the read-only wrapper, and any other.
pub data StoreError : Type 0 where
  not_found exists read_only_store no_inner_store : StoreError
  failure : Str → StoreError

pub record EntryInfo : Type 0 where
  pub id : Str
  pub version : Str

-- The backends are behind this interface. `World` is all that a call can see or change: the stored
-- files, and other writers.
pub record Store : Type 1 where
  pub World : Type 0
  pub get : Str → World → Result StoreError Entry × World
  pub list : World → Result StoreError (List EntryInfo) × World
  pub create : Entry → World → Result StoreError (Unit {0}) × World
  pub put : Entry → World → Result StoreError (Unit {0}) × World
  pub delete : Str → World → Result StoreError (Unit {0}) × World

abbrev pub refuse_write : {A W : Type 0} → A → W → Result StoreError (Unit {0}) × W
refuse_write _ w = (err read_only_store, w)

-- `ReadOnly(inner)`: reads go through, writes are refused before the inner store hears of them.
-- With no inner store the reads fail too.
abbrev pub read_only : Option Store → Store
read_only none = record {
  World = Unit {0};
  get = λ _ w. (err no_inner_store, w);
  list = λ w. (err no_inner_store, w);
  create = refuse_write;
  put = refuse_write;
  delete = refuse_write;
}
read_only (some inner) = record {
  World = inner.World;
  get = inner.get;
  list = inner.list;
  create = refuse_write;
  put = refuse_write;
  delete = refuse_write;
}

pub data WriteOp : Type 0 where
  create_op put_op : Entry → WriteOp
  delete_op : Str → WriteOp

module _ (s : Store) where
  -- One writing call, and a sequence of them; the answers are kept in order.
  abbrev pub write : WriteOp → s.World → Result StoreError (Unit {0}) × s.World
  write (create_op e) w = s.create e w
  write (put_op e) w = s.put e w
  write (delete_op id) w = s.delete id w

  abbrev pub write_all : List WriteOp → s.World → List (Result StoreError (Unit {0})) × s.World
  write_all [] w = ([], w)
  write_all (op ∷ ops) w =
      let (answer, w1) = write op w in
      let (answers, w2) = write_all ops w1 in (answer ∷ answers, w2)

-- Whatever is asked of a read-only store, each answer is the refusal and nothing has changed.
pub read_only-writes :
    (inner : Option Store) (ops : List WriteOp) (w : (read_only inner).World)
    → write_all (read_only inner) ops w ≡ (map (λ _. err read_only_store) ops, w)
read_only-writes none [] w = refl
read_only-writes none (create_op e ∷ ops) w = rw (read_only-writes none ops w)
read_only-writes none (put_op e ∷ ops) w = rw (read_only-writes none ops w)
read_only-writes none (delete_op id ∷ ops) w = rw (read_only-writes none ops w)
read_only-writes (some s) [] w = refl
read_only-writes (some s) (create_op e ∷ ops) w = rw (read_only-writes (some s) ops w)
read_only-writes (some s) (put_op e ∷ ops) w = rw (read_only-writes (some s) ops w)
read_only-writes (some s) (delete_op id ∷ ops) w = rw (read_only-writes (some s) ops w)
