-- ===== src/Ledger/Write/Tests.antt =====
-- A store in memory, runs of `Add`, and the theorems at concrete entries.
use dira.Prelude.{
  ℕ, ◌≡◌, ◌≢◌, ◌⊎◌, refl, false, Bool, not, List, [], ◌∷◌, ◌++◌, map, some, arith, Str, codes,
  Result, ok, err, ◌≤◌, str_eq, any, keep_if, if◌then◌else◌, In,
}
use dira.Ledger.Entry.{Entry, Edge, decision, informs, prefix}
use dira.Ledger.Store.{
  Store, StoreError, EntryInfo, exists, not_found, read_only, write_all, read_only-writes,
  create_op, delete_op, read_only_store,
}
use dira.Ledger.Validate.{validate_draft}
use dira.Ledger.Validate.Tests.{use_go, any_time, draft}
use dira.Ledger.Write.{
  add, allocate, numbers, next_free, format_id, id_number, taken, appended, kept, find_edge,
  add_edge, note_differs,
}
use dira.Ledger.Write.Numbers.{id_number-format_id}
use dira.Ledger.Write.Allocate.{add-ok, add_least, IsLeastFree}
use dira.Ledger.Write.Edits.{add_edge_lem, AreDistinct}

abbrev pub find : Str → List Entry → Result StoreError Entry
find id [] = err not_found
find id (e ∷ es) = if str_eq e.id id then ok e else find id es

abbrev pub has : Str → List Entry → Bool
has id = any (λ e. str_eq e.id id)

abbrev pub without : Str → List Entry → List Entry
without id = keep_if (λ e. not (str_eq e.id id))

-- Entries in a list; creation refuses an id that is there.
abbrev pub memory : Store
memory = record {
  World = List Entry;
  get = λ id es. (find id es, es);
  list = λ es. (ok (map (λ e. record { id = e.id; version = e.version }) es), es);
  create = λ e es. if has e.id es then (err exists, es) else (ok tt, e ∷ es);
  put = λ e es. (ok tt, e ∷ without e.id es);
  delete = λ id es. if has id es then (ok tt, without id es) else (err not_found, es);
}

abbrev new_entry : Entry
new_entry = record use_go { id = [] }

abbrev two_old : List Entry
two_old = use_go ∷ record use_go { id = codes "dec-0003" } ∷ []

abbrev stored_entry : Entry
stored_entry = record use_go { id = codes "dec-0002" }

allocated : add memory any_time new_entry two_old ≡ (ok (codes "dec-0002"), stored_entry ∷ two_old)
unfolding add validate_draft numbers id_number allocate next_free format_id
allocated = refl

listing :
    numbers decision (map (λ (e : Entry). record { id = e.id; version = e.version }) two_old)
    ≡ 1 ∷ 3 ∷ []
unfolding numbers id_number
listing = refl

least_two : IsLeastFree (1 ∷ 3 ∷ []) 2
least_two = record { free = refl; positive = omega arith; least = λ j a b. ground arith }

created :
    memory.create (record new_entry { id = format_id decision 2 }) two_old
    ≡ (ok tt, stored_entry ∷ two_old)
unfolding format_id
created = refl

two_listed :
    IsLeastFree
      (numbers decision (map (λ (e : Entry). record { id = e.id; version = e.version }) two_old))
      2
two_listed = rw listing least_two

add_least_example :
    add memory any_time new_entry two_old ≡ (ok (format_id decision 2), stored_entry ∷ two_old)
add_least_example =
    add_least memory any_time new_entry two_old two_old (stored_entry ∷ two_old) _ 2 refl (cc) draft
      refl two_listed created

add-ok_example :
    (infos : List EntryInfo) × (listed before : List Entry) × (m : ℕ) × (new_entry.id ≡ [])
    × (validate_draft any_time new_entry ≡ ok tt)
    × (memory.list two_old ≡ (ok infos, listed))
    × (1 ≤ m)
    × (taken m (numbers decision infos) ≡ false)
    × (codes "dec-0002" ≡ format_id decision m)
    × (memory.create stored_entry before ≡ (ok tt, stored_entry ∷ two_old))
add-ok_example =
    add-ok memory any_time new_entry two_old (stored_entry ∷ two_old) (codes "dec-0002") allocated

has_prefix : prefix decision ≢ []
unfolding prefix
has_prefix = λ e. cc

id_number-format_id_example : id_number (format_id decision 12345) decision ≡ some 12345
id_number-format_id_example = id_number-format_id decision 12345 has_prefix (omega arith)

read_only-writes_example :
    write_all
      (read_only (some memory))
      (create_op use_go ∷ delete_op (codes "dec-0003") ∷ [])
      two_old
    ≡ (err read_only_store ∷ err read_only_store ∷ [], two_old)
read_only-writes_example =
    read_only-writes (some memory) (create_op use_go ∷ delete_op (codes "dec-0003") ∷ []) two_old

abbrev same_but_noted : Edge
same_but_noted = record { type = informs; to = codes "sire:int-0002"; note = codes "new" }

refused_edge : (add_edge use_go same_but_noted).1 ≡ note_differs []
unfolding add_edge find_edge
refused_edge = refl

add_edge_lem_example :
    AreDistinct (add_edge use_go same_but_noted).0.edges
    × (((add_edge use_go same_but_noted).1 ≡ appended)
          × ((add_edge use_go same_but_noted).0
              ≡ record use_go { edges = use_go.edges ++ same_but_noted ∷ [] })
        ⊎ ((add_edge use_go same_but_noted).0 ≡ use_go)
          × ((x : Edge) × In x use_go.edges
              × (x.type ≡ same_but_noted.type)
              × (x.to ≡ same_but_noted.to)
              × (((add_edge use_go same_but_noted).1 ≡ kept) × (x.note ≡ same_but_noted.note)
                  ⊎ ((add_edge use_go same_but_noted).1 ≡ note_differs x.note)
                    × (x.note ≢ same_but_noted.note))))
add_edge_lem_example = add_edge_lem use_go same_but_noted (tt, tt)
