-- ===== src/Why/Tests.antt =====
-- An entry with two reasons, one of which is the reason for the other, and the theorems at it.
use dira.Prelude.{
  ◌≡◌, ◌≢◌, refl, arith, List, [], ◌∷◌, Str, codes, str_eq, str_eq_iff, Bool-cases, inl, inr,
  if◌then◌else◌, In, ok, err, map, sort, sort_insert, lookup, insert,
}
use dira.Ledger.Entry.{Entry, derives_from}
use dira.Ledger.Ident.{valid_id}
use dira.Ledger.Store.{not_found}
use dira.Ledger.Validate.Tests.{use_go}
use dira.Why.{
  Source, Builder, no_builder, unfinished, no_entry, walk, walk_edge, node, read_entry, oriented,
  no_node,
}
use dira.Why.Order.{generations, nodes_at, relation_less, group}
use dira.Why.Build.{build, relate_edge, relate_back}
use dira.Why.Terminates.{build_finishes}
use dira.Why.Layered.{IsLayered, walk-IsLayered}

abbrev because : Str → List Str → Entry
because id refs = record use_go {
  id = id;
  edges = map (λ ref. record { type = derives_from; to = ref; note = [] }) refs;
}

abbrev top : Entry
top = because (codes "dec-0003") []

abbrev middle : Entry
middle = because (codes "dec-0002") (top.id ∷ [])

abbrev bottom : Entry
bottom = because (codes "dec-0001") (top.id ∷ middle.id ∷ [])

abbrev three : Source
three = record {
  World = Unit {0};
  find = λ s w. (ok [], w);
  entry = λ id w. (
    if str_eq id bottom.id
        then ok bottom
        else if str_eq id middle.id
        then ok middle
        else if str_eq id top.id
        then ok top
        else err not_found,
    w,
  );
  links_in = λ id w. (ok [], w);
}

abbrev three_ids : List Str
three_ids = bottom.id ∷ middle.id ∷ top.id ∷ []

-- The top is reached at depth 1 and at depth 2, and stands in the earlier generation.
arising :
    build three 4 [] bottom.id tt
    ≡ ok (record {
      query = [];
      subject = oriented bottom [];
      arising = (oriented top [] ∷ []) ∷ (oriented middle [] ∷ []) ∷ [];
      alternatives = bottom.alternatives;
      realized = [];
      adr = [];
      superseded_by = [];
      related = [];
      cycle = [];
    })
unfolding build relate_edge relate_back walk walk_edge node read_entry oriented no_node generations
    nodes_at relation_less group sort sort_insert lookup insert valid_id
arising = refl

only_three : (id : Str) (w : Unit {0}) (e : Entry) → (three.entry id w).0 ≡ ok e → In id three_ids
only_three id w e h = elim (Bool-cases (str_eq id bottom.id)) [
  | inl k ↦ inl ((str_eq_iff id bottom.id).0 k)
  | inr k ↦ elim (Bool-cases (str_eq id middle.id)) [
    | inl l ↦ inr (inl ((str_eq_iff id middle.id).0 l))
    | inr l ↦ elim (Bool-cases (str_eq id top.id)) [
      | inl m ↦ inr (inr (inl ((str_eq_iff id top.id).0 m)))
      | inr m ↦ absurd (cc (rw (k, l, m) at h))
    ]
  ]
]

build_finishes_example :
    (build three 4 [] bottom.id tt ≢ err unfinished)
    × (build three 4 [] bottom.id tt ≢ err no_entry)
build_finishes_example = build_finishes three three_ids only_three 4 [] bottom.id tt (omega arith)

abbrev walked : Builder (Unit {0})
walked = record {
  world = tt;
  read = (top.id, top) ∷ (middle.id, middle) ∷ [];
  depth = (top.id, 2) ∷ (middle.id, 1) ∷ [];
  nodes = (top.id, oriented top []) ∷ (middle.id, oriented middle []) ∷ [];
  cycle = [];
}

walk_of_three : walk three 4 bottom 0 (bottom.id ∷ []) (no_builder tt) ≡ ok walked
unfolding walk walk_edge node read_entry oriented no_node lookup insert valid_id
walk_of_three = refl

walk-IsLayered_example : IsLayered (Unit {0}) bottom walked
walk-IsLayered_example =
    walk-IsLayered three 4 bottom (no_builder tt) walked refl refl walk_of_three refl
