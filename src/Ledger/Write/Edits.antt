-- ===== src/Ledger/Write/Edits.antt =====
-- `AddEdge` and `AddTag`: an entry never says the same thing twice.
use dira.Prelude.{
  ◌≡◌, ◌≢◌, ◌⊎◌, ◌↔◌, inl, inr, refl, true, List, [], ◌∷◌, ◌++◌, none, some, arith, Str, Bool-cases,
  Option-cases, All, All-append, In, any, str_eq, str_eq_iff, In-append_right, sym,
}
use dira.Ledger.Entry.{Edge, Entry, edge_type_eq_iff}
use dira.Ledger.Write.{find_edge, add_edge, add_tag, appended, kept, note_differs}

-- No two edges have the same type and target.
abbrev pub Differs : Edge → Edge → Type 0
Differs a b = (a.type ≢ b.type) ⊎ (a.to ≢ b.to)

abbrev pub AreDistinct : List Edge → Type 0
AreDistinct [] = Unit
AreDistinct (e ∷ es) = All (Differs e) es × AreDistinct es

abbrev pub AreTagsDistinct : List Str → Type 0
AreTagsDistinct [] = Unit
AreTagsDistinct (t ∷ ts) = All (λ u. t ≢ u) ts × AreTagsDistinct ts

find_edge-none :
    (edge : Edge) (es : List Edge) → find_edge edge es ≡ none → All (λ x. Differs x edge) es
unfolding find_edge
find_edge-none edge [] h = tt
find_edge-none edge (x ∷ es) h =
    ground
      (arith, edge_type_eq_iff x.type edge.type, str_eq_iff x.to edge.to, find_edge-none edge es)

find_edge-some :
    (edge x : Edge) (es : List Edge)
    → find_edge edge es ≡ some x
    → In x es × (x.type ≡ edge.type) × (x.to ≡ edge.to)
unfolding find_edge
find_edge-some edge x [] h = cc
find_edge-some edge x (y ∷ es) h =
    ground
      (arith, edge_type_eq_iff y.type edge.type, str_eq_iff y.to edge.to, find_edge-some edge x es)

AreDistinct-concat :
    (es : List Edge) (edge : Edge)
    → AreDistinct es
    → All (λ x. Differs x edge) es
    → AreDistinct (es ++ edge ∷ [])
AreDistinct-concat [] edge d a = (tt, tt)
AreDistinct-concat (e ∷ es) edge (d, ds) (a, as') =
    (All-append (Differs e) es (edge ∷ []) d (a, tt), AreDistinct-concat es edge ds as')

add_edge-new :
    (e : Entry) (edge : Edge)
    → find_edge edge e.edges ≡ none
    → add_edge e edge ≡ (record e { edges = e.edges ++ edge ∷ [] }, appended)
unfolding add_edge
add_edge-new e edge h = ground arith

add_edge-old :
    (e : Entry) (edge x : Edge)
    → find_edge edge e.edges ≡ some x
    → ((add_edge e edge ≡ (e, kept)) × (x.note ≡ edge.note))
      ⊎ ((add_edge e edge ≡ (e, note_differs x.note)) × (x.note ≢ edge.note))
unfolding add_edge
add_edge-old e edge x h = elim (Bool-cases (str_eq x.note edge.note)) [
  | inl same ↦ inl (ground arith, (str_eq_iff _ _).0 same)
  | inr other ↦ inr (ground arith, ground (arith, str_eq_iff x.note edge.note))
]

-- `AddEdge` keeps the edges of an entry distinct by type and target. Where it appends, the entry
-- gains this edge at the end and nothing else changes; otherwise the entry is returned as it was,
-- and it already has an edge of this type to this target: with the same note if the call is
-- accepted, and with another note, the one that is reported, if it is refused.
pub add_edge_lem :
    (e : Entry) (edge : Edge)
    → AreDistinct e.edges
    → AreDistinct (add_edge e edge).0.edges
      × (((add_edge e edge).1 ≡ appended)
            × ((add_edge e edge).0 ≡ record e { edges = e.edges ++ edge ∷ [] })
          ⊎ ((add_edge e edge).0 ≡ e)
            × ((x : Edge) × In x e.edges
                × (x.type ≡ edge.type)
                × (x.to ≡ edge.to)
                × (((add_edge e edge).1 ≡ kept) × (x.note ≡ edge.note)
                    ⊎ ((add_edge e edge).1 ≡ note_differs x.note) × (x.note ≢ edge.note))))
add_edge_lem e edge d = elim (Option-cases (find_edge edge e.edges)) [
  | inl new ↦
      rw (add_edge-new e edge new)
        (AreDistinct-concat e.edges edge d (find_edge-none edge e.edges new), inl (refl, refl))
  | inr (x, old) ↦
      let (at, type, to) = find_edge-some edge x e.edges old in
      elim (add_edge-old e edge x old) [
        | inl (same, note) ↦ rw same (d, inr (refl, (x, at, type, to, inl (refl, note))))
        | inr (other, note) ↦ rw other (d, inr (refl, (x, at, type, to, inr (refl, note))))
      ]
]

has_tag : (tag : Str) (ts : List Str) → (any (λ t. str_eq t tag) ts ≡ true) ↔ In tag ts
has_tag tag [] = ground arith
has_tag tag (t ∷ ts) = ground (arith, str_eq_iff t tag, has_tag tag ts)

no_tag : (tag : Str) (ts : List Str) → (¬ In tag ts) → All (λ u. u ≢ tag) ts
no_tag tag [] h = tt
no_tag tag (t ∷ ts) h = ((λ e. h (inl (sym e))), no_tag tag ts (λ m. h (inr m)))

concat_tag :
    (ts : List Str) (tag : Str)
    → AreTagsDistinct ts
    → All (λ u. u ≢ tag) ts
    → AreTagsDistinct (ts ++ tag ∷ [])
concat_tag [] tag d a = (tt, tt)
concat_tag (t ∷ ts) tag (d, ds) (a, as') =
    (All-append (λ u. t ≢ u) ts (tag ∷ []) d (a, tt), concat_tag ts tag ds as')

-- `AddTag` keeps the tags distinct, answers whether the tag is new, and the entry has the tag
-- afterwards; an entry that has it already is returned as it was.
pub add_tag_lem :
    (e : Entry) (tag : Str)
    → AreTagsDistinct e.tags
    → AreTagsDistinct (add_tag e tag).0.tags
      × In tag (add_tag e tag).0.tags
      × (((add_tag e tag).1 ≡ true) ↔ (¬ In tag e.tags))
      × (In tag e.tags → (add_tag e tag).0 ≡ e)
unfolding add_tag
add_tag_lem e tag d =
    let (find, found) = has_tag tag e.tags in
    elim (Bool-cases (any (λ t. str_eq t tag) e.tags)) [
      | inl old ↦ rw old (d, find old, (λ p. cc, λ n. absurd (n (find old))), λ _. refl)
      | inr new ↦
          let absent : ¬ In tag e.tags = λ m. cc (new, found m) in
          rw new (
            concat_tag e.tags tag d (no_tag tag e.tags absent),
            In-append_right tag e.tags (tag ∷ []) (inl refl),
            (λ _. absent, λ _. refl),
            λ m. absurd (absent m),
          )
    ]
