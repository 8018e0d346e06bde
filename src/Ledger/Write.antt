-- ===== src/Ledger/Write.antt =====
-- ledger/write.go: id allocation (`Add`), and the two edits of an entry in memory.
pub mod Numbers
pub mod Allocate
pub mod Edits
pub mod Tests
use dira.Prelude.{
  ℕ, zero, suc, ◌+◌, ◌-◌, ◌*◌, ◌/◌, ◌%◌, ◌≡◌, refl, Bool, true, false, not, ◌&&◌, ◌||◌, List, [],
  ◌∷◌, ◌++◌, Option, none, some, Str, codes, length, leb, ltb, ◌==◌, is_nil, any, if◌then◌else◌,
  Result, ok, err, ◌>>=◌, str_eq, cut,
}
use mathlib.Core.List.{foldl}
use dira.Ledger.Entry.{Kind, Edge, Entry, prefix, edge_type_eq}
use dira.Ledger.Ident.{valid_id, dash}
use dira.Ledger.Store.{Store, StoreError, exists, EntryInfo}
use dira.Ledger.Validate.{Violation, validate_draft}

-- The decimal digits of a number; `fuel` bounds their count, and `suc n` is enough.
unfoldable pub digits : ℕ → ℕ → Str
digits zero n = []
digits (suc fuel) n =
    let front = digits fuel (n / 10) in
    if ltb n 10 then (b'0' + n) ∷ [] else front ++ (b'0' + n % 10) ∷ []

-- `%04d`
unfoldable pub pad_four : Str → Str
pad_four (a ∷ []) = b'0' ∷ b'0' ∷ b'0' ∷ a ∷ []
pad_four (a ∷ b ∷ []) = b'0' ∷ b'0' ∷ a ∷ b ∷ []
pad_four (a ∷ b ∷ c ∷ []) = b'0' ∷ a ∷ b ∷ c ∷ []
pad_four s = s

unfoldable pub format_id : Kind → ℕ → Str
unfolding digits pad_four prefix
format_id k n = prefix k ++ dash ∷ pad_four (digits (suc n) n)

abbrev pub max_int : ℕ
max_int = 9223372036854775807

abbrev pub decimal : ℕ → Str → ℕ
decimal = foldl (λ n c. n * 10 + (c - b'0'))

-- `strconv.Atoi` on digits: it fails out of the range of `int`.
abbrev pub atoi : Str → Option ℕ
atoi s = if leb (decimal 0 s) max_int then some (decimal 0 s) else none

unfoldable pub id_number : Str → Kind → Option ℕ
unfolding valid_id prefix
id_number id k = if not (valid_id id) then none else elim (cut id dash) [
  | none ↦ none
  | some (p, ds) ↦ if str_eq p (prefix k) then atoi ds else none
]

-- `taken[n]`; a number is put in front when it is taken.
abbrev pub taken : ℕ → List ℕ → Bool
taken n = any (λ m. n == m)

unfoldable pub numbers : Kind → List EntryInfo → List ℕ
unfolding id_number
numbers k [] = []
numbers k (info ∷ infos) = elim (id_number info.id k) [
  | none ↦ numbers k infos
  | some n ↦ n ∷ numbers k infos
]

-- `for taken[n] { n++ }`; `length used` rounds are enough.
unfoldable pub next_free : ℕ → ℕ → List ℕ → ℕ
next_free zero n used = n
next_free (suc fuel) n used =
    let later = next_free fuel (suc n) used in if taken n used then later else n

pub data AddError : Type 0 where
  already_has_id no_created : AddError
  invalid : Violation → AddError
  store_failed : StoreError → AddError
  out_of_attempts : AddError

abbrev pub max_allocation_attempts : ℕ
max_allocation_attempts = 4096

abbrev pub is_exists : StoreError → Bool
is_exists exists = true
is_exists _ = false

module _ (s : Store) where
  -- The loop over the attempts: the id that was allocated, or why none was.
  unfoldable pub allocate : ℕ → ℕ → List ℕ → Entry → s.World → Result AddError Str × s.World
  allocate zero n used e w = (err out_of_attempts, w)
  allocate (suc attempts) n used e w =
      let m = next_free (length used) n used in
      let id = format_id e.kind m in
      let (answer, w1) = s.create (record e { id = id }) w in
      let again = allocate attempts m (m ∷ used) e w1 in
      elim answer [
        | ok _ ↦ (ok id, w1)
        | err x ↦ if is_exists x then again else (err (store_failed x), w1)
      ]

  unfoldable pub add : (Str → Bool) → Entry → s.World → Result AddError Str × s.World
  add is_timestamp e w =
      if not (is_nil e.id)
      then (err already_has_id, w)
      else if is_nil e.created
      then (err no_created, w)
      else elim (validate_draft is_timestamp e) [
        | err v ↦ (err (invalid v), w)
        | ok _ ↦
            let (listed, w1) = s.list w in
            elim listed [
              | err x ↦ (err (store_failed x), w1)
              | ok infos ↦ allocate max_allocation_attempts 1 (numbers e.kind infos) e w1
            ]
      ]

-- `AddEdge`: whether the edge was appended, or the note that it would have replaced.
unfoldable pub find_edge : Edge → List Edge → Option Edge
find_edge edge [] = none
find_edge edge (x ∷ xs) =
    if edge_type_eq x.type edge.type && str_eq x.to edge.to then some x else find_edge edge xs

pub data EdgeAnswer : Type 0 where
  appended kept : EdgeAnswer
  note_differs : Str → EdgeAnswer

unfoldable pub add_edge : Entry → Edge → Entry × EdgeAnswer
unfolding find_edge
add_edge e edge = elim (find_edge edge e.edges) [
  | some x ↦ if str_eq x.note edge.note then (e, kept) else (e, note_differs x.note)
  | none ↦ (record e { edges = e.edges ++ edge ∷ [] }, appended)
]

-- `AddTag`
unfoldable pub add_tag : Entry → Str → Entry × Bool
add_tag e tag =
    if any (λ t. str_eq t tag) e.tags
    then (e, false)
    else (record e { tags = e.tags ++ tag ∷ [] }, true)
