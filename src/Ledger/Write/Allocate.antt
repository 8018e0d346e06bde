-- ===== src/Ledger/Write/Allocate.antt =====
-- `Add`: which id it allocates, and what it asks of the store.
use dira.Prelude.{
  ℕ, zero, suc, ◌+◌, ◌≤◌, ◌<◌, ◌≡◌, ◌≢◌, refl, true, false, Bool, List, [], ◌∷◌, arith, Str, length,
  Bool-cases, Result-cases, ltb, ltb→lt, is_nil, inl, inr, leb, if◌then◌else◌, ◌==◌, ==_iff, ok,
}
use dira.Ledger.Entry.{Entry}
use dira.Ledger.Store.{Store, EntryInfo}
use dira.Ledger.Write.{
  taken, next_free, allocate, add, is_exists, numbers, format_id, max_allocation_attempts,
}
use dira.Ledger.Validate.{validate_draft}

-- How many of the numbers are `n` or more.
from : ℕ → List ℕ → ℕ
from n [] = 0
from n (m ∷ used) = (if leb n m then 1 else 0) + from n used

from-le : (n : ℕ) (used : List ℕ) → from n used ≤ length used
unfolding from
from-le n [] = omega arith
from-le n (m ∷ used) = ground (arith, from-le n used)

from-suc_le : (n : ℕ) (used : List ℕ) → from (suc n) used ≤ from n used
unfolding from
from-suc_le n [] = omega arith
from-suc_le n (m ∷ used) = ground (arith, from-suc_le n used)

from-suc_lt : (n : ℕ) (used : List ℕ) → taken n used ≡ true → from (suc n) used < from n used
unfolding from
from-suc_lt n [] h = cc
from-suc_lt n (m ∷ used) h = ground (arith, from-suc_lt n used, from-suc_le n used)

-- The scan ends at a free number, and all that it passed were taken.
next_free_from :
    (fuel n : ℕ) (used : List ℕ)
    → from n used ≤ fuel
    → (taken (next_free fuel n used) used ≡ false)
      × (n ≤ next_free fuel n used)
      × ((m : ℕ) → n ≤ m → m < next_free fuel n used → taken m used ≡ true)
unfolding next_free
next_free_from zero n used h = elim (Bool-cases (taken n used)) [
  | inl t ↦ absurd (omega (arith, from-suc_lt n used t))
  | inr f ↦ (f, omega arith, λ m a b. absurd (omega arith))
]
next_free_from (suc fuel) n used h = elim (Bool-cases (taken n used)) [
  | inl t ↦
      let (free, above, passed) =
        next_free_from fuel (suc n) used (omega (arith, from-suc_lt n used t)) in
      rw t (
        free,
        omega arith,
        λ m a b. elim (Bool-cases (m == n)) [
          | inl e ↦ rw ((==_iff m n).0 e) t
          | inr other ↦ passed m (ground arith) b
        ],
      )
  | inr f ↦ rw f (f, omega arith, λ m a b. absurd (omega arith))
]

pub record IsLeastFree (used : List ℕ) (m : ℕ) : Type 0 where
  pub free : taken m used ≡ false
  pub positive : 1 ≤ m
  pub least : (j : ℕ) → 1 ≤ j → j < m → taken j used ≡ true

pub next_free-IsLeastFree : (used : List ℕ) → IsLeastFree used (next_free (length used) 1 used)
next_free-IsLeastFree used =
    let (free, above, passed) = next_free_from (length used) 1 used (from-le 1 used) in
    record { free = free; positive = above; least = passed }

IsLeastFree-unique : (used : List ℕ) (m k : ℕ) → IsLeastFree used m → IsLeastFree used k → m ≡ k
IsLeastFree-unique used m k hm hk = elim (Bool-cases (ltb m k)) [
  | inl below ↦ cc (hm.free, hk.least m hm.positive (ltb→lt m k below))
  | inr above ↦ elim (Bool-cases (ltb k m)) [
    | inl below ↦ cc (hk.free, hm.least k hk.positive (ltb→lt k m below))
    | inr same ↦ ground arith
  ]
]

module _ (s : Store) where
  -- An allocation that succeeds is a creation that succeeded, under the id of a number that was
  -- free and not below the start.
  allocate-ok :
      (attempts n : ℕ) (used : List ℕ) (e : Entry) (w w' : s.World) (id : Str)
      → allocate s attempts n used e w ≡ (ok id, w')
      → (m : ℕ) × (before : s.World) × (n ≤ m)
        × (taken m used ≡ false)
        × (id ≡ format_id e.kind m)
        × (s.create (record e { id = id }) before ≡ (ok tt, w'))
  unfolding allocate
  allocate-ok zero n used e w w' id h = absurd (ground arith)
  allocate-ok (suc attempts) n used e w w' id h =
      let m = next_free (length used) n used in
      let (free, above, _) = next_free_from (length used) n used (from-le n used) in
      let try = s.create (record e { id = format_id e.kind m }) w in
      elim (Result-cases try.0) [
        | inl (done, made) ↦ (m, w, above, free, ground arith, ground arith)
        | inr (x, failed) ↦ elim (Bool-cases (is_exists x)) [
          | inr other ↦ absurd (ground arith)
          | inl again ↦
              let (j, before, le, unused, name, creates) =
                allocate-ok attempts m (m ∷ used) e try.1 w' id (ground arith) in
              (j, before, omega arith, ground arith, name, creates)
        ]
      ]

  allocate_first :
      (attempts m : ℕ) (used : List ℕ) (e : Entry) (w w' : s.World)
      → IsLeastFree used m
      → s.create (record e { id = format_id e.kind m }) w ≡ (ok tt, w')
      → allocate s (suc attempts) 1 used e w ≡ (ok (format_id e.kind m), w')
  unfolding allocate
  allocate_first attempts m used e w w' least made =
      let same = IsLeastFree-unique used _ m (next_free-IsLeastFree used) least in
      ground (arith, same)

  module _ (is_timestamp : Str → Bool) where
    -- If `Add` succeeds, the entry had no id and was an acceptable draft, its id is that of a
    -- positive number which no listed id of its kind has, and the last call to the store created
    -- the entry under that id.
    pub add-ok :
        (e : Entry) (w w' : s.World) (id : Str)
        → add s is_timestamp e w ≡ (ok id, w')
        → (infos : List EntryInfo) × (listed before : s.World) × (m : ℕ) × (e.id ≡ [])
          × (validate_draft is_timestamp e ≡ ok tt)
          × (s.list w ≡ (ok infos, listed))
          × (1 ≤ m)
          × (taken m (numbers e.kind infos) ≡ false)
          × (id ≡ format_id e.kind m)
          × (s.create (record e { id = id }) before ≡ (ok tt, w'))
    unfolding add
    add-ok e w w' id h = elim (Result-cases (validate_draft is_timestamp e)) [
      | inr (v, bad) ↦ absurd (ground arith)
      | inl (done, good) ↦ elim (Result-cases (s.list w).0) [
        | inr (x, bad) ↦ absurd (ground arith)
        | inl (infos, read) ↦
            let (m, before, le, unused, name, made) =
              allocate-ok max_allocation_attempts 1 (numbers e.kind infos) e (s.list w).1 w' id
                (ground arith) in
            (
              infos,
              (s.list w).1,
              before,
              m,
              ground arith,
              ground arith,
              ground arith,
              le,
              unused,
              name,
              made,
            )
      ]
    ]

    -- Where nobody else writes, `Add` takes the least positive number that no listed id of the
    -- kind has, with a single creation.
    pub add_least :
        (e : Entry) (w listed w' : s.World) (infos : List EntryInfo) (m : ℕ)
        → e.id ≡ []
        → e.created ≢ []
        → validate_draft is_timestamp e ≡ ok tt
        → s.list w ≡ (ok infos, listed)
        → IsLeastFree (numbers e.kind infos) m
        → s.create (record e { id = format_id e.kind m }) listed ≡ (ok tt, w')
        → add s is_timestamp e w ≡ (ok (format_id e.kind m), w')
    unfolding add
    add_least e w listed w' infos m no_id stamped good read least made =
        let first : is_nil e.id ≡ true = rw no_id refl in
        let second : is_nil e.created ≡ false = ground arith in
        let moved : (s.list w).1 ≡ listed = rw read refl in
        rw (first, second, good, read, moved)
          (allocate_first 4095 m (numbers e.kind infos) e listed w' least made)
