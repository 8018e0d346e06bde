-- ===== src/Distill/Loop.antt =====
-- internal/distill/tui.go: the loop over the keystrokes. What it shows is left out, and so is Go's
-- check that the options are there. A panic of Go, an index out of range, is an outcome of its own.
pub mod Places
pub mod Acts
pub mod Consistent
use dira.Prelude.{
  ℕ, zero, suc, ◌+◌, ◌-◌, ◌||◌, ◌≡◌, Bool, true, false, not, List, [], ◌∷◌, ◌++◌, Option, none,
  some, Str, is_nil, length, leb, ◌==◌, ltb, if◌then◌else◌, Result, ok, err,
}
use dira.Ledger.Entry.{Entry}
use dira.Ledger.Store.{Store, StoreError}
use dira.Distill.Dispose.{
  Act, Disposition, DistillError, act_edit, no_editor, no_entry_returned, not_a_disposition,
  edit_failed, confirm, discard, undo,
}
use dira.Distill.Queue.{Item, Queue, status_of, staged_queue, awaiting_items}

-- One key, and what the clock says when it is handled; `later` is the second look at it.
pub record Keystroke : Type 0 where
  pub key : ℕ
  pub now : Option Str
  pub later : Option Str

abbrev pub max_disposition_failures : ℕ
max_disposition_failures = 3

-- `cards[i]`, `cards[i] = x`, and `xs[:len(xs)-1]`.
unfoldable pub get_elem? : {A : Type 0} → List A → ℕ → Option A
get_elem? [] i = none
get_elem? (x ∷ xs) zero = some x
get_elem? (x ∷ xs) (suc i) = get_elem? xs i

unfoldable pub set_elem : {A : Type 0} → List A → ℕ → A → List A
set_elem [] i y = []
set_elem (x ∷ xs) zero y = y ∷ xs
set_elem (x ∷ xs) (suc i) y = x ∷ set_elem xs i y

unfoldable pub without_last : {A : Type 0} → List A → Option (List A)
without_last [] = none
without_last (x ∷ []) = some []
without_last (x ∷ y ∷ xs) = elim (without_last (y ∷ xs)) [
  | none ↦ none
  | some front ↦ some (x ∷ front)
]

-- The variables of the loop, with those of its result.
pub record State (W : Type 0) : Type 0 where
  pub cards : List Item
  pub position : ℕ
  pub last : Option Disposition
  pub failures : ℕ
  pub dispositions : List Disposition
  pub remaining : ℕ
  pub undone : ℕ
  pub world : W

-- The queue is worked through; `q` or the end of the input; three failures on one card; a read error.
pub data Ending : Type 0 where
  worked_through quit panic : Ending
  gave_up : DistillError → Ending
  read_failed : Str → Ending

-- What stands behind the last keystroke: the end of the input, or an error.
abbrev pub ending_of : Option Str → Ending
ending_of none = quit
ending_of (some x) = read_failed x

pub data Round (W : Type 0) : Type 0 where
  goes_on : State W → Round W
  ends : Ending → State W → Round W

module _ (s : Store) (encode : Entry → Result Str Str) where
  abbrev pub Editor : Type 0
  Editor = Entry → Option Str → s.World → Result Str (Option Entry) × s.World

  -- `e`: the two writes are one act.
  unfoldable pub edit :
      Option Editor → Keystroke → Entry → s.World → Result DistillError Disposition × s.World
  edit none k e w = (err no_editor, w)
  edit (some editor) k e w =
      let (written, w1) = editor e k.now w in
      elim written [
        | err x ↦ (err (edit_failed x), w1)
        | ok none ↦ (err no_entry_returned, w1)
        | ok (some edited) ↦
            let (answer, w2) = confirm s edited k.later w1 in
            elim answer [
              | err x ↦ (err x, w2)
              | ok d ↦ (ok (record { id = e.id; act = act_edit; before = e; after = d.after }), w2)
            ]
      ]

  unfoldable pub dispose :
      Option Editor → Keystroke → Entry → s.World → Result DistillError Disposition × s.World
  dispose editor k e w =
      if k.key == b'y'
      then confirm s e k.now w
      else if k.key == b'n'
      then discard s e w
      else if k.key == b'e'
      then edit editor k e w
      else (err not_a_disposition, w)

  -- The case of `y`, `n` and `e`.
  unfoldable pub on_dispose : Result DistillError Disposition → State s.World → Round s.World
  on_dispose (err x) st =
      let failed : State s.World = record st { failures = st.failures + 1 } in
      if leb max_disposition_failures failed.failures
      then ends (gave_up x) failed
      else goes_on failed
  on_dispose (ok d) st = goes_on (record st {
    failures = 0;
    last = some d;
    dispositions = st.dispositions ++ d ∷ [];
    remaining = st.remaining - 1;
    position = st.position + 1;
  })

  -- The case of `u`, once the last disposition is taken back: `position--` and the card put back.
  unfoldable pub on_undone : Entry → State s.World → Round s.World
  on_undone restored st = elim st.position [
    | zero ↦ ends panic st
    | suc before ↦ elim (without_last st.dispositions) [
      | none ↦ ends panic st
      | some rest ↦ goes_on (record st {
        position = before;
        cards = set_elem st.cards before (record { entry = restored; status = status_of restored });
        dispositions = rest;
        undone = st.undone + 1;
        remaining = st.remaining + 1;
        last = none;
      })
    ]
  ]

  unfoldable pub on_undo : State s.World → Round s.World
  on_undo st = elim st.last [
    | none ↦ goes_on st
    | some d ↦
        let (answer, w) = undo s encode d st.world in
        let after : State s.World = record st { world = w } in
        elim answer [ err x ↦ goes_on after | ok restored ↦ on_undone restored after ]
  ]

  abbrev pub is_disposition : ℕ → Bool
  is_disposition key = (key == b'y') || (key == b'n') || (key == b'e')

  -- One round, at a card that is there.
  unfoldable pub round : Option Editor → Keystroke → Item → State s.World → Round s.World
  round editor k card st =
      if k.key == b'q'
      then ends quit st
      else if is_disposition k.key
      then (let (answer, w) = dispose editor k card.entry st.world in
          on_dispose answer (record st { world = w }))
      else if k.key == b'u'
      then on_undo st
      else goes_on st

  abbrev pub is_over : State s.World → Bool
  is_over st = leb (length st.cards) st.position

  -- The loop over the keystrokes, and what it has done at its end.
  unfoldable pub run :
      Option Editor → Option Str → List Keystroke → State s.World → Ending × State s.World
  run editor eof [] st = if is_over st then (worked_through, st) else (ending_of eof, st)
  run editor eof (k ∷ ks) st =
      if is_over st then (worked_through, st) else elim (get_elem? st.cards st.position) [
        | none ↦ (panic, st)
        | some card ↦ elim (round editor k card st) [
          | ends why after ↦ (why, after)
          | goes_on after ↦ run editor eof ks after
        ]
      ]

  abbrev pub start : List Item → s.World → State s.World
  start cards w = record {
    cards = cards;
    position = 0;
    last = none;
    failures = 0;
    dispositions = [];
    remaining = length cards;
    undone = 0;
    world = w;
  }

  -- `Loop`
  unfoldable pub loop :
      Option Editor
      → Option Str
      → List Keystroke
      → s.World
      → Result StoreError (Ending × State s.World) × s.World
  loop editor eof ks w =
      let (read, w1) = staged_queue s w in
      elim read [
        | err x ↦ (err x, w1)
        | ok q ↦
            let result = run editor eof ks (start (awaiting_items q) w1) in
            (ok result, result.1.world)
      ]
