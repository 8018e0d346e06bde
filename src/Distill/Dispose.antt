-- ===== src/Distill/Dispose.antt =====
-- internal/distill/dispose.go, and `undo` and `sameFile` of tui.go: confirming and discarding a staged
-- capture, and taking that back. `encode` is the codec, `ledger.Encode`: the bytes of an entry's file.
-- A clock that has not been set is `none`. Go's nil stores and nil entries are left out.

pub mod Cases
pub mod Undo
use dira.Prelude.{
  ◌≡◌, Bool, true, false, not, List, [], ◌∷◌, Option, none, some, Str, codes, is_nil, str_eq,
  if◌then◌else◌, Result, ok, err,
}
use dira.Ledger.Entry.{Entry, State, staged}
use dira.Ledger.Store.{Store, StoreError}

pub data Act : Type 0 where
  act_confirm act_discard act_edit : Act

-- What one transition did; a discard leaves no entry behind.
pub record Disposition : Type 0 where
  pub id : Str
  pub act : Act
  pub before : Entry
  pub after : Option Entry

pub data DistillError : Type 0 where
  no_id no_clock no_editor no_entry_returned not_a_disposition nothing_to_undo changed_since :
      DistillError
  not_staged : State → DistillError
  confirmed_already : Str → DistillError
  store_failed : StoreError → DistillError
  edit_failed encode_failed : Str → DistillError

abbrev pub confirmed_by_human : Str
confirmed_by_human = codes "human"

abbrev pub is_staged : State → Bool
is_staged staged = true
is_staged _ = false

-- The precondition that both transitions share.
unfoldable pub disposable : Entry → Result DistillError (Unit {0})
disposable e =
    if is_nil e.id
    then err no_id
    else if not (is_staged e.state)
    then err (not_staged e.state)
    else ok tt

-- What a confirmation writes.
abbrev pub confirmed : Entry → Str → Entry
confirmed e now = record e { confirmed_by = confirmed_by_human; updated = now }

abbrev pub stored : {A : Type 0} → Result StoreError (Unit {0}) → A → Result DistillError A
stored (ok _) a = ok a
stored (err x) a = err (store_failed x)

module _ (s : Store) where
  unfoldable pub confirm : Entry → Option Str → s.World → Result DistillError Disposition × s.World
  confirm e now w = elim (disposable e) [
    | err x ↦ (err x, w)
    | ok _ ↦
        if not (is_nil e.confirmed_by)
        then (err (confirmed_already e.confirmed_by), w)
        else elim now [
          | none ↦ (err no_clock, w)
          | some t ↦
              let (answer, w1) = s.put (confirmed e t) w in
              (
                stored answer (record {
                  id = e.id;
                  act = act_confirm;
                  before = e;
                  after = some (confirmed e t);
                }),
                w1,
              )
        ]
  ]

  unfoldable pub discard : Entry → s.World → Result DistillError Disposition × s.World
  discard e w = elim (disposable e) [
    | err x ↦ (err x, w)
    | ok _ ↦
        if not (is_nil e.confirmed_by)
        then (err (confirmed_already e.confirmed_by), w)
        else let (answer, w1) = s.delete e.id w in
          (stored answer (record { id = e.id; act = act_discard; before = e; after = none }), w1)
  ]

  module _ (encode : Entry → Result Str Str) where
    -- `sameFile`: whether two entries serialise to the same bytes.
    unfoldable pub same_file : Entry → Option Entry → Result DistillError Bool
    same_file a none = ok false
    same_file a (some b) = elim (encode a) [
      | err x ↦ err (encode_failed x)
      | ok left ↦ elim (encode b) [
        | err x ↦ err (encode_failed x)
        | ok right ↦ ok (str_eq left right)
      ]
    ]

    -- Only what the disposition wrote is taken back.
    unfoldable pub undo_write : Disposition → s.World → Result DistillError Entry × s.World
    undo_write d w =
        let (read, w1) = s.get d.id w in
        elim read [
          | err x ↦ (err (store_failed x), w1)
          | ok current ↦ elim (same_file current d.after) [
            | err x ↦ (err x, w1)
            | ok unchanged ↦
                if not unchanged
                then (err changed_since, w1)
                else let (answer, w2) = s.put d.before w1 in (stored answer d.before, w2)
          ]
        ]

    unfoldable pub undo : Disposition → s.World → Result DistillError Entry × s.World
    undo d w = elim d.act [
      | act_discard ↦ let (answer, w1) = s.create d.before w in (stored answer d.before, w1)
      | act_confirm ↦ undo_write d w
      | act_edit ↦ undo_write d w
    ]
