-- ===== src/Distill/Tests.antt =====
-- A store in memory that keeps its promises, a session at the keyboard, and the theorems there.
use dira.Prelude.{
  ℕ, map, ◌≡◌, ◌⊎◌, inl, inr, refl, Bool, true, false, List, [], ◌∷◌, ◌++◌, Option, none, some,
  arith, Str, codes, Result, ok, err, Bool-cases, str_eq, str_eq_iff, if◌then◌else◌, ap, ◌∙◌, sym,
}
use dira.Ledger.Entry.{Entry, staged}
use dira.Ledger.Store.{StoreError, not_found}
use dira.Ledger.Validate.Tests.{use_go}
use dira.Ledger.Write.Tests.{memory, find, has, without}
use dira.Distill.Dispose.{
  Disposition, DistillError, act_confirm, confirm, discard, undo, undo_write, same_file, disposable,
  stored, confirmed, not_staged, confirmed_already, changed_since, no_editor,
}
use dira.Distill.Dispose.Cases.{
  confirm_lem, discard_lem, IsCapture, IsConfirmed, to_confirm, to_discard,
}
use dira.Distill.Dispose.Undo.{KeepsFiles, undo-confirm, undo-discard, IsOnDisk}
use dira.Distill.Queue.{Item, status_of, awaiting}
use dira.Distill.Loop.{
  Keystroke, run, round, edit, dispose, on_dispose, on_undo, on_undone, get_elem?, set_elem,
  without_last, start, worked_through, quit, gave_up, Editor,
}
use dira.Distill.Loop.Consistent.{run_lem, EndsWell}

-- The fields that a disposition can change, and those that tell entries apart.
abbrev bytes : Entry → Str
bytes e = e.id ++ e.title ++ e.updated ++ e.confirmed_by

abbrev encode : Entry → Result Str Str
encode e = ok (bytes e)

abbrev content : Result StoreError Entry → Option Str
content (ok e) = some (bytes e)
content (err _) = none

abbrev file : List Entry → Str → Option Str
file es k = content (find k es)

find-without :
    (id k : Str) (es : List Entry)
    → find k (without id es) ≡ (if str_eq id k then err not_found else find k es)
find-without id k [] = elim (Bool-cases (str_eq id k)) [ inl h ↦ rw h refl | inr h ↦ rw h refl ]
find-without id k (x ∷ es) = elim (Bool-cases (str_eq x.id id)) [
  | inl gone ↦ rw gone (
      find-without id k es
      ∙ skip (str_eq id k) (find k es) (ap (λ (j : Str). str_eq j k) ((str_eq_iff x.id id).0 gone)))
  | inr kept ↦ elim (Bool-cases (str_eq x.id k)) [
    | inl here ↦
        let other : str_eq id k ≡ false =
          ap (λ (j : Str). str_eq id j) (sym ((str_eq_iff x.id k).0 here)) ∙ apart kept in
        rw (kept, here, other) refl
    | inr on ↦ rw (kept, on) (find-without id k es)
  ]
]
  where
    skip :
        (b : Bool) (r : Result StoreError Entry)
        → str_eq x.id k ≡ b
        → (if b then err not_found else r)
          ≡ (if b then err not_found else if str_eq x.id k then ok x else r)
    skip true r h = refl
    skip false r h = rw h refl

    apart : str_eq x.id id ≡ false → str_eq id x.id ≡ false
    apart h = ground (arith, str_eq_iff x.id id, str_eq_iff id x.id)

file-without :
    (id k : Str) (es : List Entry)
    → file (without id es) k ≡ (if str_eq id k then none else file es k)
file-without id k es = ap content (find-without id k es) ∙ pick (str_eq id k)
  where
    pick :
        (b : Bool)
        → content (if b then err not_found else find k es) ≡ (if b then none else file es k)
    pick true = refl
    pick false = refl

file-added :
    (e : Entry) (k : Str) (es : List Entry)
    → file (e ∷ es) k ≡ (if str_eq e.id k then some (bytes e) else file es k)
file-added e k es = pick (str_eq e.id k)
  where
    pick :
        (b : Bool)
        → content (if b then ok e else find k es) ≡ (if b then some (bytes e) else file es k)
    pick true = refl
    pick false = refl

memory-KeepsFiles : KeepsFiles memory encode
memory-KeepsFiles = record {
  file = file;
  get_file = λ id w e h. (bytes e, refl, ap content h);
  get_keeps = λ id k w. refl;
  put_file = λ e w k h. (bytes e, refl, replaced e k w);
  create_file = λ e w k h. (bytes e, refl, created e k w h);
  delete_file = deleted;
}
  where
    replaced :
        (e : Entry) (k : Str) (es : List Entry)
        → file (e ∷ without e.id es) k ≡ (if str_eq e.id k then some (bytes e) else file es k)
    replaced e k es = elim (Bool-cases (str_eq e.id k)) [
      | inl here ↦ file-added e k (without e.id es) ∙ rw here refl
      | inr other ↦
          file-added e k (without e.id es) ∙ rw other (file-without e.id k es ∙ rw other refl)
    ]

    created :
        (e : Entry) (k : Str) (es : List Entry)
        → (memory.create e es).0 ≡ ok tt
        → file (memory.create e es).1 k ≡ (if str_eq e.id k then some (bytes e) else file es k)
    created e k es h = elim (Bool-cases (has e.id es)) [
      | inl there ↦ absurd (cc (rw there at h))
      | inr new ↦ rw new (file-added e k es)
    ]

    deleted :
        (id : Str) (es : List Entry) (k : Str)
        → (memory.delete id es).0 ≡ ok tt
        → file (memory.delete id es).1 k ≡ (if str_eq id k then none else file es k)
    deleted id es k h = elim (Bool-cases (has id es)) [
      | inl there ↦ rw there (file-without id k es)
      | inr missing ↦ absurd (cc (rw missing at h))
    ]

abbrev noon : Str
noon = codes "2026-07-30T12:00:00Z"

abbrev capture : Entry
capture = record use_go { state = staged; id = codes "dec-0007" }

abbrev stored_two : List Entry
stored_two = use_go ∷ capture ∷ []

abbrev after_confirm : List Entry
after_confirm = confirmed capture noon ∷ use_go ∷ []

confirming :
    (confirm memory capture (some noon) stored_two
      ≡ (ok (to_confirm memory capture noon), after_confirm))
    × (undo memory encode (to_confirm memory capture noon) after_confirm
        ≡ (ok capture, capture ∷ use_go ∷ []))
    × (confirm memory use_go (some noon) stored_two ≡ (err (not_staged use_go.state), stored_two))
    × (confirm memory (confirmed capture noon) (some noon) after_confirm
        ≡ (err (confirmed_already (codes "human")), after_confirm))
    × (undo memory encode (to_confirm memory capture (codes "earlier")) after_confirm
        ≡ (err changed_since, after_confirm))
unfolding confirm disposable undo undo_write same_file
confirming = (refl, refl, refl, refl, refl)

discarding :
    (discard memory capture stored_two ≡ (ok (to_discard memory capture), use_go ∷ []))
    × (undo memory encode (to_discard memory capture) (use_go ∷ [])
        ≡ (ok capture, capture ∷ use_go ∷ []))
unfolding discard disposable undo
discarding = (refl, refl)

confirm_lem_example :
    ((x : DistillError) × (confirm memory capture (some noon) stored_two ≡ (err x, stored_two))
      × ((¬ IsCapture capture) ⊎ some noon ≡ none))
    ⊎ (IsCapture capture
        × ((t : Str) × (some noon ≡ some t)
            × ((a : Entry) × IsConfirmed memory capture t a
                × (confirm memory capture (some noon) stored_two ≡ (
                  stored (memory.put a stored_two).0 (record {
                    id = capture.id;
                    act = act_confirm;
                    before = capture;
                    after = some a;
                  }),
                  (memory.put a stored_two).1,
                )))))
confirm_lem_example = confirm_lem memory capture (some noon) stored_two

discard_lem_example :
    ((x : DistillError) × (discard memory capture stored_two ≡ (err x, stored_two))
      × (¬ IsCapture capture))
    ⊎ (IsCapture capture
        × (discard memory capture stored_two ≡ (
          stored (memory.delete capture.id stored_two).0 (to_discard memory capture),
          (memory.delete capture.id stored_two).1,
        )))
discard_lem_example = discard_lem memory capture stored_two

on_disk : IsOnDisk memory encode memory-KeepsFiles capture stored_two
unfolding memory-KeepsFiles
on_disk = (bytes capture, refl, refl)

undo-confirm_example :
    (capture ≡ capture)
    × ((k : Str)
        → memory-KeepsFiles.file
            (undo memory encode
              (to_confirm memory capture noon)
              (confirm memory capture (some noon) stored_two).1).1
            k
          ≡ memory-KeepsFiles.file stored_two k)
undo-confirm_example =
    undo-confirm memory encode memory-KeepsFiles capture (some noon) stored_two
      (to_confirm memory capture noon) capture on_disk
      (ap (λ (p : Result DistillError Disposition × List Entry). p.0) confirming.0) restored
  where
    restored :
        (undo memory encode
          (to_confirm memory capture noon)
          (confirm memory capture (some noon) stored_two).1).0
        ≡ ok capture
    restored =
        ap (λ (w : List Entry). (undo memory encode (to_confirm memory capture noon) w).0)
          (ap (λ (p : Result DistillError Disposition × List Entry). p.1) confirming.0)
        ∙ ap (λ (p : Result DistillError Entry × List Entry). p.0) confirming.1

undo-discard_example :
    (capture ≡ capture)
    × ((k : Str)
        → memory-KeepsFiles.file
            (undo memory encode (to_discard memory capture) (discard memory capture stored_two).1).1
            k
          ≡ memory-KeepsFiles.file stored_two k)
undo-discard_example =
    undo-discard memory encode memory-KeepsFiles capture stored_two (to_discard memory capture)
      capture on_disk (ap (λ (p : Result DistillError Disposition × List Entry). p.0) discarding.0)
      restored
  where
    restored :
        (undo memory encode (to_discard memory capture) (discard memory capture stored_two).1).0
        ≡ ok capture
    restored =
        ap (λ (w : List Entry). (undo memory encode (to_discard memory capture) w).0)
          (ap (λ (p : Result DistillError Disposition × List Entry). p.1) discarding.0)
        ∙ ap (λ (p : Result DistillError Entry × List Entry). p.0) discarding.1

abbrev press : ℕ → Keystroke
press key = record { key = key; now = some noon; later = some noon }

abbrev no_editor_set : Option (Editor memory encode)
no_editor_set = none

abbrev cards : List Item
cards =
    record { entry = capture; status = awaiting }
    ∷ record { entry = record capture { id = codes "dec-0008" }; status = awaiting }
    ∷ []

session :
    ((run memory encode no_editor_set none
        (press b'y' ∷ press b'u' ∷ press b'n' ∷ press b'y' ∷ [])
        (start memory encode cards stored_two)).0
      ≡ worked_through)
    × ((run memory encode no_editor_set none
          (press b'y' ∷ press b'?' ∷ [])
          (start memory encode cards stored_two)).0
        ≡ quit)
    × ((run memory encode no_editor_set none
          (press b'e' ∷ press b'e' ∷ press b'e' ∷ [])
          (start memory encode cards stored_two)).0
        ≡ gave_up no_editor)
unfolding run round dispose confirm discard disposable undo undo_write same_file on_dispose on_undo
    on_undone get_elem? set_elem without_last status_of edit
session = (refl, refl, refl)

run_lem_example : EndsWell memory encode (map (λ (i : Item). i.entry) cards) (
    run memory encode no_editor_set none
      (press b'y' ∷ press b'u' ∷ [])
      (start memory encode cards stored_two))
run_lem_example =
    run_lem memory encode no_editor_set none (press b'y' ∷ press b'u' ∷ []) cards stored_two

-- `u` moves to another card without setting the failures back: after two on the second card, the
-- first failure on the first one ends the session.
carried_over :
    (run memory encode no_editor_set none
      (press b'y' ∷ press b'e' ∷ press b'e' ∷ press b'u' ∷ press b'e' ∷ press b'y' ∷ [])
      (start memory encode cards stored_two)).0
    ≡ gave_up no_editor
unfolding run round dispose confirm discard disposable undo undo_write same_file on_dispose on_undo
    on_undone get_elem? set_elem without_last status_of edit
carried_over = refl
