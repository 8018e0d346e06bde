-- ===== src/Distill/Dispose/Cases.antt =====
-- When a disposition is refused, and the one call of the store that it makes otherwise.
use dira.Prelude.{
  ◌≡◌, ◌≢◌, ◌⊎◌, inl, inr, refl, false, [], Option, none, some, arith, Str, codes, is_nil, Result,
  ok, err, Bool-cases, Option-cases, Result-cases, ap, sym, ◌∙◌,
}
use dira.Ledger.Entry.{Entry, staged}
use dira.Ledger.Store.{Store, StoreError}
use dira.Distill.Queue.{status_of, pending_extraction}
use dira.Distill.Dispose.{
  Disposition, DistillError, disposable, is_staged, no_id, not_staged, no_clock, confirmed_already,
  confirm, discard, undo, undo_write, same_file, Act, act_edit, stored, confirmed, act_confirm,
  act_discard,
}

-- An unexamined capture.
pub record IsCapture (e : Entry) : Type 0 where
  pub has_id : e.id ≢ []
  pub is_staged_entry : e.state ≡ staged
  pub unconfirmed : e.confirmed_by ≡ []

disposable-cases :
    (e : Entry)
    → ((disposable e ≡ ok tt) × (e.id ≢ []) × (e.state ≡ staged))
      ⊎ ((x : DistillError) × (disposable e ≡ err x) × (e.id ≡ [] ⊎ e.state ≢ staged))
unfolding disposable
disposable-cases e = elim (Bool-cases (is_nil e.id)) [
  | inl empty ↦ inr (no_id, rw empty refl, inl (ground arith))
  | inr named ↦ elim (Bool-cases (is_staged e.state)) [
    | inl is ↦ inl (rw (named, is) refl, (λ z. ground arith), ground arith)
    | inr other ↦ inr (not_staged e.state, rw (named, other) refl, inr (λ z. ground arith))
  ]
]

not-IsCapture : (e : Entry) → (e.id ≡ [] ⊎ e.state ≢ staged) → ¬ IsCapture e
not-IsCapture e (inl empty) c = c.has_id empty
not-IsCapture e (inr other) c = other c.is_staged_entry

examined : (e : Entry) → is_nil e.confirmed_by ≡ false → ¬ IsCapture e
examined e h c = let empty = c.unconfirmed in ground arith

pub stored-ok :
    {A : Type 0} (r : Result StoreError (Unit {0})) (a b : A)
    → stored r a ≡ ok b
    → (r ≡ ok tt) × (b ≡ a)
stored-ok (ok tt) a b h = (refl, cc)
stored-ok (err x) a b h = absurd (cc)

module _ (s : Store) where
  abbrev pub to_confirm : Entry → Str → Disposition
  to_confirm e t = record { id = e.id; act = act_confirm; before = e; after = some (confirmed e t) }

  abbrev pub to_discard : Entry → Disposition
  to_discard e = record { id = e.id; act = act_discard; before = e; after = none }

  -- The two branches, with the entry that is written by its name in the code.
  confirm-cases :
      (e : Entry) (now : Option Str) (w : s.World)
      → ((x : DistillError) × (confirm s e now w ≡ (err x, w)) × ((¬ IsCapture e) ⊎ now ≡ none))
        ⊎ (IsCapture e
            × ((t : Str) × (now ≡ some t)
                × (confirm s e now w ≡ (
                  stored (s.put (confirmed e t) w).0 (to_confirm e t),
                  (s.put (confirmed e t) w).1,
                ))))
  unfolding confirm
  confirm-cases e now w = elim (disposable-cases e) [
    | inr (x, refused, why) ↦ inl (x, rw (refused, confirm) refl, inl (not-IsCapture e why))
    | inl (fine, named, is) ↦ elim (Bool-cases (is_nil e.confirmed_by)) [
      | inr before ↦ inl (
        confirmed_already e.confirmed_by,
        rw (fine, before, confirm) refl,
        inl (examined e before),
      )
      | inl new ↦ elim (Option-cases now) [
        | inl unset ↦ inl (no_clock, rw (fine, new, unset, confirm) refl, inr unset)
        | inr (t, set) ↦ inr (
          record { has_id = named; is_staged_entry = is; unconfirmed = ground arith },
          (t, set, rw (fine, new, set, confirm) refl),
        )
      ]
    ]
  ]

  -- What a confirmation writes: the entry with two fields set, which waits on extraction and can be neither
  -- confirmed nor discarded any more.
  pub record IsConfirmed (e : Entry) (t : Str) (a : Entry) : Type 0 where
    pub fields_set : a ≡ record e { confirmed_by = codes "human"; updated = t }
    pub waits_on_extraction : status_of a ≡ pending_extraction
    pub not_confirmed_again :
        (now : Option Str) (w : s.World)
        → confirm s a now w ≡ (err (confirmed_already (codes "human")), w)
    pub not_discarded : (w : s.World) → discard s a w ≡ (err (confirmed_already (codes "human")), w)

  disposable-confirmed :
      (e : Entry) (t : Str) → disposable e ≡ ok tt → disposable (confirmed e t) ≡ ok tt
  unfolding disposable
  disposable-confirmed e t fine = fine

  confirmed-IsConfirmed :
      (e : Entry) (t : Str) → disposable e ≡ ok tt → IsConfirmed e t (confirmed e t)
  unfolding status_of confirm discard
  confirmed-IsConfirmed e t fine = record {
    fields_set = refl;
    waits_on_extraction = refl;
    not_confirmed_again = λ now w. rw (disposable-confirmed e t fine, confirm) refl;
    not_discarded = λ w. rw (disposable-confirmed e t fine, discard) refl;
  }

  disposable_capture : (e : Entry) → IsCapture e → disposable e ≡ ok tt
  disposable_capture e c = elim (disposable-cases e) [
    | inl (fine, _, _) ↦ fine
    | inr (x, _, why) ↦ absurd (not-IsCapture e why c)
  ]

  -- A confirmation is refused and leaves the store alone exactly when the entry is no unexamined
  -- capture or the clock is not set. Otherwise it is one `Put`, of the entry with `confirmed_by` set to
  -- "human" and `updated` to the clock and no other change, and it fails exactly if that call does.
  -- What was put waits on extraction, and neither Confirm nor Discard takes it again.
  pub confirm_lem :
      (e : Entry) (now : Option Str) (w : s.World)
      → ((x : DistillError) × (confirm s e now w ≡ (err x, w)) × ((¬ IsCapture e) ⊎ now ≡ none))
        ⊎ (IsCapture e
            × ((t : Str) × (now ≡ some t)
                × ((a : Entry) × IsConfirmed e t a
                    × (confirm s e now w ≡ (
                      stored
                          (s.put a w).0
                          (record { id = e.id; act = act_confirm; before = e; after = some a }),
                      (s.put a w).1,
                    )))))
  confirm_lem e now w = elim (confirm-cases e now w) [
    | inl refused ↦ inl refused
    | inr (c, (t, set, eq)) ↦
        inr (c, (t, set, (confirmed e t, confirmed-IsConfirmed e t (disposable_capture e c), eq)))
  ]

  -- A discard is refused and leaves the store alone exactly when the entry is no unexamined capture.
  -- Otherwise it is one `Delete`, and it fails exactly if that call does.
  pub discard_lem :
      (e : Entry) (w : s.World)
      → ((x : DistillError) × (discard s e w ≡ (err x, w)) × (¬ IsCapture e))
        ⊎ (IsCapture e
            × (discard s e w ≡ (stored (s.delete e.id w).0 (to_discard e), (s.delete e.id w).1)))
  unfolding discard
  discard_lem e w = elim (disposable-cases e) [
    | inr (x, refused, why) ↦ inl (x, rw (refused, discard) refl, not-IsCapture e why)
    | inl (fine, named, is) ↦ elim (Bool-cases (is_nil e.confirmed_by)) [
      | inr before ↦
          inl (confirmed_already e.confirmed_by, rw (fine, before, discard) refl, examined e before)
      | inl new ↦ inr (
        record { has_id = named; is_staged_entry = is; unconfirmed = ground arith },
        rw (fine, new, discard) refl,
      )
    ]
  ]

  -- What a disposition that is done has to say, and the call that has succeeded.
  pub confirm-done :
      (e : Entry) (now : Option Str) (w : s.World) (d : Disposition)
      → (confirm s e now w).0 ≡ ok d
      → (t : Str) × (d ≡ to_confirm e t)
        × ((s.put (confirmed e t) w).0 ≡ ok tt)
        × ((confirm s e now w).1 ≡ (s.put (confirmed e t) w).1)
  confirm-done e now w d h = elim (confirm-cases e now w) [
    | inl (x, eq, _) ↦
        absurd (cc (ap (λ (p : Result DistillError Disposition × s.World). p.0) eq, h))
    | inr (c, (t, _, eq)) ↦
        let answer : stored (s.put (confirmed e t) w).0 (to_confirm e t) ≡ ok d =
          sym (ap (λ (p : Result DistillError Disposition × s.World). p.0) eq) ∙ h in
        let (fine, same) = stored-ok (s.put (confirmed e t) w).0 (to_confirm e t) d answer in
        (t, same, fine, ap (λ (p : Result DistillError Disposition × s.World). p.1) eq)
  ]

  pub discard-done :
      (e : Entry) (w : s.World) (d : Disposition)
      → (discard s e w).0 ≡ ok d
      → (d ≡ to_discard e)
        × ((s.delete e.id w).0 ≡ ok tt)
        × ((discard s e w).1 ≡ (s.delete e.id w).1)
  discard-done e w d h = elim (discard_lem e w) [
    | inl (x, eq, _) ↦
        absurd (cc (ap (λ (p : Result DistillError Disposition × s.World). p.0) eq, h))
    | inr (c, eq) ↦
        let answer : stored (s.delete e.id w).0 (to_discard e) ≡ ok d =
          sym (ap (λ (p : Result DistillError Disposition × s.World). p.0) eq) ∙ h in
        let (fine, same) = stored-ok (s.delete e.id w).0 (to_discard e) d answer in
        (same, fine, ap (λ (p : Result DistillError Disposition × s.World). p.1) eq)
  ]

-- What taking back a disposition gives, and the call that has succeeded.
module _ (s : Store) (encode : Entry → Result Str Str) where
  pub undo_write-done :
      (d : Disposition) (w : s.World) (back : Entry)
      → (undo_write s encode d w).0 ≡ ok back
      → (back ≡ d.before)
        × ((s.put d.before (s.get d.id w).1).0 ≡ ok tt)
        × ((undo_write s encode d w).1 ≡ (s.put d.before (s.get d.id w).1).1)
  unfolding undo_write
  undo_write-done d w back h = elim (Result-cases (s.get d.id w).0) [
    | inr (x, failed) ↦ absurd (cc (rw (failed, undo_write) at h))
    | inl (current, read) ↦ elim (Result-cases (same_file s encode current d.after)) [
      | inr (x, failed) ↦ absurd (cc (rw (read, failed, undo_write) at h))
      | inl (unchanged, compared) ↦ elim (Bool-cases unchanged) [
        | inr other ↦ absurd (cc (rw (read, compared, other, undo_write) at h))
        | inl same ↦
            let (fine, back_is) =
              stored-ok (s.put d.before (s.get d.id w).1).0 d.before back
                (rw (read, compared, same, undo_write) at h) in
            (back_is, fine, rw (read, compared, same, undo_write) refl)
      ]
    ]
  ]

  pub undo-before :
      (d : Disposition) (w : s.World) (e : Entry) → (undo s encode d w).0 ≡ ok e → e ≡ d.before
  unfolding undo undo_write
  undo-before d w e h = of_act d.act refl
    where
      of_act : (a : Act) → d.act ≡ a → e ≡ d.before
      of_act act_discard is = (stored-ok (s.create d.before w).0 d.before e (rw is at h)).1
      of_act act_confirm is = let (same, _, _) = undo_write-done d w e (rw is at h) in same
      of_act act_edit is = let (same, _, _) = undo_write-done d w e (rw is at h) in same
