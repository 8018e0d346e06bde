-- ===== src/Distill/Edit/OnlyBody.antt =====
-- internal/distill/edit.go, `EditBody`: what it may write.
use dira.Prelude.{
  ◌≡◌, refl, sym, ◌∙◌, subst, ap, inl, inr, true, false, arith, not, Bool-cases, Result-cases, none,
  some, Str, is_nil, str_eq, str_eq_iff, if_split, if_both, Result, ok, err, trim_space,
}
use dira.Ledger.Entry.{Entry}
use dira.Ledger.Store.{Store, StoreError}
use dira.Distill.Dispose.{DistillError, disposable}
use dira.Distill.Edit.{
  not_written, not_reread, changed_on_disk, editor_failed, no_version, refused, Edit, EditError,
  spliced, edited, frontmatter_of, only_the_body, Outcome, written, write_back, put_edited,
  take_body, BodyEditor, edit_with, edit_body, edit_disposable,
}

ok-injective : {x y : Edit} → ◌≡◌ {A = Result EditError Edit} (ok x) (ok y) → x ≡ y
ok-injective {x} {y} h = subst (Is x) h refl
  where
    Is : Edit → Result EditError Edit → Type 0
    Is x (ok z) = x ≡ z
    Is x (err z) = Unit

-- What `EditBody` may write: the entry `after` where the editor came back with `back` and the store then
-- answered `again`. It is the capture with the editor's body and another date, the version on disk is that
-- of the capture, and the frontmatter is the same but for the date.
pub record IsBodyEdit (s : Store) (encode : Entry → Result Str Str) (e after : Entry) (now : Str)
    (back : Result Str Str × s.World) (again : Result StoreError Entry × s.World) : Type 0 where
  pub text : Str
  pub came_back : back.0 ≡ ok text
  pub after_is : after ≡ record e { body = spliced text; updated = now }
  pub says_something : is_nil (trim_space (spliced text)) ≡ false
  pub differs : str_eq (spliced text) e.body ≡ false
  pub current : Entry
  pub read_again : again.0 ≡ ok current
  pub same_version : current.version ≡ e.version
  pub front : Str
  pub front_before : frontmatter_of s encode e ≡ ok front
  pub front_after : frontmatter_of s encode after ≡ ok front
  pub was_staged : disposable e ≡ ok tt

-- What a report of `EditBody` says of the ledger, which is `final` then: with no entry, nothing was called
-- after the editor; with an entry, that entry was put, the put succeeded, and it was the last call.
pub data Reports (s : Store) (encode : Entry → Result Str Str) (e : Entry) (now : Str)
    (back : Result Str Str × s.World) (again : Result StoreError Entry × s.World) (d : Edit)
    (final : s.World) : Type 0 where
  left_alone : d.after ≡ none → final ≡ back.1 → Reports s encode e now back again d final
  put_back :
      (a : Entry)
      → d.after ≡ some a
      → IsBodyEdit s encode e a now back again
      → (s.put a again.1).0 ≡ ok tt
      → final ≡ (s.put a again.1).1
      → Reports s encode e now back again d final

module _ (s : Store) (encode : Entry → Result Str Str) (e : Entry) where
  same_front :
      (a : Entry)
      → only_the_body s encode e a ≡ ok tt
      → (front : Str) × (frontmatter_of s encode e ≡ ok front)
        × (frontmatter_of s encode a ≡ ok front)
  unfolding only_the_body
  same_front a h = elim (Result-cases (frontmatter_of s encode e)) [
    | inr (x, k) ↦ absurd (cc (rw (k, only_the_body) at h))
    | inl (was, k) ↦ elim (Result-cases (frontmatter_of s encode a)) [
      | inr (x, l) ↦ absurd (cc (rw (k, l, only_the_body) at h))
      | inl (now, l) ↦ elim (Bool-cases (str_eq was now)) [
        | inl same ↦ (was, k, l ∙ ap ok (sym ((str_eq_iff was now).0 same)))
        | inr other ↦ absurd (cc (rw (k, l, other, only_the_body) at h))
      ]
    ]
  ]

  module _ (now : Str) where
    module _ (back : Result Str Str × s.World) (again : Result StoreError Entry × s.World) where
      Honest : Outcome s encode → Type 0
      Honest r = (d : Edit) → r.0 ≡ ok d → Reports s encode e now back again d r.1

      no_report : (x : EditError) (w : s.World) → Honest (err x, w)
      unfolding Honest
      no_report x w = λ d k. absurd (cc k)

      left_alone-Honest : (x : Edit) (w : s.World) → x.after ≡ none → w ≡ back.1 → Honest (ok x, w)
      unfolding Honest
      left_alone-Honest x w nothing same =
          λ d k. left_alone (ap (λ (y : Edit). y.after) (sym (ok-injective k)) ∙ nothing) same

      written-Honest :
          (a : Entry) (r : Result StoreError (Unit {0}) × s.World)
          → s.put a again.1 ≡ r
          → IsBodyEdit s encode e a now back again
          → Honest (written s encode e a r)
      unfolding Honest
      written-Honest a (err x, w) put h = no_report (not_written x) w
      written-Honest a (ok u, w) put h = λ d k.
          put_back a (ap (λ (y : Edit). y.after) (sym (ok-injective k))) h (ap (λ p. p.0) put)
            (ap (λ p. p.1) (sym put))

      write_back-Honest :
          (text : Str) (current : Entry) (answer : Result EditError (Unit {0}))
          → only_the_body s encode e (edited e (spliced text) now) ≡ answer
          → back.0 ≡ ok text
          → again.0 ≡ ok current
          → str_eq current.version e.version ≡ true
          → is_nil (trim_space (spliced text)) ≡ false
          → str_eq (spliced text) e.body ≡ false
          → disposable e ≡ ok tt
          → Honest (write_back s encode e (edited e (spliced text) now) answer again.1)
      write_back-Honest text current (err x) h came reread version says differs was =
          no_report x again.1
      write_back-Honest text current (ok u) h came reread version says differs was =
          let (front, before, after) = same_front (edited e (spliced text) now) h in
          written-Honest (edited e (spliced text) now) (s.put (edited e (spliced text) now) again.1)
            refl
            (record {
              text = text;
              came_back = came;
              after_is = refl;
              says_something = says;
              differs = differs;
              current = current;
              read_again = reread;
              same_version = (str_eq_iff current.version e.version).0 version;
              front = front;
              front_before = before;
              front_after = after;
              was_staged = was;
            })

    put_edited-Honest :
        (text : Str) (back : Result Str Str × s.World) (again : Result StoreError Entry × s.World)
        → back.0 ≡ ok text
        → is_nil (trim_space (spliced text)) ≡ false
        → str_eq (spliced text) e.body ≡ false
        → disposable e ≡ ok tt
        → Honest back again (put_edited s encode e (spliced text) now again)
    unfolding put_edited
    put_edited-Honest text back (err x, w) came says differs was =
        no_report back (err x, w) (not_reread x) w
    put_edited-Honest text back (ok current, w) came says differs was =
        if_split (Honest back (ok current, w)) (not (str_eq current.version e.version))
          (λ _. no_report back (ok current, w) changed_on_disk w)
          (λ same.
            write_back-Honest back (ok current, w) text current
              (only_the_body s encode e (edited e (spliced text) now)) refl came refl (ground arith)
              says differs was)

    take_body-Honest :
        (back : Result Str Str × s.World)
        → disposable e ≡ ok tt
        → Honest back (s.get e.id back.1) (take_body s encode e now back)
    unfolding take_body
    take_body-Honest (err x, w) was = no_report (err x, w) (s.get e.id w) (editor_failed x) w
    take_body-Honest (ok text, w) was =
        let P : Outcome s encode → Type 0 = Honest (ok text, w) (s.get e.id w) in
        if_split P (is_nil (trim_space (spliced text)))
          (λ _. left_alone-Honest (ok text, w) (s.get e.id w) _ w refl refl)
          (λ says.
            if_split P (str_eq (spliced text) e.body)
              (λ _. left_alone-Honest (ok text, w) (s.get e.id w) _ w refl refl)
              (λ differs. put_edited-Honest text (ok text, w) (s.get e.id w) refl says differs was))

    module _ (editor : BodyEditor s encode) (w : s.World) where
      back : Result Str Str × s.World
      back = editor e.body w

      edit_with-Honest :
          disposable e ≡ ok tt
          → Honest back (s.get e.id back.1) (edit_with s encode e (some editor) (some now) w)
      unfolding back
      edit_with-Honest was =
          if_both (Honest back (s.get e.id back.1)) (is_nil e.version)
            (no_report back (s.get e.id back.1) no_version w) (take_body-Honest back was)

      edit_disposable-Honest :
          (answer : Result DistillError (Unit {0}))
          → disposable e ≡ answer
          → Honest back
              (s.get e.id back.1)
              (edit_disposable s encode answer e (some editor) (some now) w)
      edit_disposable-Honest (err x) h = no_report back (s.get e.id back.1) (refused x) w
      edit_disposable-Honest (ok u) h = edit_with-Honest h

      -- What EditBody reports is what it has done. If it reports no entry, no call follows that of the
      -- editor. If it reports an entry, its last call was a put of that entry, which succeeded; the
      -- entry is the staged capture with the body that the editor came back with, which says something
      -- and is not the old one, and a new date; the capture's version was still on disk when it was
      -- read again; and the frontmatter is that of the capture, line by line, but for the date.
      pub edit_body-Reports :
          (d : Edit)
          → (edit_body s encode e (some editor) (some now) w).0 ≡ ok d
          → Reports s encode e now
              (editor e.body w)
              (s.get e.id (editor e.body w).1)
              d
              (edit_body s encode e (some editor) (some now) w).1
      unfolding edit_body Honest back
      edit_body-Reports = edit_disposable-Honest (disposable e) refl
