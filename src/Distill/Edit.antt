-- ===== src/Distill/Edit.antt =====
-- internal/distill/edit.go: the body of a capture is edited, and nothing else of it. `encode` is the codec,
-- `ledger.Encode`; the body editor is a function on the world.
pub mod OnlyBody
mod Tests
use dira.Prelude.{
  Bool, true, false, not, List, [], ◌∷◌, ◌++◌, Option, none, some, Str, codes, is_nil, str_eq,
  if◌then◌else◌, Result, ok, err, ◌>>=◌, trim_space, trim_left, trim_right, newline, ◌==◌, split,
  join, keep_if, has_prefix,
}
use dira.Ledger.Entry.{Entry}
use dira.Ledger.Store.{Store, StoreError}
use dira.Frontmatter.{fold_crlf, split_file}
use dira.Distill.Dispose.{DistillError, disposable}

pub data EditNote : Type 0 where
  came_back_empty came_back_same : EditNote

-- `After` is there exactly where something was written.
pub record Edit : Type 0 where
  pub id : Str
  pub before : Entry
  pub after : Option Entry
  pub note : Option EditNote

pub data EditError : Type 0 where
  refused : DistillError → EditError
  no_body_editor no_clock_given no_version changed_on_disk changes_frontmatter : EditError
  editor_failed encode_fails : Str → EditError
  no_frontmatter : EditError
  not_reread not_written : StoreError → EditError

-- `spliced`
unfoldable pub spliced : Str → Str
unfolding fold_crlf trim_left trim_right
spliced text =
    let trimmed = trim_right (λ c. c == newline) (trim_left (λ c. c == newline) (fold_crlf text)) in
    if is_nil trimmed then [] else newline ∷ trimmed ++ newline ∷ []

-- What `EditBody` writes.
abbrev pub edited : Entry → Str → Str → Entry
edited e body now = record e { body = body; updated = now }

module _ (s : Store) (encode : Entry → Result Str Str) where
  abbrev pub front_lines : Option (Str × Str) → Result EditError Str
  front_lines none = err no_frontmatter
  front_lines (some (front, body)) = ok (
      join (keep_if (λ l. not (has_prefix l (codes "updated:"))) (split front newline))
        (newline ∷ []))

  abbrev pub front_of : Result Str Str → Result EditError Str
  front_of (err x) = err (encode_fails x)
  front_of (ok content) = front_lines (split_file content)

  -- `frontmatterOf`
  unfoldable pub frontmatter_of : Entry → Result EditError Str
  unfolding split split_file
  frontmatter_of e = front_of (encode e)

  -- `onlyTheBody`
  unfoldable pub only_the_body : Entry → Entry → Result EditError (Unit {0})
  unfolding frontmatter_of
  only_the_body before after = frontmatter_of before >>= λ was.
      frontmatter_of after >>= λ now. if str_eq was now then ok tt else err changes_frontmatter

  abbrev pub Outcome : Type 0
  Outcome = Result EditError Edit × s.World

  abbrev pub written : Entry → Entry → Result StoreError (Unit {0}) × s.World → Outcome
  written e after (ok _, w) =
      (ok (record { id = e.id; before = e; after = some after; note = none }), w)
  written e after (err x, w) = (err (not_written x), w)

  abbrev pub write_back : Entry → Entry → Result EditError (Unit {0}) → s.World → Outcome
  write_back e after (err x) w = (err x, w)
  write_back e after (ok _) w = written e after (s.put after w)

  -- After the entry was read again.
  unfoldable pub put_edited : Entry → Str → Str → Result StoreError Entry × s.World → Outcome
  unfolding only_the_body
  put_edited e body now (err x, w) = (err (not_reread x), w)
  put_edited e body now (ok current, w) =
      if not (str_eq current.version e.version)
      then (err changed_on_disk, w)
      else write_back e (edited e body now) (only_the_body e (edited e body now)) w

  abbrev unchanged : Entry → EditNote → s.World → Outcome
  unchanged e n w = (ok (record { id = e.id; before = e; after = none; note = some n }), w)

  -- After the editor came back.
  unfoldable pub take_body : Entry → Str → Result Str Str × s.World → Outcome
  unfolding spliced put_edited trim_space
  take_body e now (err x, w) = (err (editor_failed x), w)
  take_body e now (ok text, w) =
      let body = spliced text in
      if is_nil (trim_space body)
      then unchanged e came_back_empty w
      else if str_eq body e.body
      then unchanged e came_back_same w
      else put_edited e body now (s.get e.id w)

  abbrev pub BodyEditor : Type 0
  BodyEditor = Str → s.World → Result Str Str × s.World

  abbrev pub edit_with : Entry → Option BodyEditor → Option Str → s.World → Outcome
  edit_with e none now w = (err no_body_editor, w)
  edit_with e (some editor) none w = (err no_clock_given, w)
  edit_with e (some editor) (some now) w =
      if is_nil e.version then (err no_version, w) else take_body e now (editor e.body w)

  abbrev pub edit_disposable :
      Result DistillError (Unit {0}) → Entry → Option BodyEditor → Option Str → s.World → Outcome
  edit_disposable (err x) e editor now w = (err (refused x), w)
  edit_disposable (ok _) e editor now w = edit_with e editor now w

  -- `EditBody`
  unfoldable pub edit_body : Entry → Option BodyEditor → Option Str → s.World → Outcome
  unfolding disposable take_body
  edit_body e editor now w = edit_disposable (disposable e) e editor now w
