-- ===== src/Distill/Edit/Tests.antt =====
-- An editor that rewrites a body, and the theorem at it.
use dira.Prelude.{
  ◌≡◌, refl, ap, [], ◌∷◌, ◌++◌, none, some, Str, codes, newline, Result, ok, err, split, trim_left,
  trim_right, trim_space, is_space,
}
use dira.Ledger.Entry.{Entry, staged}
use dira.Ledger.Validate.Tests.{use_go}
use dira.Ledger.Write.Tests.{memory}
use dira.Frontmatter.{split_file, split_text, fold_crlf, close_at, closes}
use dira.Distill.Dispose.{disposable}
use dira.Distill.Edit.{
  Edit, BodyEditor, edit_body, take_body, spliced, put_edited, only_the_body, frontmatter_of,
  changes_frontmatter, came_back_empty,
}
use dira.Distill.Edit.OnlyBody.{Reports, edit_body-Reports}

-- The frontmatter has the title and the date.
abbrev to_file : Entry → Result Str Str
to_file e = ok (
    codes "---"
    ++ newline ∷ codes "title: "
    ++ e.title
    ++ newline ∷ codes "updated: "
    ++ e.updated
    ++ newline ∷ codes "---"
    ++ newline ∷ e.body)

-- One in which the body stands in front of the closing line.
abbrev leaking : Entry → Result Str Str
leaking e = ok (codes "---" ++ newline ∷ e.body ++ codes "---" ++ newline ∷ [])

abbrev draft : Entry
draft = record use_go { state = staged; version = codes "v1" }

abbrev says : Str → BodyEditor memory to_file
says text body w = (ok text, w)

abbrev after : Entry
after = record draft { body = newline ∷ codes "why" ++ newline ∷ []; updated = codes "2026" }

abbrev done : Edit
done = record { id = draft.id; before = draft; after = some after; note = none }

edits :
    (edit_body memory to_file draft (some (says (codes "why"))) (some (codes "2026")) (draft ∷ [])
      ≡ (ok done, after ∷ []))
    × ((edit_body memory to_file draft
          (some (says (newline ∷ [])))
          (some (codes "2026"))
          (draft ∷ [])).0
        ≡ ok (record { id = draft.id; before = draft; after = none; note = some came_back_empty }))
    × ((edit_body memory leaking draft
          (some (says (codes "why")))
          (some (codes "2026"))
          (draft ∷ [])).0
        ≡ err changes_frontmatter)
unfolding edit_body disposable take_body spliced fold_crlf trim_left trim_right trim_space is_space
    put_edited only_the_body frontmatter_of split split_file split_text close_at closes
edits = (refl, refl, refl)

edit_body-Reports_example :
    Reports memory to_file draft
      (codes "2026")
      (ok (codes "why"), draft ∷ [])
      (memory.get draft.id (draft ∷ []))
      done
      (edit_body memory to_file draft
        (some (says (codes "why")))
        (some (codes "2026"))
        (draft ∷ [])).1
edit_body-Reports_example =
    edit_body-Reports memory to_file draft (codes "2026") (says (codes "why")) (draft ∷ []) done
      (ap (λ r. r.0) (edits.0))
