-- ===== src/Distill/Dispose/Undo.antt =====
-- Taking a disposition back, over a store that keeps its promises.
use dira.Prelude.{
  ◌≡◌, inl, inr, false, Option, none, some, Str, Result, ok, ap, sym, ◌∙◌, subst, Bool-cases,
  str_eq, str_eq_iff, if◌then◌else◌,
}
use dira.Ledger.Entry.{Entry}
use dira.Ledger.Store.{Store}
use dira.Distill.Dispose.{Disposition, confirmed, confirm, discard, undo}
use dira.Distill.Dispose.Cases.{
  to_confirm, to_discard, confirm-done, discard-done, stored-ok, undo_write-done,
}

-- What `Store` documents, said of the bytes of the entry files: a read answers from the file, a
-- write that succeeds replaces that file alone, and `Delete` removes it alone.
pub record KeepsFiles (s : Store) (encode : Entry → Result Str Str) : Type 0 where
  pub file : s.World → Str → Option Str
  pub get_file :
      (id : Str) (w : s.World) (e : Entry)
      → (s.get id w).0 ≡ ok e
      → (bytes : Str) × (encode e ≡ ok bytes) × (file w id ≡ some bytes)
  pub get_keeps : (id k : Str) (w : s.World) → file (s.get id w).1 k ≡ file w k
  pub put_file :
      (e : Entry) (w : s.World) (k : Str)
      → (s.put e w).0 ≡ ok tt
      → (bytes : Str) × (encode e ≡ ok bytes)
        × (file (s.put e w).1 k ≡ (if str_eq e.id k then some bytes else file w k))
  pub create_file :
      (e : Entry) (w : s.World) (k : Str)
      → (s.create e w).0 ≡ ok tt
      → (bytes : Str) × (encode e ≡ ok bytes)
        × (file (s.create e w).1 k ≡ (if str_eq e.id k then some bytes else file w k))
  pub delete_file :
      (id : Str) (w : s.World) (k : Str)
      → (s.delete id w).0 ≡ ok tt
      → file (s.delete id w).1 k ≡ (if str_eq id k then none else file w k)

module _ (s : Store) (encode : Entry → Result Str Str) (keeps : KeepsFiles s encode) where
  open keeps use {file}

  -- The file of an entry that the queue has read.
  abbrev pub IsOnDisk : Entry → s.World → Type 0
  IsOnDisk e w = (bytes : Str) × (encode e ≡ ok bytes) × (file w e.id ≡ some bytes)

  -- The file of an entry that has been written again, beside those of before.
  abbrev IsRestored : Entry → s.World → s.World → Str → Type 0
  IsRestored e w w' bytes = (k : Str) → file w' k ≡ (if str_eq e.id k then some bytes else file w k)

  -- A world that differs from `w` at the file of `e` alone, once that is written again.
  restored_lem :
      (e : Entry) (w w1 w2 : s.World) (bytes : Str)
      → file w e.id ≡ some bytes
      → ((k : Str) → str_eq e.id k ≡ false → file w1 k ≡ file w k)
      → IsRestored e w1 w2 bytes
      → (k : Str) → file w2 k ≡ file w k
  restored_lem e w w1 w2 bytes there others restored k = elim (Bool-cases (str_eq e.id k)) [
    | inl here ↦
        let back : file w2 k ≡ some bytes = rw here at (restored k) in
        back ∙ sym there ∙ ap (λ (j : Str). file w j) ((str_eq_iff e.id k).0 here)
    | inr other ↦
        let kept : file w2 k ≡ file w1 k = rw other at (restored k) in kept ∙ others k other
  ]

  recreate :
      (e back : Entry) (w1 : s.World) (bytes : Str)
      → encode e ≡ ok bytes
      → (undo s encode (to_discard s e) w1).0 ≡ ok back
      → (back ≡ e) × IsRestored e w1 (undo s encode (to_discard s e) w1).1 bytes
  unfolding undo
  recreate e back w1 bytes is again =
      let (fine, same) = stored-ok (s.create e w1).0 e back again in (same, λ k. written k fine)
    where
      written :
          (k : Str)
          → (s.create e w1).0 ≡ ok tt
          → file (s.create e w1).1 k ≡ (if str_eq e.id k then some bytes else file w1 k)
      written k fine =
          let (b, enc, at) = keeps.create_file e w1 k fine in
          let same : b ≡ bytes = cc (enc, is) in
          subst
            (λ (x : Str). file (s.create e w1).1 k ≡ (if str_eq e.id k then some x else file w1 k))
            same at

  -- Over a store that keeps its files, if the discard of an entry that stands in its file is done and
  -- then taken back, the entry is restored and every file is as it was, byte for byte.
  pub undo-discard :
      (e : Entry) (w : s.World) (d : Disposition) (back : Entry)
      → IsOnDisk e w
      → (discard s e w).0 ≡ ok d
      → (undo s encode d (discard s e w).1).0 ≡ ok back
      → (back ≡ e) × ((k : Str) → file (undo s encode d (discard s e w).1).1 k ≡ file w k)
  undo-discard e w d back (bytes, is, there) gone again =
      let (what, fine, world) = discard-done s e w d gone in
      let w1 = (s.delete e.id w).1 in
      let (same, restored) = recreate e back w1 bytes is (rw (what, world) at again) in
      (
        same,
        rw (what, world)
            (restored_lem e w w1 (undo s encode (to_discard s e) w1).1 bytes there (others fine)
              restored),
      )
    where
      others :
          (s.delete e.id w).0 ≡ ok tt
          → (k : Str) → str_eq e.id k ≡ false
          → file (s.delete e.id w).1 k ≡ file w k
      others fine k other = rw other at (keeps.delete_file e.id w k fine)

  rewrite :
      (e back : Entry) (t : Str) (w1 : s.World) (bytes : Str)
      → encode e ≡ ok bytes
      → (undo s encode (to_confirm s e t) w1).0 ≡ ok back
      → (back ≡ e) × IsRestored e w1 (undo s encode (to_confirm s e t) w1).1 bytes
  unfolding undo
  rewrite e back t w1 bytes is again =
      let (same, fine, world) = undo_write-done s encode (to_confirm s e t) w1 back again in
      (same, λ k. rw world (written k fine))
    where
      written :
          (k : Str)
          → (s.put e (s.get e.id w1).1).0 ≡ ok tt
          → file (s.put e (s.get e.id w1).1).1 k ≡ (if str_eq e.id k then some bytes else file w1 k)
      written k fine =
          let (b, enc, at) = keeps.put_file e (s.get e.id w1).1 k fine in
          let same : b ≡ bytes = cc (enc, is) in
          at
          ∙ ap (λ (x : Str). if str_eq e.id k then some x else file (s.get e.id w1).1 k) same
          ∙ ap (λ (f : Option Str). if str_eq e.id k then some bytes else f)
              (keeps.get_keeps e.id k w1)

  -- Over a store that keeps its files, if the confirmation of an entry that stands in its file is done
  -- and then taken back, the entry is restored and every file is as it was, byte for byte.
  pub undo-confirm :
      (e : Entry) (now : Option Str) (w : s.World) (d : Disposition) (back : Entry)
      → IsOnDisk e w
      → (confirm s e now w).0 ≡ ok d
      → (undo s encode d (confirm s e now w).1).0 ≡ ok back
      → (back ≡ e) × ((k : Str) → file (undo s encode d (confirm s e now w).1).1 k ≡ file w k)
  undo-confirm e now w d back (bytes, is, there) done again =
      let (t, what, fine, world) = confirm-done s e now w d done in
      let w1 = (s.put (confirmed e t) w).1 in
      let (same, restored) = rewrite e back t w1 bytes is (rw (what, world) at again) in
      (
        same,
        rw (what, world)
            (restored_lem e w w1 (undo s encode (to_confirm s e t) w1).1 bytes there (others t fine)
              restored),
      )
    where
      others :
          (t : Str)
          → (s.put (confirmed e t) w).0 ≡ ok tt
          → (k : Str) → str_eq e.id k ≡ false
          → file (s.put (confirmed e t) w).1 k ≡ file w k
      others t fine k other =
          let (b, enc, at) = keeps.put_file (confirmed e t) w k fine in rw other at at
