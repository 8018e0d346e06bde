-- ===== src/Distill/Loop/Acts.antt =====
-- The book-keeping of the loop over the keystrokes, and what each act does to it.
use dira.Prelude.{
  suc, ◌+◌, ◌≤◌, ◌<◌, ◌≡◌, ◌≢◌, inl, inr, refl, List, [], ◌∷◌, ◌++◌, map, length, length-append,
  take, Option, none, some, arith, Str, Result, ok, err, Bool-cases, Option-cases, Result-cases,
  leb, ◌==◌, ap, sym, ◌∙◌,
}
use dira.Ledger.Entry.{Entry}
use dira.Ledger.Store.{Store}
use dira.Distill.Dispose.{Disposition, DistillError, undo, confirm, act_edit}
use dira.Distill.Dispose.Cases.{confirm-done, discard-done, undo-before}
use dira.Distill.Queue.{Item, status_of}
use dira.Distill.Loop.{
  State, Round, Keystroke, Editor, goes_on, ends, worked_through, panic, get_elem?, set_elem, edit,
  dispose, on_dispose, on_undone, on_undo,
}
use dira.Distill.Loop.Places.{
  get_elem-lt, take-get_elem, take-set_elem, length-set_elem, without_last-snoc, snoc_injective,
  snoc_last, map-set_elem, length-map, length-take, map-snoc,
}

-- The cards are of these entries. The dispositions are those of the cards in front of the one that is shown, in order; the counters
-- agree with them; and what `u` would take back is the last of them.
pub record IsConsistent {W : Type 0} (entries : List Entry) (st : State W) : Type 0 where
  pub same_cards : map (λ (i : Item). i.entry) st.cards ≡ entries
  pub in_range : st.position ≤ length st.cards
  pub recorded :
      map (λ (d : Disposition). d.before) st.dispositions
      ≡ take st.position (map (λ (i : Item). i.entry) st.cards)
  pub counted : st.remaining + st.position ≡ length st.cards
  pub latest :
      (d : Disposition)
      → st.last ≡ some d
      → (front : List Disposition) × (st.dispositions ≡ front ++ d ∷ [])

-- A round that goes on is consistent, with less than three failures; one that ends did not panic,
-- nor is the queue worked through.
abbrev pub IsSound : {W : Type 0} → List Entry → Round W → Type 0
IsSound entries (goes_on st) = IsConsistent entries st × (st.failures < 3)
IsSound entries (ends why st) = IsConsistent entries st × (why ≢ panic) × (why ≢ worked_through)

module _ (s : Store) (encode : Entry → Result Str Str) (entries : List Entry) where
  -- A disposition that is done names the entry of the card, and taking it back restores that.
  edit-before :
      (editor : Option (Editor s encode)) (k : Keystroke) (e : Entry) (w : s.World)
      (d : Disposition)
      → (edit s encode editor k e w).0 ≡ ok d
      → d.before ≡ e
  unfolding edit
  edit-before none k e w d h = absurd (cc)
  edit-before (some editor) k e w d h = elim (Result-cases (editor e k.now w).0) [
    | inr (x, failed) ↦ absurd (cc (rw (failed, edit) at h))
    | inl (none, nothing) ↦ absurd (cc (rw (nothing, edit) at h))
    | inl (some edited, wrote) ↦
        elim (Result-cases (confirm s edited k.later (editor e k.now w).1).0) [
          | inr (x, failed) ↦ absurd (cc (rw (wrote, failed, edit) at h))
          | inl (done, fine) ↦
              let same : Path (Result DistillError Disposition)
                  (ok (record { id = e.id; act = act_edit; before = e; after = done.after }))
                  (ok d) =
                rw (wrote, fine, edit) at h in
              cc same
        ]
  ]

  pub dispose-before :
      (editor : Option (Editor s encode)) (k : Keystroke) (e : Entry) (w : s.World)
      (d : Disposition)
      → (dispose s encode editor k e w).0 ≡ ok d
      → d.before ≡ e
  unfolding dispose
  dispose-before editor k e w d h = elim (Bool-cases (k.key == b'y')) [
    | inl y ↦
        let (t, same, _, _) = confirm-done s e k.now w d (rw (y, dispose) at h) in
        ap (λ (x : Disposition). x.before) same
    | inr not_y ↦ elim (Bool-cases (k.key == b'n')) [
      | inl n ↦
          let (same, _, _) = discard-done s e w d (rw (not_y, n, dispose) at h) in
          ap (λ (x : Disposition). x.before) same
      | inr not_n ↦ elim (Bool-cases (k.key == b'e')) [
        | inl edits ↦ edit-before editor k e w d (rw (not_y, not_n, edits, dispose) at h)
        | inr not_e ↦ absurd (cc (rw (not_y, not_n, not_e, dispose) at h))
      ]
    ]
  ]

  pub on_dispose-IsSound :
      (answer : Result DistillError Disposition) (card : Item) (st : State s.World)
      → get_elem? st.cards st.position ≡ some card
      → ((d : Disposition) → answer ≡ ok d → d.before ≡ card.entry)
      → st.position < length st.cards
      → IsConsistent entries st
      → st.failures < 3
      → IsSound entries (on_dispose s encode answer st)
  unfolding on_dispose
  on_dispose-IsSound (err x) card st at same lt c few =
      elim (Bool-cases (leb 3 (st.failures + 1))) [
        | inl over ↦ rw over (
          record {
            same_cards = c.same_cards;
            in_range = c.in_range;
            recorded = c.recorded;
            counted = c.counted;
            latest = c.latest;
          },
          λ e. cc,
          λ e. cc,
        )
        | inr under ↦ rw under (
          record {
            same_cards = c.same_cards;
            in_range = c.in_range;
            recorded = c.recorded;
            counted = c.counted;
            latest = c.latest;
          },
          ground arith,
        )
      ]
  on_dispose-IsSound (ok d) card st at same lt c few = (
    record {
      same_cards = c.same_cards;
      in_range = let h = lt in omega arith;
      recorded =
          map-snoc (λ x. x.before) st.dispositions d ∙ rw (c.recorded, same d refl) (recorded_next);
      counted = let h = c.counted in omega arith;
      latest = λ x e. (st.dispositions, ap (λ z. st.dispositions ++ z ∷ []) (cc e));
    },
    omega arith,
  )
    where
      recorded_next :
          take st.position (map (λ (i : Item). i.entry) st.cards) ++ card.entry ∷ []
          ≡ take (st.position + 1) (map (λ (i : Item). i.entry) st.cards)
      recorded_next =
          sym (take-get_elem (λ (i : Item). i.entry) st.cards st.position card at)
          ∙ ap (λ n. take n (map (λ (i : Item). i.entry) st.cards)) {x = suc st.position}
              (omega arith)

  -- The card that an undone entry is again.
  abbrev shown : Entry → Item
  shown e = record { entry = e; status = status_of e }

  -- There are as many dispositions as cards in front of the one that is shown.
  count : {st : State s.World} → IsConsistent entries st → st.position ≡ length st.dispositions
  count {st} c =
      sym (
        length-take st.position (map (λ (i : Item). i.entry) st.cards)
          (rw (length-map (λ (i : Item). i.entry) st.cards) c.in_range))
      ∙ ap length (sym c.recorded)
      ∙ length-map (λ (d : Disposition). d.before) st.dispositions

  on_undone-IsSound :
      (restored : Entry) (d : Disposition) (st : State s.World)
      → st.last ≡ some d
      → restored ≡ d.before
      → IsConsistent entries st
      → st.failures < 3
      → IsSound entries (on_undone s encode restored st)
  unfolding on_undone
  on_undone-IsSound restored d st last back c few =
      let (front, e) = c.latest d last in
      let long : length st.dispositions ≡ length front + 1 =
        ap length e ∙ length-append front (d ∷ []) in
      let at : st.position ≡ suc (length front) = count c ∙ long ∙ omega arith in
      rw (at, e, without_last-snoc front d, on_undone)
        (
          record {
            same_cards = unchanged front at e ∙ c.same_cards;
            in_range =
                let h = c.in_range in
                let same = length-set_elem st.cards (length front) (shown restored) in omega arith;
            recorded =
                fewer front at e
                ∙ sym (
                    take-set_elem (λ (i : Item). i.entry) st.cards (length front) (shown restored));
            counted =
                let h = c.counted in
                let same = length-set_elem st.cards (length front) (shown restored) in omega arith;
            latest = λ x z. absurd (cc z);
          },
          few,
        )
    where
      put_together :
          (front : List Disposition) (card : Item)
          → st.position ≡ suc (length front)
          → st.dispositions ≡ front ++ d ∷ []
          → get_elem? st.cards (length front) ≡ some card
          → map (λ (x : Disposition). x.before) front ++ d.before ∷ []
            ≡ take (length front) (map (λ (i : Item). i.entry) st.cards) ++ card.entry ∷ []
      put_together front card at e there =
          sym (map-snoc (λ (x : Disposition). x.before) front d)
          ∙ (rw (e, at) at c.recorded)
          ∙ take-get_elem (λ (i : Item). i.entry) st.cards (length front) card there

      fewer :
          (front : List Disposition)
          → st.position ≡ suc (length front)
          → st.dispositions ≡ front ++ d ∷ []
          → map (λ (x : Disposition). x.before) front
            ≡ take (length front) (map (λ (i : Item). i.entry) st.cards)
      fewer front at e =
          let h = c.in_range in
          let (card, there) = get_elem-lt st.cards (length front) (omega arith) in
          snoc_injective _ _ d.before card.entry (put_together front card at e there)

      unchanged :
          (front : List Disposition)
          → st.position ≡ suc (length front)
          → st.dispositions ≡ front ++ d ∷ []
          → map (λ (i : Item). i.entry) (set_elem st.cards (length front) (shown restored))
            ≡ map (λ (i : Item). i.entry) st.cards
      unchanged front at e =
          let h = c.in_range in
          let (card, there) = get_elem-lt st.cards (length front) (omega arith) in
          map-set_elem (λ (i : Item). i.entry) st.cards (length front) card (shown restored) there
            (back ∙ snoc_last _ _ d.before card.entry (put_together front card at e there))

  -- The world is no part of the book-keeping.
  pub moved :
      (st : State s.World) (w : s.World)
      → IsConsistent entries st
      → IsConsistent entries (record st { world = w })
  moved st w c = record {
    same_cards = c.same_cards;
    in_range = c.in_range;
    recorded = c.recorded;
    counted = c.counted;
    latest = c.latest;
  }

  pub on_undo-IsSound :
      (st : State s.World)
      → IsConsistent entries st
      → st.failures < 3
      → IsSound entries (on_undo s encode st)
  unfolding on_undo
  on_undo-IsSound st c few = elim (Option-cases st.last) [
    | inl never ↦ rw (never, on_undo) (c, few)
    | inr (d, last) ↦ elim (Result-cases (undo s encode d st.world).0) [
      | inr (x, failed) ↦ rw (last, failed, on_undo) (moved st (undo s encode d st.world).1 c, few)
      | inl (restored, fine) ↦
          rw (last, fine, on_undo)
            (on_undone-IsSound restored d (record st { world = (undo s encode d st.world).1 }) last
              (undo-before s encode d st.world restored fine)
              (moved st (undo s encode d st.world).1 c) few)
    ]
  ]
