-- ===== src/Distill/Loop/Consistent.antt =====
-- The loop over the keystrokes keeps its books, and never indexes out of range.
use dira.Prelude.{
  ◌<◌, ◌≡◌, ◌≢◌, ◌⊎◌, inl, inr, refl, true, List, [], ◌∷◌, map, length, Option, none, some, arith,
  Str, Result, Bool-cases, ◌==◌, subst, leb→le,
}
use dira.Ledger.Entry.{Entry}
use dira.Ledger.Store.{Store}
use dira.Distill.Queue.{Item}
use dira.Distill.Loop.{
  State, Ending, Round, Keystroke, Editor, goes_on, ends, worked_through, panic, ending_of,
  get_elem?, dispose, round, run, start, is_over, is_disposition,
}
use dira.Distill.Loop.Places.{get_elem-lt}
use dira.Distill.Loop.Acts.{
  IsConsistent, IsSound, on_dispose-IsSound, on_undo-IsSound, dispose-before, moved,
}

module _ (s : Store) (encode : Entry → Result Str Str) (entries : List Entry) where
  round-IsSound :
      (editor : Option (Editor s encode)) (k : Keystroke) (card : Item) (st : State s.World)
      → get_elem? st.cards st.position ≡ some card
      → st.position < length st.cards
      → IsConsistent entries st
      → st.failures < 3
      → IsSound entries (round s encode editor k card st)
  unfolding round
  round-IsSound editor k card st at lt c few = elim (Bool-cases (k.key == b'q')) [
    | inl q ↦ rw (q, round) (c, λ e. cc, λ e. cc)
    | inr not_q ↦ elim (Bool-cases (is_disposition s encode k.key)) [
      | inl acts ↦
          rw (not_q, acts, round)
            (on_dispose-IsSound s encode entries (dispose s encode editor k card.entry st.world).0
              card (record st { world = (dispose s encode editor k card.entry st.world).1 }) at
              (dispose-before s encode entries editor k card.entry st.world) lt
              (moved s encode entries st (dispose s encode editor k card.entry st.world).1 c) few)
      | inr other ↦ elim (Bool-cases (k.key == b'u')) [
        | inl u ↦ rw (not_q, other, u, round) (on_undo-IsSound s encode entries st c few)
        | inr ignored ↦ rw (not_q, other, ignored, round) (c, few)
      ]
    ]
  ]

  Round-cases :
      (r : Round s.World)
      → ((st : State s.World) × (r ≡ goes_on st))
        ⊎ ((why : Ending) × (st : State s.World) × (r ≡ ends why st))
  Round-cases (goes_on st) = inl (st, refl)
  Round-cases (ends why st) = inr (why, st, refl)

  -- What holds at the end of the loop.
  pub record EndsWell (end : Ending × State s.World) : Type 0 where
    pub consistent : IsConsistent entries end.1
    pub no_panic : end.0 ≢ panic
    pub all_done : end.0 ≡ worked_through → end.1.remaining ≡ 0

  over_lem :
      (st : State s.World) → IsConsistent entries st → is_over s encode st ≡ true → st.remaining ≡ 0
  over_lem st c over =
      let h = c.counted in let k = leb→le (length st.cards) st.position over in omega arith

  run-EndsWell :
      (editor : Option (Editor s encode)) (eof : Option Str) (ks : List Keystroke)
      (st : State s.World)
      → IsConsistent entries st
      → st.failures < 3
      → EndsWell (run s encode editor eof ks st)
  unfolding run
  run-EndsWell editor eof [] st c few = elim (Bool-cases (is_over s encode st)) [
    | inl over ↦
        rw (over, run)
          (record { consistent = c; no_panic = λ e. cc; all_done = λ _. over_lem st c over })
    | inr early ↦
        rw (early, run)
          (record {
            consistent = c;
            no_panic = ending_panic eof;
            all_done = λ e. absurd (ending_through eof e);
          })
  ]
    where
      ending_panic : (eof : Option Str) → ending_of eof ≢ panic
      ending_panic none e = cc
      ending_panic (some x) e = cc

      ending_through : (eof : Option Str) → ending_of eof ≢ worked_through
      ending_through none e = cc
      ending_through (some x) e = cc
  run-EndsWell editor eof (k ∷ ks) st c few = elim (Bool-cases (is_over s encode st)) [
    | inl over ↦
        rw (over, run)
          (record { consistent = c; no_panic = λ e. cc; all_done = λ _. over_lem st c over })
    | inr early ↦
        let lt : st.position < length st.cards = ground arith in
        let (card, at) = get_elem-lt st.cards st.position lt in
        let sound = round-IsSound editor k card st at lt c few in
        elim (Round-cases (round s encode editor k card st)) [
          | inl (after, on) ↦
              let (c', few') = subst (λ (r : Round s.World). IsSound entries r) on sound in
              rw (early, at, on, run) (run-EndsWell editor eof ks after c' few')
          | inr (why, after, stop) ↦
              let (c', fine, early_end) =
                subst (λ (r : Round s.World). IsSound entries r) stop sound in
              rw (early, at, stop, run)
                (record { consistent = c'; no_panic = fine; all_done = λ e. absurd (early_end e) })
        ]
  ]

-- Whatever the keys, the editor, the clock and the store do, the loop over a queue of cards never
-- indexes out of range. At its end the cards are of the same entries as at its start, the
-- dispositions are those of the first `position` of them, in order, the counters agree with them,
-- what `u` would take back is the last of them, and if the queue was worked through then no card
-- remains.
pub run_lem :
    (s : Store) (encode : Entry → Result Str Str) (editor : Option (Editor s encode))
    (eof : Option Str) (ks : List Keystroke) (cards : List Item) (w : s.World)
    → EndsWell s encode
        (map (λ (i : Item). i.entry) cards)
        (run s encode editor eof ks (start s encode cards w))
run_lem s encode editor eof ks cards w =
    run-EndsWell s encode (map (λ (i : Item). i.entry) cards) editor eof ks (start s encode cards w)
      (record {
        same_cards = refl;
        in_range = omega arith;
        recorded = refl;
        counted = omega arith;
        latest = λ d e. absurd (cc e);
      })
      (omega arith)
