-- ===== src/Distill/Session/RawMode.antt =====
-- internal/distill/session.go, `Run`: what it does to the terminal and to the ledger.
use dira.Prelude.{
  ℕ, ◌≡◌, ◌≢◌, ◌∙◌, refl, sym, ap, inl, inr, true, false, Bool-cases, Option, none, some, Str,
  Result, ok, err, length, ◌==◌, arith,
}
use mathlib.Core.Option.{some-injective}
use dira.Ledger.Entry.{Entry}
use dira.Ledger.Store.{Store, StoreError}
use dira.Distill.Queue.{Queue, staged_queue, awaiting_items}
use dira.Distill.Loop.{Editor, loop}
use dira.Distill.Session.{
  Keys, Terminal, SessionResult, Session, run_session, run_raw, with_queue, entered, after_restore,
  loop_error,
}

module _ (s : Store) (encode : Entry → Result Str Str) (T : Type 0) (term : Terminal T) where
  -- No keystroke was read: no loop, and no write.
  pub record ReadsNothing (w : s.World) (x : Session s encode T term) : Type 0 where
    pub no_loop :
        (r : SessionResult s.World) → x.result ≡ some r → (r.entered_raw ≡ false) × (r.loop ≡ none)
    pub no_write : x.world ≡ (staged_queue s w).1

  -- The loop ran in raw mode, over the keys that the terminal gave, and the way back was taken from the mode
  -- that the terminal was put into; an error of the loop hides one of the way back.
  pub record Restores (editor : Option (Editor s encode)) (w : s.World) (m : T)
      (x : Session s encode T term) : Type 0 where
    pub keys : Keys
    pub restore : T → Option Str × T
    pub raw_mode : T
    pub was_raw : term.raw m ≡ (ok (some keys, some restore), raw_mode)
    pub mode_is : x.mode ≡ (restore raw_mode).1
    pub queue : Queue
    pub listed : (staged_queue s w).0 ≡ ok queue
    pub cards_wait : length (awaiting_items queue) ≢ 0
    pub error_is :
        x.error
        ≡ after_restore
            (loop_error s encode T term
              (loop s encode editor keys.eof keys.keys (staged_queue s w).1).0)
            (restore raw_mode).0
    pub world_is : x.world ≡ (loop s encode editor keys.eof keys.keys (staged_queue s w).1).1

  pub data Leaves (editor : Option (Editor s encode)) (w : s.World) (m : T)
      (x : Session s encode T term) : Type 0 where
    untouched : ReadsNothing w x → x.mode ≡ m → Leaves editor w m x
    refused : term.interactive m ≡ true → ReadsNothing w x → x.error ≢ none → Leaves editor w m x
    restored : term.interactive m ≡ true → Restores editor w m x → Leaves editor w m x

  module _ (editor : Option (Editor s encode)) (w : s.World) (m : T) where
    -- The result of a session that did not get to the loop.
    stays :
        (r : SessionResult s.World) (x : Session s encode T term)
        → x.result ≡ some r
        → (r.entered_raw ≡ false)
        → (r.loop ≡ none)
        → x.world ≡ (staged_queue s w).1
        → ReadsNothing w x
    stays r x is_r raw no_loop world = record {
      no_loop = λ r2 h.
          let same : r ≡ r2 = some-injective r r2 (sym is_r ∙ h) in
          (
            ap (λ (k : SessionResult s.World). k.entered_raw) (sym same) ∙ raw,
            ap (λ (k : SessionResult s.World). k.loop) (sym same) ∙ no_loop,
          );
      no_write = world;
    }

    module _ (q : Queue) (w1 : s.World) (listed : staged_queue s w ≡ (ok q, w1)) where
      here : w1 ≡ (staged_queue s w).1
      here = ap (λ p. p.1) (sym listed)

      entered-Leaves :
          (r : SessionResult s.World)
          → r.entered_raw ≡ false
          → r.loop ≡ none
          → term.interactive m ≡ true
          → length (awaiting_items q) ≢ 0
          → (answer : Result Str (Option Keys × Option (T → Option Str × T)) × T)
          → term.raw m ≡ answer
          → Leaves editor w m (entered s encode T term editor r w1 answer)
      unfolding run_raw
      entered-Leaves r raw no_loop tty cards (err x, m1) h =
          refused tty (stays r _ refl raw no_loop here) (λ k. cc k)
      entered-Leaves r raw no_loop tty cards (ok (none, none), m1) h =
          refused tty (stays r _ refl raw no_loop here) (λ k. cc k)
      entered-Leaves r raw no_loop tty cards (ok (some keys, none), m1) h =
          refused tty (stays r _ refl raw no_loop here) (λ k. cc k)
      entered-Leaves r raw no_loop tty cards (ok (none, some restore), m1) h =
          refused tty (stays r _ refl raw no_loop here) (λ k. cc k)
      entered-Leaves r raw no_loop tty cards (ok (some keys, some restore), m1) h =
          restored tty (record {
            keys = keys;
            restore = restore;
            raw_mode = m1;
            was_raw = h;
            mode_is = refl;
            queue = q;
            listed = ap (λ p. p.0) listed;
            cards_wait = cards;
            error_is =
                ap
                  (λ v.
                    after_restore
                      (loop_error s encode T term (loop s encode editor keys.eof keys.keys v).0)
                      (restore m1).0)
                  here;
            world_is = ap (λ v. (loop s encode editor keys.eof keys.keys v).1) here;
          })

    with_queue-Leaves :
        (answer : Result StoreError Queue × s.World)
        → staged_queue s w ≡ answer
        → Leaves editor w m (with_queue s encode T term editor answer m)
    with_queue-Leaves (err x, w1) h =
        untouched (record { no_loop = λ r k. absurd (cc k); no_write = ap (λ p. p.1) (sym h) }) refl
    with_queue-Leaves (ok q, w1) h = elim (Bool-cases (length (awaiting_items q) == 0)) [
      | inl nothing ↦ rw nothing (untouched (stays _ _ refl refl refl (ap (λ p. p.1) (sym h))) refl)
      | inr cards ↦ elim (Bool-cases (term.interactive m)) [
        | inr pipe ↦
            rw (cards, pipe) (untouched (stays _ _ refl refl refl (ap (λ p. p.1) (sym h))) refl)
        | inl tty ↦
            rw (cards, tty)
              (entered-Leaves q w1 h _ refl refl tty (some_card cards) (term.raw m) refl)
      ]
    ]
      where
        some_card : {n : ℕ} → (n == 0) ≡ false → n ≢ 0
        some_card h = ground arith

  -- A session (`Run`) either reads no keystroke, writes nothing and leaves the terminal's mode as it was; or the
  -- terminal is interactive and raw mode failed or gave no keys or no way back, which is an error, no keystroke was read and
  -- nothing written; or the terminal is interactive, a capture waits, the loop ran over the keys of the raw mode,
  -- and the final mode is what the way back makes of the raw one, however the loop ended.
  pub run_session-Leaves :
      (editor : Option (Editor s encode)) (w : s.World) (m : T)
      → Leaves editor w m (run_session s encode T term editor w m)
  unfolding run_session
  run_session-Leaves editor w m = with_queue-Leaves editor w m (staged_queue s w) refl
