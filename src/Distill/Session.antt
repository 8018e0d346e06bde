-- ===== src/Distill/Session.antt =====
-- internal/distill/session.go: a session, with the raw mode of the terminal. What is shown is left out but
-- for the summary, and so are Go's nil options. A cancelled context is an error behind the keystrokes that
-- were read before it.
pub mod RawMode
mod Tests
use dira.Prelude.{
  ℕ, Bool, true, false, List, [], ◌∷◌, ◌++◌, Option, none, some, Str, codes, if◌then◌else◌, length,
  ◌==◌, not, Result, ok, err,
}
use dira.Ledger.Entry.{Entry}
use dira.Ledger.Store.{Store, StoreError}
use dira.Distill.Dispose.{DistillError}
use dira.Distill.Queue.{Queue, awaiting_items, pending_items, staged_queue}
use dira.Distill.Loop.{
  Keystroke, State, Ending, worked_through, quit, gave_up, read_failed, panic, Editor, loop,
}
use dira.Brief.Paint.{decimal_text}

-- The keystrokes that the terminal gives, and what stands behind the last one.
pub record Keys : Type 0 where
  pub keys : List Keystroke
  pub eof : Option Str

-- `Terminal`: `T` is its mode. `Raw` may fail, and may forget the keys or the way back.
pub record Terminal (T : Type 0) : Type 0 where
  pub interactive : T → Bool
  pub raw : T → Result Str (Option Keys × Option (T → Option Str × T)) × T

pub data SessionError : Type 0 where
  not_listed : StoreError → SessionError
  not_raw not_restored not_read : Str → SessionError
  no_way_out panicked : SessionError
  loop_gave_up : DistillError → SessionError

pub record SessionResult (W : Type 0) : Type 0 where
  pub waiting : ℕ
  pub pending : ℕ
  pub interactive : Bool
  pub entered_raw : Bool
  pub summary : Str
  pub loop : Option (State W)
  pub warnings : List (Str × StoreError)

unfoldable pub count : ℕ → Str → Str → Str
unfolding decimal_text
count n singular plural =
    if n == 1 then codes "1 " ++ singular else decimal_text n ++ codes " " ++ plural

unfoldable pub nothing_waiting : ℕ → Str
unfolding count
nothing_waiting pending =
    if pending == 0
    then codes "dira distill: nothing staged"
    else codes "dira distill: nothing awaiting you; "
      ++ count pending (codes "entry") (codes "entries")
      ++ codes " confirmed and waiting on extraction"

unfoldable pub not_a_terminal : ℕ → Str
unfolding count
not_a_terminal waiting =
    codes "dira distill: "
    ++ count waiting (codes "capture") (codes "captures")
    ++ codes
        " awaiting a human; stdin is not a terminal, so nothing was read and nothing was changed"

abbrev pub error_of : Ending → Option SessionError
error_of worked_through = none
error_of quit = none
error_of (gave_up e) = some (loop_gave_up e)
error_of (read_failed x) = some (not_read x)
error_of panic = some panicked

-- What the deferred call makes of the session's error and its own.
abbrev pub after_restore : Option SessionError → Option Str → Option SessionError
after_restore (some e) _ = some e
after_restore none none = none
after_restore none (some x) = some (not_restored x)

module _ (s : Store) (encode : Entry → Result Str Str) (T : Type 0) (term : Terminal T) where
  -- The result, the error, what the store has become, and the mode of the terminal.
  pub record Session : Type 0 where
    pub result : Option (SessionResult s.World)
    pub error : Option SessionError
    pub world : s.World
    pub mode : T

  abbrev counted : Queue → T → SessionResult s.World
  counted q m = record {
    waiting = length (awaiting_items q);
    pending = length (pending_items q);
    interactive = term.interactive m;
    entered_raw = false;
    summary = [];
    loop = none;
    warnings = q.warnings;
  }

  abbrev pub loop_of : Result StoreError (Ending × State s.World) → Option (State s.World)
  loop_of (err x) = none
  loop_of (ok (ending, st)) = some st

  abbrev pub loop_error : Result StoreError (Ending × State s.World) → Option SessionError
  loop_error (err x) = some (not_listed x)
  loop_error (ok (ending, st)) = error_of ending

  -- The loop in raw mode, which reads the queue once more, and the way out of it.
  unfoldable pub run_raw :
      Option (Editor s encode)
      → Keys
      → (T → Option Str × T)
      → SessionResult s.World
      → s.World
      → T
      → Session
  unfolding loop
  run_raw editor keys restore r w m =
      let (answer, w1) = loop s encode editor keys.eof keys.keys w in
      let (problem, m1) = restore m in
      record {
        result = some (record r { entered_raw = true; loop = loop_of answer });
        error = after_restore (loop_error answer) problem;
        world = w1;
        mode = m1;
      }

  abbrev pub entered :
      Option (Editor s encode)
      → SessionResult s.World
      → s.World
      → Result Str (Option Keys × Option (T → Option Str × T)) × T
      → Session
  entered editor r w (err x, m) = record {
    result = some r;
    error = some (not_raw x);
    world = w;
    mode = m;
  }
  entered editor r w (ok (none, none), m) = record {
    result = some r;
    error = some no_way_out;
    world = w;
    mode = m;
  }
  entered editor r w (ok (some keys, none), m) = record {
    result = some r;
    error = some no_way_out;
    world = w;
    mode = m;
  }
  entered editor r w (ok (none, some restore), m) = record {
    result = some r;
    error = some no_way_out;
    world = w;
    mode = (restore m).1;
  }
  entered editor r w (ok (some keys, some restore), m) = run_raw editor keys restore r w m

  abbrev pub with_queue : Option (Editor s encode) → Result StoreError Queue × s.World → T → Session
  with_queue editor (err x, w) m = record {
    result = none;
    error = some (not_listed x);
    world = w;
    mode = m;
  }
  with_queue editor (ok q, w) m =
      let r = counted q m in
      if r.waiting == 0
      then record {
        result = some (record r { summary = nothing_waiting r.pending });
        error = none;
        world = w;
        mode = m;
      }
      else if not r.interactive
      then record {
        result = some (record r { summary = not_a_terminal r.waiting });
        error = none;
        world = w;
        mode = m;
      }
      else entered editor r w (term.raw m)

  -- `Run`
  unfoldable pub run_session : Option (Editor s encode) → s.World → T → Session
  unfolding staged_queue run_raw nothing_waiting not_a_terminal
  run_session editor w m = with_queue editor (staged_queue s w) m
