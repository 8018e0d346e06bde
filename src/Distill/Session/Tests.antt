-- ===== src/Distill/Session/Tests.antt =====
-- A terminal that counts how it is used, and the session there.
use dira.Prelude.{ℕ, ◌≡◌, refl, [], ◌∷◌, none, some, Str, codes, Result, ok, ◌==◌}
use dira.Ledger.Entry.{Entry, staged}
use dira.Ledger.Validate.Tests.{use_go}
use dira.Ledger.Write.Tests.{memory}
use dira.Distill.Queue.{staged_queue, status_of}
use dira.Distill.Loop.{loop, run}
use dira.Distill.Session.{Terminal, run_session, run_raw, not_a_terminal, nothing_waiting, count}
use dira.Distill.Session.RawMode.{Leaves, run_session-Leaves}

-- Mode 0 is a terminal as it was found, 1 is raw, and 2 is a pipe.
abbrev tty : Terminal ℕ
tty = record {
  interactive = λ m. m == 0;
  raw =
      λ m. (ok (some (record { keys = []; eof = some (codes "read") }), some (λ _. (none, 0))), 1);
}

abbrev encode : Entry → Result Str Str
encode e = ok e.id

abbrev draft : Entry
draft = record use_go { state = staged }

sessions :
    ((run_session memory encode ℕ tty none (draft ∷ []) 0).mode ≡ 0)
    × ((run_session memory encode ℕ tty none (draft ∷ []) 2).mode ≡ 2)
    × ((run_session memory encode ℕ tty none [] 0).error ≡ none)
unfolding run_session staged_queue run_raw loop run nothing_waiting not_a_terminal count status_of
sessions = (refl, refl, refl)

run_session-Leaves_example :
    Leaves memory encode ℕ tty none
      (draft ∷ [])
      0
      (run_session memory encode ℕ tty none (draft ∷ []) 0)
run_session-Leaves_example = run_session-Leaves memory encode ℕ tty none (draft ∷ []) 0
