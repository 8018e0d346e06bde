-- ===== src/Lib.antt =====
-- dira keeps the decisions of a project as a ledger of entries, one file each, and checks plans
-- against what was settled. This library models the program's core and proves what makes it correct.
--
-- The parts, and the files that model them:
--   Prelude           tests on numbers, lists, texts with the functions of Go's `strings` that dira
--                     calls, results, sorting, and maps as association lists. A text is the list of
--                     its code points.
--   Ledger/Entry      ledger/entry.go: kinds, states, edges and the entry itself. A string type of Go
--                     with constants is a data type with a constructor for any other string.
--   Ledger/Ident      ledger/entry.go: ids, refs and tags; the regular expressions as functions.
--   Ledger/Validate   ledger/entry.go and ledger/draft.go: `Validate` and `ValidateDraft`, with every
--                     check in its order. `WellFormed` says what they accept.
--   Ledger/Store      ledger/store.go and ledger/readonly.go: the store as a record of operations on a
--                     world, and the read-only wrapper. Each backend, and each other writer, is behind
--                     that record.
--   Ledger/Write      ledger/write.go: `Add` with its loop over candidate ids, `AddEdge`, `AddTag`,
--                     `FormatID` and `idNumber`.
--   Enforcer/Words, Enforcer/Text     internal/enforcer/text.go: stop words, stemming, clauses and
--                     negation, bags, phrases and document frequency (in Match and Score).
--   Enforcer/Target   internal/enforcer/target.go: what a plan is checked against.
--   Enforcer/Match, Enforcer/Score    internal/enforcer/match.go: runs, phrases and the score.
--   Enforcer/Verdict  internal/enforcer/enforcer.go and exit.go: the verdict, its order, and the exit
--                     code.
--   Distill/Dispose   internal/distill/dispose.go and `undo` of tui.go: confirming, discarding, and
--                     taking that back.
--   Distill/Queue     internal/distill/queue.go: the staged entries, and those that await a human.
--   Distill/Loop      internal/distill/tui.go: the loop over the keystrokes.
--   Distill/Edit      internal/distill/edit.go: the body of a capture goes through an editor.
--   Distill/Session   internal/distill/session.go: a session, with the raw mode of the terminal.
--   Frontmatter       frontmatter/frontmatter.go: a file is cut into frontmatter and body.
--   Config            internal/config/config.go: the reading of .dira/config.toml, with its problems.
--   Chain             internal/chain: the walk over the parents of a ledger, and what a namespaced ref
--                     resolves to.
--   Index             internal/index/query.go: what the index answers, as an interface.
--   Render            internal/render/painter.go: wrapping and the rows of the text output.
--   Brief             internal/brief/brief.go: the options of a brief, its sections and what they select;
--                     Brief/Tokens tokens.go; Brief/Paint the blocks of render.go and cap.go; Brief/Fill
--                     how `compose` and `fillChain` fill the ceiling; Brief/Compose what is given back,
--                     with the notice of it.
--   Why               internal/why/why.go: the walk over `derives_from` with its cache, its depths and its
--                     cycles; Why/Order the generations and the groups; Why/Build `Build` and `Resolve`.
--   Status/Kazi, Status/Join   internal/kazi/types.go, internal/status/types.go and join.go: the join
--                     of the ledger with kazi's answers.
--
-- How they meet: `Add` validates an entry and creates it in a store. The enforcer reads entries, cuts
-- them into units, and scores a plan against each. The loop over the keystrokes reads its queue from
-- a store and writes each disposition back. A brief selects entries through the index, paints them with
-- the painter, and fills what is left of its ceiling from the stores that a walk has opened. The walk
-- reads a configuration at every hop. The join reads the edges of entries.
--
-- Parameters: the store; Go's `time.Parse` for RFC 3339; floating-point numbers with their order and
-- `math.Log` (Enforcer/Float); the codec `ledger.Encode`, of which taking back a disposition needs only
-- that it answers; the editors, the terminal and the clock of a session; the call of kazi; the
-- index; package `local` and the context, which open directories (Chain); package `time` where a brief
-- reads dates (Brief).
--
-- Fuel: `digits` has one unit more than the number, which is more than its digits; `next_free` has as
-- many as numbers are taken, one for each that it can pass; `walk` has a bound on its depth, for which
-- one more than the directories that can be opened is enough, and so has the walk of Why, for which one
-- more than the entries that can be read is. The attempts of `Add` (4096), the failures
-- on a card (3) and the calls of kazi (25) are the source's own bounds.
--
-- Choices: a map of Go is the list of its keys or an association list, in the order in which the model
-- fills it; Go leaves the order of a range open. Numbers of type `int` are natural numbers, and the
-- one that is read from an id is bounded by 2^63 - 1. An index out of range in the keystroke loop is
-- an outcome of its own. Error texts are values that name the error.
--
-- Not modelled: the YAML codec and the files on disk, the cache behind the index, the entries that are
-- inherited from parents, the capture of transcripts, installation, rendering and the commands.
pub mod Prelude
pub mod Ledger
pub mod Config
pub mod Chain
pub mod Index
pub mod Frontmatter
pub mod Render
pub mod Brief
pub mod Why
pub mod Enforcer
pub mod Distill
pub mod Status
