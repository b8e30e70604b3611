-- ===== src/Lib.antt =====
-- A verification library for GMR, which keeps anchors: things in the world that are observed by
-- probes, and whose state is folded from a journal of what was observed.
--
-- The parts of the program and how they interact. An anchor has a probe and a table of rules
-- (crates/gmr-core/src/anchor.rs). A probe's outcome is an observation
-- (crates/gmr-core/src/probe.rs), which crates/gmr-core/src/addr.rs names by a hash of its
-- canonical bytes. The runtime reads the guards and the new states of the rules as expressions
-- (crates/gmr-expr) over the observation and the state, and so computes the anchor's next state
-- (crates/gmr-runtime/src/translate.rs). What happened is appended to the journal
-- (crates/gmr-store/src/sqlite/journal.rs), and an anchor's present state is the fold of its
-- entries (crates/gmr-core/src/journal.rs). A queue says when an anchor is due and leases it to one
-- observer at a time (crates/gmr-store/src/sqlite/queue.rs). The runtime opens, observes, revises
-- and closes anchors, makes passes over those that are due, and says of what was bound to an anchor
-- whether it still holds (open.rs, observe.rs, revise.rs, close.rs, pass.rs and read.rs of
-- crates/gmr-runtime/src).
--
-- Which file models which part:
--   Json             the values of serde_json, as data; `Platform` is what is not defined here:
--                    numbers, floats, the equality and the printing of values, SHA-256, character
--                    classes and clocks. It is an instance argument of every definition.
--   Expr/Ast, Ctx    ast.rs and ctx.rs: `Node`, `Ctx`; Expr/Reads: reads_state, reads_anchors,
--                    reads_obs
--   Expr/Outcome     eval.rs on values: `Evaluated`, walk, order, arithmetic, the binary operators
--   Expr/Eval        eval.rs on expressions: `eval`, `quantified`, `changed`
--   Expr/Parse       parse.rs: the methods of `Parser` under their names, with the text that is left
--                    in place of the position; Expr/Parse/Lexer: those that call no expression
--   Expr/Render      ast.rs, the printing of expressions; Expr/Bind: bind.rs
--   Core/Addr        addr.rs: canonicalize, content_hash_of
--   Core/Probe       probe.rs: `Observes`, `Outcome`, address
--   Core/Memory      memory.rs: claims, references, sources, and the names they are read from
--   Core/Anchor      anchor.rs: `Anchor`, `State`, is_terminal
--   Core/Journal     journal.rs: `Entry`, `AnchorState`, `resume` (`take_in` is its match, `settled`
--                    the test after it), fold
--   Budget           crates/gmr-budget: deadlines and cancellation
--   Runtime/Translate  translate.rs: `transition`; Runtime/Translate/Warnings: bind_warnings
--   Runtime/Policy, Errors, Deployment  policy.rs; what an operation refuses, and the site it works
--                    on: the tables and the checkpoints, passed from step to step; assembly.rs
--   Runtime/Observer observer.rs and crates/gmr-probe: which transport is called, and its errors
--   Runtime/Scheduler  scheduler.rs, over a queue that may be missing
--   Runtime/Log      log.rs: `stood`; Runtime/Observe: observe.rs: `observe_into`, `recorded` (`round`
--                    is one turn of its loop), `record_attempt`; the steps of other writers, which
--                    may come between its own, are a parameter
--   Runtime/Looking  observe.rs: `observe` with its lease, `observe_with`, `looked_at`
--   Runtime/Pass     pass.rs; Runtime/Open, Blind: open.rs; Runtime/Close, Revise: close.rs, revise.rs
--   Runtime/Edges    edges.rs: `walk`
--   Runtime/Depends, Shown  read.rs: `depends`, and `shown_at` with `recorded_at`
--   Runtime/View, Holding  read.rs: `viewed`, `knowledge_of`, `holding` and what two states differ in
--   Store/Journal    journal.rs and sqlite/journal.rs of crates/gmr-store: the table as a list of
--                    rows, `append` as a function from table to table, `chain_break`
--   Store/Sealer     sealer.rs and sqlite/bindings.rs of crates/gmr-store: `seal`, `sealed`
--   Store/Queue      sqlite/queue.rs of crates/gmr-store: the table as a list of rows
--   Examples         the theorems at concrete inputs, over integers for numbers and floats
--
-- Bounds and fuel. The counters of attempts and of revisions wrap at 2^32, as those of the
-- program do in a release build. The parser's calls between its methods take fuel: `parse` hands
-- out fourteen units for each character and twenty more, since at most fourteen calls stand between
-- two that take a character; `steps` takes one unit for each character and one more. Canonical
-- bytes stop at the program's depth of 1024.
--
-- `recorded` turns three times, as REPLAYS says, and then answers `contended`. An operation that is
-- refused leaves the site it began with where the program has appended nothing. Instants are
-- natural numbers, an instant before 1970 being taken as that of 1970; delays have their sign. Which
-- of the due rows the queue's limit picks is a parameter, `chosen`, and so are the transports and
-- what other writers do, `others`.
--
-- What is not modelled: the binding, linking and grounding of memories; the health report; the
-- stores of bindings, links and sightings; import and export; the probes themselves, the transports,
-- the console, and the packs. Of the database only what the statements say: a transaction that fails
-- leaves the table, and its own errors are left out, so storing settings and enqueueing cannot fail.
-- How entries become text and values is serde's: `Codec` stands for it. `ReadsBack` of an entry is
-- that its text reads back as it, and `FaithfulWriting` that this is so of all that other writers
-- append. Both are assumed where a theorem says so, and not of serde_json as such: without its feature
-- float_roundtrip it does not promise this of an entry with floats.
pub mod Support
pub mod Json
pub mod Expr
pub mod Core
pub mod Runtime
pub mod Store
pub mod Examples
pub mod Budget
