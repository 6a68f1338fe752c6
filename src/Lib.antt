-- ===== src/Lib.antt =====
-- A verification of cueloop, a terminal-first thread in which people and agents review work.
--
-- The program keeps a Thread per reviewed artifact (a plan, a reply, a prototype or a diff). The
-- schema package (packages/schema/src) holds the pure core: the data of a Thread, its history as
-- an append-only tree of entries, the diff of two texts, the cuts of a working copy, the matching
-- of quotes, and the life of a submission to an agent. The daemon (packages/daemon/src) owns the
-- store and serves the operations on Threads, routes Messages to agent harnesses and keeps their
-- turns; the gateway (packages/gateway/src) shares Threads over SSH; the client renders them.
--
-- Which file models which part:
--
-- - Types (with Review, Agent and ThreadRecord below it): the records and enumerations of
--   packages/schema/src/types.ts, thread-agent.ts and the shapes of history.ts.
-- - History: packages/schema/src/history.ts. `Defs` has the reads (entryOf, tipOf, pathOf),
--   `Validate` validateHistory, `Derive` derivePath, `Writes` appendEntry, navigateTo and the other
--   writes, the fork and the followed branch. `Walks` relates pathOf to the chain of parents,
--   `Valid` says what a valid history is, `Growth`, `Append`, `Moves` and `Steps` follow the
--   invariants through the writes, `Views` has what a viewer sees.
-- - Diff: packages/schema/src/diff.ts. `Lcs` has lcsDiff, `Table` and `Optimal` compare it with the
--   longest common subsequence, `Unified` has unifiedDiff, unifiedDiffText and editStats, `Marks`
--   and `Stats` follow the changed rows through the windows and the hunks.
-- - Routing: packages/daemon/src/harness-state-store.ts. `Store` has the methods of
--   HarnessStateStore, `Invariant` and `Once` what the methods keep, `Handed` what a delivery leaves.
-- - WorkingCopy: the character cuts of packages/schema/src/working-copy.ts. `Cuts` has mergeTextCut,
--   restoreTextCut and applyTextCuts, `Ranges` the ranges that a merge joins, `Outside` texts
--   without some positions, `Apply` and `Merge` what the three do to a text.
-- - Agents: packages/daemon/src/agent-turn.ts (`Turn`), packages/schema/src/agent-submission.ts
--   (`Submission`) and packages/daemon/src/operation-receipts.ts (`Receipts`, with `Replay` and
--   `Acceptance` on duplicate requests).
-- - Sharing: packages/schema/src/path-view.ts (`PathView`, with `Shown`, `Carried` and `Followed` on
--   what a view and a share show) and packages/schema/src/participants.ts (`Participants`).
-- - Prelude: Boolean tests, lists, texts, `Sort` for toSorted, `Maps` and `Keyed` for a Map from
--   ids. Examples: each theorem at a concrete input.
-- - Anchors: packages/schema/src/fuzzy.ts (`Distance`, `Fuzzy`) and packages/schema/src/anchor.ts
--   (`Blocks`, `Exact`, `Spans`, `Resolve`), with stripLeadingBlockMarker of
--   packages/schema/src/markdown.ts. `Optimal` is about the distance, `Windows`, `Rounds` and `Best`
--   about the search, `Matches` and `Picks` about occurrences and the choice among them, and `Again`,
--   `Bound` with `Binding` and `Quoted`, `Located`, `Within`, `Order` and `Blank` about the cascade.
-- - Gateway: packages/gateway/src/store.ts, the in-memory share store (`Blobs`) and the feed of
--   changes (`Feed`), whose sets of listeners are objects with an address.
-- - Retention: the expiry and the pruning of sessions of packages/daemon/src/retention.ts.
-- - Daemon: packages/daemon/src/api.ts. `Core` is the state of DaemonCore and the monad of its
--   methods, `Entries` and `Merging` the private methods that write a session, `Tracking` the hot
--   reload and the deliveries, `Operations` (`Sessions`, `Edits`), `Messages` (`Sends`, `Revisions`),
--   `Trees`, `Harness` and `Refresh` (`Captures`, `Pulls`) the methods.
--   A method that edits a session is `mutable_session` and then a function whose name ends in `_in`.
--   A refresh is two steps, with other operations between them. `Changes` and `Steps` put the methods
--   together as the events of a state machine. `Calls`, `Recorded`, `Stay`, `MergeStays`, `Sound`,
--   `Parting`, `Preserved`, `Kept`, `Ends` and `Hot` carry the invariant of `Invariant`; `Refused`,
--   `Sending`, `Decided`, `Retried`, `Stale` and `Drift` show what single operations do. The text of
--   the feedback, the search for a quote, the digest and JSON.stringify are parameters (`Services`),
--   and `Drift` puts the search of `Anchors` in its place; the parser of blocks stays a parameter. The
--   diff watcher and the poller are the list of the sessions that they follow.
-- - Store: packages/daemon/src/store.ts, with the check of a record that is read, of
--   packages/daemon/src/validate.ts (`Accepted`). `Logs` is ThreadStore with its disk, and the store in memory;
--   `Durable`, `Lines`, `Refined` and `Listed` say what the logs hold after any writes and
--   deletions, `Recovered` compares what a restart reads with the store in memory, and `Torn` is about
--   a crash. The encoding of a record is the parameter `Codec`, with `IsCodec` for what is asked of
--   it.
--
-- Conventions. An optional field is an `Option`; a thrown error is the error of a result type. A
-- text that the code slices is the list of its UTF-16 code units (`Text`); ids, names, branches
-- and times are only compared, and are a `String`. An object used as a dictionary is the list of
-- its properties in the order in which they were added; keys that JavaScript treats apart
-- (integer-like names, `__proto__`) are not modelled. Ids that the code mints from the clock and
-- a random suffix, and the present time, are arguments. Numbers are natural numbers; where the
-- source subtracts, the model says what happens below zero.
--
-- pathOf walks with a set of seen ids and a bound of one round more than there are entries; the
-- bound is never met, since each round sees an id of another entry.
-- The loops of lcsDiff are structural recursion on the lists; an index that the loop counts down is
-- the suffix that starts there, and the walk reads the table at the indices it counts up.
-- The loop over indexOf in `Exact` has fuel, and none is a loop that goes on (goes_on in `Spans`, where
-- throws is a match that no block holds): one round more than a
-- text has characters is enough for a quote that is not empty, and no fuel is for the empty one.
--
-- Not modelled: rendering and input of the client, processes, sockets, files and the harness
-- protocols, and the text of error messages.
pub mod Prelude
pub mod Types
pub mod History
pub mod Diff
pub mod Routing
pub mod WorkingCopy
pub mod Agents
pub mod Anchors
pub mod Sharing
pub mod Gateway
pub mod Retention
pub mod Daemon
pub mod Store
mod Examples
