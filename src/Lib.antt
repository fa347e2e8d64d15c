-- ===== src/Lib.antt =====
-- A verification library for adrouterAgent, a desktop coding agent whose model calls are paid for by
-- sponsors: the main process keeps tasks and clients and starts runtime workers, a worker runs the
-- agent's loop with its tools in a workspace, and the renderer shows what happened.
--
-- Parts modelled here, each file named with the code it follows:
-- - Scheduler: src/main/runtime-scheduler.ts. `Scheduler` is `RuntimeScheduler` (its map of running
--   tasks and its queue as lists), `enqueue`, `cancel`, `release`, `has`, `can_start` and `drain` its
--   methods, `start_failed` the handler of a start that rejects. Callbacks come back as values.
--   `drain` runs on fuel for as many starts as tasks wait, and each start takes one from the queue.
-- - Json: the functions on JSON values of src/shared/security.ts (`removeSponsorData`,
--   `containsSponsorKey`) and of src/shared/automation-protocol.ts (`canonicalizeLocalRpc`).
-- - Rpc: src/main/local-rpc-server.ts, the local automation endpoint, with the methods and scopes of
--   src/shared/automation-protocol.ts and the client rows of src/main/database.ts as a list. Signed
--   is `verifySignedRequest`, Pairing the pairing requests and decisions, Exports the exports that are
--   read in chunks. Digests, Base64, JSON text, dates and Ed25519 are the parameter `Platform`.
-- - CommandPolicy: src/runtime/command-policy.ts, which commands an agent may run. The regular
--   expressions stand as Boolean functions over texts.
-- - Presence: src/runtime/presence.ts, `PresenceGate`. A method reads the clock once. The abort
--   signal of `boundary` is left out.
-- - Ndjson: src/runtime/ndjson.ts, `NdjsonParser`, and in Stream the loop of src/runtime/router-client.ts
--   that feeds it. The text decoder, `JSON.parse` with the schema of
--   events, and sizes in UTF-8 are the parameter `Codec`.
-- - Workspace: src/runtime/workspace.ts, `isProtectedPath`, `readWorkspaceTextRange` behind the read,
--   `applyReplacements` and `applyWorkspacePatch` between the broker's inspection and its write. A file
--   is the bytes that the broker reads; UTF-8 and SHA-256 are the parameter `Digests`.
-- - TaskPolicy: src/shared/task-policy.ts and the schemas of src/shared/contracts.ts that it uses,
--   but for `createTaskPreset`. The digest is a parameter.
-- - Manifest: src/runtime/operation-manifest.ts with the schema of src/shared/contracts.ts, and in
--   Delegation src/runtime/delegation.ts. SHA-256, `JSON.stringify`, dates and the schemas of ids, times
--   and addresses are the parameter `Encoding`.
-- - Database: src/main/database.ts, its tables of projects, threads, turns, events, session entries,
--   checkpoints and approvals as lists of rows. Journal is `appendEvent`, Sessions what it projects
--   for the agent, Threads, Turns, Deletion and Approvals the operations on those tables, Files the
--   mutations of files, their baselines and what the router settled, Recovery `recoverInterruptedRuns`. The clock and the ids that are made come in a `Context`.
-- - Projection: src/shared/projection.ts, `rebuildThreadProjection`, and its proofs against Database.
-- - Tasks: src/main/task-service.ts, the checks before a delegated task is created, reported, sent a
--   message or cancelled.
-- - CacheOptimizer: src/runtime/cache-optimizer.ts, the line endings of the prompt's stable prefix.
-- - LineDiff: src/renderer/line-diff.ts, the review diff. The walk runs on fuel for as many steps as
--   both texts have lines, and each step takes a line.
-- Prelude has lists over the native numbers, texts as lists of UTF-16 code units, and maps as lists of
-- entries in insertion order. Checks applies the theorems at concrete inputs.
--
-- How they interact: a signed request (Rpc) is canonicalized (Json) before it is digested and
-- checked; what it starts waits in the Scheduler; a task runs under a TaskPolicy, its commands pass
-- the CommandPolicy, its structured operations run under a Manifest whose binding an approval of the
-- Database holds, it hands work to children through Tasks, its edits go through Workspace, each of
-- its rounds waits at the Presence gate, its model's answers come in through Ndjson, and the user
-- reviews its edits in a LineDiff.
--
-- Bounds: no number is assumed to be bounded; times and sizes are natural numbers, below 2 ^ 53 in the
-- program, where its numbers are exact. A subtraction on them stops at 0: it stands only where the program
-- takes a maximum with 0, cannot go below it, or does the same with what is below.
--
-- Not modelled: the database's search, migrations and trust tables and the services on it, the
-- runtime supervisor and the turns that a task starts, the windows and dialogs of Electron, the
-- runtime's session loop, the sandbox, Git and dependency commands, credentials and signed updates,
-- the native broker in C, and the launcher's scripts: they are input and output around decisions made
-- elsewhere, or large parts of their own that this library does not reach.
pub mod Prelude
pub mod Scheduler
pub mod Json
pub mod Rpc
pub mod LineDiff
pub mod CommandPolicy
pub mod Presence
pub mod Ndjson
pub mod Workspace
pub mod TaskPolicy
pub mod Manifest
pub mod Database
pub mod Projection
pub mod Tasks
pub mod CacheOptimizer
pub mod Checks
