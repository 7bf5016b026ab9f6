-- ===== src/Lib.antt =====
-- Syncali keeps the notes of an Obsidian vault in sync between devices, end-to-end encrypted. This
-- library models the parts of it that decide what is stored and what is merged, and proves them
-- correct.
--
-- The program. Each vault has one coordinator on the server (apps/api/src/sync/coordinator), which
-- keeps the entries of the vault, their kept versions, the blobs that hold their contents and a
-- cursor that counts the changes, in SQLite tables. A device uploads a blob, which stages it, and
-- then commits a batch of mutations, each of which names the revision that it is based on. The
-- commit moves entries, versions and blobs together in one transaction. A maintenance scheduler
-- runs the collector of blobs that nothing refers to. On a device the plugin
-- (apps/obsidian-plugin/src/sync) records local changes, pushes them, pulls the changes of others,
-- and merges texts that both sides changed.
--
-- The files.
--   Prelude: names of the library that all parts use, Boolean tests on numbers, lists, texts as the
--     source compares and trims them, and the SQL statements on a list of rows.
--   Coordinator/Tables: the tables of apps/api/src/db/do/index.ts as lists of rows, and `Outcome`,
--     the result of code that may throw. A transaction that throws leaves the tables as they were.
--   Coordinator/BlobStore: store/blob-store.ts, a function of the tables for each method. Its child
--     modules hold lemmas on the rows, the accounting of bytes and the references to blobs.
--   Coordinator/CursorStore: store/cursor-store.ts.
--   Coordinator/MutationStore: store/mutation-store.ts. `commit_mutations` is commitMutations; the
--     body of its loop is cut at its tests into commit_one, commit_unless_applied,
--     commit_at_revision, commit_with_blob and apply_mutation, and the loop's variables are the
--     fields of `Batch`. Model declares the data, Versions the capture of versions, Cases, Shape,
--     BlobSteps and Entries what one mutation does, Blobs which blobs it names, and Invariant,
--     Answers, Replay and Frame the results.
--   Coordinator/StoreHistory: sequences of calls of the three stores, those of `StoreCall`.
--   Coordinator/Maintenance: maintenance-scheduler.ts, with the times, `defer` and the alarm.
--   Coordinator/Listing: ORDER BY and LIMIT on lists of rows, the pages that a service cuts a listing
--     into, and a client that follows them (pullOnce of engine/pull-service.ts on the plugin's side).
--   Coordinator/EntryStore: store/entry-store.ts and entry/sync-service.ts.
--   Coordinator/Health: store/health-store.ts; its child Flush is health/sync-service.ts, and Stable
--     relates the health of a vault to the time of the next flush.
--   Coordinator/BlobSync: blob/sync-service.ts. Held, Collect and Purged are about the objects
--     that entries and versions need. A storage that throws in runGc or deleteBlob is left out.
--   Coordinator/CommitService: mutation/commit-service.ts.
--   Coordinator/History: store/history-store.ts, and listDeletedEntries of store/entry-store.ts. Its
--     children Service and Batch are entry/history-service.ts.
--   Coordinator/VaultLock: store/vault-lock.ts, as steps of the calls that wait for one another.
--   Coordinator/Requests: sequences of requests to the blob and commit services, and the two ends of
--     an upload (apps/api/src/sync/blob/routes.ts).
--   TextMerge: apps/obsidian-plugin/src/sync/engine/text-merge.ts. Lines is splitLines, Diff the
--     table of common subsequences and diffReplacements, Merge mergeReplacements and mergeText3.
--   Engine: event-gate.ts, auto-sync-work-queue.ts and the checkpoint of pull-service.ts, of the same
--     directory.
--   Engine/PullPlan: pull-manifest-planner.ts of the same directory. Deferral is the loop that puts
--     entries off, Collision the choice of a conflict path, and Placed the main loop.
--   MutationQueue: apps/obsidian-plugin/src/sync/core/mutation-queue.ts, the mutations of local changes.
--     Stale is what a device does with a rejected change (engine/push-mutation-shared.ts and
--     engine/push-mutation-committer.ts).
--   Paths: apps/obsidian-plugin/src/sync/core. Reserved is reserved-paths.ts, ConfigRules
--     vault-config-rules.ts, FileRules file-rules.ts, Policy vault-path-policy.ts and ConflictFile
--     conflict-file.ts; Units holds the string methods of the source, Marker the two regular
--     expressions, Decimal the digits of numbers, and Settings the stored values of no known type.
--   The modules called Examples run the code on small inputs.
--
-- Conventions. Names are those of the source in snake case. Cursors, revisions, sizes and times in
-- milliseconds are natural numbers; the source keeps them as JavaScript numbers, which are exact
-- below 2^53. The clock is an argument, and `crypto.randomUUID()` is a function that gives the n-th
-- id that is drawn. A null is `none`. The message of an error or of a rejection is left out where
-- its code and fields determine it. The order that SQL gives to the keys of maintenance jobs is a
-- parameter, about which nothing is assumed, and so are the handlers of those jobs. The order that
-- SQL gives to ids is a parameter too, `TextOrder`, a strict total order; `code_point_order` is one.
-- The storage of objects is the list of the blob ids that have an object. A method that waits for it
-- is one step when nothing else runs meanwhile; deleteBlob is also two steps, with other requests
-- between them. Within one request the clock is read once for what goes before its changes.
-- A path is the list of its UTF-16 code units; toLowerCase and localeCompare are parameters, as are
-- the local time and the vault behind `ConflictFileWriter`.
--
-- Bounds. The loops of the source run over lists, and are structural recursion here. The loop of
-- `drain` has the bound of the source, 16 jobs in one alarm. The text merge recurs on what is left
-- of base and variant, so it needs no bound; the budget of 2,000,000 cells is the source's.
-- The search for a free conflict copy has fuel, and more than the number of files is enough;
-- in the planner of a manifest, more than the numbers of files and of items together.
--
-- Not modelled: the sockets, control messages and HTTP routes around the services, accounts and
-- billing, and on the plugin's side pushing, the applying of pulled changes, encryption, the file
-- system, the network and the user interface. They are input and output, calls of libraries, or
-- left for a later extension.
pub mod Prelude
pub mod Coordinator
pub mod TextMerge
pub mod Engine
pub mod MutationQueue
pub mod Paths
