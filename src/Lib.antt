-- ===== src/Lib.antt =====
-- Porthmos (TermConnect), a dual-panel file manager for the terminal with file transfers to remote
-- servers: models of its core logic in Rust, and theorems about them.
--
-- The program. The crate porthmos-core holds the state that the interface shows and changes: the
-- queue of transfers with its rows, the planning of a copy and the answers to its conflicts, the
-- comparison of two trees, the listings of directories, the history of transfers. porthmos-vfs
-- holds what the file systems share, among it the search for names. porthmos-tui draws the state
-- and turns keys into requests. An engine runs on tasks of its own and connects these parts by
-- messages: a request to copy is planned, its conflicts are answered, its files are put in the
-- queue, the queue says which jobs may start, the jobs report their progress by changes of status,
-- and the finished ones go to the history.
--
-- Which file models which part. Names of functions and types are those of the source, in this
-- language's spelling; every file says where its code stands.
-- - Shared, with Map, Set, HashMap, Text, Words and Results: Rust's maps, sets, lists, texts and
--   results. A `BTreeMap` or `BTreeSet` is an ascending list, a `HashMap` a list of pairs, a `String`
--   the list of its characters.
-- - Transfer/Job, Rows, Snapshot: porthmos-core/src/transfer/job.rs, rows/mod.rs, snapshot/mod.rs.
-- - Transfer/Queue: porthmos-core/src/transfer/queue/mod.rs. State is `TransferQueue`; Account is
--   `account`, `reconcile`, `update` and the guard of `get_mut`; Operations is what the engine calls;
--   Remove is `remove_jobs`; Start is `startable` and `startable_limited`. The other files are
--   proofs: Effects and Index on the index sets, IndexOperations and StatusChanges on the operations,
--   Removal and Rekey on `remove_jobs`, Orders on the order of the rows, RowKeys, RowMoves and
--   RowRemoval on the rows that list every job, StartLoop, StartBounds,
--   StartSessions and StartProgress on what may start. Reach has the calls of the engine as a step
--   relation, and Refine what each is to one who sees the jobs alone.
-- - Transfer/Plan: the parts of porthmos-core/src/transfer/plan/mod.rs that ask no server.
-- - Transfer/Conflicts: porthmos-core/src/transfer/conflicts/mod.rs; UniqueName is `unique_name`,
--   Resolve the answers and `resolve`, Safety the proofs.
-- - Sync: porthmos-core/src/sync/mod.rs; Compare is `compare` and what it calls, Actions the choice
--   of another action, Mirror the comparison seen from the other side.
-- - Listing: porthmos-core/src/listing/mod.rs and listing/sort/mod.rs.
-- - ConnectionsTree: porthmos-core/src/connections_tree/mod.rs; Tree is the code, Counts the proofs.
-- - Profiles/Labels: porthmos-core/src/profiles/labels/mod.rs; Profiles/Entry:
--   profiles/profile/mod.rs; Profiles/Form: porthmos-vfs/src/form/mod.rs; Profiles/Draft:
--   porthmos-core/src/profiles/draft/mod.rs, with Steps, Copied, Stored and Accepted as the proofs about
--   `validate`.
-- - Ssh/Quote: porthmos-ssh/src/quote/mod.rs, and a reader of shell words as its specification.
-- - Ssh/Config: porthmos-ssh/src/ssh_config/mod.rs; Values is the reading of a line, Blocks the
--   blocks and the names in them, Resolve `resolve` and `parse`; Settings says what a host is to get,
--   Step and FirstWins that it gets it, Aliases and Tokens are proofs.
-- - Webdav: protocols/webdav/src/paths/mod.rs; RoundTrip is the proof.
-- - S3: protocols/s3/src/upload/mod.rs; Upload is the writer, a poll at a time, Parts what its parts
--   are, Runs the calls of a client, Close the end of an upload.
-- - Persist: porthmos-core/src/persist/writer/mod.rs, and the versions of persist/mod.rs; Writer is the
--   code, a hold of the lock at a time, with the taking of a version as a step of its own; Latest is
--   about the jobs executed in any order.
-- - History: porthmos-core/src/history/mod.rs.
-- - Glob: porthmos-vfs/src/search/mod.rs, `glob_match`; Pattern says what a pattern means.
-- - Ui: porthmos-tui/src/sessions/mod.rs, widgets/notifications/mod.rs and
--   widgets/dialog/text_input/mod.rs.
--
-- Conventions. State is passed from one operation to the next; a method that changes its object
-- gives the changed object back. Machine integers are natural numbers: ids and sums of bytes are
-- taken modulo 2 ^ 64, as in a release build, where the source adds; where it uses a saturating
-- subtraction, it is the subtraction of natural numbers, which stops at 0. `sort_by` is a stable
-- sort, by insertion. A path is a text where the code only compares or extends it, and a list of
-- components, the last one first, where the code takes it apart; so two spellings of a local
-- destination are two destinations, where the source compares them by components. The counter of
-- `unique_name` has no bound, where the source counts in 32 bits.
--
-- Fuel. The loop of `startable_limited` has one round of fuel for each queued id of the sessions'
-- queues and one more; `match_from` has fuel for a round for each position of pattern and name at
-- each star it may go back to; `unique_name` has one try for each taken name and one more. That
-- this is enough is part of what is proved.
--
-- Parameters. `to_lowercase` rests on the Unicode tables of the standard library and is a
-- parameter, and so is the percentage that `progress_percent` takes in floating point. A panel is a
-- parameter of the sessions. The time is an argument. The crate `percent_encoding` is a pair of
-- functions, of which the round trip of addresses supposes that they undo each other and what they
-- keep out of a segment.
-- What the futures of an upload answer to a poll is an argument of each call, and so is what the
-- file system answers to a write.
--
-- Not modelled: the handlers of the engine and the walks of file systems, which are asynchronous
-- and talk to servers; reading and writing files of settings, profiles, bookmarks and history; the
-- secrets and certificates; the protocols, besides the addresses and the upload above; the drawing
-- of the interface and its other dialogs.
pub mod ConnectionsTree
pub mod Glob
pub mod History
pub mod Listing
pub mod Persist
pub mod Profiles
pub mod S3
pub mod Shared
pub mod Ssh
pub mod Sync
pub mod Transfer
pub mod Ui
pub mod Webdav
