-- ===== src/Lib.antt =====
-- Git LFS, the extension of Git that keeps large files outside of the repository: the parts of
-- the client that decide what a pointer file says, what is moved between the client and a server
-- and in which batches, and the stores and sets that they stand on, with theorems on them.
--
-- The program. A large file is replaced in the repository by a pointer file, which names the
-- file's content by its SHA-256 and its size. The clean filter writes pointers, and the smudge
-- filter and the scanners of the history read them (lfs/pointer.go). To push and to fetch, the
-- commands give the objects that pointers name to a transfer queue (tq/transfer_queue.go), which
-- collects them into batches, asks the server by its batch API where each object is to go, hands
-- the transfers to an adapter, and retries those that fail; the errors that the adapter and the
-- API return say by their kind whether to retry and when (errors/types.go). A filter by paths
-- (filepathfilter) decides which files the commands look at, the files .gitattributes
-- (git/gitattr) say which are kept as pointers, and `git diff-index` (lfs/diff_index_scanner.go)
-- which have changed. The commands keep sets of names and object IDs (tools/stringset.go,
-- tools/ordered_set.go) and a map that outlives the process, shared with other processes through
-- a file (tools/kv/keyvaluestore.go). The configuration (config) says which server and extensions
-- are used; it is read from Git's own configuration and, for keys that count as safe, from the
-- file .lfsconfig of the repository. To log in to a server, credentials are asked of a chain of
-- helpers, of which a cache and `git credential` are two (creds). The locks on files that a
-- client holds are remembered in a store of that kind (locking). The filters pass a file's content
-- through the extensions that the configuration names (lfs/extension.go), on the way in and, from
-- the last to the first, on the way out; `prune` deletes the local objects that nothing needs.
--
-- The files.
--   Prelude and its children: names of the libraries, lists and their measures, comparison by an
--     instance, bytes, membership, Go's `int` where it can be negative, and Go's maps as lists of
--     entries. A map that the source ranges over is visited in the order of the list, or in one
--     that an argument gives, where the result may depend on it.
--   Strings and its children: what is used of Go's strings, bufio and strconv, over bytes.
--   Tools.OrderedSet (tools/ordered_set.go), Tools.StringSet (tools/stringset.go): the sets. The
--     methods keep their names; a method that changes its receiver returns the new one.
--   Tools.KvStore (tools/kv/keyvaluestore.go): the store in memory with its log, `save` and
--     `new_store` on the file that they find.
--   Lfs.Pointer (lfs/pointer.go): the pointer and `encoded`; Lfs.Pointer.Errors the errors of the
--     decoder, Lfs.Pointer.Decoding the decoder, from `decode_pointer` down to the lines.
--   Lfs.DiffIndex (lfs/diff_index_scanner.go): `scan_line` is `scan`, on a line.
--   Lfs.GitFilter (the object store, fs/fs.go and lfs/util.go), Lfs.GitFilter.Pipe
--     (lfs/extension.go), Lfs.GitFilter.Cleaning (lfs/gitfilter_clean.go,
--     commands/command_clean.go), Lfs.GitFilter.Smudging (lfs/gitfilter_smudge.go,
--     commands/command_smudge.go): the filters and their commands. The store is a map from object
--     IDs to contents; SHA-256 and the extensions' programs are arguments.
--   Commands.Prune (commands/command_prune.go, lfs/config.go): `prune`, with what its tasks send
--     as a list in the order of arrival; Commands.Prune.Needed says which objects are needed.
--   Errors (errors/types.go, errors/errors.go): errors as chains of wrappers; a test of a kind is
--     `is_kind` at that kind, and a constructor is `new_error` at its kind and message.
--   Filter (filepathfilter/filepathfilter.go): `allows`, and the constructors.
--   Tq.Retries (retryCounter), Tq.Batch (batch.Concat, objectTuple and Transfer), Tq.Relations
--     (Transfer.Rel, tools/time_tools.go), Tq.Queue (TransferQueue, Add, Watch), Tq.Queue.Results
--     (handleTransferResult, partitionTransfers) and Tq.Queue.Enqueue
--     (enqueueAndCollectRetriesFor, addToAdapter): the parts of tq/transfer_queue.go.
--     Tq.Queue.Kinds gives the queue the errors of errors/types.go. The other files below them
--     hold the proofs.
--   Tq.Collector (collectBatches, collectPendingUntil, Wait of tq/transfer_queue.go): the loop
--     that feeds the queue, of which one round is `collect_round`. Tq.Collector.Starting adds
--     objects to it, and Tq.Collector.Session has what it comes to before Wait (`Reached`).
--   Config (readGitConfig in config/git_fetcher.go), Config.Values (config/environment.go,
--     config/map_fetcher.go, config/extension.go and the choice of a remote in config/config.go),
--     Config.Urls (config/url_config.go).
--   GitAttr (git/gitattr/attr.go, macro.go and tree.go): the lines of .gitattributes, their
--     macros, and `applied`. GitAttr.Printing writes lines that the parser is to read.
--   Locking.Cache (locking/cache.go, and searchLocalLocks of locking/locks.go): the cache of
--     locks, on the store of Tools.KvStore.
--   Creds (creds/creds.go, creds/netrc.go): the helpers are one data type, and what they keep
--     between calls, the cache and the hosts that .netrc is not used for, is `Memory`. Creds.Chain
--     asks, approves and rejects along the list of helpers.
--
-- Numbers. An `int64` that is never negative is a natural number, others are the integers of
-- Prelude.Int. Where the source wraps around (the version of a store, a retry's delay, a
-- duration) the remainder is written out. Times are nanoseconds since the zero time.
--
-- State. A method takes the state and returns the new one. The channels, the wait group and the
-- progress meter of the transfer queue are a list of events in its state; a turn of the collector
-- in which a watcher is sent more than its channel holds and its reader takes is blocked
-- (Tq.Collector, `waits_for_reader`); the channel `incoming` has no bound, as an Add that waits
-- for room is one whose object stands at its end. The retries that an adapter sends back are a
-- list, since the source's channel has room for all of them. The server, the adapter, the file
-- system and the clock are arguments, in one record, with what is assumed of them a hypothesis of
-- the theorem that needs it. A nil pointer that would be followed is `none`.
--
-- Termination. The loops are recursion on a list. Only the trimming and the decimal digits of
-- Strings take fuel, which is the length of the text, or the number: each round drops a byte, or
-- a digit. The loop of `collectBatches` is recursion on fuel, one unit for each round, with what
-- the world does in a round in a `Turn`. That some fuel is enough is proved for turns that are
-- fair: each round that asks the server takes objects off the wait group or spends retries, of
-- which there are finitely many, and a round that does neither may come again only while the
-- `select` of `collectPendingUntil` prefers the channel `done` to the closed one.
--
-- Not modelled. The transfer adapters, the HTTP and SSH clients, the choice of the credential
-- helpers and their prompts, the API of locks, Git's subprocesses, the rest of the configuration
-- (paths, users, dates and the caches), the rewriting of history and the other commands: they
-- wait on processes, the network and the terminal, and what the parts above need of them is an
-- argument. Of the filters, the delayed smudge of the filter process, SmudgeToFile, the hooks, and
-- failures of the system where a file is made, renamed or opened. An Add that runs at the same
-- time as a round of the collector counts as one before or after it, and whether an Add that waits
-- for room gets it is not asked. The contexts and stacks of errors, mutexes, and the texts of most
-- messages; the coder of the store's file (gob), of which what it reads is an argument; the matching
-- of patterns, which is a library's (wildmatch), the parsing of URLs and strconv's unquoting. Prune
-- has what Git lists as an argument; the filter of lfs.fetchexclude on it is modelled.
mod Prelude
pub mod Strings
pub mod Tools
pub mod Lfs
pub mod Tq
pub mod Filter
pub mod Errors
pub mod Config
pub mod Creds
pub mod Locking
pub mod GitAttr
pub mod Commands
