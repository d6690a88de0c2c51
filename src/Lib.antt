-- ===== src/Lib.antt =====
-- A verification library of scip-lsp, a language server that answers from SCIP indexes.
--
-- The server (src/ulsp) keeps the documents that an editor has open, and answers definition,
-- reference and hover requests from indexes that src/scip-lib scans and loads. A position that
-- the editor sends is mapped to the text that the index was made of, the occurrence there is
-- searched, and the answers are mapped back. This library models the parts that these answers
-- stand on, file by file.
--
-- Common: lists, association lists for Go maps, tests and integers.
-- Occurrences: src/scip-lib/utils/utils.go, the occurrences of a document.
-- `get_occurrence_for_position` is the binary search of `GetOccurrenceForPosition`; its fuel is
-- one more than the number of occurrences, and each round makes the interval shorter.
-- Scanner: src/scip-lib/scanner/scan.go, the scan of an index as a byte stream, on the reads of
-- Scanner/Wire. A scan gives the calls of the visitors in order and how it ended. Fuel counts
-- rounds of the loops; one more than the number of fields, nested ones included, is enough on a
-- well-formed stream. Scanner/Pool: src/scip-lib/scanner/bufferpool.go.
-- TextOffset: src/ulsp/internal/protocol/mapper.go, byte offsets and UTF-16 positions, by
-- structural recursion on the text or on the columns that are left.
-- Edits: src/ulsp/mapper/lsp.go, content changes and the edits of diffs.
-- PositionMapping: src/ulsp/controller/doc-sync/position_mapper.go, positions of one version of
-- a document in another, by structural recursion on the diffs. It uses TextOffset and the diffs
-- of Edits.
-- DocSync: src/ulsp/controller/doc-sync/doc_sync.go, the documents that are open. Each handler
-- is a function of the controller's state, and DocSync/Run puts them into sequences. It uses
-- Edits for changes and PositionMapping for the mapper that it caches.
-- QuickActions: range_store.go and pending_action_runs.go of src/ulsp/controller/quick-actions,
-- the code actions of documents and the actions in progress.
-- QuickActions/Controller: src/ulsp/controller/quick-actions/quick_actions.go over the two
-- stores. A command starts in one step and ends in another; an action is a record of functions.
-- Indexer: pending_cmd_store.go and the operations of indexer.go of
-- src/ulsp/controller/indexer.
-- PartialLoader: src/scip-lib/partialloader/prefixtree.go, the tree of symbols by descriptors,
-- by recursion on the path, and index.go with the conversions of
-- src/scip-lib/mapper/scip_types.go. LoadIndex runs the model of the scanner with its visitors
-- and merges what they made, and PartialLoader/Index/Answers fills the interface that Registry
-- asks. The files of a folder are scanned in the order of its entries.
-- Plugins: src/ulsp/entity/ulsp-plugin/ulsp_plugin.go and src/ulsp/mapper/ulsp_plugin.go, the
-- validation of plugins and the lists of them by method and priority. A Go map is iterated in
-- the order of its list.
-- Sessions: src/ulsp/repository/session/session.go with its mappers.
-- Daemon: src/ulsp/controller/ulsp-daemon and the registry of clients of
-- src/ulsp/gateway/ide-client/ide_client.go. A request is one step; the steps that change the
-- sessions make up a relation, and the idle timer is an invariant of it. What a plugin does is
-- a parameter, and the goroutines of the asynchronous plugins are a list of the plugins that
-- are started.
-- Registry: src/ulsp/controller/scip/partial_registry.go with src/scip-lib/mapper/scip_lsp.go,
-- the queries at a position. The index that src/scip-lib/partialloader/index.go implements is
-- an interface here.
-- Scip: src/ulsp/controller/scip/scip.go, positions between the open text and the indexed one,
-- the requests, and the loading of index files.
-- Notifier: src/ulsp/internal/persistent-notifier, the handlers that senders share, in a heap,
-- and the messages.
-- Capabilities: src/ulsp/mapper/lsp_lifecycle.go, the capabilities that the plugins add to the
-- answer to initialize.
-- Diagnostics: src/ulsp/controller/diagnostics/diagnostics.go, over the repository of Sessions.
-- A request carries the sessions of its time.
--
-- Code outside of the repository is a parameter: the protobuf parsers, the SCIP bindings' range
-- parser, and the diffs of diffmatchpatch. The decoder of UTF-8 follows the documentation of
-- Go's unicode/utf8. Sizes and offsets are natural numbers; conversions to `uint32`, `int32`
-- and `int64` are written out where the code makes them. A call under one lock is one step;
-- where a function takes a lock several times, what others do in between is an argument
-- (Indexer, QuickActions/Controller/Commands, Notifier).
--
-- Not modelled: Tidy of the partial index, which follows the pointers of a node to its parents;
-- the watcher of index files with its timers; the goroutine that drains the channels of a
-- notification; what the actions, the indexer and the JDK and Scala controllers do in files and
-- other processes; the calls of the gateway that only pass on to a client; JSON-RPC, logs,
-- gauges and the messages of errors. But for Tidy, these are input and output or depend on the
-- time. The Python, Java and TypeScript parts are no part of the server's process.
pub mod Common
pub mod Occurrences
pub mod Scanner
pub mod TextOffset
pub mod Edits
pub mod PositionMapping
pub mod DocSync
pub mod QuickActions
pub mod Indexer
pub mod PartialLoader
pub mod Plugins
pub mod Sessions
pub mod Daemon
pub mod Registry
pub mod Scip
pub mod Notifier
pub mod Capabilities
pub mod Diagnostics
