-- ===== src/Lib.antt =====
-- Distributed storage log analyzer: a manager that receives archives of storage logs and workers
-- that extract, index and search them. This library models the parts with logic of their own and
-- proves what makes them correct. Paths are from the repository's root.
--
-- Parts and files:
--   Prelude       shared names: lists, options, integers, bits and texts.
--   Bytes         bytes of files, how a reader hands them over, little-endian words.
--   IndexCache    the lookup that both kinds of index share (GetOrBuildLineIndex of
--                 internal/worker/line_index.go): memory cache, index file, second look under the
--                 lock, scan. The LRU cache is an interface with laws, as its package documents it.
--   LineIndex     internal/worker/line_index.go: buildSparseLineIndex (build_sparse_line_index), the
--                 file format (Codec), GetOrBuildLineIndex (Cache), ReadFileLinesWithIndex (Read).
--                 Lines says what a line is, independently of the scan.
--   Bloom         internal/worker/bloom_index.go: the filter (Bloom), extractTokensToBloom and
--                 MayContainSearchKeyword (Tokens), buildChunkBloomIndex (Index), its file format
--                 (Index.Codec) and GetOrBuildBloomIndex (Index.Cache). Index.Skips and Index.Cut say
--                 what a search for a keyword finds in an index.
--   Model         records of internal/model/model.go that several parts share.
--   Store         internal/store/store.go: a bucket of bbolt as a list of records by their keys
--                 (Bucket, Keys), the database as a record of buckets (Db), users, archives and
--                 reports (Archives), nodes (Nodes), settings (Settings), alarms (Alarms). Accounts,
--                 Reports, Aggregation, AlarmSteps, AlarmWalk, AlarmView and AlarmLists hold proofs:
--                 AlarmView says what the alarms promise, as a function from places to counts.
--   Retention     internal/manager/retention.go: RunRetentionCycle and what it calls. Deletion,
--                 Exempt and Watermark hold proofs.
--   Nodes         handleClusterHeartbeat and startNodeHealthAndAlarmMonitor of
--                 internal/manager/api.go, and handleRemoveNode (Removal). Unique, Away and Removed
--                 hold proofs.
--   Sessions      authenticate, handleLogin, handleLogout, handleUsers and handleUserItem of
--                 internal/manager/api.go; Disabled holds proofs.
--   AlarmCenter   handleAlarmReport, handleAlarmItem and handleClearResolvedAlarms of
--                 internal/manager/api.go; Runs holds proofs.
--   Drain         internal/indexer/drain.go: the tree and the clusters of DrainMiner. Match and Counts
--                 hold proofs.
--   Rules         internal/rules/engine.go: the report of DiagnoseDirectory; Report holds proofs.
--   Ha            internal/manager/ha.go and ha_quorum.go: HAManager as a record, one function per
--                 method: NewHAManager, bindVIPLocked and releaseVIPLocked (Ha), the checks
--                 (Quorum), probePeer and markPeerFailure (Peer), Switchover and the handlers of
--                 internal/manager/api.go that it calls at the peer (Switchover), UpdateConfig
--                 (Config), syncOnce of internal/manager/ha_sync.go (Sync). Safety, Failover,
--                 Sync.Current, Sync.Diverged, SplitBrain, Vip, Traces, Pair and Reconfigured hold proofs.
--   Scheduler     internal/manager/scheduler.go: PickLowestUsageWorker, and the states of an archive
--                 in DispatchAnalyzeTask (Archive).
--   Examples      the theorems at concrete inputs.
--
-- How the parts interact: reading a page looks the line index up, which is cached, loaded or built;
-- a search asks the filter of each chunk; two managers see each other through heartbeats and the
-- requests of a switchover, and share the workers that the checks ask. The handlers for nodes and
-- the retention work on the store: a heartbeat saves a node and resolves its alarm, the watch raises
-- one, a removal moves or deletes archives, and every deletion of an archive gives its owner the
-- space back.
--
-- Conventions: numbers are natural numbers, and integers where the code compares with negative ones;
-- overflow of 64 bits is not modelled, 32-bit hashes wrap. Files are lists of bytes; reads are a
-- `Reader`, which may cut the bytes anywhere and may fail. The inner loops over a read run on fuel,
-- one more than the bytes read, which the theorems on the scans need no hypothesis for. A panic or
-- a returned error is `none` or a constructor of its own. The methods of the manager hold its lock,
-- so each is one step; what they ask of the network and the machine is the `World` they are given,
-- and the commands that they run are logged in the state. Texts of Go are strings that are only
-- compared; their lower case and trimming are fields of the `World`. What the filters' code makes of a
-- keyword that is not all ASCII, strings.EqualFold, dates and the float percentages of the retention are
-- parameters, with no hypotheses. An operation of the store is a function from the database to the
-- database and a result; the times and the ids that it makes are its arguments. bbolt itself and the
-- JSON of its records are not modelled, but for the retention settings, where the text loses an empty
-- list, and for reports, where what comes back of one is a parameter.
--
-- Not modelled: HTTP, JSON and SSH, the embedded web pages, the AI client, file system calls but for
-- their results, locks, and goroutines but for the operations that they run; nor the search, the
-- extraction, the charts, the comparison of archives, the deployment of workers, the matching of
-- rules within a file, and the handlers of the manager that are not named above.
pub mod Prelude
pub mod Bytes
pub mod IndexCache
pub mod LineIndex
pub mod Bloom
pub mod Ha
pub mod Model
pub mod Store
pub mod Retention
pub mod Nodes
pub mod AlarmCenter
pub mod Sessions
pub mod Drain
pub mod Rules
pub mod Scheduler
pub mod Examples
