-- ===== src/Lib.antt =====
-- Litestream replicates a SQLite database: it copies the database's write-ahead log (WAL) into
-- segments of a shadow WAL, sends these to replicas, and restores a database from a replica's
-- snapshot and WAL files.
--
-- - Prelude: names of the libraries, Boolean tests and lists over the native numbers, and Go's
--   `(value, error)` results. Text: strings as lists of bytes, and hexadecimal digits.
-- - Pos: litestream.go. `Pos`, `ComparePos`, `ParsePos`, `Pos.String`, the names of indexes,
--   offsets and generations.
-- - Wal: the SQLite WAL format. Wal/Checksum is `Checksum` of litestream.go, Wal/Writer is
--   `WALWriter` of wal_writer.go, and Wal/Reader is `ReadWALFields` and `headerByteOrder` of db.go.
-- - Db: db.go. `Db` has the cached fields of `DB`; Db/Disk has the files and `writeWALSegment`,
--   `WALSegmentReader`; Db/Copy is `copyToShadowWAL`, from the real WAL to a segment. Db/Call is
--   how a method runs: it takes the fields and the files and returns a result with both, or panics.
--   Db/Index is `initShadowWALIndex`, Db/Verify is `verify` and its like, Db/Clean removes old
--   files, Db/Reload is `invalidate`, Db/Open is `Open`, `UpdatedAt` and the connection that `init`
--   makes, and Db/Sync is `sync`, given what `init` meets, with `createGeneration` and `checkpoint`.
--   There a record `World` says what the real WAL is at each stage, for SQLite and other processes
--   write it between the stages, and what SQLite refuses. Db/Listing is `WALSegments` with what its
--   iterator reads, and Db/Close is `Close`, with the last syncs of the database and of its
--   replicas, each with a client of its own.
-- - Client: the metadata of litestream.go, the interface `ReplicaClient`, and the searches and time
--   bounds of replica_client.go over what a client lists. Client/Iterator is the iterators over
--   slices.
-- - Downloader: wal_downloader.go. What `init` checks, the input channel that `initInputCh` fills,
--   `downloadWAL`, which joins the segments of a WAL, and `Close`. Downloader/Workers is the worker
--   goroutines with `Next`, as a step relation: a step is one choice of a `select`, or what runs
--   under the lock; a send to the output channel and its receive by `Next` are one step.
-- - Replica: replica.go. `syncWAL` and `writeIndexSegments`, from the shadow WAL's segments to the
--   writes to the client; Replica/Position is `calcPos`, Replica/Snapshot is `Snapshots`,
--   `Snapshot` and `Sync`, with the iterator that `Sync` keeps, Replica/Retention is
--   `EnforceRetention`, and Replica/Times is `GenerationCreatedAt`, `SnapshotIndexAt` and
--   `LatestReplica`. Client/Remote is the interface `ReplicaClient` with a state, and `Careful`,
--   what its users rely on.
-- - Restore: `Restore` of replica_client.go, over what the downloader's `Next` returns, and
--   Restore/Command is cmd/litestream/restore.go, which chooses the replica, the generation and the
--   indexes that `Restore` is called with.
-- - Files: file_replica_client.go. Files/System is a file system of paths, Files/Names the paths,
--   Files/Listing what is listed, and Files/Client is `FileReplicaClient`, which is a client of
--   Client/Remote, and Files/Iterator is `FileWALSegmentIterator`.
-- - Cloud: gs/replica_client.go in Cloud/Gs, abs/replica_client.go in Cloud/Abs and
--   s3/replica_client.go in Cloud/S3, which are clients of Client/Remote too; Cloud/Removal is the
--   loops of the first two that remove objects one by one. Cloud/Bucket is the service below, a
--   parameter with what is documented of it, and Cloud/Names is the keys and the iterators' loops.
--   Cloud/S3/Host is `ParseHost`, which Config takes as a parameter.
-- - Sftp: sftp/replica_client.go. Sftp/Server is the calls of the library, a parameter with what is
--   documented of them, Sftp/Client is `ReplicaClient`, and Sftp/Iterator is `walSegmentIterator`,
--   its Next with fuel since it may run for ever.
-- - Server: server.go, over a watcher of the file system that is a parameter.
-- - Config: cmd/litestream/main.go, from the configuration file to databases, replicas and their
--   clients. Config/Url is `ParseReplicaURL` and `expand`, Config/Clients builds a client of each
--   type.
-- - Tests: the theorems at concrete inputs.
--
-- State is passed explicitly: a call takes the record and the files and returns them. What the
-- operating system may refuse comes in as a record of faults. A panic is `none`. The loops over the
-- bytes of a file recurse on fuel, one more than the bytes that are left: each round but the last
-- takes at least one byte, and the theorems on totality show that this is enough.
-- Bytes are natural numbers; 32-bit words wrap by `% 2 ^ 32`. LZ4 is a parameter that reads back
-- what it wrote. Messages carry no formatted values.
--
-- The paths and keys of the clients are lists of names: `path.Join` cleans them, which changes nothing
-- where a generation is a name (`IsName` of Client/Remote), as the theorems on them ask for.
--
-- Not modelled: the SQLite connection, which `World` and a parameter for `ApplyWAL` stand for; the
-- loop of `DB.monitor`, which calls `Sync` again and again, and the goroutines of a replica, which do
-- so with `Sync`, `Snapshot` and `EnforceRetention`; the connections of the clients, the HTTP server,
-- metrics, logs and the other commands of the command line; and what a failed `RestoreSnapshot`
-- leaves in the temporary file.
pub mod Prelude
pub mod Text
pub mod Pos
pub mod Wal
pub mod Db
pub mod Client
pub mod Downloader
pub mod Replica
pub mod Restore
pub mod Files
pub mod Cloud
pub mod Sftp
pub mod Server
pub mod Config
pub mod Tests
