-- ===== src/Lib.antt =====
-- DateiLager: a content-addressed store of directory trees, with a version for every update.
--
-- The server keeps its data in PostgreSQL. A row of dl.objects says that a path of a project holds
-- a content from a start version up to a stop version; a row without a stop version is live. An
-- update stops live rows and inserts new ones at the next version; a query for a range of versions
-- selects the rows that changed; a rollback deletes and revives rows; garbage collection deletes
-- rows and contents that no kept version shows. Directories that match a pattern are stored as one
-- packed object, a compressed archive.
--
-- Prelude     integers, lists, texts and membership
-- Result      errors as values and the gRPC codes
-- Codec       SHA-256, the S2 compression, archives and regular expressions, as parameters
-- Decimal     numbers of 64 bits as texts, as strconv reads and prints them
-- Auth        internal/auth/auth.go and the checks of pkg/api/fs.go
-- Db.Schema   migrations/: the tables with their keys and unique indexes, as lists of rows
-- Db.Session  internal/db/db.go: a connection with one transaction
-- Db.Like     the operator LIKE, as the queries use it
-- Db.Query    internal/db/queryBuilder.go: each common table expression is a function on rows
-- Db.History  the specification: the tree of a project at each of its versions
-- Db.Project  internal/db/project.go and internal/db/inspect.go
-- Db.Update   internal/db/update.go: DeleteObject and UpdateObject
-- Db.Pack     UpdatePackedObjects, and the PackManager of internal/db/query.go
-- Db.Tar      internal/db/tar.go and internal/pb/fs.go: packs and the updates of packs
-- Db.Reset    internal/db/reset.go
-- Db.Copy     internal/db/copy.go
-- Db.Gc       internal/db/gc.go
-- Db.Cache    internal/db/cache.go and GetCacheTars of internal/db/query.go
-- Db.Content  internal/db/content.go: contents from a cache in memory and from the table
-- Db.Stream   internal/db/query.go: version ranges, GetObjects and GetTars with loadChunk
-- Api.Fs      pkg/api/fs.go: the handlers that write or list projects; Api.Fs.Update is Update, and
--             Api.Fs.Read the handlers that read: Get, GetCompress, Inspect and GetCache, with
--             GetUnary in Api.Fs.Read.Unary
-- Files.Objects
--             ObjectFromFilePath of internal/pb/fs.go
-- Files       internal/files: WriteTar and writeObject over a file system, with their retries, and
--             FileMatcher
-- Client.Dir  pkg/client/dir.go: the version file of a directory and that of the caches, on the
--             entries of Client.Disk
-- Client.State, Client.Tracker
--             pkg/client/client.go: the texts of Snapshot and Reset, and the tracker that the
--             goroutines of a rebuild share
-- Client.Group
--             the goroutines of Rebuild and GetCache as a step relation: a receiver, a channel with
--             a buffer, workers, and the errgroup that the first error cancels
-- Client.Rebuild, Client.Cache
--             Rebuild, GetCache and DiffAndSummarize of pkg/client
-- Client.Upload, Client.Update
--             Update of pkg/client: its goroutines, and what comes before and after them
-- Client.Requests
--             Get and NewProject of pkg/client
-- Environment internal/environment/environment.go
-- Server      pkg/server/server.go: the interceptors that admit a request
-- Api.Cached  pkg/api/cached.go: the daemon that puts the shared cache into volumes
-- Examples    concrete tables and requests
--
-- A Go function of internal/db has the name of its definition in snake case, as UpdateObject and
-- update_object. The handlers CloneToProject, DeleteProject and ListProjects are clone_project,
-- remove_project and show_projects. A database operation is a function on a Session: what the
-- transaction sees, what is durable, and a list of booleans that says which of the next
-- connections, statements and commits fail. UpdateObject does not look at the error of its INSERT,
-- so has_row takes a failed one for one without a row; where the server has refused a statement,
-- the list says that the next ones of the transaction fail. A statement of SQL is a function on
-- tables. One transaction is modelled at a time, as the row lock of LockLatestVersion orders the
-- writers of a project; integers of 64 bits wrap in succ64, the step to the next version. A stream
-- is called until it ends: next_row, next_object and next_tar are single calls on a Cursor, and
-- objects_of and tars_of are the loops of the handlers, which give what was sent with the result.
--
-- The fuel of chunk is the length of its list, and each of its rounds drops at least one item. The
-- fuel of update_objects counts the entries of the old pack, its end, the updates and the end of
-- the stream, and each round of the loop consumes one of these. UpdatePackedObjects would report
-- out_of_fuel if that were not enough. The fuel of tars_of is the number of rows and two: a call
-- takes a row, writes what is left, or ends. The fuel of objects_of, which get, get_unary and
-- inspect take as an argument, has to exceed the number of objects, those in packs counted. The
-- fuel of trim_left is the length of its text. format_digits has 19 digits, which hold each int64.
--
-- Parameters are SHA-256, the compression, the archive format with the entries that it takes, the
-- order that sort.Slice gives to paths, which need not be stable, and regular expressions (Codec,
-- with IsLawful and, for the entries of a stream, IsTaken), the cache of ristretto (MemoryCache,
-- with IsCache: it may drop entries, and gives back nothing that was not set), the file system
-- under internal/files (System, with IsTruncating), the check of a token's signature, and for a client the answers of
-- its server, the reader of archives, the text of a path, and the package fsdiff (Differ).
--
-- A run of goroutines is a sequence of steps in any order, so Rebuild, GetCache and Update are the
-- relations Rebuilds, GetsCache and Updates between what they start from and what they return and
-- leave. A step of a worker is the writing of a whole archive, as archives of one stream have
-- different paths. Runs need no fuel: the number of their steps is bounded. A negative number of
-- workers starts none, as 0 does. A context is cancelled by the goroutines only, not by the
-- caller. The workers of Update share one err, which a worker sets and looks at in two steps.
--
-- Not modelled: logging, tracing, the messages of errors, the connection that carries responses,
-- generated protocol code, the command line and the process. The calls of the client that hand on
-- one request and its answer as they are have no definition, either.
pub mod Prelude
pub mod Result
pub mod Codec
pub mod Decimal
pub mod Auth
pub mod Db
pub mod Api
pub mod Files
pub mod Client
pub mod Environment
pub mod Server
pub mod Examples
