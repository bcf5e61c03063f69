-- ===== src/Lib.antt =====
-- irodsfs, a FUSE file system over iRODS, from its command line to its handlers.
--
-- The program mounts collections of an iRODS server. The kernel's requests reach the methods of `Dir`
-- (irodsfs/dir.go) and `File` (irodsfs/file.go). A method refuses requests after termination, draws an
-- operation ID, finds the entry of the path mapping that is closest to its path, refuses changes of
-- what is read only or virtual (irodsfs/vpath.go), brings the mapped collection up to date, translates
-- the path, and calls a function of irodsfs/irods.go. That function asks the client library, translates
-- its errors and fills in attributes (irodsfs/common.go). Opening makes a file handle
-- (irodsfs/filehandle.go), which is kept in the map of open handles (irodsfs/filehandle_map.go) and has
-- its own byte-range locks (irodsfs/filehandle_locallock.go).
--
-- Files:
--   Base, Base/*      lists, strings as bytes, and Go maps as association lists
--   Types             errors, open modes, the fixed fields of a file handle
--   Locks             filehandle_locallock.go; its children: ranges, `Lock`, `Unlock` and `Get`
--   HandleMap         filehandle_map.go; its children: lookups, the consistency of the two maps,
--                     histories of calls, renames, the abstract view
--   Env               the state of irodsfs/fs.go, the calls of other packages, early returns
--   VPath             vpath.go
--   Irods             irods.go: Access (permissions, flags), Attrs (with common.go and dummy.go), Xattrs
--                     (with xattr.go), Changes, Opens (with the constructors of filehandle.go); each has
--                     a module Laws
--   Handle            filehandle.go: Transfers (initLazy, reading, writing, truncating, flushing), Closing
--                     (Release), LockRequests, Nodes (the methods that go through the file node); States
--                     (the life of a handle), Laziness and Sessions (opening, using and releasing)
--   File              file.go: Paths, Attrs, Xattrs, Opens, LockRequests
--   Dir               dir.go: Attrs, Xattrs, Changes, Nodes and Renames; Requests joins the handlers and
--                     Frames tells what they leave alone
--   Fs                fs.go: Root and Stop; Requests joins the handlers of dir.go, file.go and
--                     filehandle.go; Life makes, starts, stops and releases a file system, and its
--                     Shutdown takes the calls of the signal handler and of `run` in any order
--   Os                what commons/, cmd/ and utils/ call of the operating system and of other packages
--   Users             utils/system_user.go
--   Fuse              utils/fuse.go
--   Config            commons/config.go; Validation (Validate, ParsePoolServiceEndpoint) and Icommands
--                     (commons/icommands.go), each with a module Laws
--   Mounts            the interface of irodsfs/fs.go for cmd/main.go
--   Cmd               Urls (cmd/commons/irods_url.go), Args (args.go; FlagValues and Overrides read the
--                     flags, Steps and Merging take a run apart), Daemon (daemon.go; Handover is the way
--                     of a configuration to the child), Program (cmd/main.go), Words (what they call of
--                     package strings)
--   Tests             runs on small inputs and on a small server
--
-- Each function of the source is a definition with its name in snake case. The packages go-irodsclient,
-- irodsfs-common, irodsfs-pool and go-fuse are not part of the repository: what the source calls of
-- them is the record `External` of Env, a parameter of every definition that uses it, over a world of
-- unknown type that the calls may change. An early `return` is the `returned` of the monad `M`. A
-- `range` over a Go map takes the order of the keys that it produces as an argument, so that theorems
-- hold of every order. A `uint64` that is counted up wraps around, and a length that is returned as
-- `uint32` too; lock ranges and flags are compared only, so that no bound matters. In the
-- handlers recursion is on lists, without fuel.
--
-- The goroutine that Release starts for a handle that reads is a step of its own, close_func. A pointer to
-- a file handle is its fixed fields; those that change are in a store under the handle's ID, and on_handle
-- runs a method on them. A handle points to its file node, whose path Rename changes: update_nodes changes
-- the copies of the node in the store with the tree.
--
-- The program starts in cmd/main.go. A parent reads flags, a configuration file and a URL into a `Config`,
-- corrects its owner and validates it, starts a child and sends the configuration over its standard
-- input; the child validates it again, makes and starts the file system, and reports. A flag's value is
-- what cobra's `Lookup` answers, a function of its name. The world of these modules is that of the record
-- `Os`; an error is `none`, or a constructor of `CommandError` where the source tells errors apart.
--
-- The loop in which the parent waits for the report is the only one that takes fuel: a number of rounds.
-- The statements about it say how many are enough, by the number of lines that the child writes.
--
-- Not modelled here: mutexes (a call is one step), log messages and levels, the tree of nodes that go-fuse
-- keeps (Rename takes the child that it finds), the lock handlers of file.go on a handle of another type,
-- the starting of a process and its pipes, the profiler of cmd/main.go, and
-- commons/version.go, which prints what the build fills in. `Root`, `Stop` and the handlers work over the
-- record `External`, whose unmounting is that of Fuse; the constructors that NewFileSystem calls are the
-- record `Services` of Fs/Life/Calls. `TrimSpace` takes the spaces among ASCII characters only. Numbers of the
-- configuration are integers without a bound; those that a flag gives are of 32 bits, by `ParseInt`.
pub mod Base
pub mod Types
pub mod Locks
pub mod HandleMap
pub mod Env
pub mod VPath
pub mod Irods
pub mod Handle
pub mod File
pub mod Dir
pub mod Fs
pub mod Os
pub mod Users
pub mod Fuse
pub mod Config
pub mod Mounts
pub mod Cmd
mod Tests
