-- ===== src/Fs/Requests.antt =====
-- The requests of the kernel to the nodes and the handles, each with the error that it answers.
pub mod Stopped
pub mod Frames
pub mod Consistency
use irodsfs.Base.{ℕ, Option, none, some, List, Text}
use irodsfs.Base.Ints.{ℤ}
use irodsfs.Types.{Errno, FileHandle}
use irodsfs.Env.{External, Settings, Sys, Cell}
use irodsfs.Handle.{on_handle}
use irodsfs.Handle.Transfers
use irodsfs.Handle.Closing
use irodsfs.Handle.LockRequests.{FileLock}
use irodsfs.Handle.Nodes
use irodsfs.File.Attrs
use irodsfs.File.Xattrs
use irodsfs.File.Opens
use irodsfs.Handle.Closing.Laws
use irodsfs.Dir.Changes
use irodsfs.Dir.Requests

-- The requests to a file node.
pub data FileRequest : Type 0 where
  to_getattr : FileRequest
  to_setattr : Option ℕ → FileRequest
  to_truncate : ℕ → FileRequest
  to_listxattr : List ℕ → FileRequest
  to_getxattr : Text → List ℕ → FileRequest
  to_setxattr : Text → Text → FileRequest
  to_removexattr : Text → FileRequest

-- The requests to a file handle. A lock request has the order in which the locks are read.
pub data HandleRequest : Type 0 where
  to_getattr to_flush to_fsync to_release : HandleRequest
  to_setattr : Option ℕ → HandleRequest
  to_read to_write : List ℕ → ℤ → HandleRequest
  to_truncate : ℕ → HandleRequest
  to_getlk to_setlk to_setlkw : List Text → FileLock → HandleRequest

pub data Request : Type 0 where
  dir : Text → Requests.Request → Request
  create : Text → Text → ℕ → Request
  file : Text → FileRequest → Request
  open_file : ℕ → Text → ℕ → Request
  handle : FileHandle → HandleRequest → Request

abbrev pub errno_of : {A : Type 0} → Option (Errno × A) → Option Errno
errno_of none = none
errno_of (some (errno, a)) = some errno

module _ (E : External) (fs : Settings) where
  abbrev pub serve_file : Text → FileRequest → Sys E → Errno × Sys E
  serve_file path FileRequest.to_getattr s = let (r, s') = Attrs.getattr E fs path s in (r.0, s')
  serve_file path (FileRequest.to_setattr size) s =
      let (r, s') = Attrs.setattr E fs path size s in (r.0, s')
  serve_file path (FileRequest.to_truncate size) s = Attrs.truncate E fs path size s
  serve_file path (to_listxattr dest) s =
      let (r, s') = Xattrs.listxattr E fs path dest s in (r.1, s')
  serve_file path (to_getxattr attr dest) s =
      let (r, s') = Xattrs.getxattr E fs path attr dest s in (r.1, s')
  serve_file path (to_setxattr attr value) s = Xattrs.setxattr E fs path attr value s
  serve_file path (to_removexattr attr) s = Xattrs.removexattr E fs path attr s

  -- `none` where the source would follow a nil pointer.
  abbrev pub serve_handle :
      HandleRequest → FileHandle → Cell E → Sys E → (Option Errno × Cell E) × Sys E
  serve_handle HandleRequest.to_getattr h c s =
      let ((r, c'), s') = Nodes.getattr E fs h c s in ((errno_of r, c'), s')
  serve_handle (HandleRequest.to_setattr size) h c s =
      let ((r, c'), s') = Nodes.setattr E fs size h c s in ((errno_of r, c'), s')
  serve_handle (to_read dest offset) h c s =
      let ((r, c'), s') = Transfers.read E fs dest offset h c s in ((some r.1, c'), s')
  serve_handle (to_write bytes offset) h c s =
      let ((r, c'), s') = Transfers.write E fs bytes offset h c s in ((some r.1, c'), s')
  serve_handle (HandleRequest.to_truncate size) h c s =
      let ((r, c'), s') = Transfers.truncate E fs size h c s in ((some r, c'), s')
  serve_handle to_flush h c s = let ((r, c'), s') = Transfers.flush E fs h c s in ((some r, c'), s')
  serve_handle to_fsync h c s = let ((r, c'), s') = Transfers.fsync E fs h c s in ((some r, c'), s')
  serve_handle to_release h c s =
      let ((r, c'), s') = Closing.release E fs h c s in
      ((some r.0, c'), Closing.Laws.finish E fs h r.1 s')
  serve_handle (to_getlk order lk) h c s =
      let ((r, c'), s') = Nodes.getlk E fs order lk h c s in ((errno_of r, c'), s')
  serve_handle (to_setlk order lk) h c s =
      let ((r, c'), s') = Nodes.setlk E fs order lk h c s in ((r, c'), s')
  serve_handle (to_setlkw order lk) h c s =
      let ((r, c'), s') = Nodes.setlkw E fs order lk h c s in ((r, c'), s')

  abbrev pub flatten : {A : Type 0} → Option (Option A) → Option A
  flatten none = none
  flatten (some o) = o

  -- The error that the request answers, and the state in which it leaves the file system, with the
  -- goroutine that `Release` may start run to its end.
  unfoldable pub serve : Request → Sys E → Option Errno × Sys E
  serve (dir path r) s = let (e, s') = Requests.handle E fs path r s in (some e, s')
  serve (create path name flags) s =
      let (r, s') = Changes.create E fs path name flags s in (some r.3, s')
  serve (file path r) s = let (e, s') = serve_file path r s in (some e, s')
  serve (open_file inode_id path flags) s =
      let (r, s') = Opens.open_file E fs inode_id path flags s in (some r.2, s')
  serve (handle h r) s = let (e, s') = on_handle E h (serve_handle r) s in (flatten e, s')
