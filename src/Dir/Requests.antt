-- ===== src/Dir/Requests.antt =====
-- The requests to a directory node, for what all the handlers of dir.go have in common.
use irodsfs.Base.{◌≡◌, ℕ, true, List, Text, refl}
use irodsfs.Types.{Errno, econnaborted}
use irodsfs.Env.{External, Settings, Sys}
use irodsfs.Dir.Frames.{
  Kept, getattr-Kept, setattr-Kept, opendir-Kept, readdir-Kept, fsync-Kept, lookup-Kept, rmdir-Kept,
  unlink-Kept, mkdir-Kept, listxattr-Kept, getxattr-Kept, setxattr-Kept, removexattr-Kept,
}
use irodsfs.Dir.Attrs.{getattr, setattr, lookup, opendir, readdir, fsync}
use irodsfs.Dir.Xattrs.{listxattr, getxattr, setxattr, removexattr}
use irodsfs.Dir.Changes.{rmdir, unlink, mkdir}

-- The requests that answer an error, or an error and more, but for creating a file.
pub data Request : Type 0 where
  to_getattr to_setattr to_opendir to_readdir to_fsync : Request
  to_lookup to_rmdir to_unlink to_mkdir : Text → Request
  to_listxattr : List ℕ → Request
  to_getxattr : Text → List ℕ → Request
  to_setxattr : Text → Text → Request
  to_removexattr : Text → Request

module _ (E : External) (fs : Settings) where
  -- The error that the handler answers, and the state that it leaves.
  abbrev pub handle : Text → Request → Sys E → Errno × Sys E
  handle path to_getattr s = let (r, s') = getattr E fs path s in (r.0, s')
  handle path to_setattr s = setattr E fs s
  handle path to_opendir s = opendir E fs path s
  handle path to_readdir s = let (r, s') = readdir E fs path s in (r.1, s')
  handle path to_fsync s = fsync E fs s
  handle path (to_lookup name) s = let (r, s') = lookup E fs path name s in (r.1, s')
  handle path (to_rmdir name) s = rmdir E fs path name s
  handle path (to_unlink name) s = unlink E fs path name s
  handle path (to_mkdir name) s = let (r, s') = mkdir E fs path name s in (r.1, s')
  handle path (to_listxattr dest) s = let (r, s') = listxattr E fs path dest s in (r.1, s')
  handle path (to_getxattr attr dest) s = let (r, s') = getxattr E fs path attr dest s in (r.1, s')
  handle path (to_setxattr attr value) s = setxattr E fs path attr value s
  handle path (to_removexattr attr) s = removexattr E fs path attr s

  -- Once the file system is terminated, every request to a directory answers `ECONNABORTED` and
  -- changes nothing: neither the handles nor the operation counter nor the server.
  pub handle-terminated :
      (path : Text) (r : Request) (s : Sys E)
      → s.terminated ≡ true
      → handle path r s ≡ (econnaborted, s)
  unfolding getattr setattr opendir readdir fsync lookup rmdir unlink mkdir listxattr getxattr
      setxattr removexattr
  handle-terminated path to_getattr s e = rw e refl
  handle-terminated path to_setattr s e = rw e refl
  handle-terminated path to_opendir s e = rw e refl
  handle-terminated path to_readdir s e = rw e refl
  handle-terminated path to_fsync s e = rw e refl
  handle-terminated path (to_lookup name) s e = rw e refl
  handle-terminated path (to_rmdir name) s e = rw e refl
  handle-terminated path (to_unlink name) s e = rw e refl
  handle-terminated path (to_mkdir name) s e = rw e refl
  handle-terminated path (to_listxattr dest) s e = rw e refl
  handle-terminated path (to_getxattr attr dest) s e = rw e refl
  handle-terminated path (to_setxattr attr value) s e = rw e refl
  handle-terminated path (to_removexattr attr) s e = rw e refl

  -- No request to a directory but one to create a file opens, closes or renames a handle, changes a
  -- handle's state, or terminates the file system.
  pub handle-Kept : (path : Text) (r : Request) (s : Sys E) → Kept E fs s (handle path r s).1
  handle-Kept path to_getattr s = getattr-Kept E fs path s
  handle-Kept path to_setattr s = setattr-Kept E fs s
  handle-Kept path to_opendir s = opendir-Kept E fs path s
  handle-Kept path to_readdir s = readdir-Kept E fs path s
  handle-Kept path to_fsync s = fsync-Kept E fs s
  handle-Kept path (to_lookup name) s = lookup-Kept E fs path name s
  handle-Kept path (to_rmdir name) s = rmdir-Kept E fs path name s
  handle-Kept path (to_unlink name) s = unlink-Kept E fs path name s
  handle-Kept path (to_mkdir name) s = mkdir-Kept E fs path name s
  handle-Kept path (to_listxattr dest) s = listxattr-Kept E fs path dest s
  handle-Kept path (to_getxattr attr dest) s = getxattr-Kept E fs path attr dest s
  handle-Kept path (to_setxattr attr value) s = setxattr-Kept E fs path attr value s
  handle-Kept path (to_removexattr attr) s = removexattr-Kept E fs path attr s
