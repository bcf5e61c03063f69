-- ===== src/Types.antt =====
-- The values that the parts of irodsfs/ pass to one another: FUSE error numbers, iRODS open modes,
-- and the fields of a `FileHandle` (irodsfs/filehandle.go) that never change.
use irodsfs.Base.{Bool, true, false, Text}

-- `fusefs.OK` and the `syscall.Errno` values that the handlers return.
pub data Errno : Type 0 where
  ok eperm enoent eagain eacces einval erange enotempty enotsup enodata ebadfd econnaborted : Errno
  eremoteio : Errno

-- The modes of go-irodsclient's `FileOpenMode` that irodsfs/irods.go chooses from.
pub data FileOpenMode : Type 0 where
  read_only write_only append write_truncate read_write : FileOpenMode

-- The pointer to a handle, as the maps hold it: its ID, the iRODS path and the mode it was opened
-- with. Its iRODS handle, reader and writer change, and are kept in a store of their own.
pub record FileHandle : Type 0 where
  pub id : Text
  pub path : Text
  pub open_mode : FileOpenMode

-- `errno == fusefs.OK`
abbrev pub is_ok : Errno → Bool
is_ok errno = elim errno [ ok ↦ true | _ ↦ false ]
