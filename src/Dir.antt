-- ===== src/Dir.antt =====
-- dir.go: the handlers of a directory node, each on the node's path. The mutexes are left out: a call
-- is one step. Log messages are left out.
pub mod Attrs
pub mod Xattrs
pub mod Changes
pub mod Nodes
pub mod Renames
pub mod Frames
pub mod Requests
use irodsfs.Base.{ℕ, true, false, Option, none, some, Text, codes, if◌then◌else◌}
use irodsfs.Types.{Errno, eremoteio}
use irodsfs.Env.{
  External, Settings, Sys, Node, dir_node, Entry, M, Exit, returned, running, Reply, failed,
  replied, ◌>>=◌, ◌>>◌, return, ask, call, read, body,
}
use irodsfs.VPath.{ensure_vpath_entry_is_irods_dir}
use irodsfs.Irods.Attrs.{is_transitive_connection_error}

module _ (E : External) where
  unfoldable pub new_irods_root : E.VPathEntry → Sys E → Reply Errno Node × Sys E
  new_irods_root vpath_entry = body do
    err ← call (ensure_vpath_entry_is_irods_dir E vpath_entry)
    elim err [
      | some err ↦
          if is_transitive_connection_error E err
          then (do
            inode_id ← ask (E.inode_for_vpath_entry (codes "/"))
            return (replied (dir_node inode_id (codes "/"))))
          else return (failed eremoteio)
      | none ↦ do
        entry ← read (λ s. E.irods_entry vpath_entry s.world)
        inode_id ← ask (E.inode_for_irods_entry_id entry.id)
        return (replied (dir_node inode_id (codes "/")))
    ]
