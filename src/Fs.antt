-- ===== src/Fs.antt =====
-- fs.go: `Root` and `Stop` of `IRODSFS`. `Requests` joins the handlers of dir.go, file.go and
-- filehandle.go, for what they have in common.
pub mod Requests
pub mod Life
use irodsfs.Base.{Bool, true, false, Option, none, some, codes, if◌then◌else◌}
use irodsfs.Types.{Errno, eremoteio, econnaborted}
use irodsfs.Env.{
  External, Settings, Sys, Node, dir_node, Reply, failed, replied, ◌>>=◌, ◌>>◌, return, ask, call,
  observe, some_or, unless_terminated, body,
}
use irodsfs.Dir.{new_irods_root}

module _ (E : External) where
  unfoldable pub root : Sys E → Reply Errno Node × Sys E
  root = body do
    unless_terminated (failed econnaborted)
    vpath_entry ← observe (E.get_entry (codes "/"))
    vpath_entry ← some_or vpath_entry (failed eremoteio)
    (if E.is_virtual_dir_entry vpath_entry
        then (do
          inode_id ← ask (E.inode_for_vpath_entry_id (E.virtual_dir_entry vpath_entry).id)
          return (replied (dir_node inode_id (codes "/"))))
        else (do reply ← call (new_irods_root E vpath_entry); return reply))

  -- The error of unmounting is only logged.
  unfoldable pub stop : Sys E → Sys E
  stop s =
      if s.terminated then s else record s { terminated = true; world = (E.unmount_fuse s.world).1 }
