-- ===== src/Dir/Renames.antt =====
-- dir.go: `Rename` of `Dir`.
pub mod Paths
pub mod Laws
pub mod Stale
use irodsfs.Base.{ℕ, Bool, true, false, not, Option, none, some, List, Text}
use irodsfs.Types.{Errno, is_ok, ok, eperm, eremoteio, econnaborted}
use irodsfs.HandleMap.{rename}
use irodsfs.Env.{
  External, Settings, Sys, M, ◌>>=◌, ◌>>◌, return, return_if, call, or_return, nil_or, some_or,
  unless_terminated, body, get_next_operation_id,
}
use irodsfs.VPath.{ensure_vpath_entry_is_irods_entry, is_vpath_entry_unmodifiable, closest_entry}
use irodsfs.Irods.Changes.{irods_rename}
use irodsfs.Dir.Nodes.{Tree, rename_node, relocate_cells}

module _ (E : External) (fs : Settings) where
  -- The two paths on the server. `r` is what is answered with an error.
  unfoldable pub rename_paths : {R : Type 0} → Text → Text → (Errno → R) → M E R (Text × Text)
  rename_paths target_src_path target_dest_path r = do
    vpath_src_entry ← closest_entry E target_src_path (r eremoteio)
    vpath_dest_entry ← closest_entry E target_dest_path (r eremoteio)
    return_if (is_vpath_entry_unmodifiable E vpath_src_entry target_src_path) (r eperm)
    return_if (is_vpath_entry_unmodifiable E vpath_dest_entry target_dest_path) (r eperm)
    err ← call (ensure_vpath_entry_is_irods_entry E vpath_src_entry)
    nil_or err (λ err. r eremoteio)
    err ← call (ensure_vpath_entry_is_irods_entry E vpath_dest_entry)
    nil_or err (λ err. r eremoteio)
    irods_src_path ←
        or_return (E.get_irods_path vpath_src_entry target_src_path) (λ err. r eremoteio)
    irods_dest_path ←
        or_return (E.get_irods_path vpath_dest_entry target_dest_path) (λ err. r eremoteio)
    call (λ s. ((irods_src_path, irods_dest_path), s))

  -- `renameNode`, whose error is dropped, and `Rename` of the map of open handles, which reads its
  -- paths in the order given. A handle whose file node is renamed sees the new path.
  abbrev pub update_nodes : List Text → Text → Text → Text → Text → Tree → Sys E → Tree × Sys E
  update_nodes order target_src_path target_dest_path irods_src_path irods_dest_path child s =
      let (err, child') = rename_node E target_src_path target_dest_path child in
      (
        child',
        record s {
          cells = relocate_cells E child child' s.cells;
          file_handle_map = rename order s.file_handle_map irods_src_path irods_dest_path;
        },
      )

  -- On the paths of the directory and of the new parent, which is `none` where it is no `Dir`. The child
  -- is what `GetChild` answers once the server has renamed, and it is answered as it is left.
  unfoldable pub rename_entry :
      List Text
      → Text
      → Text
      → Option Text
      → Text
      → Option Tree
      → Sys E
      → (Errno × Option Tree) × Sys E
  rename_entry order path name new_parent new_name child = body do
    unless_terminated (econnaborted, child)
    new_path ← some_or new_parent (eremoteio, child)
    _ ← call get_next_operation_id
    (irods_src_path, irods_dest_path) ←
        rename_paths (E.join_path path name) (E.join_path new_path new_name)
          (λ errno. (errno, child))
    errno ← call (irods_rename E irods_src_path irods_dest_path)
    return_if (not (is_ok errno)) (errno, child)
    child_node ← some_or child (eremoteio, child)
    child_node' ← call (
        update_nodes order (E.join_path path name) (E.join_path new_path new_name) irods_src_path
          irods_dest_path child_node)
    return (ok, some child_node')
