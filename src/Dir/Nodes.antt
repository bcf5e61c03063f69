-- ===== src/Dir/Nodes.antt =====
-- dir.go: `renameNode`, over the tree of the nodes that the kernel knows.
pub mod Laws
use irodsfs.Base.{
  ℕ, Bool, true, false, ◌&&◌, ◌==◌, Option, none, some, List, [], ◌∷◌, ◌++◌, Text, same,
  if◌then◌else◌,
}
use irodsfs.Base.Dict.{Dict}
use irodsfs.Env.{External, Cell, Node, dir_node, file_node, Reply, failed, replied}

-- A node with the inode ID, the path and, for a directory, the children, in the order in which they are
-- read. `unknown_tree` is a node that is neither a `Dir` nor a `File`.
mutual
  pub data Tree : Type 0 where
    dir_tree : ℕ → Text → Forest → Tree
    file_tree : ℕ → Text → Tree
    unknown_tree : Tree

  pub data Forest : Type 0 where
    no_trees : Forest
    one_and : Tree → Forest → Forest

module _ (E : External) where
  -- The error, if any, and the tree as far as it has been renamed.
  unfoldable mutual
    pub rename_node : Text → Text → Tree → Option (E.Err) × Tree
    rename_node src_path dest_path (dir_tree inode_id path children) =
        let (err, children') = rename_nodes src_path dest_path children in
        elim (E.get_relative_path src_path path) [
          | failed err ↦ (some err, dir_tree inode_id path children)
          | replied rel_path ↦ (err, dir_tree inode_id (E.join_path dest_path rel_path) children')
        ]
    rename_node src_path dest_path (file_tree inode_id path) =
        elim (E.get_relative_path src_path path) [
          | failed err ↦ (some err, file_tree inode_id path)
          | replied rel_path ↦ (none, file_tree inode_id (E.join_path dest_path rel_path))
        ]
    rename_node src_path dest_path unknown_tree = (some E.errorf, unknown_tree)

    pub rename_nodes : Text → Text → Forest → Option (E.Err) × Forest
    rename_nodes src_path dest_path no_trees = (none, no_trees)
    rename_nodes src_path dest_path (one_and tree trees) =
        let (err, tree') = rename_node src_path dest_path tree in
        let (err', trees') = rename_nodes src_path dest_path trees in
        elim err [
          | some err ↦ (some err, one_and tree' trees)
          | none ↦ (err', one_and tree' trees')
        ]

-- A handle points to a file node. The node as it is after the tree has been renamed.
unfoldable mutual
  pub relocate : Tree → Tree → Node → Node
  relocate (dir_tree i p l) (dir_tree j q m) node = relocate_in l m node
  relocate (dir_tree i p l) (file_tree j q) node = node
  relocate (dir_tree i p l) unknown_tree node = node
  relocate (file_tree i p) (dir_tree j q m) node = node
  relocate (file_tree i p) (file_tree j q) (dir_node k r) = dir_node k r
  relocate (file_tree i p) (file_tree j q) (file_node k r) =
      if (i == k) && same p r then file_node j q else file_node k r
  relocate (file_tree i p) unknown_tree node = node
  relocate unknown_tree tree node = node

  pub relocate_in : Forest → Forest → Node → Node
  relocate_in no_trees m node = node
  relocate_in (one_and t l) no_trees node = node
  relocate_in (one_and t l) (one_and u m) node = relocate_in l m (relocate t u node)

module _ (E : External) where
  unfoldable pub relocate_cells : Tree → Tree → Dict (Cell E) → Dict (Cell E)
  unfolding relocate
  relocate_cells before after [] = []
  relocate_cells before after ((id, cell) ∷ cells) =
      let rest = relocate_cells before after cells in
      elim cell.file [
        | none ↦ (id, cell) ∷ rest
        | some node ↦ (id, record cell { file = some (relocate before after node) }) ∷ rest
      ]
