-- ===== src/Dir/Nodes/Laws.antt =====
-- What `renameNode` of dir.go makes of the paths of a tree.
use irodsfs.Base.{◌≡◌, refl, arith, none, List, [], ◌∷◌, ◌++◌, map, Text}
use irodsfs.Env.{External, replied}
use irodsfs.Dir.Nodes.{
  Tree, dir_tree, file_tree, unknown_tree, Forest, no_trees, one_and, rename_node, rename_nodes,
}

unfoldable mutual
  pub paths : Tree → List Text
  paths (dir_tree inode_id path children) = path ∷ paths_in children
  paths (file_tree inode_id path) = path ∷ []
  paths unknown_tree = []

  pub paths_in : Forest → List Text
  paths_in no_trees = []
  paths_in (one_and tree trees) = paths tree ++ paths_in trees

module _ (E : External) (src_path dest_path : Text) (rel : Text → Text) where
  -- The path of every node is relative to the source, and every node is a `Dir` or a `File`.
  unfoldable mutual
    pub Movable : Tree → Type 0
    Movable (dir_tree inode_id path children) =
        (E.get_relative_path src_path path ≡ replied (rel path)) × MovableIn children
    Movable (file_tree inode_id path) = E.get_relative_path src_path path ≡ replied (rel path)
    Movable unknown_tree = ⊥

    pub MovableIn : Forest → Type 0
    MovableIn no_trees = Unit {0}
    MovableIn (one_and tree trees) = Movable tree × MovableIn trees

  abbrev pub moved : Text → Text
  moved path = E.join_path dest_path (rel path)

  map-append : (ps qs : List Text) → map moved (ps ++ qs) ≡ map moved ps ++ map moved qs
  map-append [] qs = refl
  map-append (p ∷ ps) qs = ground (arith, map-append ps qs)

  mutual
    unfolding Movable MovableIn paths paths_in rename_node rename_nodes

    rename_tree :
        (tree : Tree)
        → Movable tree
        → let (err, tree') = rename_node E src_path dest_path tree in
          (err ≡ none) × (paths tree' ≡ map moved (paths tree))
    rename_tree (dir_tree inode_id path children) (r, m) =
        ground (arith, r, rename_trees children m)
    rename_tree (file_tree inode_id path) r = ground (arith, r)
    rename_tree unknown_tree m = absurd m

    rename_trees :
        (trees : Forest)
        → MovableIn trees
        → let (err, trees') = rename_nodes E src_path dest_path trees in
          (err ≡ none) × (paths_in trees' ≡ map moved (paths_in trees))
    rename_trees no_trees m = (refl, refl)
    rename_trees (one_and tree trees) (m, n) =
        ground (
          arith,
          rename_tree tree m,
          rename_trees trees n,
          map-append (paths tree) (paths_in trees),
        )

  -- Where every path of the tree has a path relative to the source, `renameNode` reports no error and
  -- puts that path below the destination, for each node of the tree and nothing else.
  pub rename_node_lem :
      (tree : Tree)
      → Movable tree
      → let (err, tree') = rename_node E src_path dest_path tree in
        (err ≡ none) × (paths tree' ≡ map moved (paths tree))
  rename_node_lem tree m = rename_tree tree m
