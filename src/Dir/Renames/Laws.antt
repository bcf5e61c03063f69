-- ===== src/Dir/Renames/Laws.antt =====
-- What `Rename` of dir.go does to the open handles.
use irodsfs.Base.{
  ◌≡◌, ◌≢◌, inl, inr, refl, false, arith, Option, some, none, List, Text, if◌then◌else◌, Bool-cases,
}
use irodsfs.Types.{Errno, is_ok, ok, eremoteio}
use irodsfs.Env.{
  External, Settings, Sys, Exit, Exit-cases, returned, running, get_next_operation_id,
}
use irodsfs.HandleMap.{rename}
use irodsfs.Irods.Changes.{irods_rename}
use irodsfs.Dir.Nodes.{Tree, rename_node, relocate_cells}
use irodsfs.Dir.Renames.{rename_entry, rename_paths, update_nodes}
use irodsfs.Dir.Renames.Paths.{
  SameHandles, ServerPaths, irods_rename-SameHandles, rename_paths-SameHandles,
  rename_paths-ServerPaths,
}

module _ (E : External) (fs : Settings) where
  abbrev pub answer : Option Tree → Errno → Errno × Option Tree
  answer child errno = (errno, child)

  -- What follows the server's answer.
  abbrev renamed :
      List Text
      → Text
      → Text
      → Text
      → Text
      → Option Tree
      → Errno
      → Sys E
      → (Errno × Option Tree) × Sys E
  renamed order src_path dest_path src dest none errno s =
      ((if is_ok errno then eremoteio else errno, none), s)
  renamed order src_path dest_path src dest (some tree) errno s =
      if is_ok errno
      then (let (tree', s') = update_nodes E fs order src_path dest_path src dest tree s in
          ((ok, some tree'), s'))
      else ((errno, some tree), s)

  -- Before the server is asked to rename.
  rename_refused :
      (order : List Text) (path name new_path new_name : Text) (child : Option Tree) (s : Sys E)
      (x : Errno × Option Tree)
      → let s1 = (get_next_operation_id s).1 in
        let paths =
          rename_paths E fs
            (E.join_path path name)
            (E.join_path new_path new_name)
            (answer child)
            s1 in
        s.terminated ≡ false
        → paths.0 ≡ returned x
        → rename_entry E fs order path name (some new_path) new_name child s ≡ (x, paths.1)
  unfolding rename_entry
  rename_refused order path name new_path new_name child s x t e = ground (arith, t, e)

  rename_asked :
      (order : List Text) (path name new_path new_name : Text) (child : Option Tree) (s : Sys E)
      (src dest : Text)
      → let s1 = (get_next_operation_id s).1 in
        let src_path = E.join_path path name in
        let dest_path = E.join_path new_path new_name in
        let paths = rename_paths E fs src_path dest_path (answer child) s1 in
        let (errno, s3) = irods_rename E src dest paths.1 in
        s.terminated ≡ false
        → paths.0 ≡ running (src, dest)
        → rename_entry E fs order path name (some new_path) new_name child s
          ≡ renamed order src_path dest_path src dest child errno s3
  unfolding rename_entry
  rename_asked order path name new_path new_name none s src dest t e = ground (arith, t, e)
  rename_asked order path name new_path new_name (some tree) s src dest t e = ground (arith, t, e)

  -- The state in which the server is asked to rename: an operation ID has been drawn and the mapped
  -- collections have been brought up to date.
  abbrev pub up_to_date :
      Text → Text → Option Tree → Sys E → Exit (Errno × Option Tree) (Text × Text) × Sys E
  up_to_date src_path dest_path child s =
      rename_paths E fs src_path dest_path (answer child) (get_next_operation_id s).1

  -- What a `Rename` answers with `OK`, given the two paths in the mount, the child, and the state before
  -- and after.
  abbrev pub Moved : List Text → Text → Text → Option Tree → Sys E → Option Tree → Sys E → Type 0
  Moved order src_path dest_path child s child' s' =
      (src : Text) × (dest : Text) × ServerPaths E fs src_path dest_path s src dest
      × (let s2 = (up_to_date src_path dest_path child s).1 in
          ((irods_rename E src dest s2).0 ≡ ok) × (s'.world ≡ (irods_rename E src dest s2).1.world))
      × (s'.file_handle_map ≡ rename order s.file_handle_map src dest)
      × (s'.terminated ≡ s.terminated)
      × (tree : Tree) × (child ≡ some tree)
      × (let tree' = (rename_node E src_path dest_path tree).1 in
          (child' ≡ some tree') × (s'.cells ≡ relocate_cells E tree tree' s.cells))

  renamed_lem :
      (order : List Text) (src_path dest_path src dest : Text) (child : Option Tree) (s : Sys E)
      → SameHandles E fs s (irods_rename E src dest (up_to_date src_path dest_path child s).1).1
      → ServerPaths E fs src_path dest_path s src dest
      → let (errno, s3) = irods_rename E src dest (up_to_date src_path dest_path child s).1 in
        let ((errno, child'), s') = renamed order src_path dest_path src dest child errno s3 in
        (errno ≢ ok → SameHandles E fs s s' × (child' ≡ child))
        × (errno ≡ ok → Moved order src_path dest_path child s child' s')
  renamed_lem order src_path dest_path src dest none s same paths =
      (λ q. ground (arith, same), λ q. absurd (ground (arith, q)))
  renamed_lem order src_path dest_path src dest (some tree) s same paths =
      let s2 = (up_to_date src_path dest_path (some tree) s).1 in
      elim (Bool-cases (is_ok (irods_rename E src dest s2).0)) [
        | inr o ↦ (λ q. ground (arith, o, same), λ q. absurd (ground (arith, o, q)))
        | inl o ↦ (
          λ q. absurd (ground (arith, o, q)),
          λ q. (
            src,
            dest,
            paths,
            (ground (arith, o), ground (arith, o)),
            ground (arith, o, same),
            ground (arith, o, same),
            tree,
            refl,
            (ground (arith, o), ground (arith, o, same)),
          ),
        )
      ]

  pub rename_entry_lem :
      (order : List Text) (path name : Text) (new_parent : Option Text) (new_name : Text)
      (child : Option Tree) (s : Sys E)
      → s.terminated ≡ false
      → let ((errno, child'), s') = rename_entry E fs order path name new_parent new_name child s in
        (errno ≢ ok → SameHandles E fs s s' × (child' ≡ child))
        × (errno ≡ ok
            → (new_path : Text) × (new_parent ≡ some new_path)
              × Moved order
                  (E.join_path path name)
                  (E.join_path new_path new_name)
                  child
                  s
                  child'
                  s')
  unfolding rename_entry get_next_operation_id
  rename_entry_lem order path name none new_name child s t =
      (λ e. ground (arith, t, e), λ e. absurd (ground (arith, t, e)))
  rename_entry_lem order path name (some new_path) new_name child s t =
      let s1 = (get_next_operation_id s).1 in
      let src_path = E.join_path path name in
      let dest_path = E.join_path new_path new_name in
      let (k, refused) = rename_paths-SameHandles E fs src_path dest_path (answer child) s1 in
      let s2 = (rename_paths E fs src_path dest_path (answer child) s1).1 in
      elim (Exit-cases (rename_paths E fs src_path dest_path (answer child) s1).0) [
        | inl (x, e) ↦
            let f = refused x e in
            rw (rename_refused order path name new_path new_name child s x t e)
              (λ q. ground (arith, f, k), λ q. absurd (ground (arith, f, q)))
        | inr ((src, dest), e) ↦
            let same : SameHandles E fs s (irods_rename E src dest s2).1 =
              ground (arith, k, irods_rename-SameHandles E fs src dest s2) in
            let paths =
              rename_paths-ServerPaths E fs src_path dest_path src dest (answer child) s1 e in
            let (refused, moved) =
              renamed_lem order src_path dest_path src dest child s same paths in
            rw (rename_asked order path name new_path new_name child s src dest t e)
              (refused, λ q. (new_path, refl, moved q))
      ]

  -- When the server has renamed the entry but the kernel knows no node under the name, `Rename` answers
  -- `EREMOTEIO` and leaves the open handles under the source's path.
  pub renamed_unseen :
      (order : List Text) (path name new_path new_name src dest : Text) (s : Sys E)
      → let s1 = (get_next_operation_id s).1 in
        let src_path = E.join_path path name in
        let dest_path = E.join_path new_path new_name in
        let paths = rename_paths E fs src_path dest_path (answer none) s1 in
        let (errno, s3) = irods_rename E src dest paths.1 in
        s.terminated ≡ false
        → paths.0 ≡ running (src, dest)
        → errno ≡ ok
        → let (r, s') = rename_entry E fs order path name (some new_path) new_name none s in
          (r ≡ (eremoteio, none)) × SameHandles E fs s s' × (s'.world ≡ s3.world)
  unfolding get_next_operation_id
  renamed_unseen order path name new_path new_name src dest s t e o =
      let s1 = (get_next_operation_id s).1 in
      let src_path = E.join_path path name in
      let dest_path = E.join_path new_path new_name in
      let (k, refused) = rename_paths-SameHandles E fs src_path dest_path (answer none) s1 in
      let s2 = (rename_paths E fs src_path dest_path (answer none) s1).1 in
      let l = irods_rename-SameHandles E fs src dest s2 in
      rw (rename_asked order path name new_path new_name none s src dest t e)
        (ground (arith, o), ground (arith, k, l), refl)
