-- ===== src/Dir/Renames/Stale.antt =====
-- The open handles whose file `Rename` of dir.go has moved.
use irodsfs.Base.{
  ◌≡◌, ◌≢◌, refl, subst, ap, ◌∙◌, ℕ, false, arith, Option, some, none, List, Text, [], ◌∷◌,
  Option-cases, Bool-cases, inl, inr, same,
}
use irodsfs.Base.Dict.{Dict, lookup}
use irodsfs.Base.Ints.{ℤ}
use irodsfs.Types.{ok, eremoteio, FileHandle}
use irodsfs.Env.{External, Settings, Sys, Cell, failed}
use irodsfs.HandleMap.{get, rename, list_by_path}
use irodsfs.HandleMap.Renames.{rename_open_file}
use irodsfs.Handle.{on_handle}
use irodsfs.Handle.Transfers.{read, init_lazy}
use irodsfs.Dir.Nodes.{Tree, rename_node, relocate, relocate_cells}
use irodsfs.Dir.Renames.{rename_entry}
use irodsfs.Dir.Renames.Paths.{ServerPaths}
use irodsfs.Dir.Renames.Laws.{Moved, rename_entry_lem}

module _ (E : External) (fs : Settings) where
  -- Moving the nodes leaves the parts of a cell that come from the server.
  lookup-relocate_cells :
      (before after : Tree) (cells : Dict (Cell E)) (id : Text) (cell : Cell E)
      → lookup id cells ≡ some cell
      → (cell' : Cell E) × (lookup id (relocate_cells E before after cells) ≡ some cell')
        × (cell'.irods_file_handle ≡ cell.irods_file_handle)
  unfolding lookup relocate_cells
  lookup-relocate_cells before after [] id cell e = absurd (ground (arith, e))
  lookup-relocate_cells before after ((j, c) ∷ cells) id cell e = elim (Bool-cases (same j id)) [
    | inl f ↦ elim (Option-cases c.file) [
      | inl n ↦ (c, ground (arith, f, n), ground (arith, f, e))
      | inr (node, n) ↦ (
        record c { file = some (relocate before after node) },
        ground (arith, f, n),
        ground (arith, f, e),
      )
    ]
    | inr f ↦
        let (cell', l, k) =
          lookup-relocate_cells before after cells id cell (ground (arith, f, e)) in
        elim (Option-cases c.file) [
          | inl n ↦ (cell', ground (arith, f, n, l), k)
          | inr (node, n) ↦ (cell', ground (arith, f, n, l), k)
        ]
  ]

  rename_entry-Moved :
      (order : List Text) (path name new_path new_name : Text) (child child' : Option Tree)
      (s s' : Sys E)
      → s.terminated ≡ false
      → rename_entry E fs order path name (some new_path) new_name child s ≡ ((ok, child'), s')
      → Moved E fs order (E.join_path path name) (E.join_path new_path new_name) child s child' s'
  rename_entry-Moved order path name new_path new_name child child' s s' t e =
      let law = rename_entry_lem E fs order path name (some new_path) new_name child s t in
      let (p, q, moved) =
        subst
          (λ r.
            r.0.0 ≡ ok
            → (p : Text) × (some new_path ≡ some p)
              × Moved E fs order (E.join_path path name) (E.join_path p new_name) child s r.0.1 r.1)
          e law.1 refl in
      let same_path : p ≡ new_path = ground (arith, q) in
      subst
        (λ p. Moved E fs order (E.join_path path name) (E.join_path p new_name) child s child' s')
        same_path moved

  -- The paths on the server are determined.
  ServerPaths-unique :
      (src_path dest_path : Text) (s : Sys E) (a b c d : Text)
      → ServerPaths E fs src_path dest_path s a b
      → ServerPaths E fs src_path dest_path s c d
      → (a ≡ c) × (b ≡ d)
  ServerPaths-unique src_path dest_path s a b c d (v, n, p, w, m, q) (v', n', p', w', m', q') =
      (ground (arith, n, p, n', p'), ground (arith, m, q, m', q'))

  -- A handle that has not been used, where the server no longer has a file at its path.
  unused_read :
      (dest : List ℕ) (offset : ℤ) (h : FileHandle) (cell : Cell E) (s : Sys E) (x : E.Err)
      → lookup h.id s.cells ≡ some cell
      → cell.irods_file_handle ≡ none
      → s.terminated ≡ false
      → (E.open_file h.path h.open_mode s.world).0 ≡ failed x
      → let (answer, s') = on_handle E h (read E fs dest offset) s in
        (answer ≡ some (none, eremoteio)) × (s'.world ≡ (E.open_file h.path h.open_mode s.world).1)
  unfolding read init_lazy
  unused_read dest offset h cell s x l c t o =
      (ground (arith, l, c, t, o), ground (arith, l, c, t, o))

  -- A listed handle that has not been used is left behind by a `Rename` of its file that succeeds, to
  -- another path. The map lists it under the new path and no longer under the old one, but the handle in
  -- it keeps the old path. The next `Read` of it asks the server for the file at the old path, and for
  -- nothing else: if the server, which has renamed it, fails to open a file there, `Read` answers
  -- `EREMOTEIO`, whatever the server has at the new path.
  pub renamed_handle_stale :
      (order : List Text) (path name new_path new_name new : Text) (child child' : Option Tree)
      (s s' : Sys E) (h : FileHandle) (cell : Cell E) (dest : List ℕ) (offset : ℤ) (x : E.Err)
      → s.terminated ≡ false
      → get s.file_handle_map h.id ≡ some h
      → lookup h.path s.file_handle_map.file_path_id ≢ none
      → lookup h.id s.cells ≡ some cell
      → cell.irods_file_handle ≡ none
      → ServerPaths E fs (E.join_path path name) (E.join_path new_path new_name) s h.path new
      → h.path ≢ new
      → rename_entry E fs order path name (some new_path) new_name child s ≡ ((ok, child'), s')
      → (E.open_file h.path h.open_mode s'.world).0 ≡ failed x
      → let (answer, s'') = on_handle E h (read E fs dest offset) s' in
        (get s'.file_handle_map h.id ≡ some h)
        × (list_by_path s'.file_handle_map new ≡ list_by_path s.file_handle_map h.path)
        × (list_by_path s'.file_handle_map h.path ≡ [])
        × (answer ≡ some (none, eremoteio))
        × (s''.world ≡ (E.open_file h.path h.open_mode s'.world).1)
  unfolding get
  renamed_handle_stale order path name new_path new_name new child child' s s' h cell dest offset x
        t g n l c paths other e o =
      let (src, new', moved_paths, asked_server, map, kept, tree, known, (node, cells)) =
        rename_entry-Moved order path name new_path new_name child child' s s' t e in
      let (from, to) =
        ServerPaths-unique (E.join_path path name) (E.join_path new_path new_name) s src new' h.path
          new moved_paths paths in
      let map' : s'.file_handle_map ≡ rename order s.file_handle_map h.path new =
        map
        ∙ ap (λ p. rename order s.file_handle_map p new') from
        ∙ ap (λ p. rename order s.file_handle_map h.path p) to in
      let (one, at_new, at_old, others, handles) =
        rename_open_file order s.file_handle_map h.path new n in
      let (cell', l', c') =
        lookup-relocate_cells tree
          (rename_node E (E.join_path path name) (E.join_path new_path new_name) tree).1 s.cells
          h.id cell l in
      let (answer, asked) =
        unused_read dest offset h cell' s' x (ap (lookup h.id) cells ∙ l') (c' ∙ c) (kept ∙ t) o in
      (
        ap (λ m. get m h.id) map' ∙ ap (lookup h.id) handles ∙ g,
        ap (λ m. list_by_path m new) map' ∙ at_new,
        ap (λ m. list_by_path m h.path) map' ∙ at_old other,
        answer,
        asked,
      )
