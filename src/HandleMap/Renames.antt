-- ===== src/HandleMap/Renames.antt =====
-- `Rename`, `RenameFile` and `RenameDir` of filehandle_map.go.
use irodsfs.Base.{
  ◌≡◌, ◌≢◌, sym, ◌∙◌, ap, ◌↔◌, true, none, some, List, [], Text, same, same_refl, same_ne,
  has_prefix, arith, if◌then◌else◌, Option-cases, inl, inr,
}
use irodsfs.Base.Dict.{lookup, delete, lookup-insert, lookup-delete, contains, Dict, IsRange}
use irodsfs.Types.{FileHandle}
use irodsfs.HandleMap.{
  FileHandleMap, drop_id, remove, get, list_by_path, list_paths_in_dir, collect, dir_prefix,
  move_ids, rename_file, rename,
}
use irodsfs.HandleMap.Lists.{contains-paths_with_prefix}
use irodsfs.HandleMap.Lookups.{ids_at, get-remove}
use irodsfs.HandleMap.Consistency.{IsConsistent}

-- `ListPathsInDir` lists exactly the paths with open handles that begin with the directory and a slash.
pub list_paths_in_dir_lem :
    (order : List Text) (m : FileHandleMap) (dir path : Text)
    → IsRange order m.file_path_id
    → contains path (list_paths_in_dir order m dir) ≡ true
      ↔ ((lookup path m.file_path_id ≢ none) × (has_prefix path (dir_prefix dir) ≡ true))
unfolding list_paths_in_dir
list_paths_in_dir_lem order m dir path r =
    let law = contains-paths_with_prefix order m.file_path_id (dir_prefix dir) path in
    (λ c. let (_, n, p) = law.0 c in (n, p), λ (n, p). law.1 (in_order n, n, p))
  where
    in_order : lookup path m.file_path_id ≢ none → contains path order ≡ true
    in_order n = elim (Option-cases (lookup path m.file_path_id)) [
      | inl e ↦ absurd (n e)
      | inr (ids, e) ↦ (r.covers path).1 (ids, e)
    ]

lookup-rename_file :
    (order : List Text) (m : FileHandleMap) (src dest p : Text) (ids : List Text)
    → lookup src m.file_path_id ≡ some ids
    → lookup p (rename order m src dest).file_path_id
      ≡ (if same dest p then some ids else if same src p then none else lookup p m.file_path_id)
unfolding rename
lookup-rename_file order m src dest p ids e =
    rw (e, rename)
      (rw
        (lookup-insert dest p ids (delete src m.file_path_id), lookup-delete src p m.file_path_id))

rename-handles :
    (order : List Text) (m : FileHandleMap) (src dest : Text)
    → (rename order m src dest).file_handles ≡ m.file_handles
unfolding rename
rename-handles order m src dest = ground arith

rename-rename_file :
    (order : List Text) (m : FileHandleMap) (src dest : Text) (ids : List Text)
    → lookup src m.file_path_id ≡ some ids
    → rename order m src dest ≡ rename_file m src dest
unfolding rename rename_file move_ids
rename-rename_file order m src dest ids e = ground arith

-- `Rename` of a path that has open handles moves their list to the new path, as `RenameFile` does:
-- the new path lists what the old one did, the old one lists nothing unless it is the new one, and
-- the lists of all other paths stay. The handles themselves, and the paths that they hold, stay too.
pub rename_open_file :
    (order : List Text) (m : FileHandleMap) (src dest : Text)
    → lookup src m.file_path_id ≢ none
    → let m' = rename order m src dest in
      (m' ≡ rename_file m src dest)
      × (list_by_path m' dest ≡ list_by_path m src)
      × (src ≢ dest → list_by_path m' src ≡ [])
      × ((p : Text) → p ≢ src → p ≢ dest → list_by_path m' p ≡ list_by_path m p)
      × (m'.file_handles ≡ m.file_handles)
unfolding list_by_path collect
rename_open_file order m src dest n = elim (Option-cases (lookup src m.file_path_id)) [
  | inl e ↦ absurd (n e)
  | inr (ids, e) ↦ (
    rename-rename_file order m src dest ids e,
    rw (
      lookup-rename_file order m src dest dest ids e,
      rename-handles order m src dest,
      same_refl dest,
      e,
    ),
    λ d. rw (
      lookup-rename_file order m src dest src ids e,
      same_ne dest src (λ x. d (sym x)),
      same_refl src,
    ),
    λ p a b. rw (
      lookup-rename_file order m src dest p ids e,
      rename-handles order m src dest,
      same_ne dest p (λ x. b (sym x)),
      same_ne src p (λ x. a (sym x)),
    ),
    rename-handles order m src dest,
  )
]

drop_id_absent :
    (id path : Text) (index : Dict (List Text))
    → lookup path index ≡ none
    → drop_id id path index ≡ index
unfolding drop_id
drop_id_absent id path index e = rw (e, drop_id)

remove-index :
    (m : FileHandleMap) (id : Text) (h : FileHandle)
    → lookup id m.file_handles ≡ some h
    → (remove m id).file_path_id ≡ drop_id id h.path m.file_path_id
unfolding remove
remove-index m id h e = rw (e, remove)

stale-index :
    (order : List Text) (m : FileHandleMap) (h : FileHandle) (dest : Text)
    → IsConsistent m
    → get m h.id ≡ some h
    → h.path ≢ dest
    → lookup dest (remove (rename order m h.path dest) h.id).file_path_id
      ≡ lookup h.path m.file_path_id
unfolding get contains
stale-index order m h dest v g n = elim (Option-cases (lookup h.path m.file_path_id)) [
  | inl e ↦ cc (sym (rw e at (v.indexed h.id h g)))
  | inr (ids, e) ↦
      let moved = λ (p : Text). lookup-rename_file order m h.path dest p ids e in
      rw
        (
          remove-index (rename order m h.path dest) h.id h
              (ap (lookup h.id) (rename-handles order m h.path dest) ∙ g),
          drop_id_absent h.id h.path (rename order m h.path dest).file_path_id
              (moved h.path ∙ rw (same_ne dest h.path (λ x. n (sym x)), same_refl h.path)),
          moved dest,
          same_refl dest,
        )
        (sym e)
]

-- The bug of the path that a handle keeps: after a rename to another path, removing the handle leaves
-- its ID in the list of the new path for good.
pub remove_after_rename_leaks :
    (order : List Text) (m : FileHandleMap) (h : FileHandle) (dest : Text)
    → IsConsistent m
    → get m h.id ≡ some h
    → h.path ≢ dest
    → let m' = remove (rename order m h.path dest) h.id in
      (get m' h.id ≡ none) × (contains h.id (ids_at m' dest) ≡ true) × (¬ IsConsistent m')
unfolding get
remove_after_rename_leaks order m h dest v g n = (gone, listed, λ w. stale w)
  where
    gone : lookup h.id (remove (rename order m h.path dest) h.id).file_handles ≡ none
    gone = rw (get-remove (rename order m h.path dest) h.id h.id, same_refl h.id)

    listed : contains h.id (ids_at (remove (rename order m h.path dest) h.id) dest) ≡ true
    listed = rw (stale-index order m h dest v g n) (v.indexed h.id h g)

    stale : ¬ IsConsistent (remove (rename order m h.path dest) h.id)
    stale w = let (x, e, q) = w.backed dest h.id listed in cc (sym gone ∙ e)
