-- ===== src/HandleMap/Lookups.antt =====
-- What each operation of filehandle_map.go does to the two maps, entry by entry.
use irodsfs.Base.{
  ◌≡◌, ◌≢◌, refl, Option, none, some, List, [], ◌∷◌, ◌++◌, Text, same, same_iff, arith,
  if◌then◌else◌, Option-cases, inl, inr,
}
use irodsfs.Base.Dict.{Dict, lookup, delete, lookup-insert, lookup-delete, contains}
use irodsfs.Types.{FileHandle}
use irodsfs.HandleMap.{
  FileHandleMap, ids_or_nil, append_id, add, without, put_ids, drop_id, remove, pop_by_path,
  move_ids,
}
use irodsfs.HandleMap.Lists.{lookup-pop_ids}

-- The IDs that the second map lists under a path.
abbrev pub ids_at : FileHandleMap → Text → List Text
ids_at m path = ids_or_nil (lookup path m.file_path_id)

pub get-add :
    (m : FileHandleMap) (h : FileHandle) (j : Text)
    → lookup j (add m h).file_handles ≡ (if same h.id j then some h else lookup j m.file_handles)
unfolding add
get-add m h j = lookup-insert h.id j h m.file_handles

append_id-ids : (o : Option (List Text)) (id : Text) → append_id o id ≡ ids_or_nil o ++ id ∷ []
append_id-ids none id = refl
append_id-ids (some ids) id = refl

pub ids_at-add :
    (m : FileHandleMap) (h : FileHandle) (p : Text)
    → ids_at (add m h) p ≡ (if same h.path p then ids_at m p ++ h.id ∷ [] else ids_at m p)
unfolding add
ids_at-add m h p =
    rw (lookup-insert h.path p (append_id (lookup h.path m.file_path_id) h.id) m.file_path_id)
      (ground (arith, same_iff h.path p, append_id-ids (lookup h.path m.file_path_id) h.id))

pub get-remove :
    (m : FileHandleMap) (id j : Text)
    → lookup j (remove m id).file_handles ≡ (if same id j then none else lookup j m.file_handles)
unfolding remove
get-remove m id j = elim (Option-cases (lookup id m.file_handles)) [
  | inl e ↦ rw (e, remove) (ground (arith, same_iff id j))
  | inr (h, e) ↦ rw (e, remove) (lookup-delete id j m.file_handles)
]

put_ids-ids :
    (path p : Text) (ids : List Text) (index : Dict (List Text))
    → ids_or_nil (lookup p (put_ids path ids index))
      ≡ (if same path p then ids else ids_or_nil (lookup p index))
put_ids-ids path p [] index = rw (lookup-delete path p index) (ground arith)
put_ids-ids path p (id ∷ ids) index = rw (lookup-insert path p (id ∷ ids) index) (ground arith)

pub drop_id-ids :
    (id path p : Text) (index : Dict (List Text))
    → ids_or_nil (lookup p (drop_id id path index)) ≡ (
        if same path p
        then without id (ids_or_nil (lookup p index))
        else ids_or_nil (lookup p index))
unfolding drop_id
drop_id-ids id path p index = elim (Option-cases (lookup path index)) [
  | inl e ↦ rw (e, drop_id) (ground (arith, same_iff path p))
  | inr (ids, e) ↦
      rw (e, drop_id) (ground (arith, same_iff path p, put_ids-ids path p (without id ids) index))
]

put_ids-ne :
    (path p : Text) (ids : List Text) (index : Dict (List Text))
    → lookup p index ≢ some []
    → lookup p (put_ids path ids index) ≢ some []
put_ids-ne path p [] index n = rw (lookup-delete path p index) (ground arith)
put_ids-ne path p (id ∷ ids) index n = rw (lookup-insert path p (id ∷ ids) index) (ground arith)

pub drop_id-ne :
    (id path p : Text) (index : Dict (List Text))
    → lookup p index ≢ some []
    → lookup p (drop_id id path index) ≢ some []
unfolding drop_id
drop_id-ne id path p index n = elim (Option-cases (lookup path index)) [
  | inl e ↦ rw (e, drop_id) n
  | inr (ids, e) ↦ rw (e, drop_id) (put_ids-ne path p (without id ids) index n)
]

pub get-pop_by_path :
    (m : FileHandleMap) (path j : Text)
    → lookup j (pop_by_path m path).1.file_handles
      ≡ (if contains j (ids_at m path) then none else lookup j m.file_handles)
unfolding pop_by_path contains
get-pop_by_path m path j = elim (Option-cases (lookup path m.file_path_id)) [
  | inl e ↦ rw (e, pop_by_path)
  | inr (ids, e) ↦ rw (e, pop_by_path) (lookup-pop_ids ids m.file_handles j)
]

pub index-pop_by_path :
    (m : FileHandleMap) (path p : Text)
    → lookup p (pop_by_path m path).1.file_path_id
      ≡ (if same path p then none else lookup p m.file_path_id)
unfolding pop_by_path
index-pop_by_path m path p = elim (Option-cases (lookup path m.file_path_id)) [
  | inl e ↦ rw (e, pop_by_path) (ground (arith, same_iff path p))
  | inr (ids, e) ↦ rw (e, pop_by_path) (lookup-delete path p m.file_path_id)
]

pub lookup-move_ids :
    (index : Dict (List Text)) (path new_path p : Text) (ids : List Text)
    → lookup path index ≡ some ids
    → lookup p (move_ids index path new_path)
      ≡ (if same new_path p then some ids else if same path p then none else lookup p index)
unfolding move_ids
lookup-move_ids index path new_path p ids e =
    rw (e, move_ids)
      (rw (lookup-insert new_path p ids (delete path index), lookup-delete path p index))

pub move_ids_absent :
    (index : Dict (List Text)) (path new_path : Text)
    → lookup path index ≡ none
    → move_ids index path new_path ≡ index
unfolding move_ids
move_ids_absent index path new_path e = rw (e, move_ids)
