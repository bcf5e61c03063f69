-- ===== src/HandleMap/Consistency.antt =====
-- The two maps of filehandle_map.go agree with one another.
use irodsfs.Base.{
  ◌≡◌, ◌≢◌, sym, ◌∙◌, true, false, none, some, List, [], ◌∷◌, ◌++◌, Text, same, same_iff,
  same-false, arith, if◌then◌else◌, Bool-cases, Option-cases, inl, inr,
}
use irodsfs.Base.Dict.{lookup, lookup-insert, contains, contains-append, NodupKeys}
use irodsfs.Types.{FileHandle}
use irodsfs.HandleMap.{
  FileHandleMap, new_file_handle_map, append_id, add, without, remove, pop, get, pop_by_path,
}
use irodsfs.HandleMap.Lists.{contains-without, without_absent, without-NodupKeys, append-NodupKeys}
use irodsfs.HandleMap.Lookups.{
  ids_at, get-add, ids_at-add, get-remove, drop_id-ids, drop_id-ne, get-pop_by_path,
  index-pop_by_path,
}

-- Every open handle stands under its own ID and is listed under its path; every listed ID is that of
-- an open handle with that path; no path has an empty list, and none lists an ID twice.
pub record IsConsistent (m : FileHandleMap) : Type 0 where
  pub keyed : (id : Text) (h : FileHandle) → lookup id m.file_handles ≡ some h → h.id ≡ id
  pub indexed :
      (id : Text) (h : FileHandle)
      → lookup id m.file_handles ≡ some h
      → contains id (ids_at m h.path) ≡ true
  pub backed :
      (p id : Text)
      → contains id (ids_at m p) ≡ true
      → (h : FileHandle) × (lookup id m.file_handles ≡ some h) × (h.path ≡ p)
  pub inhabited : (p : Text) → lookup p m.file_path_id ≢ some []
  pub once : (p : Text) → NodupKeys (ids_at m p)

pub empty-IsConsistent : IsConsistent new_file_handle_map
unfolding lookup contains
empty-IsConsistent = record {
  keyed = λ id h e. cc;
  indexed = λ id h e. cc;
  backed = λ p id e. cc;
  inhabited = λ p e. cc;
  once = λ p. tt;
}

-- Removing an ID takes it out of every list, for a consistent map.
pub ids_at-remove :
    (m : FileHandleMap) (id p : Text)
    → IsConsistent m
    → ids_at (remove m id) p ≡ without id (ids_at m p)
unfolding remove
ids_at-remove m id p v = elim (Option-cases (lookup id m.file_handles)) [
  | inl e ↦ rw (e, remove) (sym (without_absent id (ids_at m p) (unlisted (λ h g s. cc))))
  | inr (h, e) ↦ rw (e, remove) (drop_id-ids id h.path p m.file_path_id ∙ other h e)
]
  where
    unlisted :
        ((h : FileHandle) → lookup id m.file_handles ≡ some h → h.path ≢ p)
        → contains id (ids_at m p) ≡ false
    unlisted n = elim (Bool-cases (contains id (ids_at m p))) [
      | inl c ↦ let (h, e, q) = v.backed p id c in absurd (n h e q)
      | inr c ↦ c
    ]

    other :
        (h : FileHandle)
        → lookup id m.file_handles ≡ some h
        → (if same h.path p then without id (ids_at m p) else ids_at m p) ≡ without id (ids_at m p)
    other h e = elim (Bool-cases (same h.path p)) [
      | inl s ↦ rw s
      | inr s ↦
          rw s
            (sym (without_absent id (ids_at m p) (unlisted (λ g x q. same-false h.path p s (cc)))))
    ]

index-remove-ne :
    (m : FileHandleMap) (id p : Text)
    → lookup p m.file_path_id ≢ some []
    → lookup p (remove m id).file_path_id ≢ some []
unfolding remove
index-remove-ne m id p n = elim (Option-cases (lookup id m.file_handles)) [
  | inl e ↦ rw (e, remove) n
  | inr (h, e) ↦ rw (e, remove) (drop_id-ne id h.path p m.file_path_id n)
]

pub remove-IsConsistent :
    (m : FileHandleMap) (id : Text) → IsConsistent m → IsConsistent (remove m id)
remove-IsConsistent m id v = record {
  keyed = λ j h e. v.keyed j h (ground (arith, get-remove m id j));
  indexed = λ j h e.
      rw (ids_at-remove m id h.path v, contains-without id j (ids_at m h.path))
        (ground (arith, get-remove m id j, v.indexed j h));
  backed = λ p j c.
      let c' = rw (ids_at-remove m id p v, contains-without id j (ids_at m p)) at c in
      let (h, e, q) = v.backed p j (ground arith) in (h, rw (get-remove m id j) (ground arith), q);
  inhabited = λ p. index-remove-ne m id p (v.inhabited p);
  once = λ p. rw (ids_at-remove m id p v) (without-NodupKeys id (ids_at m p) (v.once p));
}

append-ne-nil : (ids : List Text) (id : Text) → ids ++ id ∷ [] ≢ []
append-ne-nil [] id e = cc
append-ne-nil (k ∷ ids) id e = cc

pub unlisted_fresh :
    (m : FileHandleMap) (id p : Text)
    → lookup id m.file_handles ≡ none
    → IsConsistent m
    → contains id (ids_at m p) ≡ false
unlisted_fresh m id p fresh v = elim (Bool-cases (contains id (ids_at m p))) [
  | inl c ↦ let (h, e, q) = v.backed p id c in cc
  | inr c ↦ c
]

add-inhabited :
    (m : FileHandleMap) (h : FileHandle) (p : Text)
    → lookup p m.file_path_id ≢ some []
    → lookup p (add m h).file_path_id ≢ some []
unfolding add
add-inhabited m h p n =
    rw (lookup-insert h.path p _ m.file_path_id)
      (elim (Option-cases (lookup h.path m.file_path_id)) [
        | inl e ↦ rw (e, append_id) (ground arith)
        | inr (ids, e) ↦ rw (e, append_id) (ground (arith, append-ne-nil ids h.id))
      ])

add-backed :
    (m : FileHandleMap) (h : FileHandle)
    → lookup h.id m.file_handles ≡ none
    → IsConsistent m
    → (p j : Text) → contains j (ids_at (add m h) p) ≡ true
    → (g : FileHandle) × (lookup j (add m h).file_handles ≡ some g) × (g.path ≡ p)
unfolding contains
add-backed m h fresh v p j c = elim (Bool-cases (contains j (ids_at m p))) [
  | inl i ↦
      let (g, e, q) = v.backed p j i in (g, rw (get-add m h j) (ground (arith, same_iff h.id j)), q)
  | inr i ↦
      let c' = rw (ids_at-add m h p) at c in
      (
        h,
        rw (get-add m h j) (ground (arith, contains-append j (ids_at m p) (h.id ∷ []))),
        ground (arith, same_iff h.path p),
      )
]

-- `Add` of a handle with a new ID.
pub add-IsConsistent :
    (m : FileHandleMap) (h : FileHandle)
    → lookup h.id m.file_handles ≡ none
    → IsConsistent m
    → IsConsistent (add m h)
unfolding contains
add-IsConsistent m h fresh v = record {
  keyed = λ j g e. ground (arith, get-add m h j, same_iff h.id j, v.keyed j g);
  indexed = λ j g e. rw (ids_at-add m h g.path) (
      ground (
        arith,
        get-add m h j,
        same_iff h.id j,
        same_iff h.path g.path,
        v.indexed j g,
        contains-append j (ids_at m g.path) (h.id ∷ []),
      ));
  backed = add-backed m h fresh v;
  inhabited = λ p. add-inhabited m h p (v.inhabited p);
  once = λ p. rw (ids_at-add m h p) (
      ground (
        arith,
        v.once p,
        append-NodupKeys (ids_at m p) h.id (v.once p) (unlisted_fresh m h.id p fresh v),
      ));
}

-- `Pop` returns what `Get` does and leaves what `Remove` does.
pub pop_lem : (m : FileHandleMap) (id : Text) → pop m id ≡ (get m id, remove m id)
unfolding pop get remove
pop_lem m id = ground arith

pop_by_path-backed :
    (m : FileHandleMap) (path : Text)
    → IsConsistent m
    → (p j : Text) → contains j (ids_at (pop_by_path m path).1 p) ≡ true
    → (g : FileHandle) × (lookup j (pop_by_path m path).1.file_handles ≡ some g) × (g.path ≡ p)
unfolding contains
pop_by_path-backed m path v p j c =
    let c' = rw (index-pop_by_path m path p) at c in
    let (g, e, q) = v.backed p j (ground arith) in
    (
      g,
      rw (get-pop_by_path m path j) (elim (Bool-cases (contains j (ids_at m path))) [
        | inl i ↦ let (g', e', q') = v.backed path j i in ground (arith, same_iff path p)
        | inr i ↦ rw i e
      ]),
      q,
    )

pub pop_by_path-IsConsistent :
    (m : FileHandleMap) (path : Text) → IsConsistent m → IsConsistent (pop_by_path m path).1
pop_by_path-IsConsistent m path v = record {
  keyed = λ j g e. v.keyed j g (ground (arith, get-pop_by_path m path j));
  indexed = λ j g e.
      rw (index-pop_by_path m path g.path)
        (ground (arith, get-pop_by_path m path j, v.indexed j g, same_iff path g.path));
  backed = pop_by_path-backed m path v;
  inhabited = λ p. rw (index-pop_by_path m path p) (ground (arith, v.inhabited p));
  once = λ p. rw (index-pop_by_path m path p) (ground (arith, v.once p));
}
