-- ===== src/HandleMap/Histories.antt =====
-- What filehandle_map.go promises over histories of calls, renames left out.
use mathlib.Core.Path.{ap₂}
use irodsfs.Base.{
  ◌≡◌, refl, subst, ◌∙◌, ◌↔◌, true, none, some, List, [], ◌∷◌, ◌++◌, map, Text, same, same_iff,
  same_refl, arith, if◌then◌else◌, Bool-cases, inl, inr,
}
use irodsfs.Base.Dict.{lookup, contains, NodupKeys, Dict}
use irodsfs.Types.{FileHandle}
use irodsfs.HandleMap.{
  FileHandleMap, new_file_handle_map, add, remove, pop, get, clear, pop_all, pop_by_path,
  list_by_path, collect,
}
use irodsfs.HandleMap.Lists.{collect_congr, collect-append, pop_ids-collect}
use irodsfs.HandleMap.Lookups.{ids_at, get-add, ids_at-add, get-pop_by_path, index-pop_by_path}
use irodsfs.HandleMap.Consistency.{
  IsConsistent, empty-IsConsistent, add-IsConsistent, remove-IsConsistent, pop_lem,
  pop_by_path-IsConsistent, unlisted_fresh,
}

-- The calls that change the maps, but for renames. The list of `pops_all` is the order in which the
-- handles are read.
pub data Call : Type 0 where
  adds : FileHandle → Call
  removes pops pops_path : Text → Call
  pops_all : List Text → Call
  clears : Call

unfoldable pub apply : FileHandleMap → Call → FileHandleMap
apply m (adds h) = add m h
apply m (removes id) = remove m id
apply m (pops id) = (pop m id).1
apply m (pops_path path) = (pop_by_path m path).1
apply m (pops_all order) = (pop_all order m).1
apply m clears = clear m

unfoldable pub run : FileHandleMap → List Call → FileHandleMap
run m [] = m
run m (c ∷ cs) = run (apply m c) cs

-- A handle that is added has the ID of no open handle. (The program draws IDs from package xid.)
abbrev pub IsFresh : FileHandleMap → Call → Type 0
IsFresh m (adds h) = lookup h.id m.file_handles ≡ none
IsFresh m (removes id) = Unit {0}
IsFresh m (pops id) = Unit {0}
IsFresh m (pops_path path) = Unit {0}
IsFresh m (pops_all order) = Unit {0}
IsFresh m clears = Unit {0}

abbrev pub AllFresh : FileHandleMap → List Call → Type 0
AllFresh m [] = Unit {0}
AllFresh m (c ∷ cs) = IsFresh m c × AllFresh (apply m c) cs

pop-IsConsistent : (m : FileHandleMap) (id : Text) → IsConsistent m → IsConsistent (pop m id).1
pop-IsConsistent m id v = rw (pop_lem m id) (remove-IsConsistent m id v)

pub apply-IsConsistent :
    (m : FileHandleMap) (c : Call) → IsFresh m c → IsConsistent m → IsConsistent (apply m c)
unfolding apply pop_all
apply-IsConsistent m (adds h) f v = add-IsConsistent m h f v
apply-IsConsistent m (removes id) f v = remove-IsConsistent m id v
apply-IsConsistent m (pops id) f v = pop-IsConsistent m id v
apply-IsConsistent m (pops_path path) f v = pop_by_path-IsConsistent m path v
apply-IsConsistent m (pops_all order) f v = empty-IsConsistent
apply-IsConsistent m clears f v = empty-IsConsistent

run-IsConsistent_from :
    (m : FileHandleMap) (cs : List Call) → AllFresh m cs → IsConsistent m → IsConsistent (run m cs)
unfolding run
run-IsConsistent_from m [] f v = v
run-IsConsistent_from m (c ∷ cs) f v =
    run-IsConsistent_from (apply m c) cs f.1 (apply-IsConsistent m c f.0 v)

-- From the empty map, every history of calls without renames, in which handles are added under new
-- IDs, leaves the two maps in agreement.
pub run-IsConsistent :
    (cs : List Call) → AllFresh new_file_handle_map cs → IsConsistent (run new_file_handle_map cs)
run-IsConsistent cs f = run-IsConsistent_from new_file_handle_map cs f empty-IsConsistent

ids-collect :
    (ids : List Text) (m : Dict FileHandle)
    → ((id : Text)
        → contains id ids ≡ true
        → (h : FileHandle) × (lookup id m ≡ some h) × (h.id ≡ id))
    → map (λ h. h.id) (collect ids m) ≡ ids
unfolding collect contains
ids-collect [] m open_ids = refl
ids-collect (k ∷ ids) m open_ids =
    let (h, e, q) = open_ids k (rw (same_refl k)) in
    let ih = ids-collect ids m (λ j c. open_ids j (ground arith)) in rw (e, collect) (cc)

ids-list_by_path :
    (m : FileHandleMap) (p : Text)
    → IsConsistent m
    → map (λ h. h.id) (list_by_path m p) ≡ ids_at m p
unfolding list_by_path
ids-list_by_path m p v =
    ids-collect (ids_at m p) m.file_handles
      (λ j c. let (h, e, q) = v.backed p j c in (h, e, v.keyed j h e))

pub contains-ids_at :
    (m : FileHandleMap) (p id : Text) (h : FileHandle)
    → IsConsistent m
    → lookup id m.file_handles ≡ some h
    → contains id (ids_at m p) ≡ true ↔ (h.path ≡ p)
contains-ids_at m p id h v e = (
  λ c. let (g, e', q) = v.backed p id c in cc,
  λ q. subst (λ t. contains id (ids_at m t) ≡ true) q (v.indexed id h e),
)

-- On a consistent map, `ListByPath` lists exactly the open handles with the path, each once.
pub list_by_path_lem :
    (m : FileHandleMap) (p : Text)
    → IsConsistent m
    → ((id : Text) (h : FileHandle)
        → get m id ≡ some h
        → contains id (map (λ g. g.id) (list_by_path m p)) ≡ true ↔ (h.path ≡ p))
      × NodupKeys (map (λ g. g.id) (list_by_path m p))
unfolding get
list_by_path_lem m p v =
    rw (ids-list_by_path m p v) (λ id h e. contains-ids_at m p id h v e, v.once p)

collect-add :
    (m : FileHandleMap) (h : FileHandle) (p : Text)
    → IsConsistent m
    → lookup h.id m.file_handles ≡ none
    → collect (ids_at m p) (add m h).file_handles ≡ collect (ids_at m p) m.file_handles
collect-add m h p v fresh =
    collect_congr (ids_at m p) (add m h).file_handles m.file_handles
      (λ k c. rw (get-add m h k) (ground (arith, same_iff h.id k, unlisted_fresh m h.id p fresh v)))

collect_new :
    (m : FileHandleMap) (h : FileHandle) → collect (h.id ∷ []) (add m h).file_handles ≡ h ∷ []
unfolding collect
collect_new m h = ground (arith, get-add m h h.id, same_refl h.id)

-- On a consistent map, `Add` of a handle with a new ID puts it last in the list of its path and
-- leaves the lists of the other paths as they were.
pub list_by_path-add :
    (m : FileHandleMap) (h : FileHandle) (p : Text)
    → IsConsistent m
    → get m h.id ≡ none
    → list_by_path (add m h) p
      ≡ (if same h.path p then list_by_path m p ++ h ∷ [] else list_by_path m p)
unfolding list_by_path get
list_by_path-add m h p v fresh = elim (Bool-cases (same h.path p)) [
  | inl s ↦
      rw (ids_at-add m h p, s)
        (collect-append (ids_at m p) (h.id ∷ []) (add m h).file_handles
          ∙ ap₂ ◌++◌ (collect-add m h p v fresh) (collect_new m h))
  | inr s ↦ rw (ids_at-add m h p, s) (collect-add m h p v fresh)
]

popped-pop_by_path :
    (m : FileHandleMap) (path : Text)
    → IsConsistent m
    → (pop_by_path m path).0 ≡ list_by_path m path
unfolding pop_by_path list_by_path collect
popped-pop_by_path m path v =
    ground (arith, pop_ids-collect (ids_at m path) m.file_handles (v.once path))

listed-pop_by_path :
    (m : FileHandleMap) (path : Text) → list_by_path (pop_by_path m path).1 path ≡ []
unfolding list_by_path collect
listed-pop_by_path m path = rw (index-pop_by_path m path path) (rw (same_refl path))

-- On a consistent map, `PopByPath` returns what `ListByPath` lists. It closes exactly the handles with
-- the path, and the path has none afterwards.
pub pop_by_path_lem :
    (m : FileHandleMap) (path : Text)
    → IsConsistent m
    → let (popped, m') = pop_by_path m path in
      (popped ≡ list_by_path m path)
      × (list_by_path m' path ≡ [])
      × ((id : Text) (h : FileHandle)
          → get m id ≡ some h
          → get m' id ≡ (if same h.path path then none else some h))
unfolding get
pop_by_path_lem m path v = (
  popped-pop_by_path m path v,
  listed-pop_by_path m path,
  λ id h e.
      rw (get-pop_by_path m path id)
        (ground (arith, contains-ids_at m path id h v e, same_iff h.path path)),
)
