-- ===== src/HandleMap/Refinement.antt =====
-- The map of open handles against its abstract view: which handle, if any, each ID stands for.
use irodsfs.Base.{
  ◌≡◌, refl, ◌∙◌, ◌↔◌, true, Option, none, some, List, [], ◌∷◌, map, Text, same, same_iff, arith,
  if◌then◌else◌, Option-cases, inl, inr,
}
use irodsfs.Base.Dict.{lookup, contains}
use irodsfs.Types.{FileHandle}
use irodsfs.HandleMap.{FileHandleMap, new_file_handle_map, get, pop_all, list_by_path}
use irodsfs.HandleMap.Lookups.{get-add, get-remove, get-pop_by_path}
use irodsfs.HandleMap.Consistency.{IsConsistent, empty-IsConsistent, pop_lem}
use irodsfs.HandleMap.Histories.{
  Call, adds, removes, pops, pops_path, pops_all, clears, apply, run, AllFresh, apply-IsConsistent,
  contains-ids_at, list_by_path_lem,
}

abbrev pub Handles : Type 0
Handles = Text → Option FileHandle

abbrev pub unless_path : Text → Option FileHandle → Option FileHandle
unless_path path none = none
unless_path path (some h) = if same h.path path then none else some h

-- What a call means.
unfoldable pub effect : Handles → Call → Handles
effect f (adds h) j = if same h.id j then some h else f j
effect f (removes id) j = if same id j then none else f j
effect f (pops id) j = if same id j then none else f j
effect f (pops_path path) j = unless_path path (f j)
effect f (pops_all order) j = none
effect f clears j = none

unfoldable pub replay : Handles → List Call → Handles
replay f [] = f
replay f (c ∷ cs) = replay (effect f c) cs

abbrev Views : FileHandleMap → Handles → Type 0
Views m f = (j : Text) → lookup j m.file_handles ≡ f j

pops_path-Views :
    (m : FileHandleMap) (f : Handles) (path : Text)
    → IsConsistent m
    → Views m f
    → Views (apply m (pops_path path)) (effect f (pops_path path))
unfolding apply effect
pops_path-Views m f path v w j =
    rw (get-pop_by_path m path j) (elim (Option-cases (lookup j m.file_handles)) [
      | inl e ↦ ground (arith, e, w j)
      | inr (h, e) ↦
          let c = contains-ids_at m path j h v e in ground (arith, e, w j, c, same_iff h.path path)
    ])

apply-Views :
    (m : FileHandleMap) (f : Handles) (c : Call)
    → IsConsistent m
    → Views m f
    → Views (apply m c) (effect f c)
unfolding apply effect pop_all lookup
apply-Views m f (adds h) v w j = rw (get-add m h j) (ground (arith, w j))
apply-Views m f (removes id) v w j = rw (get-remove m id j) (ground (arith, w j))
apply-Views m f (pops id) v w j = ground (arith, w j, pop_lem m id, get-remove m id j)
apply-Views m f (pops_path path) v w j = pops_path-Views m f path v w j
apply-Views m f (pops_all order) v w j = refl
apply-Views m f clears v w j = refl

run-Views :
    (m : FileHandleMap) (f : Handles) (cs : List Call)
    → AllFresh m cs
    → IsConsistent m
    → Views m f
    → IsConsistent (run m cs) × Views (run m cs) (replay f cs)
unfolding run replay
run-Views m f [] u v w = (v, w)
run-Views m f (c ∷ cs) u v w =
    run-Views (apply m c) (effect f c) cs u.1 (apply-IsConsistent m c u.0 v) (apply-Views m f c v w)

-- After any history of calls without renames, in which handles are added under new IDs, `Get` answers
-- what the history means for each ID, and `ListByPath` lists exactly the IDs whose handle has the path.
pub run_refines :
    (cs : List Call)
    → AllFresh new_file_handle_map cs
    → let m = run new_file_handle_map cs in
      let f = replay (λ id. none) cs in
      (id : Text)
      → (get m id ≡ f id)
        × ((h : FileHandle) (path : Text)
            → f id ≡ some h
            → contains id (map (λ g. g.id) (list_by_path m path)) ≡ true ↔ (h.path ≡ path))
unfolding get lookup
run_refines cs u id =
    let m = run new_file_handle_map cs in
    let (v, w) = run-Views new_file_handle_map (λ j. none) cs u empty-IsConsistent (λ j. refl) in
    (w id, λ h path e. (list_by_path_lem m path v).0 id h (w id ∙ e))
