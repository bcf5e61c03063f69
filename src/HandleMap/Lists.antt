-- ===== src/HandleMap/Lists.antt =====
-- The loops of filehandle_map.go over lists of IDs and handles.
use irodsfs.Base.{
  ◌≡◌, ◌≢◌, refl, ◌↔◌, true, false, ◌&&◌, not, none, List, [], ◌∷◌, ◌++◌, Text, same, same_iff,
  same_refl, has_prefix, arith, if◌then◌else◌,
}
use irodsfs.Base.Dict.{Dict, lookup, delete, lookup-delete, contains, contains-append, NodupKeys}
use irodsfs.Types.{FileHandle}
use irodsfs.HandleMap.{without, collect, pop_ids, paths_with_prefix}

pub contains-without :
    (id j : Text) (ids : List Text)
    → contains j (without id ids) ≡ (not (same id j) && contains j ids)
unfolding contains without
contains-without id j [] = ground arith
contains-without id j (k ∷ ids) =
    ground (arith, same_iff k id, same_iff k j, same_iff id j, contains-without id j ids)

pub without_absent : (id : Text) (ids : List Text) → contains id ids ≡ false → without id ids ≡ ids
unfolding contains without
without_absent id [] h = refl
without_absent id (k ∷ ids) h = ground (arith, same_iff k id, without_absent id ids)

pub without-NodupKeys : (id : Text) (ids : List Text) → NodupKeys ids → NodupKeys (without id ids)
unfolding without
without-NodupKeys id [] u = tt
without-NodupKeys id (k ∷ ids) u =
    ground (arith, without-NodupKeys id ids, contains-without id k ids)

pub append-NodupKeys :
    (ids : List Text) (id : Text)
    → NodupKeys ids
    → contains id ids ≡ false
    → NodupKeys (ids ++ id ∷ [])
unfolding contains
append-NodupKeys [] id u h = (refl, tt)
append-NodupKeys (k ∷ ids) id u h =
    ground (
      arith,
      same_iff k id,
      same_iff id k,
      contains-append k ids (id ∷ []),
      append-NodupKeys ids id,
    )

-- Handles that a changed map still holds are found as before.
pub collect_congr :
    (ids : List Text) (m n : Dict FileHandle)
    → ((k : Text) → contains k ids ≡ true → lookup k m ≡ lookup k n)
    → collect ids m ≡ collect ids n
unfolding collect contains
collect_congr [] m n h = refl
collect_congr (k ∷ ids) m n h =
    ground (arith, h k (rw (same_refl k)), collect_congr ids m n (λ j c. h j (ground arith)))

pub collect-append :
    (ids js : List Text) (m : Dict FileHandle)
    → collect (ids ++ js) m ≡ collect ids m ++ collect js m
unfolding collect
collect-append [] js m = refl
collect-append (k ∷ ids) js m = ground (arith, collect-append ids js m)

pub pop_ids-collect :
    (ids : List Text) (m : Dict FileHandle) → NodupKeys ids → (pop_ids ids m).0 ≡ collect ids m
unfolding pop_ids collect
pop_ids-collect [] m u = refl
pop_ids-collect (k ∷ ids) m (f, u) = ground (
  arith,
  pop_ids-collect ids (delete k m) u,
  collect_congr ids (delete k m) m (λ j c. rw (lookup-delete k j m) (ground (arith, same_iff k j))),
)

pub lookup-pop_ids :
    (ids : List Text) (m : Dict FileHandle) (j : Text)
    → lookup j (pop_ids ids m).1 ≡ (if contains j ids then none else lookup j m)
unfolding pop_ids contains
lookup-pop_ids [] m j = refl
lookup-pop_ids (k ∷ ids) m j =
    ground (arith, lookup-pop_ids ids (delete k m) j, lookup-delete k j m)

pub contains-paths_with_prefix :
    (order : List Text) (index : Dict (List Text)) (prefix path : Text)
    → contains path (paths_with_prefix order index prefix) ≡ true ↔ (
        (contains path order ≡ true) × (lookup path index ≢ none) × (has_prefix path prefix ≡ true))
unfolding paths_with_prefix contains
contains-paths_with_prefix [] index prefix path = (λ h. cc, λ h. cc h.0)
contains-paths_with_prefix (k ∷ order) index prefix path =
    let ih = contains-paths_with_prefix order index prefix path in
    (λ h. ground (arith, ih, same_iff k path), λ h. ground (arith, ih, same_iff k path))

pub paths_with_prefix-NodupKeys :
    (order : List Text) (index : Dict (List Text)) (prefix : Text)
    → NodupKeys order
    → NodupKeys (paths_with_prefix order index prefix)
unfolding paths_with_prefix
paths_with_prefix-NodupKeys [] index prefix u = tt
paths_with_prefix-NodupKeys (k ∷ order) index prefix (f, u) = ground (
  arith,
  contains-paths_with_prefix order index prefix k,
  paths_with_prefix-NodupKeys order index prefix u,
)
