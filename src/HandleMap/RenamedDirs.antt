-- ===== src/HandleMap/RenamedDirs.antt =====
-- `RenameDir` of filehandle_map.go, and `Rename` of a path with no open handle of its own.
use irodsfs.Base.{
  ◌≡◌, ◌≢◌, refl, sym, ◌∙◌, ap, true, false, none, List, [], ◌∷◌, ◌++◌, Text, same, same_iff,
  same_refl, has_prefix, drop_prefix, arith, if◌then◌else◌, Bool-cases, Option-cases, inl, inr,
}
use irodsfs.Base.Texts.{append-drop_prefix, has_prefix-append, same-append}
use irodsfs.Base.Dict.{lookup, contains, NodupKeys, Dict, IsRange}
use irodsfs.HandleMap.{
  FileHandleMap, dir_prefix, paths_with_prefix, move_ids, move_paths, rename_dir, rename,
}
use irodsfs.HandleMap.Lists.{contains-paths_with_prefix, paths_with_prefix-NodupKeys}
use irodsfs.HandleMap.Lookups.{lookup-move_ids}

-- No path lies under both prefixes.
abbrev pub Apart : Text → Text → Type 0
Apart P Q = (s : Text) → has_prefix (Q ++ s) P ≡ false

module _ (P Q : Text) (apart : Apart P Q) where
  -- The listed paths have the prefix and open handles.
  abbrev Movable : List Text → Dict (List Text) → Type 0
  Movable paths index =
      (k : Text) → contains k paths ≡ true → (has_prefix k P ≡ true) × (lookup k index ≢ none)

  target_ne : (s p : Text) → has_prefix p P ≡ true → same (Q ++ s) p ≡ false
  target_ne s p h = ground (arith, apart s, same_iff (Q ++ s) p)

  source_ne : (k s : Text) → has_prefix k P ≡ true → same k (Q ++ s) ≡ false
  source_ne k s h = ground (arith, apart s, same_iff k (Q ++ s))

  same-source : (k s : Text) → has_prefix k P ≡ true → same k (P ++ s) ≡ same (drop_prefix k P) s
  same-source k s h =
      ap (λ t. same t (P ++ s)) (sym (append-drop_prefix k P h)) ∙ same-append P (drop_prefix k P) s

  -- One round of the loop.
  moved : Text → Dict (List Text) → Dict (List Text)
  moved k index = move_ids index k (Q ++ drop_prefix k P)

  lookup-moved :
      (k p : Text) (index : Dict (List Text))
      → lookup k index ≢ none
      → lookup p (moved k index) ≡ (
          if same (Q ++ drop_prefix k P) p
          then lookup k index
          else if same k p
          then none
          else lookup p index)
  unfolding moved
  lookup-moved k p index n = elim (Option-cases (lookup k index)) [
    | inl e ↦ absurd (n e)
    | inr (ids, e) ↦ lookup-move_ids index k (Q ++ drop_prefix k P) p ids e ∙ rw e
  ]

  Movable-moved :
      (k : Text) (paths : List Text) (index : Dict (List Text))
      → contains k paths ≡ false
      → Movable (k ∷ paths) index
      → Movable paths (moved k index)
  unfolding contains
  Movable-moved k paths index f mv j c =
      let (h, n) = mv j (ground arith) in
      let (_, n') = mv k (rw (same_refl k)) in
      (
        h,
        rw (lookup-moved k j index n', target_ne (drop_prefix k P) j h)
            (ground (arith, same_iff k j)),
      )

  lookup-move_paths_target :
      (paths : List Text) (index : Dict (List Text)) (s : Text)
      → NodupKeys paths
      → Movable paths index
      → lookup (Q ++ s) (move_paths paths P Q index)
        ≡ (if contains (P ++ s) paths then lookup (P ++ s) index else lookup (Q ++ s) index)
  unfolding move_paths contains moved
  lookup-move_paths_target [] index s u mv = refl
  lookup-move_paths_target (k ∷ paths) index s (f, u) mv =
      let (h, n) = mv k (rw (same_refl k)) in
      let t = drop_prefix k P in
      lookup-move_paths_target paths (moved k index) s u (Movable-moved k paths index f mv)
      ∙ ground (
        arith,
        lookup-moved k (Q ++ s) index n,
        lookup-moved k (P ++ s) index n,
        same-source k s h,
        same-append Q t s,
        source_ne k s h,
        target_ne t (P ++ s) (has_prefix-append P s),
        same_iff k (P ++ s),
      )

  lookup-move_paths_source :
      (paths : List Text) (index : Dict (List Text)) (s : Text)
      → NodupKeys paths
      → Movable paths index
      → lookup (P ++ s) (move_paths paths P Q index)
        ≡ (if contains (P ++ s) paths then none else lookup (P ++ s) index)
  unfolding move_paths contains moved
  lookup-move_paths_source [] index s u mv = refl
  lookup-move_paths_source (k ∷ paths) index s (f, u) mv =
      let (h, n) = mv k (rw (same_refl k)) in
      lookup-move_paths_source paths (moved k index) s u (Movable-moved k paths index f mv)
      ∙ ground (
        arith,
        lookup-moved k (P ++ s) index n,
        target_ne (drop_prefix k P) (P ++ s) (has_prefix-append P s),
      )

  lookup-move_paths_other :
      (paths : List Text) (index : Dict (List Text)) (p : Text)
      → NodupKeys paths
      → Movable paths index
      → has_prefix p P ≡ false
      → has_prefix p Q ≡ false
      → lookup p (move_paths paths P Q index) ≡ lookup p index
  unfolding move_paths contains moved
  lookup-move_paths_other [] index p u mv hp hq = refl
  lookup-move_paths_other (k ∷ paths) index p (f, u) mv hp hq =
      let (h, n) = mv k (rw (same_refl k)) in
      let t = drop_prefix k P in
      lookup-move_paths_other paths (moved k index) p u (Movable-moved k paths index f mv) hp hq
      ∙ ground (
        arith,
        lookup-moved k p index n,
        same_iff k p,
        same_iff (Q ++ t) p,
        has_prefix-append Q t,
      )

-- `Rename` of a path with no open handle of its own acts on the paths below it, as `RenameDir` does.
-- If no path lies below both names and no open handle below the new one, each path below the new name
-- has the IDs of the path below the old one that ends alike, none stays below the old name, all other
-- paths keep their IDs, and the handles stay.
pub rename_dir_lem :
    (order : List Text) (m : FileHandleMap) (src dest : Text)
    → IsRange order m.file_path_id
    → lookup src m.file_path_id ≡ none
    → Apart (dir_prefix src) (dir_prefix dest)
    → ((s : Text) → lookup (dir_prefix dest ++ s) m.file_path_id ≡ none)
    → let m' = rename order m src dest in
      (m' ≡ rename_dir order m src dest)
      × ((s : Text)
          → lookup (dir_prefix dest ++ s) m'.file_path_id
            ≡ lookup (dir_prefix src ++ s) m.file_path_id)
      × ((s : Text) → lookup (dir_prefix src ++ s) m'.file_path_id ≡ none)
      × ((p : Text)
          → has_prefix p (dir_prefix src) ≡ false
          → has_prefix p (dir_prefix dest) ≡ false
          → lookup p m'.file_path_id ≡ lookup p m.file_path_id)
      × (m'.file_handles ≡ m.file_handles)
unfolding rename
rename_dir_lem order m src dest r e apart free =
    rw (e, rename)
      (
        refl,
        λ s.
            lookup-move_paths_target P Q apart paths index s nodup movable
            ∙ (elim (Bool-cases (contains (P ++ s) paths)) [
              | inl c ↦ rw c
              | inr c ↦ rw c (free s ∙ sym (unlisted s c))
            ]),
        λ s.
            lookup-move_paths_source P Q apart paths index s nodup movable
            ∙ (elim (Bool-cases (contains (P ++ s) paths)) [
              | inl c ↦ rw c
              | inr c ↦ rw c (unlisted s c)
            ]),
        λ p hp hq. lookup-move_paths_other P Q apart paths index p nodup movable hp hq,
        refl,
      )
  where
    P : Text
    P = dir_prefix src

    Q : Text
    Q = dir_prefix dest

    index : Dict (List Text)
    index = m.file_path_id

    paths : List Text
    paths = paths_with_prefix order index P

    nodup : NodupKeys paths
    nodup = paths_with_prefix-NodupKeys order index P r.once

    movable :
        (k : Text) → contains k paths ≡ true → (has_prefix k P ≡ true) × (lookup k index ≢ none)
    movable k c = let (_, n, h) = (contains-paths_with_prefix order index P k).0 c in (h, n)

    unlisted : (s : Text) → contains (P ++ s) paths ≡ false → lookup (P ++ s) index ≡ none
    unlisted s c = elim (Option-cases (lookup (P ++ s) index)) [
      | inl g ↦ g
      | inr (ids, g) ↦ cc (
          (contains-paths_with_prefix order index P (P ++ s)).1
            ((r.covers (P ++ s)).1 (ids, g), (λ x. cc), has_prefix-append P s))
    ]
