-- ===== src/HandleMap/RoundTrips.antt =====
-- Adding a handle to the map of open handles and removing it again.
use irodsfs.Base.{
  ◌≡◌, refl, sym, false, none, List, [], ◌∷◌, ◌++◌, Text, same, same_iff, same_refl, arith,
  Bool-cases, inl, inr,
}
use irodsfs.Base.Dict.{lookup, contains}
use irodsfs.Types.{FileHandle}
use irodsfs.HandleMap.{FileHandleMap, add, remove, get, list_by_path, without}
use irodsfs.HandleMap.Lists.{without_absent, collect_congr}
use irodsfs.HandleMap.Lookups.{ids_at, get-add, ids_at-add, get-remove}
use irodsfs.HandleMap.Consistency.{IsConsistent, add-IsConsistent, ids_at-remove, unlisted_fresh}

without-append :
    (id : Text) (ids : List Text) → contains id ids ≡ false → without id (ids ++ id ∷ []) ≡ ids
unfolding without contains
without-append id [] f = ground (arith, same_refl id)
without-append id (k ∷ ids) f = ground (arith, same_iff k id, without-append id ids)

module _ (m : FileHandleMap) (h : FileHandle) where
  get-remove-add :
      (j : Text)
      → lookup h.id m.file_handles ≡ none
      → lookup j (remove (add m h) h.id).file_handles ≡ lookup j m.file_handles
  get-remove-add j fresh =
      rw (get-remove (add m h) h.id j, get-add m h j)
        (elim (Bool-cases (same h.id j)) [
          | inl s ↦ let e = (same_iff h.id j).0 s in rw s (sym (rw e at fresh))
          | inr s ↦ rw s refl
        ])

  ids_at-remove-add :
      (p : Text)
      → IsConsistent m
      → lookup h.id m.file_handles ≡ none
      → ids_at (remove (add m h) h.id) p ≡ ids_at m p
  ids_at-remove-add p v fresh =
      let f = unlisted_fresh m h.id p fresh v in
      rw (ids_at-remove (add m h) h.id p (add-IsConsistent m h fresh v), ids_at-add m h p)
        (elim (Bool-cases (same h.path p)) [
          | inl s ↦ rw s (without-append h.id (ids_at m p) f)
          | inr s ↦ rw s (without_absent h.id (ids_at m p) f)
        ])

  pub list_by_path-remove-add :
      (p : Text)
      → IsConsistent m
      → lookup h.id m.file_handles ≡ none
      → list_by_path (remove (add m h) h.id) p ≡ list_by_path m p
  unfolding list_by_path
  list_by_path-remove-add p v fresh = rw (ids_at-remove-add p v fresh) (
      collect_congr (ids_at m p) (remove (add m h) h.id).file_handles m.file_handles
        (λ k c. get-remove-add k fresh))

  pub get-remove_added : (j : Text) → get m h.id ≡ none → get (remove (add m h) h.id) j ≡ get m j
  unfolding get
  get-remove_added j fresh = get-remove-add j fresh
