-- ===== src/Handle/Sessions.antt =====
-- A handle from `Open` of file.go to `Release` of filehandle.go.
use irodsfs.Base.{◌≡◌, inl, inr, ℕ, false, arith, some, none, Text}
use irodsfs.Base.Dict.{lookup, lookup-insert_self}
use irodsfs.Types.{ok, FileHandle}
use irodsfs.Env.{External, Settings, Sys}
use irodsfs.HandleMap.{get, list_by_path, add, remove}
use irodsfs.HandleMap.Consistency.{IsConsistent}
use irodsfs.HandleMap.RoundTrips.{get-remove_added, list_by_path-remove-add}
use irodsfs.Handle.{on_handle}
use irodsfs.Handle.Closing.{release}
use irodsfs.File.Opens.{open_file}
use irodsfs.File.Opens.Laws.{open_cases, lazy_cell}

module _ (E : External) (fs : Settings) where
  release_unopened :
      (inode_id : ℕ) (path : Text) (h : FileHandle) (s : Sys E)
      → s.terminated ≡ false
      → lookup h.id s.cells ≡ some (lazy_cell E fs inode_id path)
      → let (answer, s') = on_handle E h (release E fs) s in
        (answer ≡ some (ok, none))
        × (s'.file_handle_map ≡ remove s.file_handle_map h.id)
        × (s'.world ≡ s.world)
  unfolding release
  release_unopened inode_id path h s t e = ground (arith, t, e)

  -- A handle that is opened under a new ID and released before it is used leaves the open handles as
  -- they were, as `Get` and `ListByPath` tell them, and the release does not ask the server.
  pub release-open_file :
      (inode_id : ℕ) (path : Text) (flags : ℕ) (s : Sys E) (h : FileHandle)
      → IsConsistent s.file_handle_map
      → get s.file_handle_map h.id ≡ none
      → (open_file E fs inode_id path flags s).0.0 ≡ some h
      → let s1 = (open_file E fs inode_id path flags s).1 in
        let (answer, s') = on_handle E h (release E fs) s1 in
        (answer ≡ some (ok, none))
        × ((id : Text) → get s'.file_handle_map id ≡ get s.file_handle_map id)
        × ((p : Text) → list_by_path s'.file_handle_map p ≡ list_by_path s.file_handle_map p)
        × (s'.world ≡ s1.world)
  unfolding get
  release-open_file inode_id path flags s h v fresh e =
      let s1 = (open_file E fs inode_id path flags s).1 in
      elim (open_cases E fs inode_id path flags s) [
        | inl (a, b, c) ↦ absurd (ground (arith, a, e))
        | inr (w, irods_path, s2, (n, p, r, a, b, m, c, t)) ↦
            let cell = lazy_cell E fs inode_id path in
            let q : lookup h.id s1.cells ≡ some cell =
              ground (arith, a, e, c, lookup-insert_self h.id cell s.cells) in
            let (x, y, z) = release_unopened inode_id path h s1 t q in
            let g : (on_handle E h (release E fs) s1).1.file_handle_map
                ≡ remove (add s.file_handle_map h) h.id =
              ground (arith, a, e, m, y) in
            (
              x,
              λ id. rw g (get-remove_added s.file_handle_map h id fresh),
              λ p'. rw g (list_by_path-remove-add s.file_handle_map h p' v fresh),
              z,
            )
      ]
