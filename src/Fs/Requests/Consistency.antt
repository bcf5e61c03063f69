-- ===== src/Fs/Requests/Consistency.antt =====
-- What the requests do to the map of open handles.
use irodsfs.Base.{
  ◌≡◌, ◌⊎◌, inl, inr, subst, sym, arith, Option, some, none, List, [], ◌∷◌, Option-cases,
}
use irodsfs.Base.Dict.{lookup}
use irodsfs.Types.{FileHandle}
use irodsfs.Env.{External, Settings, Sys}
use irodsfs.HandleMap.{FileHandleMap, add, remove, get}
use irodsfs.HandleMap.Consistency.{IsConsistent, add-IsConsistent, remove-IsConsistent}
use irodsfs.File.Opens
use irodsfs.File.Opens.Laws.{open_lem}
use irodsfs.Dir.Changes
use irodsfs.Dir.Changes.Laws.{create_lem}
use irodsfs.Dir.Requests
use irodsfs.Fs.Requests.{Request, dir, create, file, open_file, handle, HandleRequest, serve}
use irodsfs.Fs.Requests.Frames.{serve_file-SameMap, serve_handle_map}

module _ (E : External) (fs : Settings) where
  -- The handle that a request makes, if any, has the ID of no open handle. (The program draws IDs
  -- from package xid.)
  abbrev pub IsFresh : Request → Sys E → Type 0
  IsFresh (dir path r) s = Unit {0}
  IsFresh (create path name flags) s =
      (h : FileHandle)
      → (Changes.create E fs path name flags s).0.1 ≡ some h
      → get s.file_handle_map h.id ≡ none
  IsFresh (file path r) s = Unit {0}
  IsFresh (open_file inode_id path flags) s =
      (h : FileHandle)
      → (Opens.open_file E fs inode_id path flags s).0.0 ≡ some h
      → get s.file_handle_map h.id ≡ none
  IsFresh (handle h r) s = Unit {0}

  abbrev pub serve_all : List Request → Sys E → Sys E
  serve_all [] s = s
  serve_all (r ∷ rs) s = serve_all rs (serve E fs r s).1

  abbrev pub AllFresh : List Request → Sys E → Type 0
  AllFresh [] s = Unit {0}
  AllFresh (r ∷ rs) s = IsFresh r s × AllFresh rs (serve E fs r s).1

  added-IsConsistent :
      (m m' : FileHandleMap) (made : Option FileHandle)
      → (made ≡ none → m' ≡ m)
      → ((h : FileHandle) → made ≡ some h → m' ≡ add m h)
      → ((h : FileHandle) → made ≡ some h → get m h.id ≡ none)
      → IsConsistent m
      → IsConsistent m'
  unfolding get
  added-IsConsistent m m' made same added fresh v = elim (Option-cases made) [
    | inl e ↦ subst IsConsistent (sym (same e)) v
    | inr (h, e) ↦ subst IsConsistent (sym (added h e)) (add-IsConsistent m h (fresh h e) v)
  ]

  handle_map :
      (h : FileHandle) (r : HandleRequest) (s : Sys E)
      → let s' = (serve E fs (handle h r) s).1 in
        (s'.file_handle_map ≡ s.file_handle_map)
        ⊎ (s'.file_handle_map ≡ remove s.file_handle_map h.id)
  unfolding serve
  handle_map h r s = elim (Option-cases (lookup h.id s.cells)) [
    | inl e ↦ ground (arith, e)
    | inr (c, e) ↦ ground (arith, e, serve_handle_map E fs r h c s)
  ]

  serve-IsConsistent :
      (r : Request) (s : Sys E)
      → IsFresh r s
      → IsConsistent s.file_handle_map
      → IsConsistent (serve E fs r s).1.file_handle_map
  unfolding serve
  serve-IsConsistent (dir path r) s f v =
      subst IsConsistent (sym (Requests.handle-Kept E fs path r s).0) v
  serve-IsConsistent (create path name flags) s f v =
      let (a, b, c) = create_lem E fs path name flags s in
      added-IsConsistent s.file_handle_map _ (Changes.create E fs path name flags s).0.1
        (λ e. (b e).0) (λ h e. (c h e).0) f v
  serve-IsConsistent (file path r) s f v =
      subst IsConsistent (sym (serve_file-SameMap E fs path r s).0) v
  serve-IsConsistent (open_file inode_id path flags) s f v =
      let (a, b, c) = open_lem E fs inode_id path flags s in
      added-IsConsistent s.file_handle_map _ (Opens.open_file E fs inode_id path flags s).0.0
        (λ e. (b e).0) (λ h e. (c h e).1) f v
  serve-IsConsistent (handle h r) s f v = elim (handle_map h r s) [
    | inl k ↦ subst IsConsistent (sym k) v
    | inr k ↦ subst IsConsistent (sym k) (remove-IsConsistent s.file_handle_map h.id v)
  ]

  -- Whatever requests the kernel makes, in any order, and whatever the server answers, the two maps of
  -- the open handles keep agreeing with one another, when handles are made under new IDs. Renames are
  -- left out.
  pub serve_all-IsConsistent :
      (rs : List Request) (s : Sys E)
      → AllFresh rs s
      → IsConsistent s.file_handle_map
      → IsConsistent (serve_all rs s).file_handle_map
  serve_all-IsConsistent [] s f v = v
  serve_all-IsConsistent (r ∷ rs) s f v =
      serve_all-IsConsistent rs (serve E fs r s).1 f.1 (serve-IsConsistent r s f.0 v)
