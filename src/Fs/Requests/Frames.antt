-- ===== src/Fs/Requests/Frames.antt =====
-- The requests that leave the map of open handles alone.
use irodsfs.Base.{
  ◌≡◌, ◌⊎◌, inl, inr, refl, ℕ, true, arith, Option, some, none, List, [], Text, Option-cases,
  Bool-cases,
}
use irodsfs.Types.{eremoteio, econnaborted, FileHandle}
use irodsfs.Env.{
  External, Settings, Sys, Cell, Exit-cases, ◌>>=◌, call, return, body, get_next_operation_id,
}
use irodsfs.HandleMap.{remove}
use irodsfs.Irods.Xattrs.{irods_listxattr, irods_getxattr, irods_setxattr, irods_removexattr}
use irodsfs.Irods.Attrs.{irods_getattr}
use irodsfs.Handle.Transfers.{init_lazy}
use irodsfs.Handle.Transfers.Laws.{
  SameMap, init_lazy-SameMap, read-SameMap, truncate-SameMap, flush-SameMap,
}
use irodsfs.Handle.Transfers.Writes.{write-SameMap}
use irodsfs.Handle.LockRequests.{get_local_lock, set_local_lock, set_local_lock_w, FileLock}
use irodsfs.Handle.Closing.{release}
use irodsfs.Handle.Closing.Laws.{release_lem}
use irodsfs.Handle.Nodes
use irodsfs.Handle.Nodes.{node_path}
use irodsfs.File.LockRequests
use irodsfs.File.Paths.{mapped_path}
use irodsfs.File.Attrs
use irodsfs.File.Attrs.Laws.{truncate_lem, mapped_path-SameMap}
use irodsfs.File.Xattrs
use irodsfs.Dir.Frames.{irods_getattr-Kept}
use irodsfs.Fs.Requests.{
  FileRequest, HandleRequest, to_listxattr, to_getxattr, to_setxattr, to_removexattr, to_read,
  to_write, to_flush, to_fsync, to_release, to_getlk, to_setlk, to_setlkw, serve_file, serve_handle,
}

module _ (E : External) (fs : Settings) where
  abbrev Keeps : {R : Type 0} → (Sys E → R × Sys E) → Type 0
  Keeps f = (s : Sys E) → SameMap E fs s (f s).1

  irods_xattrs-SameMap :
      (path attr value : Text) (dest : List ℕ)
      → Keeps (irods_listxattr E path dest)
        × Keeps (irods_getxattr E path attr dest)
        × Keeps (irods_setxattr E path attr value)
        × Keeps (irods_removexattr E path attr)
  unfolding irods_listxattr irods_getxattr irods_setxattr irods_removexattr
  irods_xattrs-SameMap path attr value dest =
      (λ s. ground arith, λ s. ground arith, λ s. ground arith, λ s. ground arith)

  -- What a handler of `File` does with the path that it has found.
  abbrev with_path :
      {R : Type 0} → Text → R → (E.VPathEntry → Text → Sys E → R × Sys E) → Sys E → R × Sys E
  with_path path r f = body do (v, p) ← mapped_path E path r; x ← call (f v p); return x

  with_path-SameMap :
      {R : Type 0} (path : Text) (r : R) (f : E.VPathEntry → Text → Sys E → R × Sys E)
      → ((v : E.VPathEntry) (p : Text) → Keeps (f v p))
      → Keeps (with_path path r f)
  with_path-SameMap path r f k s =
      let (l, refused) = mapped_path-SameMap E fs r path s in
      elim (Exit-cases (mapped_path E path r s).0) [
        | inl (x, e) ↦ ground (arith, e, l)
        | inr ((v, p), e) ↦ ground (arith, e, l, k v p (mapped_path E path r s).1)
      ]

  truncate_stopped :
      (path : Text) (size : ℕ) (s : Sys E)
      → s.terminated ≡ true
      → Attrs.truncate E fs path size s ≡ (econnaborted, s)
  unfolding Attrs.truncate
  truncate_stopped path size s t = rw t refl

  file_truncate-SameMap : (path : Text) (size : ℕ) → Keeps (Attrs.truncate E fs path size)
  file_truncate-SameMap path size s = elim (Bool-cases s.terminated) [
    | inl t ↦ rw (truncate_stopped path size s t) (refl, refl)
    | inr t ↦ (truncate_lem E fs path size s t).1
  ]

  pub serve_file-SameMap : (path : Text) (r : FileRequest) → Keeps (serve_file E fs path r)
  unfolding Attrs.getattr Attrs.setattr Xattrs.listxattr Xattrs.getxattr Xattrs.setxattr
      Xattrs.removexattr get_next_operation_id
  serve_file-SameMap path FileRequest.to_getattr s =
      let k =
        with_path-SameMap path (eremoteio, none) (λ v p. irods_getattr E fs p (E.vpath_read_only v))
          (λ v p s. let k = irods_getattr-Kept E fs p (E.vpath_read_only v) s in (k.0, k.2)) in
      ground (arith, k (get_next_operation_id s).1)
  serve_file-SameMap path (FileRequest.to_setattr none) s = ground arith
  serve_file-SameMap path (FileRequest.to_setattr (some size)) s = elim (Bool-cases s.terminated) [
    | inl t ↦ ground (arith, t)
    | inr t ↦ ground (arith, t, truncate_lem E fs path size (get_next_operation_id s).1 t)
  ]
  serve_file-SameMap path (FileRequest.to_truncate size) s = file_truncate-SameMap path size s
  serve_file-SameMap path (to_listxattr dest) s =
      let k =
        with_path-SameMap path (0, eremoteio, dest) (λ v p. irods_listxattr E p dest)
          (λ v p. (irods_xattrs-SameMap p [] [] dest).0) in
      ground (arith, k (get_next_operation_id s).1)
  serve_file-SameMap path (to_getxattr attr dest) s =
      let k =
        with_path-SameMap path (0, eremoteio, dest) (λ v p. irods_getxattr E p attr dest)
          (λ v p. (irods_xattrs-SameMap p attr [] dest).1) in
      ground (arith, k (get_next_operation_id s).1)
  serve_file-SameMap path (to_setxattr attr value) s =
      let k =
        with_path-SameMap path eremoteio (λ v p. irods_setxattr E p attr value)
          (λ v p. (irods_xattrs-SameMap p attr value []).2) in
      ground (arith, k (get_next_operation_id s).1)
  serve_file-SameMap path (to_removexattr attr) s =
      let k =
        with_path-SameMap path eremoteio (λ v p. irods_removexattr E p attr)
          (λ v p. (irods_xattrs-SameMap p attr [] []).3) in
      ground (arith, k (get_next_operation_id s).1)

  locks-SameMap :
      (order : List Text) (lk : FileLock) (h : FileHandle) (c : Cell E) (s : Sys E)
      → SameMap E fs s (Nodes.getlk E fs order lk h c s).1
        × SameMap E fs s (Nodes.setlk E fs order lk h c s).1
        × SameMap E fs s (Nodes.setlkw E fs order lk h c s).1
  unfolding Nodes.getlk Nodes.setlk Nodes.setlkw LockRequests.getlk LockRequests.setlk
      LockRequests.setlkw get_local_lock set_local_lock set_local_lock_w get_next_operation_id
  locks-SameMap order lk h c s = (ground arith, ground arith, ground arith)

  node_getattr-SameMap :
      (h : FileHandle) (c : Cell E) (s : Sys E) → SameMap E fs s (Nodes.getattr E fs h c s).1
  unfolding Nodes.getattr get_next_operation_id
  node_getattr-SameMap h c s = elim (Option-cases c.file) [
    | inl e ↦ ground (arith, e)
    | inr (node, e) ↦
        let k =
          serve_file-SameMap (node_path node) FileRequest.to_getattr (get_next_operation_id s).1 in
        ground (arith, e, k)
  ]

  node_setattr-SameMap :
      (size : Option ℕ) (h : FileHandle) (c : Cell E) (s : Sys E)
      → SameMap E fs s (Nodes.setattr E fs size h c s).1
  unfolding Nodes.setattr get_next_operation_id
  node_setattr-SameMap (some n) h c s =
      let ((err, c1), s1) = init_lazy E fs h c s in
      let k = truncate-SameMap E fs n h c1 (get_next_operation_id s1).1 in
      ground (arith, init_lazy-SameMap E fs h c s, k)
  node_setattr-SameMap none h c s =
      let ((err, c1), s1) = init_lazy E fs h c s in
      let i = init_lazy-SameMap E fs h c s in
      elim (Option-cases c1.file) [
        | inl e ↦ ground (arith, e, i)
        | inr (node, e) ↦
            let k =
              serve_file-SameMap (node_path node) (FileRequest.to_setattr none)
                (get_next_operation_id s1).1 in
            ground (arith, e, i, k)
      ]

  release_map :
      (h : FileHandle) (c : Cell E) (s : Sys E)
      → let s' = (serve_handle E fs to_release h c s).1 in
        (s'.file_handle_map ≡ s.file_handle_map)
        ⊎ (s'.file_handle_map ≡ remove s.file_handle_map h.id)
  unfolding release
  release_map h c s = elim (Bool-cases s.terminated) [
    | inl t ↦ rw (release_stopped h c s t) (inl refl)
    | inr t ↦ elim (release_lem E fs h c s t) [
      | inl (a, b, d, e) ↦ inr b
      | inr (a, b, d, e, f) ↦ inl (ground (arith, b, d))
    ]
  ]
    where
      release_stopped :
          (h : FileHandle) (c : Cell E) (s : Sys E)
          → s.terminated ≡ true
          → release E fs h c s ≡ (((econnaborted, none), c), s)
      release_stopped h c s t = rw t refl

  -- What a request to a handle may do to the map: nothing, or taking out that handle.
  pub serve_handle_map :
      (r : HandleRequest) (h : FileHandle) (c : Cell E) (s : Sys E)
      → let s' = (serve_handle E fs r h c s).1 in
        (s'.file_handle_map ≡ s.file_handle_map)
        ⊎ (s'.file_handle_map ≡ remove s.file_handle_map h.id)
  serve_handle_map HandleRequest.to_getattr h c s = inl (node_getattr-SameMap h c s).0
  serve_handle_map (HandleRequest.to_setattr size) h c s = inl (node_setattr-SameMap size h c s).0
  serve_handle_map (to_read dest offset) h c s = inl (read-SameMap E fs dest offset h c s).0
  serve_handle_map (to_write bytes offset) h c s = inl (write-SameMap E fs bytes offset h c s).0.0
  serve_handle_map (HandleRequest.to_truncate size) h c s = inl (truncate-SameMap E fs size h c s).0
  serve_handle_map to_flush h c s = inl (flush-SameMap E fs h c s).0.0
  serve_handle_map to_fsync h c s = inl (flush-SameMap E fs h c s).1.0
  serve_handle_map to_release h c s = release_map h c s
  serve_handle_map (to_getlk order lk) h c s = inl (locks-SameMap order lk h c s).0.0
  serve_handle_map (to_setlk order lk) h c s = inl (locks-SameMap order lk h c s).1.0
  serve_handle_map (to_setlkw order lk) h c s = inl (locks-SameMap order lk h c s).2.0
