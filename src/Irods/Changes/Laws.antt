-- ===== src/Irods/Changes/Laws.antt =====
-- What a success of the changing calls of irods.go means on the server, and what a failed rename costs.
use irodsfs.Base.{
  ◌≡◌, ◌≢◌, ◌↔◌, ◌⊎◌, inl, inr, ℕ, ◌<◌, true, false, arith, none, Text, Bool-cases, ltb,
  if◌then◌else◌,
}
use irodsfs.Types.{ok, enoent, eremoteio}
use irodsfs.Env.{External, Settings, Sys, Entry, Reply, Reply-cases, failed, replied, returned}
use irodsfs.Irods.Attrs.{irods_getattr}
use irodsfs.Irods.Changes.{irods_rmdir, irods_unlink, irods_rename, delete_dest}

positive : (n : ℕ) → 0 < n → ltb 0 n ≡ true
positive n p = ground (arith, p)

module _ (E : External) where
  -- `IRODSRmdir` succeeds exactly when the path is a directory of the server and the server removes
  -- it, and a file is never passed on to be removed: the server is then only asked about the path.
  pub irods_rmdir_lem :
      (path : Text) (s : Sys E)
      → let (reply, w) = E.stat path s.world in
        let (errno, s') = irods_rmdir E path s in
        (errno ≡ ok
          ↔ (entry : Entry) × (reply ≡ replied entry)
            × (entry.is_dir ≡ true)
            × ((E.remove_dir entry.path w).0 ≡ replied tt))
        × ((entry : Entry)
            → reply ≡ replied entry
            → (s'.world ≡ (if entry.is_dir then (E.remove_dir entry.path w).1 else w))
              × (entry.is_dir ≡ false → errno ≡ eremoteio))
  unfolding irods_rmdir
  irods_rmdir_lem path s = ground arith

  -- `IRODSUnlink` succeeds exactly when the path is a file of the server and the server removes it, and
  -- a directory is never passed on to be removed: the server is then only asked about the path.
  pub irods_unlink_lem :
      (path : Text) (s : Sys E)
      → let (reply, w) = E.stat path s.world in
        let (errno, s') = irods_unlink E path s in
        (errno ≡ ok
          ↔ (entry : Entry) × (reply ≡ replied entry)
            × (entry.is_dir ≡ false)
            × ((E.remove_file entry.path w).0 ≡ replied tt))
        × ((entry : Entry)
            → reply ≡ replied entry
            → (s'.world ≡ (if entry.is_dir then w else (E.remove_file entry.path w).1))
              × (entry.is_dir ≡ true → errno ≡ eremoteio))
  unfolding irods_unlink
  irods_unlink_lem path s = elim (Reply-cases (E.stat path s.world).0) [
    | inl (x, e) ↦ rw e (ground arith)
    | inr (entry, e) ↦
        let r = Reply-cases (E.remove_file entry.path (E.stat path s.world).1).0 in
        rw e (ground (arith, r))
  ]

  -- The deletion never ends `IRODSRename` with a success.
  delete_dest_lem : (path : Text) (s : Sys E) → (delete_dest E path s).0 ≢ returned ok
  unfolding delete_dest
  delete_dest_lem path s = ground arith

  -- The server's reply in that state is a success, and the state after it is the other.
  abbrev pub Done : Reply (E.Err) (Unit {0}) × E.World → E.World → Type 0
  Done (reply, w) w' = (reply ≡ replied tt) × (w ≡ w')

  -- `IRODSRename` succeeds only when the server knows the source and its last answer, after which it
  -- is left as it is, was the rename's success: that of a directory, or that of a file.
  pub irods_rename_lem :
      (src_path dest_path : Text) (s : Sys E)
      → let (errno, s') = irods_rename E src_path dest_path s in
        errno ≡ ok
        → (entry : Entry) × ((E.stat src_path s.world).0 ≡ replied entry)
          × (w : E.World) × ((entry.is_dir ≡ true)
                × Done (E.rename_dir_to_dir src_path dest_path w) s'.world
              ⊎ (entry.is_dir ≡ false) × Done (E.rename_file_to_file src_path dest_path w) s'.world)
  unfolding irods_rename
  irods_rename_lem src_path dest_path s =
      let w1 = (E.stat src_path s.world).1 in
      let s1 = record s { world = w1 } in
      elim (Reply-cases (E.stat src_path s.world).0) [
        | inl (x, e) ↦ λ q. absurd (ground (arith, e, q))
        | inr (entry, e) ↦ λ q. elim (Bool-cases entry.is_dir) [
          | inl d ↦ (entry, e, w1, ground (arith, q, d, e))
          | inr d ↦
              let safe = delete_dest_lem dest_path s1 in
              (entry, e, (delete_dest E dest_path s1).1.world, ground (arith, q, d, e, safe))
        ]
      ]

  -- When a file is renamed over another file and the server takes the removal of the destination but
  -- refuses the rename without a change, the caller is told `EREMOTEIO` and the destination is gone:
  -- a server that no longer finds what it has removed makes the next `Getattr` answer `ENOENT`.
  pub failed_rename_loses_dest :
      (fs : Settings) (src_path dest_path : Text) (s : Sys E) (src dest : Entry)
      (err missing : E.Err)
      → let w1 = (E.stat src_path s.world).1 in
        let w2 = (E.stat dest_path w1).1 in
        let w3 = (E.remove_file dest_path w2).1 in
        (E.stat src_path s.world).0 ≡ replied src
        → src.is_dir ≡ false
        → (E.stat dest_path w1).0 ≡ replied dest
        → 0 < dest.id
        → dest.is_dir ≡ false
        → (E.remove_file dest_path w2).0 ≡ replied tt
        → (E.rename_file_to_file src_path dest_path w3).0 ≡ failed err
        → (E.rename_file_to_file src_path dest_path w3).1 ≡ w3
        → (E.stat dest_path w3).0 ≡ failed missing
        → E.is_file_not_found_error missing ≡ true
        → let (errno, s') = irods_rename E src_path dest_path s in
          (errno ≡ eremoteio) × ((irods_getattr E fs dest_path false s').0 ≡ (enoent, none))
  unfolding irods_rename delete_dest irods_getattr
  failed_rename_loses_dest fs src_path dest_path s src dest err missing e1 f1 e2 p f2 e3 e4 k e5 n =
      let q = positive dest.id p in ground (arith, e1, f1, e2, q, f2, e3, e4, k, e5, n)
