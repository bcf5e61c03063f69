-- ===== src/Irods/Attrs.antt =====
-- common.go and dummy.go, and what irods.go answers about an entry. `out` is the attribute that a
-- function fills in, `none` where it leaves it untouched.
pub mod Laws
use irodsfs.Base.{
  ℕ, ◌^◌, ◌%◌, Bool, true, false, ◌||◌, Option, none, some, List, [], ◌∷◌, Text, codes,
  if◌then◌else◌, bit_or,
}
use irodsfs.Types.{Errno, ok, enoent, eremoteio}
use irodsfs.Env.{
  External, Settings, Sys, Entry, VirtualDir, Reply, failed, replied, M, Exit, returned, running,
  ◌>>=◌, ◌>>◌, return, ask, call, read, body,
}
use irodsfs.Irods.Access.{irods_get_acl}

-- `Attr` of go-fuse, as far as it is filled in.
pub record Attr : Type 0 where
  pub ino : ℕ
  pub uid : ℕ
  pub gid : ℕ
  pub atime : ℕ
  pub mtime : ℕ
  pub ctime : ℕ
  pub size : ℕ
  pub mode : ℕ

-- `DirEntry` of go-fuse.
pub record DirEntry : Type 0 where
  pub ino : ℕ
  pub mode : ℕ
  pub name : Text

-- `S_IFDIR` and `S_IFREG` of go-fuse
abbrev pub s_ifdir : ℕ
s_ifdir = 0o40000

abbrev pub s_ifreg : ℕ
s_ifreg = 0o100000

abbrev pub get_default_dir_entries : List DirEntry
get_default_dir_entries =
    record { ino = 0; mode = s_ifdir; name = codes "." }
    ∷ record { ino = 0; mode = s_ifdir; name = codes ".." }
    ∷ []

module _ (E : External) where
  unfoldable pub is_transitive_connection_error : E.Err → Bool
  is_transitive_connection_error err =
      E.is_connection_error err || E.is_connection_pool_full_error err

  unfoldable pub irods_stat : Text → Sys E → Reply (E.Err) Entry × Sys E
  irods_stat path = body do reply ← ask (E.stat path); return reply

  -- The branches on a failed call that most functions have.
  abbrev pub not_found_or_remote : E.Err → Errno
  not_found_or_remote err = if E.is_file_not_found_error err then enoent else eremoteio

module _ (E : External) (fs : Settings) where
  unfoldable pub set_attr_out_for_virtual_dir_entry : VirtualDir → Sys E → Attr × Sys E
  set_attr_out_for_virtual_dir_entry entry = body do
    ino ← ask (E.inode_for_vpath_entry_id entry.id)
    return (record {
      ino = ino;
      uid = fs.uid;
      gid = fs.gid;
      atime = entry.modify_time;
      mtime = entry.modify_time;
      ctime = entry.modify_time;
      size = entry.size;
      mode = bit_or s_ifdir 0o500;
    })

  unfoldable pub set_attr_out_for_irods_entry : Entry → ℕ → Sys E → Attr × Sys E
  set_attr_out_for_irods_entry entry mode = body do
    ino ← ask (E.inode_for_irods_entry_id entry.id)
    return (record {
      ino = ino;
      uid = fs.uid;
      gid = fs.gid;
      atime = entry.modify_time;
      mtime = entry.modify_time;
      ctime = entry.modify_time;
      size = entry.size;
      mode = if entry.is_dir then bit_or s_ifdir mode else bit_or s_ifreg mode;
    })

  unfoldable pub set_attr_out_for_dummy : Text → Bool → Sys E → Attr × Sys E
  set_attr_out_for_dummy vpath dir = body do
    ino ← ask (E.inode_for_vpath_entry vpath)
    now ← read (λ s. E.now s.world)
    return (record {
      ino = ino;
      uid = fs.uid;
      gid = fs.gid;
      atime = now;
      mtime = now;
      ctime = now;
      size = 0;
      mode = if dir then bit_or s_ifdir 0o500 else bit_or s_ifreg 0o500;
    })

  unfoldable pub irods_getattr : Text → Bool → Sys E → (Errno × Option Attr) × Sys E
  unfolding is_transitive_connection_error
  irods_getattr path vpath_readonly = body do
    reply ← ask (E.stat path)
    elim reply [
      | failed err ↦
          if E.is_file_not_found_error err
          then return (enoent, none)
          else if is_transitive_connection_error E err
          then (do attr ← call (set_attr_out_for_dummy path true); return (ok, some attr))
          else return (eremoteio, none)
      | replied entry ↦ do
        mode ← call (irods_get_acl E fs entry vpath_readonly)
        attr ← call (set_attr_out_for_irods_entry entry mode)
        return (ok, some attr)
    ]

  -- `DummyDirGetattr` of dummy.go
  unfoldable pub dummy_dir_getattr : Text → Bool → Sys E → (Errno × Option Attr) × Sys E
  dummy_dir_getattr path vpath_readonly = body do
    reply ← ask (E.stat path)
    elim reply [
      | failed err ↦ return (not_found_or_remote E err, none)
      | replied entry ↦ do
        mode ← call (irods_get_acl E fs entry vpath_readonly)
        attr ← call (set_attr_out_for_irods_entry entry mode)
        return (ok, some attr)
    ]

  -- The results are the entry's ID, whether it is a directory, the error and the attribute.
  unfoldable pub irods_lookup : Text → Bool → Sys E → (ℕ × Bool × Errno × Option Attr) × Sys E
  irods_lookup path vpath_readonly = body do
    reply ← ask (E.stat path)
    elim reply [
      | failed err ↦ return (0, false, not_found_or_remote E err, none)
      | replied entry ↦ do
        mode ← call (irods_get_acl E fs entry vpath_readonly)
        attr ← call (set_attr_out_for_irods_entry entry mode)
        return (entry.id, entry.is_dir, ok, some attr)
    ]

  unfoldable pub irods_opendir : Text → Sys E → Errno × Sys E
  irods_opendir path = body do
    reply ← ask (E.stat path)
    elim reply [
      | failed err ↦ return (
          if E.is_file_not_found_error err
          then enoent
          else if is_transitive_connection_error E err
          then ok
          else eremoteio)
      | replied entry ↦ return (if entry.is_dir then ok else eremoteio)
    ]

  -- The loop that fills `dirEntries`.
  unfoldable pub dir_entries : List Entry → Sys E → List DirEntry × Sys E
  dir_entries [] s = ([], s)
  dir_entries (entry ∷ entries) s =
      let (ino, w) = E.inode_for_irods_entry_id entry.id s.world in
      let (rest, s') = dir_entries entries (record s { world = w }) in
      (
        record { ino = ino; mode = if entry.is_dir then s_ifdir else s_ifreg; name = entry.name }
            ∷ rest,
        s',
      )

  -- A `nil` slice of the source is the empty list.
  unfoldable pub irods_readdir : Text → Sys E → (List DirEntry × Errno) × Sys E
  irods_readdir path = body do
    reply ← ask (E.list path)
    elim reply [
      | failed err ↦ return (
          if E.is_file_not_found_error err
          then ([], enoent)
          else if is_transitive_connection_error E err
          then ([], ok)
          else ([], eremoteio))
      | replied entries ↦ do l ← call (dir_entries entries); return (l, ok)
    ]
