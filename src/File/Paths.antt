-- ===== src/File/Paths.antt =====
-- file.go: how a handler of `File` finds the path on the server.
use irodsfs.Base.{Text}
use irodsfs.Env.{External, M, ◌>>=◌, ◌>>◌, return_if, call, or_return, nil_or}
use irodsfs.VPath.{ensure_vpath_entry_is_irods_entry, closest_entry}

module _ (E : External) where
  -- What most handlers do to find the path on the server: the mapping's entry must exist and not be
  -- virtual, and it is looked up again where that is due. Every error is `r`. The first result tells
  -- whether the mapping is read only.
  abbrev pub mapped_path : {R : Type 0} → Text → R → M E R (E.VPathEntry × Text)
  mapped_path path r = do
    vpath_entry ← closest_entry E path r
    return_if (E.is_virtual_dir_entry vpath_entry) r
    err ← call (ensure_vpath_entry_is_irods_entry E vpath_entry)
    nil_or err (λ err. r)
    irods_path ← or_return (E.get_irods_path vpath_entry path) (λ err. r)
    call (λ s. ((vpath_entry, irods_path), s))
