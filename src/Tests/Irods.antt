-- ===== src/Tests/Irods.antt =====
-- The calls of irods.go, run on the small server.
use irodsfs.Base.{◌≡◌, ◌↔◌, ◌⊎◌, refl, true, false, arith, none, some, List, codes, same}
use irodsfs.Types.{ok, enoent, eremoteio}
use irodsfs.Env.{Entry, Access, replied}
use irodsfs.Irods.Access.{irods_get_acl, list_acls}
use irodsfs.Irods.Access.Laws.{irods_get_acl_lem, AnyWrite}
use irodsfs.Irods.Attrs.{irods_getattr, irods_lookup, dummy_dir_getattr, Attr}
use irodsfs.Irods.Attrs.Laws.{irods_getattr_lem, mode_of}
use irodsfs.Irods.Changes.{irods_rename}
use irodsfs.Irods.Changes.Laws.{irods_rename_lem, failed_rename_loses_dest, Done}
use irodsfs.Irods.Opens.Laws.{OpenModes}
use irodsfs.Tests.Server.{server, settings, start, document, other, missing, refused}

irods_get_acl_lem_example :
    let mode = (irods_get_acl server settings document false start).0 in
    ((mode ≡ 0o500) ⊎ (mode ≡ 0o700))
    × (mode ≡ 0o700 ↔ (
        (false ≡ false)
        × ((false ≡ true)
            ⊎ (codes "bob" ≡ codes "ann")
            ⊎ ((l : List Access) × ((list_acls server settings document start).0 ≡ replied l)
                × AnyWrite settings l))))
irods_get_acl_lem_example = irods_get_acl_lem server settings document false start

irods_getattr_lem_example :
    (attr : Attr) × ((irods_getattr server settings (codes "/m/f") false start).0 ≡ (ok, some attr))
    × (attr.size ≡ 30)
    × (attr.mtime ≡ 6)
    × (attr.uid ≡ 1000)
    × (attr.gid ≡ 100)
    × (attr.mode
        ≡ mode_of server settings document (irods_get_acl server settings document false start).0)
    × ((irods_lookup server settings (codes "/m/f") false start).0 ≡ (2, false, ok, some attr))
    × ((dummy_dir_getattr server settings (codes "/m/f") false start).0 ≡ (ok, some attr))
unfolding same
irods_getattr_lem_example =
    irods_getattr_lem server settings (codes "/m/f") false start document refl

irods_rename_lem_example :
    let s' = (irods_rename server (codes "/m") (codes "/n") start).1 in
    (entry : Entry) × ((server.stat (codes "/m") start.world).0 ≡ replied entry)
    × (w : List Entry) × ((entry.is_dir ≡ true)
          × Done server (server.rename_dir_to_dir (codes "/m") (codes "/n") w) s'.world
        ⊎ (entry.is_dir ≡ false)
          × Done server (server.rename_file_to_file (codes "/m") (codes "/n") w) s'.world)
unfolding irods_rename same
irods_rename_lem_example = irods_rename_lem server (codes "/m") (codes "/n") start refl

failed_rename_loses_dest_example :
    let (errno, s') = irods_rename server (codes "/m/f") (codes "/m/g") start in
    (errno ≡ eremoteio)
    × ((irods_getattr server settings (codes "/m/g") false s').0 ≡ (enoent, none))
unfolding same
failed_rename_loses_dest_example =
    failed_rename_loses_dest server settings (codes "/m/f") (codes "/m/g") start document other
      refused missing refl refl refl (omega arith) refl refl refl refl refl refl

pub server-OpenModes : OpenModes server
server-OpenModes = record {
  read_only_iff = λ m. ground arith;
  write_only_iff = λ m. ground arith;
  opened_mode = λ path m w h e. ground (arith, e);
}
