-- ===== src/Tests/Files.antt =====
-- The handlers of file.go, run on the small server.
use irodsfs.Base.{◌≡◌, ◌≢◌, ◌⊎◌, inr, refl, true, false, none, [], codes, Text, arith}
use irodsfs.Types.{ok, eperm, enoent, eremoteio, einval, eacces, read_only}
use irodsfs.Env.{External, Sys, get_next_operation_id}
use irodsfs.Irods.Access.{irods_get_open_flags}
use irodsfs.Irods.Xattrs.{is_unhandled_attr}
use irodsfs.Handle.Transfers.Laws.{SameMap}
use irodsfs.File.Attrs.{truncate}
use irodsfs.File.Attrs.Laws.{truncate_lem}
use irodsfs.File.Xattrs.{listxattr, getxattr, setxattr, removexattr}
use irodsfs.File.Xattrs.Laws.{xattrs_agree}
use irodsfs.File.Opens.{open_file}
use irodsfs.File.Opens.Laws.{open_protected}
use irodsfs.Dir.Xattrs
use irodsfs.Tests.Server.{server, settings, start}

abbrev path : Text
path = codes "/m/f"

-- The small server behind a mapping that is read only.
abbrev guarded : External
guarded = record server { vpath_read_only = λ v. true }

abbrev guarded_start : Sys guarded
guarded_start = record {
  terminated = start.terminated;
  operation_id_current = start.operation_id_current;
  file_handle_map = start.file_handle_map;
  cells = [];
  world = start.world;
}

writes_not_reads : irods_get_open_flags 1 ≢ read_only
unfolding irods_get_open_flags
writes_not_reads e = ground (arith, e)

open_protected_example :
    let s' = (get_next_operation_id guarded_start).1 in
    (open_file guarded settings 2 path 1 guarded_start ≡ ((none, 0, eperm), s'))
    × (s'.world ≡ guarded_start.world)
open_protected_example =
    open_protected guarded settings 2 path 1 guarded_start tt refl refl
      (inr (refl, writes_not_reads))

truncate_lem_example :
    let (errno, s') = truncate server settings path 5 start in
    ((errno ≡ ok) ⊎ (errno ≡ enoent) ⊎ (errno ≡ eremoteio)) × SameMap server settings start s'
truncate_lem_example = truncate_lem server settings path 5 start refl

xattrs_agree_example :
    let s1 = (get_next_operation_id start).1 in
    let attr = codes "user.k" in
    let value = codes "v" in
    (listxattr server settings path [] start ≡ Xattrs.listxattr server settings path [] start)
    × (getxattr server settings path attr [] start
        ≡ Xattrs.getxattr server settings path attr [] start)
    × (removexattr server settings path attr start
        ≡ Xattrs.removexattr server settings path attr start)
    × (is_unhandled_attr attr ≡ false
        → setxattr server settings path attr value start
          ≡ Xattrs.setxattr server settings path attr value start)
    × (settings.no_set_xattr ≡ false
        → is_unhandled_attr attr ≡ true
        → (setxattr server settings path attr value start ≡ (einval, s1))
          × (Xattrs.setxattr server settings path attr value start ≡ (eacces, s1)))
xattrs_agree_example =
    xattrs_agree server settings path (codes "user.k") (codes "v") [] start tt refl refl refl refl
