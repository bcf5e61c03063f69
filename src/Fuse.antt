-- ===== src/Fuse.antt =====
-- utils/fuse.go: whether FUSE is there, and the unmounting by fusermount.
use irodsfs.Base.{
  Bool, false, ◌&&◌, Option, none, some, Text, codes, same, length, ◌==◌, [], ◌∷◌, if◌then◌else◌,
}
use irodsfs.Os.{not_exist, unreadable, found, Os}

pub data CheckFuseStatus : Type 0 where
  fuse_found fuse_not_found fuse_cannot_run fuse_unknown : CheckFuseStatus

unfoldable pub check_dev_fuse : (os : Os) → os.World → CheckFuseStatus
check_dev_fuse os w = elim (os.stat (codes "/dev/fuse") w) [
  | not_exist ↦ fuse_not_found
  | unreadable ↦ fuse_not_found
  | found dev ↦ if dev.is_char_device then fuse_found else fuse_unknown
]

unfoldable pub check_fuse : (os : Os) → os.World → CheckFuseStatus
unfolding check_dev_fuse
check_fuse os w =
    if same os.goos (codes "linux")
    then check_dev_fuse os w
    else if same os.goos (codes "darwin")
    then fuse_cannot_run
    else if same os.goos (codes "windows")
    then fuse_cannot_run
    else fuse_unknown

unfoldable pub look_path_fallback : (os : Os) → Text → Text → os.World → Option Text
look_path_fallback os file fallback_dir w = elim (os.look_path file w) [
  | some bin_path ↦ some bin_path
  | none ↦ os.look_path (os.path_join fallback_dir file) w
]

unfoldable pub fusermount_binary : (os : Os) → os.World → Option Text
unfolding look_path_fallback
fusermount_binary os w = elim (look_path_fallback os (codes "fusermount3") (codes "/bin") w) [
  | some path ↦ some path
  | none ↦ look_path_fallback os (codes "fusermount") (codes "/bin") w
]

-- Whether there was no error.
unfoldable pub unmount_fuse : (os : Os) → Text → os.World → Bool × os.World
unfolding fusermount_binary
unmount_fuse os mount_point w = elim (fusermount_binary os w) [
  | none ↦ (false, w)
  | some bin ↦
      let ((messages, done), w') = os.run bin (codes "-uz" ∷ mount_point ∷ []) w in
      ((length messages == 0) && done, w')
]
