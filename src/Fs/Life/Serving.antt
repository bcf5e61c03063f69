-- ===== src/Fs/Life/Serving.antt =====
-- fs.go and the handlers together: from `NewFileSystem` and `Start` over the requests of the kernel to
-- `Stop`.
use irodsfs.Base.{◌≡◌, some}
use irodsfs.Config.{Config}
use irodsfs.Env.{External, Node, replied}
use irodsfs.Fs.{root}
use irodsfs.Fs.Life.{Irodsfs, sys_of, get_fuse_options}
use irodsfs.Fs.Life.Calls.{Services}

module _ (E : External) (S : Services E.World) where
  -- A file system `fs` that is mounted in `v` becomes `fs'` in `v'`: its root is what `Root` finds, it is
  -- mounted at the mount point and with the options of the configuration, and keeps the server of FUSE.
  abbrev pub IsMounted : Config → Irodsfs E S → E.World → Irodsfs E S → E.World → Type 0
  IsMounted config fs v fs' v' =
      (node : Node) × (server : S.Server) × ((root E (sys_of E S fs v)).0 ≡ replied node)
      × (S.mount config.mount_path node (get_fuse_options config) (root E (sys_of E S fs v)).1.world
          ≡ (some server, v'))
      × (fs' ≡ record fs { fuse_server = some server })
