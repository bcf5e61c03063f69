-- ===== src/Tests/Fs.antt =====
-- Requests to the whole file system, on the small server.
use irodsfs.Base.{refl, List, [], ◌∷◌, codes}
use irodsfs.HandleMap.{get}
use irodsfs.HandleMap.Consistency.{IsConsistent, empty-IsConsistent}
use irodsfs.Base.Dict.{lookup}
use irodsfs.Base.Ints.{pos}
use irodsfs.Fs.Requests.{Request, open_file, handle, to_read, to_release}
use irodsfs.Fs.Requests.Consistency.{serve_all, AllFresh, serve_all-IsConsistent}
use irodsfs.Tests.Server.{server, settings, start}
use irodsfs.Tests.FileHandles.{reading}

-- Opens a file, reads from it, and releases it.
abbrev requests : List Request
requests =
    open_file 2 (codes "/m/f") 0
    ∷ handle reading (to_read (0 ∷ []) (pos 0))
    ∷ handle reading to_release
    ∷ []

requests-AllFresh : AllFresh server settings requests start
unfolding get lookup
requests-AllFresh = (λ h e. refl, (tt, (tt, tt)))

serve_all-IsConsistent_example :
    IsConsistent (serve_all server settings requests start).file_handle_map
serve_all-IsConsistent_example =
    serve_all-IsConsistent server settings requests start requests-AllFresh empty-IsConsistent
