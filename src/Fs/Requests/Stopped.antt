-- ===== src/Fs/Requests/Stopped.antt =====
-- What the kernel is answered after `Stop` of fs.go.
use irodsfs.Base.{◌≡◌, ◌⊎◌, Option, some, none}
use irodsfs.Base.Dict.{Dict, lookup}
use irodsfs.Types.{Errno, econnaborted, FileHandle}
use irodsfs.Env.{External, Settings, Sys}
use irodsfs.Handle.Nodes
use irodsfs.File.Attrs
use irodsfs.File.Xattrs
use irodsfs.File.Opens
use irodsfs.Dir.Changes
use irodsfs.Dir.Requests
use irodsfs.Fs.Requests.{Request, handle, HandleRequest}

module _ (E : External) (fs : Settings) where
  -- Only a request to a handle that there is not has no answer.
  abbrev IsAborted : Request → Option Errno × Sys E → Sys E → Type 0
  IsAborted r (answer, s') s =
      ((answer ≡ some econnaborted)
        ⊎ (answer ≡ none)
          × ((h : FileHandle) × (q : HandleRequest) × (r ≡ handle h q)
              × (lookup h.id s.cells ≡ none)))
      × (s' ≡ s)
