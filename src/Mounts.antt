-- ===== src/Mounts.antt =====
-- What cmd/main.go uses of the file system of irodsfs/fs.go: an interface over a world `W`.
use irodsfs.Base.{Bool, Option}
use irodsfs.Config.{Config}

pub record FileSystems (W : Type 0) : Type 1 where
  pub Fs : Type 0
  pub new_file_system : Config → W → Option Fs × W
  -- whether there was no error
  pub start : Fs → W → Bool × Fs × W
  pub wait : Fs → W → W
  pub stop : Fs → W → Fs × W
  pub release : Fs → W → Fs × W
