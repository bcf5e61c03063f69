-- ===== src/Env.antt =====
-- What the handlers of irodsfs/ work with: the calls of go-irodsclient, irodsfs-common, irodsfs-pool
-- and go-fuse as one record of parameters over an unknown world, the state of `IRODSFS`
-- (irodsfs/fs.go), and a monad whose `returned` is an early `return` of the source.
-- Sizes, IDs and times that the client library keeps in signed integers are natural numbers here.
use irodsfs.Base.{
  ◌≡◌, refl, ◌⊎◌, inl, inr, ℕ, ◌+◌, ◌%◌, ◌^◌, Bool, true, false, Option, none, some, List, Text,
}
use irodsfs.Base.Dict.{Dict}
use irodsfs.Base.Ints.{ℤ}
use irodsfs.Types.{FileOpenMode}
use irodsfs.HandleMap.{FileHandleMap}
use irodsfs.Locks.{LockMap}

-- `Entry` of go-irodsclient/fs, as far as it is read. `is_dir` is its method `IsDir`, which tells
-- whether its type is `DirectoryEntry`.
pub record Entry : Type 0 where
  pub id : ℕ
  pub is_dir : Bool
  pub name : Text
  pub path : Text
  pub owner : Text
  pub size : ℕ
  pub modify_time : ℕ

pub data AccessLevel : Type 0 where
  administer_object owner modify_object create_object read_object execute curate null : AccessLevel
  other_level : AccessLevel

pub data UserType : Type 0 where
  rods_user rods_group other_user : UserType

pub record Access : Type 0 where
  pub user_name : Text
  pub user_type : UserType
  pub access_level : AccessLevel

pub record Meta : Type 0 where
  pub name : Text
  pub value : Text

-- A virtual directory of irodsfs-common/vpath.
pub record VirtualDir : Type 0 where
  pub id : Text
  pub name : Text
  pub size : ℕ
  pub modify_time : ℕ

-- A call's error, or its value.
pub data Reply (X A : Type 0) : Type 0 where
  failed : X → Reply X A
  replied : A → Reply X A

pub Reply-cases :
    {X A : Type 0} (r : Reply X A) → ((x : X) × (r ≡ failed x)) ⊎ ((a : A) × (r ≡ replied a))
Reply-cases (failed x) = inl (x, refl)
Reply-cases (replied a) = inr (a, refl)

-- The readers and writers that irodsfs/filehandle.go sets up.
pub data Reader : Type 0 where
  nil_reader sync_reader async_cache_reader : Reader

pub data Writer : Type 0 where
  nil_writer sync_writer async_buffered_writer : Writer

pub record External : Type 1 where
  pub World : Type 0
  pub Err : Type 0
  -- go-irodsclient/irods/types: tests on errors and open modes
  pub is_file_not_found_error : Err → Bool
  pub is_connection_error : Err → Bool
  pub is_connection_pool_full_error : Err → Bool
  pub is_collection_not_empty_error : Err → Bool
  pub is_read_only : FileOpenMode → Bool
  pub is_write_only : FileOpenMode → Bool
  pub is_read : FileOpenMode → Bool
  pub is_write : FileOpenMode → Bool
  -- `xerrors.Errorf`, for the errors that irodsfs/vpath.go makes up
  pub errorf : Err
  -- `IRODSFSClient` of irodsfs-common/irods, and its file handles
  pub IrodsHandle : Type 0
  pub stat : Text → World → Reply Err Entry × World
  pub list : Text → World → Reply Err (List Entry) × World
  pub list_dir_acls : Text → World → Reply Err (List Access) × World
  pub list_file_acls : Text → World → Reply Err (List Access) × World
  pub list_xattr : Text → World → Reply Err (List Meta) × World
  pub get_xattr : Text → Text → World → Reply Err (Option Meta) × World
  pub set_xattr : Text → Text → Text → World → Reply Err (Unit {0}) × World
  pub remove_xattr : Text → Text → World → Reply Err (Unit {0}) × World
  pub make_dir : Text → World → Reply Err (Unit {0}) × World
  pub remove_dir : Text → World → Reply Err (Unit {0}) × World
  pub remove_file : Text → World → Reply Err (Unit {0}) × World
  pub rename_dir_to_dir : Text → Text → World → Reply Err (Unit {0}) × World
  pub rename_file_to_file : Text → Text → World → Reply Err (Unit {0}) × World
  pub truncate_file : Text → ℤ → World → Reply Err (Unit {0}) × World
  pub create_file : Text → FileOpenMode → World → Reply Err IrodsHandle × World
  pub open_file : Text → FileOpenMode → World → Reply Err IrodsHandle × World
  pub entry_path : IrodsHandle → Text
  pub handle_open_mode : IrodsHandle → FileOpenMode
  pub start_file_access : IrodsHandle → World → World
  -- `NewAsyncCacheThroughReader` of irodsfs-common/io, which may fail
  pub new_async_reader : IrodsHandle → World → Reply Err (Unit {0}) × World
  -- `Truncate`, `Close` and the size in `GetEntry` of a server's file handle, and the report of its end
  pub truncate : IrodsHandle → ℤ → World → Reply Err (Unit {0}) × World
  pub close : IrodsHandle → World → Reply Err (Unit {0}) × World
  pub entry_size : IrodsHandle → World → ℕ
  pub done_file_access : IrodsHandle → World → Reply Err (Unit {0}) × World
  -- The readers and writers of irodsfs-common/io on a server's handle. `ReadAt` fills a buffer and
  -- answers the buffer, how many bytes of it are read, and an error, which may be `io.EOF`.
  pub is_eof : Err → Bool
  pub read_at : Reader → IrodsHandle → List ℕ → ℤ → World → (List ℕ × ℕ × Option Err) × World
  pub write_at : Writer → IrodsHandle → List ℕ → ℤ → World → Reply Err ℕ × World
  pub flush : Writer → IrodsHandle → World → Reply Err (Unit {0}) × World
  pub release_reader : Reader → IrodsHandle → World → World
  pub reader_error : Reader → IrodsHandle → World → Option Err
  pub release_writer : Writer → IrodsHandle → World → World
  pub writer_error : Writer → IrodsHandle → World → Option Err
  -- `xid.New().String()`
  pub new_id : World → Text × World
  -- `InodeManager` of irodsfs-common/inode
  pub inode_for_irods_entry_id : ℕ → World → ℕ × World
  pub inode_for_vpath_entry_id : Text → World → ℕ × World
  pub inode_for_vpath_entry : Text → World → ℕ × World
  -- `VPathManager` and `VPathEntry` of irodsfs-common/vpath
  pub VPathEntry : Type 0
  pub get_entry : Text → World → Option VPathEntry
  pub get_closest_entry : Text → World → Option VPathEntry
  pub vpath_path : VPathEntry → Text
  pub vpath_read_only : VPathEntry → Bool
  pub is_virtual_dir_entry : VPathEntry → Bool
  pub is_irods_entry : VPathEntry → Bool
  pub virtual_dir_entry : VPathEntry → VirtualDir
  pub virtual_dir_entries : VPathEntry → World → List VPathEntry
  pub irods_entry : VPathEntry → World → Entry
  pub require_irods_entry_update : VPathEntry → World → Bool
  pub update_irods_entry : VPathEntry → World → Reply Err (Unit {0}) × World
  pub get_irods_path : VPathEntry → Text → Reply Err Text
  -- `JoinPath`, `GetFileName` and `GetRelativePath` of irodsfs-common/utils, and `time.Now`
  pub join_path : Text → Text → Text
  pub get_file_name : Text → Text
  pub get_relative_path : Text → Text → Reply Err Text
  pub now : World → ℕ
  -- Unmounting by the operating system
  pub unmount_fuse : World → Reply Err (Unit {0}) × World

-- `Dir` and `File`: the inode ID and the path.
pub data Node : Type 0 where
  dir_node file_node : ℕ → Text → Node

-- The fields of a `FileHandle` that change, and its lock manager's map.
pub record Cell (E : External) : Type 0 where
  pub file : Option Node
  pub irods_file_handle : Option (E.IrodsHandle)
  pub reader : Option Reader
  pub writer : Option Writer
  pub locks : LockMap

-- The fields of `IRODSFS` and of its `Config` that do not change and that the handlers read.
pub record Settings : Type 0 where
  pub no_permission_check : Bool
  pub no_set_xattr : Bool
  pub client_user : Text
  pub uid : ℕ
  pub gid : ℕ
  pub user_groups : List Text  -- the keys of `userGroupsMap`
  pub has_report_client : Bool

-- The rest of `IRODSFS`, with the handles that the pointers in its map lead to, and the world.
pub record Sys (E : External) : Type 0 where
  pub terminated : Bool
  pub operation_id_current : ℕ
  pub file_handle_map : FileHandleMap
  pub cells : Dict (Cell E)
  pub world : E.World

pub data Exit (R A : Type 0) : Type 0 where
  returned : R → Exit R A
  running : A → Exit R A

abbrev pub M : External → Type 0 → Type 0 → Type 0
M E R A = Sys E → Exit R A × Sys E

pub Exit-cases :
    {R A : Type 0} (x : Exit R A) → ((r : R) × (x ≡ returned r)) ⊎ ((a : A) × (x ≡ running a))
Exit-cases (returned r) = inl (r, refl)
Exit-cases (running a) = inr (a, refl)

infixl 5 ◌>>=◌ ◌>>◌
abbrev pub ◌>>=◌ : {E : External} {R A B : Type 0} → M E R A → (A → M E R B) → M E R B
◌>>=◌ m f s = let (x, s') = m s in elim x [ returned r ↦ (returned r, s') | running a ↦ f a s' ]

abbrev pub ◌>>◌ : {E : External} {R B : Type 0} → M E R (Unit {0}) → M E R B → M E R B
m >> k = m >>= λ _. k

-- `return r`
abbrev pub return : {E : External} {R A : Type 0} → R → M E R A
return r s = (returned r, s)

-- `if b { return r }`
abbrev pub return_if : {E : External} {R : Type 0} → Bool → R → M E R (Unit {0})
return_if true r s = (returned r, s)
return_if false r s = (running tt, s)

-- A function of the program, called.
abbrev pub call : {E : External} {R A : Type 0} → (Sys E → A × Sys E) → M E R A
call f s = let (a, s') = f s in (running a, s')

-- A call that leaves the state of the program alone and may change the world.
abbrev pub ask : {E : External} {R A : Type 0} → (E.World → A × E.World) → M E R A
ask f s = let (a, w) = f s.world in (running a, record s { world = w })

abbrev pub read : {E : External} {R A : Type 0} → (Sys E → A) → M E R A
read f s = (running (f s), s)

-- What a call answers that changes nothing.
abbrev pub observe : {E : External} {R A : Type 0} → (E.World → A) → M E R A
observe f s = (running (f s.world), s)

-- `if err != nil { return ... }` after a call.
abbrev pub or_return : {E : External} {R X A : Type 0} → Reply X A → (X → R) → M E R A
or_return (failed x) f s = (returned (f x), s)
or_return (replied a) f s = (running a, s)

-- `if x == nil { return r }` after a call that returns a pointer.
abbrev pub some_or : {E : External} {R A : Type 0} → Option A → R → M E R A
some_or none r s = (returned r, s)
some_or (some a) r s = (running a, s)

-- `if err != nil { return ... }` after a call that returns an error or `nil` only.
abbrev pub nil_or : {E : External} {R X : Type 0} → Option X → (X → R) → M E R (Unit {0})
nil_or none f s = (running tt, s)
nil_or (some x) f s = (returned (f x), s)

-- The result of a body, whose last statement returns.
abbrev pub body : {E : External} {R : Type 0} → M E R R → Sys E → R × Sys E
body m s = let (x, s') = m s in elim x [ returned r ↦ (r, s') | running r ↦ (r, s') ]

-- `if fs.terminated { return r }`
abbrev pub unless_terminated : {E : External} {R : Type 0} → R → M E R (Unit {0})
unless_terminated r s = return_if s.terminated r s

-- `GetNextOperationID`: the counter is a `uint64`.
unfoldable pub get_next_operation_id : {E : External} → Sys E → ℕ × Sys E
get_next_operation_id s =
    let id = (s.operation_id_current + 1) % 2 ^ 64 in (id, record s { operation_id_current = id })
