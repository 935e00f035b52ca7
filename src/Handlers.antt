-- ===== src/Handlers.antt =====
-- The handlers of CachingFileSystem.cpp that FUSE calls, and logManager.cpp. Handlers/Directory.antt
-- has `caching_readdir`, and Handlers/Reading.antt `caching_read` and `caching_ioctl`.
pub mod Directory
pub mod Reading
pub mod Log
pub mod Rename
pub mod Listing
pub mod Contents
pub mod Served
pub mod Tests
use os_ex.Common.{
  ℕ, ◌+◌, ◌%◌, Bool, ◌||◌, List, [], ◌∷◌, ◌++◌, length, take, Option, Outcome, done, bad_copy,
  require, ◌>>=◌, ◌>>◌, ◌==◌, ltb, if◌then◌else◌,
}
use os_ex.Block.{Text, Buffer}
use os_ex.Manager.{CacheManager}
use os_ex.Paths.{update_paths}
use os_ex.Paths.Segments.{same_text}
use os_ex.Read.{Call, gives, fails}
use os_ex.Read.File.{Stat}

-- The system calls that the handlers forward to. A call that succeeds with 0 gives the unit; file
-- descriptors and directory streams are numbers.
pub record System : Type 1 where
  pub World : Type 0
  pub Attributes : Type 0
  pub path_max : ℕ
  pub time : World → ℕ × World
  pub lstat : Text → World → Call Attributes × World
  pub fstat : ℕ → World → Call Attributes × World
  pub access : Text → ℕ → World → Call (Unit {0}) × World
  pub open_file : Text → World → Call ℕ × World
  pub close : ℕ → World → Call (Unit {0}) × World
  pub opendir : Text → World → Call ℕ × World
  pub closedir : ℕ → World → Call (Unit {0}) × World
  pub rename : Text → Text → World → Call (Unit {0}) × World
  -- The name and the inode of the next entry, if there is one.
  pub readdir : ℕ → World → Option (Text × ℕ) × World
  -- What `fstat` says to `caching_read`.
  pub stat_of : Attributes → Stat
  -- The bytes from an offset of a file on, as many as asked for or up to its end; to read them
  -- changes nothing that the program sees.
  pub pread : World → ℕ → ℕ → ℕ → Call Buffer

-- ENOENT, EACCES and ENONET of Linux.
abbrev pub enoent : ℕ
enoent = 2

abbrev pub eacces : ℕ
eacces = 13

abbrev pub enonet : ℕ
enonet = 64

-- The name that a call is logged by.
pub data CallName : Type 0 where
  getattr fgetattr access open_file read flush release opendir readdir releasedir rename init
        destroy ioctl :
      CallName

-- A line of the log: the time and the name of a call, or the table that `ioctl_log` prints.
pub data LogLine : Type 0 where
  called : ℕ → CallName → LogLine
  printed : Text → LogLine

-- `cfs_state` with what was written to the log file, oldest first, the cache, and the world outside.
pub record FileSystem (World : Type 0) : Type 0 where
  pub logfile_full_path : Text
  pub logfile : List LogLine
  pub rootdir : Text
  pub cache_manager : CacheManager
  pub world : World

module _ (sys : System) where
  abbrev pub Fs : Type 0
  Fs = FileSystem sys.World

  -- A handler returns 0 or more, or -errno, which is `fails errno`.
  abbrev pub Handler : Type 0 → Type 0
  Handler A = Fs → Outcome (Call A × Fs)

  unfoldable pub log_call : CallName → Fs → Fs
  log_call name fs =
      let (t, w) = sys.time fs.world in
      record fs { logfile = fs.logfile ++ (called t name ∷ []); world = w }

  -- `caching_full_path` into an array of PATH_MAX bytes, with the final zero.
  unfoldable pub caching_full_path : Text → Fs → Outcome Text
  caching_full_path path fs = do
    let full = fs.rootdir ++ take sys.path_max path
    require (ltb (length full) sys.path_max) bad_copy
    done full

  abbrev pub refering_logfile : Text → Fs → Bool
  refering_logfile path fs = same_text path fs.logfile_full_path

  -- How a handler begins: the call is logged, and refused on the log file.
  unfoldable pub unless_log : {A : Type 0} → CallName → Text → ℕ → (Text → Handler A) → Handler A
  unless_log name path errno go fs = do
    let logged = log_call name fs
    full ← caching_full_path path logged
    if refering_logfile full logged then done (fails errno, logged) else go full logged

  abbrev pub forward : {A : Type 0} → (sys.World → Call A × sys.World) → Handler A
  forward call fs = let (r, w) = call fs.world in done (r, record fs { world = w })

  unfoldable pub caching_getattr : Text → Handler sys.Attributes
  caching_getattr path = unless_log CallName.getattr path enoent (λ full. forward (sys.lstat full))

  unfoldable pub caching_fgetattr : Text → ℕ → Handler sys.Attributes
  caching_fgetattr path fh =
      unless_log CallName.fgetattr path enonet (λ full. forward (sys.fstat fh))

  unfoldable pub caching_access : Text → ℕ → Handler (Unit {0})
  caching_access path mask =
      unless_log CallName.access path enoent (λ full. forward (sys.access full mask))

  -- O_WRONLY is 1 and O_RDWR is 2.
  abbrev pub open_for_reading : ℕ → Text → Handler ℕ
  open_for_reading flags full fs =
      if (flags % 4 == 1) || (flags % 4 == 2)
      then done (fails eacces, fs)
      else forward (sys.open_file full) fs

  unfoldable pub caching_open : Text → ℕ → Handler ℕ
  caching_open path flags = unless_log CallName.open_file path enonet (open_for_reading flags)

  unfoldable pub caching_flush : Text → Handler (Unit {0})
  caching_flush path = unless_log CallName.flush path enonet (λ full fs. done (gives tt, fs))

  -- What `fstat` gives is not looked at.
  abbrev pub stat_and_close : ℕ → Handler (Unit {0})
  stat_and_close fh fs =
      let (r, w) = sys.fstat fh fs.world in forward (sys.close fh) (record fs { world = w })

  unfoldable pub caching_release : Text → ℕ → Handler (Unit {0})
  caching_release path fh = unless_log CallName.release path enoent (λ full. stat_and_close fh)

  unfoldable pub caching_opendir : Text → Handler ℕ
  caching_opendir path =
      unless_log CallName.opendir path enoent (λ full. forward (sys.opendir full))

  -- The path is compared as it is, without the root.
  unfoldable pub caching_releasedir : Text → ℕ → Handler (Unit {0})
  caching_releasedir path dp fs =
      let logged = log_call CallName.releasedir fs in
      if refering_logfile path logged
      then done (fails enonet, logged)
      else forward (sys.closedir dp) logged

  -- After `rename`, with the two paths below the mount.
  abbrev pub rename_cached : Text → Text → Call (Unit {0}) × Fs → Outcome (Call (Unit {0}) × Fs)
  rename_cached path newpath (fails errno, fs) = done (fails errno, fs)
  rename_cached path newpath (gives _, fs) = do
    m ← update_paths path newpath fs.cache_manager
    done (gives tt, record fs { cache_manager = m })

  unfoldable pub caching_rename : Text → Text → Handler (Unit {0})
  caching_rename path newpath fs = do
    let logged = log_call CallName.rename fs
    full ← caching_full_path path logged
    new_full ← caching_full_path newpath logged
    let go = forward (sys.rename full new_full) logged >>= rename_cached path newpath
    if refering_logfile full logged then done (fails enoent, logged) else go

  unfoldable pub caching_init : Fs → Fs
  caching_init = log_call CallName.init

  unfoldable pub caching_destroy : Fs → Fs
  caching_destroy = log_call CallName.destroy
