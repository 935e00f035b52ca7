-- ===== src/Handlers/Reading.antt =====
-- `caching_read` and `caching_ioctl` of CachingFileSystem.cpp, and `ioctl_log` of logManager.cpp.
use os_ex.Common.{ℕ, [], ◌∷◌, ◌++◌, Outcome, done, undefined, uninitialised, ◌>>=◌}
use os_ex.Common.Int.{ℤ}
use os_ex.Block.{Text, Buffer}
use os_ex.Read.{Call, gives, fails, manager_cache}
use os_ex.Read.File.{read_file}
use os_ex.Table.{cache_to_string}
use os_ex.Handlers.{System, CallName, printed, Fs, Handler, log_call, unless_log, enoent}

module _ (sys : System) where
  -- What is done with the result of `fstat`; where it fails, `st` is read as it was left, and that is
  -- out of the model.
  unfoldable pub read_stated :
      Text → ℕ → ℕ → ℤ → Call sys.Attributes × sys.World → Fs sys → Outcome (Call Buffer × Fs sys)
  read_stated path fh size offset (fails errno, w) fs = undefined uninitialised
  read_stated path fh size offset (gives a, w) fs = do
    (r, m) ←
        read_file manager_cache (sys.pread w fh) (sys.stat_of a) path size offset fs.cache_manager
    done (r, record fs { cache_manager = m; world = w })

  -- The size is never negative, since it is a `size_t`.
  unfoldable pub caching_read : Text → ℕ → ℕ → ℤ → Handler sys Buffer
  caching_read path fh size offset =
      unless_log sys CallName.read path enoent
        (λ full fs. read_stated path fh size offset (sys.fstat fh fs.world) fs)

  -- The text of the table into the log.
  abbrev pub ioctl_log : Text → Fs sys → Fs sys
  ioctl_log cached_files fs = record fs { logfile = fs.logfile ++ (printed cached_files ∷ []) }

  unfoldable pub caching_ioctl : Handler sys (Unit {0})
  caching_ioctl fs = do
    let logged = log_call sys CallName.ioctl fs
    table ← cache_to_string logged.cache_manager
    done (gives tt, ioctl_log table logged)
