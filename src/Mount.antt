-- ===== src/Mount.antt =====
-- `main`, `set_root_dir` of CachingFileSystem.cpp and `open_log` of logManager.cpp: what is done
-- before FUSE takes over.
pub mod Ready
mod Tests
use os_ex.Common.{
  ℕ, Bool, true, false, ◌&&◌, ◌||◌, not, Option, none, some, List, [], ◌∷◌, ◌++◌, length, take,
  Outcome, done, undefined, bad_copy, require, ◌>>=◌, ◌>>◌, ltb, if◌then◌else◌,
}
use os_ex.Common.Int.{ℤ, pos, ltb_ℤ}
use os_ex.Block.{Text}
use os_ex.Manager.{Doubles, CacheManager, construct}
use os_ex.Paths.{slash}
use os_ex.Handlers.{FileSystem}
use os_ex.Handlers.Directory.{logfile_name}

-- The calls of `main` to the world outside. `stoi` and `stod` give nothing where they throw,
-- `realpath` where it gives a null pointer, and `stat` where it fails; it says otherwise whether the
-- path is a directory. `fopen` says whether the log could be opened to append.
pub record Host (d : Doubles) : Type 0 where
  pub path_max : ℕ
  pub stoi : Text → Option ℤ
  pub stod : Text → Option d.Double
  pub realpath : Text → Option Text
  pub stat : Option Text → Option Bool
  pub fopen : Text → Bool

-- How `main` ends, or what it gives to `fuse_main`: the arguments, the operations' state.
-- `bad_arguments` prints the usage and exits with 1, `uncaught` ends the process with an exception,
-- and `no_log` exits with 1 after a message.
pub data Start (World : Type 0) : Type 0 where
  bad_arguments uncaught no_log : Start World
  mounts : List Text → FileSystem World → Start World

-- The second part of `argsValidity`, on the numbers.
abbrev pub are_sizes : (d : Doubles) → ℤ → d.Double → d.Double → Bool
are_sizes d number_of_blocks f_old f_new = not (
    d.floor_below_one f_old number_of_blocks
    || d.at_least_one f_old
    || d.floor_below_one f_new number_of_blocks
    || d.at_least_one f_new
    || d.sum_above_one f_old f_new
    || ltb_ℤ number_of_blocks (pos 1))

module _ (d : Doubles) (host : Host d) {World : Type 0} (world : World) where
  abbrev pub is_dir : Option Bool → Bool
  is_dir none = false
  is_dir (some b) = b

  -- The first part of `argsValidity`, on the two directories.
  abbrev pub are_directories : Text → Text → Bool
  are_directories root mount =
      is_dir (host.stat (host.realpath root)) && is_dir (host.stat (host.realpath mount))

  -- `set_root_dir`; a null pointer is copied from right afterwards.
  unfoldable pub set_root_dir : Text → Outcome Text
  set_root_dir root_dir = elim (host.realpath root_dir) [
    | none ↦ undefined bad_copy
    | some root ↦ done root
  ]

  -- `log_full_path`, in an array of PATH_MAX bytes with the final zero.
  unfoldable pub log_full_path : Text → Outcome Text
  log_full_path root = do
    let full = root ++ (slash ∷ take host.path_max logfile_name)
    require (ltb (length full) host.path_max) bad_copy
    done full

  -- `open_log`, and the call of `fuse_main`.
  abbrev pub open_log : Text → Start World → Start World
  open_log logfile go = if host.fopen logfile then go else no_log

  -- After the arguments are found valid: `-s` has FUSE run with one thread.
  unfoldable pub mount : Text → Text → Text → CacheManager → Outcome (Start World)
  mount program root_dir mount_dir manager = do
    root ← set_root_dir root_dir
    logfile ← log_full_path root
    done (
        open_log logfile (
          mounts (program ∷ mount_dir ∷ (b'-' ∷ b's' ∷ []) ∷ []) (record {
            logfile_full_path = logfile;
            logfile = [];
            rootdir = root;
            cache_manager = manager;
            world = world;
          })))

  unfoldable pub start_with :
      Text → Text → Text → Option ℤ → Option d.Double → Option d.Double → Outcome (Start World)
  start_with program root mount_dir (some n) (some f_old) (some f_new) =
      if are_directories root mount_dir && are_sizes d n f_old f_new
      then mount program root mount_dir (construct d n f_old f_new)
      else done bad_arguments
  start_with program root mount_dir _ _ _ = done uncaught

  -- `argv`, the program's name first.
  unfoldable pub main : List Text → Outcome (Start World)
  main (program ∷ root ∷ mount_dir ∷ blocks ∷ f_old ∷ f_new ∷ []) =
      start_with program root mount_dir (host.stoi blocks) (host.stod f_old) (host.stod f_new)
  main _ = done bad_arguments
