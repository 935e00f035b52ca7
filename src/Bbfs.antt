-- ===== src/Bbfs.antt =====
-- bbfs.c and log.c of resources/fuse-tutorial-2016-03-25/src, the Big Brother file system: it logs
-- each request and passes it to the file system under it. This file has the data: the requests
-- of FUSE, the calls to the system, the log and the state; params.h has the state's struct.
pub mod Logging
pub mod Attributes
pub mod Files
pub mod Directories
pub mod Dispatch
pub mod Start
pub mod Quiet
pub mod Noop
pub mod Shapes
pub mod Single
pub mod Forward
pub mod Stream
pub mod Unterminated
mod Tests
use Prim.Native.String.{String}
use os_ex.Common.{ℕ, Bool, List, [], Outcome, done}
use os_ex.Common.Int.{ℤ, pos}
use os_ex.Block.{Text}

-- `struct fuse_file_info`, without its padding. `fh` is what the program stores there, an `int` or a
-- pointer.
pub record FileInfo : Type 0 where
  pub flags : ℕ
  pub fh_old : ℕ
  pub writepage : ℤ
  pub direct_io : ℕ
  pub keep_cache : ℕ
  pub fh : ℤ
  pub lock_owner : ℕ

-- A call of the system or of the C library on the files under the root.
pub data SysCall : Type 0 where
  lstat : Text → SysCall
  readlink : Text → ℕ → SysCall
  open_file : Text → ℕ → ℕ → SysCall
  close : ℤ → SysCall
  mkfifo : Text → ℕ → SysCall
  mknod : Text → ℕ → ℕ → SysCall
  mkdir : Text → ℕ → SysCall
  unlink : Text → SysCall
  rmdir : Text → SysCall
  symlink : Text → Text → SysCall
  rename : Text → Text → SysCall
  link : Text → Text → SysCall
  chmod : Text → ℕ → SysCall
  chown : Text → ℕ → ℕ → SysCall
  truncate : Text → ℤ → SysCall
  utime : Text → ℕ → ℕ → SysCall
  pread : ℤ → ℕ → ℤ → SysCall
  pwrite : ℤ → Text → ℕ → ℤ → SysCall
  statvfs : Text → SysCall
  fsync : ℤ → SysCall
  fdatasync : ℤ → SysCall
  lsetxattr : Text → Text → List ℕ → ℕ → ℕ → SysCall
  lgetxattr : Text → Text → ℕ → SysCall
  llistxattr : Text → ℕ → SysCall
  lremovexattr : Text → Text → SysCall
  opendir : Text → SysCall
  readdir : ℤ → SysCall
  closedir : ℤ → SysCall
  access : Text → ℕ → SysCall
  ftruncate : ℤ → ℤ → SysCall
  fstat : ℤ → SysCall

-- What a call returns, where a null pointer is 0, what `errno` is after it, and what the caller's
-- buffer or struct holds then: its bytes, or the values of its fields in the order of log.c.
pub record Reply : Type 0 where
  pub ret : ℤ
  pub errno : ℕ
  pub filled : List ℕ

-- A call of a member of `bb_oper` other than `readdir` and `init`. `readlink` comes with the bytes that
-- the caller's buffer has, and `setxattr` with those of the value, which need no zero at their end.
pub data Request : Type 0 where
  getattr : Text → Request
  readlink : Text → List ℕ → ℕ → Request
  mknod : Text → ℕ → ℕ → Request
  mkdir : Text → ℕ → Request
  unlink : Text → Request
  rmdir : Text → Request
  symlink : Text → Text → Request
  rename : Text → Text → Request
  link : Text → Text → Request
  chmod : Text → ℕ → Request
  chown : Text → ℕ → ℕ → Request
  truncate : Text → ℤ → Request
  utime : Text → ℕ → ℕ → Request
  open_file : Text → FileInfo → Request
  read : Text → ℕ → ℤ → FileInfo → Request
  write : Text → Text → ℕ → ℤ → FileInfo → Request
  statfs : Text → Request
  flush : Text → FileInfo → Request
  release : Text → FileInfo → Request
  fsync : Text → ℤ → FileInfo → Request
  setxattr : Text → Text → List ℕ → ℕ → ℕ → Request
  getxattr : Text → Text → ℕ → Request
  listxattr : Text → ℕ → Request
  removexattr : Text → Text → Request
  opendir : Text → FileInfo → Request
  releasedir : Text → FileInfo → Request
  fsyncdir : Text → ℤ → FileInfo → Request
  access : Text → ℕ → Request
  ftruncate : Text → ℤ → FileInfo → Request
  fgetattr : Text → FileInfo → Request
  destroy : Request

-- A message in the log, by the values that its format prints, but for pointers and what they point to.
pub data Line : Type 0 where
  request : Request → Line
  listing : Text → ℤ → FileInfo → Line
  full_path : Text → Text → Text → Line
  returned : String → ℤ → Line
  failed : String → ℕ → Line
  title : String → Line
  field : String → ℤ → Line
  attributes : ℤ → Line
  text : String → Text → Line

pub record System : Type 1 where
  pub World : Type 0
  pub path_max : ℕ
  pub call : SysCall → World → Reply × World
  -- `errno` after `vfprintf` of a message, where it was the given number before.
  pub errno_after : Line → ℕ → ℕ

-- `bb_state` with what the log file has, oldest first, the global `errno`, and the files.
pub record State (World : Type 0) : Type 0 where
  pub logfile : List Line
  pub rootdir : Text
  pub errno : ℕ
  pub world : World

-- What a handler returns: its result, what it left in the caller's buffer, and in `fi->fh`.
pub record Answer : Type 0 where
  pub retstat : ℤ
  pub filled : List ℕ
  pub fh : ℤ

module _ (sys : System) where
  abbrev pub M : Type 0 → Type 0
  M A = State sys.World → Outcome (A × State sys.World)

-- An answer that touches neither buffer nor file handle.
abbrev pub status : ℤ → Answer
status r = record { retstat = r; filled = []; fh = pos 0 }
