-- ===== src/Example.antt =====
-- examplefs.{hh,cc}, wrap.{hh,cc} and main.c of resources/example: a file system that passes each
-- request on to the files under its root. This file has the data: the requests, the calls of the C
-- library, what is printed, and the state.
pub mod Methods
pub mod Directory
pub mod Wrap
pub mod Start
pub mod Answers
pub mod Carried
pub mod Signs
pub mod Stream
mod Tests
use os_ex.Common.{ℕ, Bool, Option, List, Outcome}
use os_ex.Common.Int.{ℤ}
use os_ex.Block.{Text}
use os_ex.Bbfs.{Reply, Answer}

-- A call of the C library. The bytes behind a pointer that the callee reads are with it.
pub data LibCall : Type 0 where
  lstat : Text → LibCall
  readlink : Text → ℕ → LibCall
  mknod : Text → ℕ → ℕ → LibCall
  mkdir : Text → ℕ → LibCall
  unlink : Text → LibCall
  rmdir : Text → LibCall
  symlink : Text → Text → LibCall
  rename : Text → Text → LibCall
  link : Text → Text → LibCall
  chmod : Text → ℕ → LibCall
  chown : Text → ℕ → ℕ → LibCall
  truncate : Text → ℤ → LibCall
  utime : Text → ℕ → ℕ → LibCall
  open_file : Text → ℕ → LibCall
  pread : ℤ → ℕ → ℤ → LibCall
  pwrite : ℤ → List ℕ → ℕ → ℤ → LibCall
  statvfs : Text → LibCall
  fsync : ℤ → LibCall
  fdatasync : ℤ → LibCall
  lsetxattr : Text → Text → List ℕ → ℕ → ℤ → LibCall
  getxattr : Text → Text → ℕ → LibCall
  llistxattr : Text → ℕ → LibCall
  lremovexattr : Text → Text → LibCall
  opendir : Text → LibCall
  readdir : ℤ → LibCall
  closedir : ℤ → LibCall
  ftruncate : ℤ → ℤ → LibCall

-- A call of a member of `examplefs_oper` other than `readdir`; `readlink` comes with the bytes that the
-- caller's buffer has, and a file with its handle, and with its flags when it is opened.
pub data Request : Type 0 where
  getattr : Text → Request
  readlink : Text → List ℕ → ℕ → Request
  mknod : Text → ℕ → ℕ → Request
  mkdir : Text → ℕ → Request
  unlink : Text → Request
  rmdir : Text → Request
  symlink : Text → Text → Request
  rename : Text → Text → Request
  link : Text → Text → Request
  chmod : Text → ℕ → Request
  chown : Text → ℕ → ℕ → Request
  truncate : Text → ℤ → Request
  utime : Text → ℕ → ℕ → Request
  open_file : Text → ℕ → Request
  read : Text → ℕ → ℤ → ℤ → Request
  write : Text → List ℕ → ℕ → ℤ → ℤ → Request
  statfs : Text → Request
  flush : Text → Request
  release : Text → Request
  fsync : Text → ℤ → ℤ → Request
  setxattr : Text → Text → List ℕ → ℕ → ℤ → Request
  getxattr : Text → Text → ℕ → Request
  listxattr : Text → ℕ → Request
  removexattr : Text → Text → Request
  opendir : Text → Request
  releasedir : Text → ℤ → Request
  fsyncdir : Text → ℤ → Request
  init : Request

-- A line of the output, by what its format prints.
pub data Line : Type 0 where
  asked : Request → Line
  getattr_of : Text → Line
  readdir_of : Text → ℤ → Line
  truncate_of : Text → ℤ → Line
  root_set : Option Text → Line

pub record System : Type 1 where
  pub World : Type 0
  pub path_max : ℕ
  pub call : LibCall → World → Reply × World
  -- `errno` after `printf` of a line, where it was the given number before.
  pub errno_after : Line → ℕ → ℕ

-- The one object of `ExampleFS`: its root is a path, or nothing where it was never set or is null.
pub record Instance : Type 0 where
  pub root : Option Text

-- `_instance`, what was printed, oldest first, the global `errno`, and the files.
pub record State (World : Type 0) : Type 0 where
  pub instance : Option Instance
  pub output : List Line
  pub errno : ℕ
  pub world : World

module _ (sys : System) where
  abbrev pub M : Type 0 → Type 0
  M A = State sys.World → Outcome (A × State sys.World)
