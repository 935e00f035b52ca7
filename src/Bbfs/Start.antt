-- ===== src/Bbfs/Start.antt =====
-- `main`, `bb_usage` of bbfs.c and `log_open` of log.c: what is done before FUSE takes over.
pub mod Arguments
use os_ex.Common.{
  ℕ, Bool, true, false, ◌||◌, Option, none, some, List, [], ◌∷◌, ◌++◌, Outcome, done, undefined,
  exited, bad_index, bad_copy, require, not, ◌>>=◌, ◌>>◌, ◌==◌, if◌then◌else◌,
}
use os_ex.Block.{Text}
use os_ex.Bbfs.{State}

-- The calls of `main` to the world outside: `malloc` and `fopen` say whether they succeed, and
-- `realpath` gives nothing for a null pointer.
pub record Host : Type 0 where
  pub getuid : ℕ
  pub geteuid : ℕ
  pub malloc : Bool
  pub realpath : Text → Option Text
  pub fopen : Text → Bool

-- How `main` ends, or what it gives to `fuse_main`: the arguments, the real path of the root if there
-- is one, and a new log.
pub data Start : Type 0 where
  refused_root usage no_memory no_log : Start
  mounts : List Text → Option Text → Start

-- `bbfs.log`
abbrev pub log_name : Text
log_name = b'b' ∷ b'b' ∷ b'f' ∷ b's' ∷ b'.' ∷ b'l' ∷ b'o' ∷ b'g' ∷ []

-- The test of the first character of an argument, which may be the final zero.
abbrev pub is_hyphen : Text → Bool
is_hyphen [] = false
is_hyphen (ch ∷ t) = ch == b'-'

module _ (host : Host) where
  -- `log_open` ends the process where the file cannot be made.
  unfoldable pub log_open : Start → Start
  log_open go = if host.fopen log_name then go else no_log

  -- From the last two of the arguments on: the root is taken out of the list.
  unfoldable pub mount : List Text → Text → Text → Start
  mount before root_dir mount_point =
      if is_hyphen root_dir || is_hyphen mount_point
      then usage
      else if host.malloc
      then log_open (mounts (before ++ (mount_point ∷ [])) (host.realpath root_dir))
      else no_memory

  -- The arguments that are left, after those before them.
  unfoldable pub from_arguments : List Text → List Text → Start
  from_arguments before [] = usage
  from_arguments before (a ∷ []) = usage
  from_arguments before (a ∷ b ∷ []) = mount before a b
  from_arguments before (a ∷ b ∷ c ∷ rest) = from_arguments (before ++ (a ∷ [])) (b ∷ c ∷ rest)

  -- At least two arguments have to follow the program's name.
  abbrev pub after_name : List Text → Start
  after_name [] = usage
  after_name (program ∷ rest) = from_arguments (program ∷ []) rest

  unfoldable pub bb_main : List Text → Start
  bb_main argv = if (host.getuid == 0) || (host.geteuid == 0) then refused_root else after_name argv
