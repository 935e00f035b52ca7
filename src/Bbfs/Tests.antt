-- ===== src/Bbfs/Tests.antt =====
-- A system where `mkdir` fails, one directory is read, and an attribute has no zero.
use os_ex.Common.{
  ◌||◌, ◌≡◌, refl, true, false, some, List, [], ◌∷◌, done, undefined, uninitialised, arith, ◌==◌,
  length,
}
use os_ex.Common.Int.{pos, negsuc, ◌-ℤ◌}
use os_ex.Block.{Text}
use os_ex.Bbfs.{FileInfo, SysCall, Reply, Request, System, State}
use os_ex.Bbfs.Directories.{bb_readdir}
use os_ex.Bbfs.Dispatch.{dispatch}
use os_ex.Bbfs.Quiet.{IsQuiet}
use os_ex.Bbfs.Start.{Host, mounts, usage, is_hyphen, bb_main}
use os_ex.Bbfs.Start.Arguments.{bb_main-mounts}
use os_ex.Bbfs.Stream.{bb_readdir-taken}
use os_ex.Bbfs.Unterminated.{dispatch-unterminated}

abbrev next_entry : List Text → Reply × List Text
next_entry [] = (record { ret = pos 0; errno = 0; filled = [] }, [])
next_entry (x ∷ xs) = (record { ret = pos 1; errno = 0; filled = x }, xs)

-- The world is the entries that are left to read; EEXIST is 17.
abbrev answered : SysCall → List Text → Reply × List Text
answered (SysCall.mkdir path mode) w = (record { ret = negsuc 0; errno = 17; filled = [] }, w)
answered (SysCall.readdir dp) w = next_entry w
answered (SysCall.lgetxattr path name size) w =
    (record { ret = pos 2; errno = 0; filled = 5 ∷ 6 ∷ [] }, w)
answered c w = (record { ret = pos 0; errno = 0; filled = [] }, w)

abbrev sys : System
sys = record { World = List Text; path_max = 16; call = answered; errno_after = λ line e. e }

abbrev root : Text
root = b'/' ∷ b'r' ∷ []

abbrev path : Text
path = b'/' ∷ b'a' ∷ []

abbrev entries : List Text
entries = (b'x' ∷ []) ∷ (b'y' ∷ []) ∷ []

abbrev started : State (List Text)
started = record { logfile = []; rootdir = root; errno = 0; world = entries }

abbrev info : FileInfo
info = record {
  flags = 0;
  fh_old = 0;
  writepage = pos 0;
  direct_io = 0;
  keep_cache = 0;
  fh = pos 4;
  lock_owner = 0;
}

sys-IsQuiet : IsQuiet sys
sys-IsQuiet line e = refl

-- The filler has room for one name.
bb_readdir-taken_example :
    (t : State (List Text)) × (bb_readdir sys (λ ns x. length ns == 1) info 5 path (pos 0) started
      ≡ done (some (record { retstat = negsuc 11; names = (b'x' ∷ []) ∷ [] }), t))
unfolding ◌-ℤ◌
bb_readdir-taken_example =
    bb_readdir-taken sys (λ ns x. length ns == 1) info 5 path (pos 0) (b'x' ∷ []) ((b'y' ∷ []) ∷ [])
      started (omega arith) (refl, refl, (refl, refl, refl))

dispatch-unterminated_example :
    dispatch sys (Request.getxattr path (b'n' ∷ []) 8) started ≡ undefined uninitialised
dispatch-unterminated_example =
    dispatch-unterminated sys path (b'n' ∷ []) 8 started sys-IsQuiet (omega arith) refl
      (omega arith, (omega arith, tt))

-- The user 7, for whom everything succeeds.
abbrev user : Host
user = record { getuid = 7; geteuid = 7; malloc = true; realpath = λ p. some p; fopen = λ p. true }

bb_main-mounts_example :
    let run = bb_main user ((b'p' ∷ []) ∷ (b'-' ∷ b'f' ∷ []) ∷ root ∷ path ∷ []) in
    (is_hyphen root || is_hyphen path ≡ false
      → run ≡ mounts ((b'p' ∷ []) ∷ (b'-' ∷ b'f' ∷ []) ∷ path ∷ []) (some root))
    × (is_hyphen root || is_hyphen path ≡ true → run ≡ usage)
bb_main-mounts_example =
    bb_main-mounts user (b'p' ∷ []) root path ((b'-' ∷ b'f' ∷ []) ∷ []) refl refl refl
