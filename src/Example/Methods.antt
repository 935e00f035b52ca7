-- ===== src/Example/Methods.antt =====
-- The methods of `ExampleFS` in examplefs.cc, on the state in which the object is there.
use os_ex.Common.{
  ℕ, Bool, true, false, ◌||◌, Option, none, some, List, [], ◌∷◌, ◌++◌, length, take, Outcome, done,
  undefined, uninitialised, bad_copy, require, ◌==◌, ltb, if◌then◌else◌,
}
use os_ex.Common
use os_ex.Common.Stateful.{◌>>=◌, ◌>>◌, pure}
use os_ex.Common.Int.{ℤ, pos, eqb_ℤ}
use os_ex.Block.{Text}
use os_ex.Bbfs.{Reply, Answer, status}
use os_ex.Bbfs.Logging.{minus}
use os_ex.Example.{LibCall, Request, Line, asked, getattr_of, truncate_of, System, Instance, M}

-- `RETURN_ERRNO`: whatever is not 0 is taken for a failure.
abbrev pub return_errno : Reply → ℤ
return_errno r = if eqb_ℤ r.ret (pos 0) then pos 0 else minus r.errno

-- A zero ends the string at a pointer.
abbrev pub has_zero : List ℕ → Bool
has_zero [] = false
has_zero (x ∷ xs) = (x == 0) || has_zero xs

-- The answer with what the call put into the caller's buffer or struct.
abbrev pub filled_by : Reply → Answer
filled_by r = record { retstat = return_errno r; filled = r.filled; fh = pos 0 }

-- `_root` of the object.
abbrev pub root_of : Option Instance → Option Text
root_of none = none
root_of (some i) = i.root

module _ (sys : System) where
  unfoldable pub print : Line → M sys (Unit {0})
  print line s =
      done (tt, record s { output = s.output ++ (line ∷ []); errno = sys.errno_after line s.errno })

  -- What `%s` reads of a buffer has to end.
  abbrev pub string_at : List ℕ → M sys (Unit {0})
  string_at bytes s = if has_zero bytes then done (tt, s) else undefined uninitialised

  -- The call, and `errno` as it leaves it.
  unfoldable pub invoke : LibCall → M sys Reply
  invoke c s = let (r, w) = sys.call c s.world in done (r, record s { errno = r.errno; world = w })

  -- Into an array of PATH_MAX bytes, with the final zero.
  unfoldable pub abs_path : Text → M sys Text
  abs_path path s = elim (root_of s.instance) [
    | none ↦ undefined uninitialised
    | some root ↦
        let full = root ++ take sys.path_max path in
        Common.◌>>◌ (require (ltb (length full) sys.path_max) bad_copy) (done (full, s))
  ]

  -- The call on the full path, with what it returns.
  abbrev pub on_path : Request → Text → (Text → LibCall) → M sys Answer
  on_path req path c = do
    print (asked req)
    full ← abs_path path
    r ← invoke (c full)
    pure (status (return_errno r))

  -- The same where the call fills a buffer or a struct.
  abbrev pub filling : Request → Text → (Text → LibCall) → M sys Answer
  filling req path c = do
    print (asked req)
    full ← abs_path path
    r ← invoke (c full)
    pure (filled_by r)

  unfoldable pub getattr : Text → M sys Answer
  getattr path = do
    full ← abs_path path
    print (getattr_of full)
    r ← invoke (LibCall.lstat full)
    pure (filled_by r)

  -- The caller's buffer is printed before it is filled.
  unfoldable pub readlink : Text → List ℕ → ℕ → M sys Answer
  readlink path link size = do
    string_at link
    filling (Request.readlink path link size) path (λ full. LibCall.readlink full size)

  unfoldable pub mknod : Text → ℕ → ℕ → M sys Answer
  mknod path mode dev =
      on_path (Request.mknod path mode dev) path (λ full. LibCall.mknod full mode dev)

  unfoldable pub mkdir : Text → ℕ → M sys Answer
  mkdir path mode = on_path (Request.mkdir path mode) path (λ full. LibCall.mkdir full mode)

  unfoldable pub unlink : Text → M sys Answer
  unlink path = on_path (Request.unlink path) path LibCall.unlink

  unfoldable pub rmdir : Text → M sys Answer
  rmdir path = on_path (Request.rmdir path) path LibCall.rmdir

  -- The link is made at a path that is not below the root.
  unfoldable pub symlink : Text → Text → M sys Answer
  symlink path link = on_path (Request.symlink path link) path (λ full. LibCall.symlink full link)

  -- The new path is not below the root.
  unfoldable pub rename : Text → Text → M sys Answer
  rename path newpath =
      on_path (Request.rename path newpath) path (λ full. LibCall.rename full newpath)

  unfoldable pub link : Text → Text → M sys Answer
  link path newpath = do
    print (asked (Request.link path newpath))
    full ← abs_path path
    new_full ← abs_path newpath
    r ← invoke (LibCall.link full new_full)
    pure (status (return_errno r))

  unfoldable pub chmod : Text → ℕ → M sys Answer
  chmod path mode = on_path (Request.chmod path mode) path (λ full. LibCall.chmod full mode)

  unfoldable pub chown : Text → ℕ → ℕ → M sys Answer
  chown path uid gid =
      on_path (Request.chown path uid gid) path (λ full. LibCall.chown full uid gid)

  unfoldable pub truncate : Text → ℤ → M sys Answer
  truncate path new_size =
      on_path (Request.truncate path new_size) path (λ full. LibCall.truncate full new_size)

  unfoldable pub utime : Text → ℕ → ℕ → M sys Answer
  utime path actime modtime =
      on_path (Request.utime path actime modtime) path (λ full. LibCall.utime full actime modtime)

  -- Whether the file could be opened is not looked at.
  unfoldable pub open_file : Text → ℕ → M sys Answer
  open_file path flags = do
    print (asked (Request.open_file path flags))
    full ← abs_path path
    r ← invoke (LibCall.open_file full flags)
    pure (record { retstat = pos 0; filled = []; fh = r.ret })

  unfoldable pub read : Text → ℕ → ℤ → ℤ → M sys Answer
  read path size offset fh = do
    print (asked (Request.read path size offset fh))
    r ← invoke (LibCall.pread fh size offset)
    pure (filled_by r)

  unfoldable pub write : Text → List ℕ → ℕ → ℤ → ℤ → M sys Answer
  write path buf size offset fh = do
    print (asked (Request.write path buf size offset fh))
    r ← invoke (LibCall.pwrite fh buf size offset)
    pure (status (return_errno r))

  unfoldable pub statfs : Text → M sys Answer
  statfs path = filling (Request.statfs path) path LibCall.statvfs

  unfoldable pub flush : Text → M sys Answer
  flush path = do print (asked (Request.flush path)); pure (status (pos 0))

  -- The file is not closed.
  unfoldable pub release : Text → M sys Answer
  release path = do print (asked (Request.release path)); pure (status (pos 0))

  unfoldable pub fsync : Text → ℤ → ℤ → M sys Answer
  fsync path datasync fh = do
    print (asked (Request.fsync path datasync fh))
    r ← invoke (if eqb_ℤ datasync (pos 0) then LibCall.fsync fh else LibCall.fdatasync fh)
    pure (status (return_errno r))

  unfoldable pub setxattr : Text → Text → List ℕ → ℕ → ℤ → M sys Answer
  setxattr path name value size flags = do
    string_at value
    on_path (Request.setxattr path name value size flags) path
        (λ full. LibCall.lsetxattr full name value size flags)

  unfoldable pub getxattr : Text → Text → ℕ → M sys Answer
  getxattr path name size =
      filling (Request.getxattr path name size) path (λ full. LibCall.getxattr full name size)

  unfoldable pub listxattr : Text → ℕ → M sys Answer
  listxattr path size =
      filling (Request.listxattr path size) path (λ full. LibCall.llistxattr full size)

  unfoldable pub removexattr : Text → Text → M sys Answer
  removexattr path name =
      on_path (Request.removexattr path name) path (λ full. LibCall.lremovexattr full name)

  -- `Truncate` of an open file; the path is copied, and not used.
  unfoldable pub truncate_file : Text → ℤ → ℤ → M sys Answer
  truncate_file path offset fh = do
    print (truncate_of path offset)
    full ← abs_path path
    r ← invoke (LibCall.ftruncate fh offset)
    pure (status (return_errno r))
