-- ===== src/Example/Carried.antt =====
-- What the requests stand for, without the objects, arrays and printing on the way, and that the
-- methods do just that.
use os_ex.Common.{
  ap, ◌∙◌, ℕ, ◌+◌, ◌≡◌, ◌<◌, refl, Bool, true, Option, none, some, List, [], ◌∷◌, ◌++◌, append-nil,
  length, length-append, take, take_all, lt→ltb, All, arith, Outcome, done, if◌then◌else◌,
}
use os_ex.Common.Int.{pos, eqb_ℤ}
use os_ex.Block.{Text}
use os_ex.Bbfs.{Reply, Answer, status}
use os_ex.Example.{LibCall, Request, Line, asked, getattr_of, System, State}
use os_ex.Example.Methods.{
  return_errno, has_zero, print, string_at, invoke, abs_path, on_path, filling, filled_by,
}
use os_ex.Example.Methods
use os_ex.Example.Directory
use os_ex.Example.Wrap.{instance, method, wrap}
use os_ex.Example.Answers.{Kind, kind_of, answer_by, made_by, made_by-answer_by}

-- The call that a request stands for, on the paths below the root.
abbrev pub call_of : Text → Request → Option LibCall
call_of root (Request.getattr path) = some (LibCall.lstat (root ++ path))
call_of root (Request.readlink path link size) = some (LibCall.readlink (root ++ path) size)
call_of root (Request.mknod path mode dev) = some (LibCall.mknod (root ++ path) mode dev)
call_of root (Request.mkdir path mode) = some (LibCall.mkdir (root ++ path) mode)
call_of root (Request.unlink path) = some (LibCall.unlink (root ++ path))
call_of root (Request.rmdir path) = some (LibCall.rmdir (root ++ path))
call_of root (Request.symlink path link) = some (LibCall.symlink (root ++ path) link)
call_of root (Request.rename path newpath) = some (LibCall.rename (root ++ path) newpath)
call_of root (Request.link path newpath) = some (LibCall.link (root ++ path) (root ++ newpath))
call_of root (Request.chmod path mode) = some (LibCall.chmod (root ++ path) mode)
call_of root (Request.chown path uid gid) = some (LibCall.chown (root ++ path) uid gid)
call_of root (Request.truncate path size) = some (LibCall.truncate (root ++ path) size)
call_of root (Request.utime path a m) = some (LibCall.utime (root ++ path) a m)
call_of root (Request.open_file path flags) = some (LibCall.open_file (root ++ path) flags)
call_of root (Request.read path size offset fh) = some (LibCall.pread fh size offset)
call_of root (Request.write path buf size offset fh) = some (LibCall.pwrite fh buf size offset)
call_of root (Request.statfs path) = some (LibCall.statvfs (root ++ path))
call_of root (Request.fsync path datasync fh) =
    some (if eqb_ℤ datasync (pos 0) then LibCall.fsync fh else LibCall.fdatasync fh)
call_of root (Request.setxattr path name value size flags) =
    some (LibCall.lsetxattr (root ++ path) name value size flags)
call_of root (Request.getxattr path name size) = some (LibCall.getxattr (root ++ path) name size)
call_of root (Request.listxattr path size) = some (LibCall.llistxattr (root ++ path) size)
call_of root (Request.removexattr path name) = some (LibCall.lremovexattr (root ++ path) name)
call_of root (Request.opendir path) = some (LibCall.opendir (root ++ path))
call_of root (Request.releasedir path fh) = some (LibCall.closedir fh)
call_of root req = none

-- The paths that have to fit, below the root.
abbrev pub paths_of : Request → List Text
paths_of (Request.link path newpath) = path ∷ newpath ∷ []
paths_of (Request.read path size offset fh) = []
paths_of (Request.write path buf size offset fh) = []
paths_of (Request.flush path) = []
paths_of (Request.release path) = []
paths_of (Request.fsync path datasync fh) = []
paths_of (Request.releasedir path fh) = []
paths_of (Request.fsyncdir path datasync) = []
paths_of Request.init = []
paths_of (Request.getattr path) = path ∷ []
paths_of (Request.readlink path link size) = path ∷ []
paths_of (Request.mknod path mode dev) = path ∷ []
paths_of (Request.mkdir path mode) = path ∷ []
paths_of (Request.unlink path) = path ∷ []
paths_of (Request.rmdir path) = path ∷ []
paths_of (Request.symlink path link) = path ∷ []
paths_of (Request.rename path newpath) = path ∷ []
paths_of (Request.chmod path mode) = path ∷ []
paths_of (Request.chown path uid gid) = path ∷ []
paths_of (Request.truncate path size) = path ∷ []
paths_of (Request.utime path a m) = path ∷ []
paths_of (Request.open_file path flags) = path ∷ []
paths_of (Request.statfs path) = path ∷ []
paths_of (Request.setxattr path name value size flags) = path ∷ []
paths_of (Request.getxattr path name size) = path ∷ []
paths_of (Request.listxattr path size) = path ∷ []
paths_of (Request.removexattr path name) = path ∷ []
paths_of (Request.opendir path) = path ∷ []

-- What is printed with `%s` has a zero.
abbrev pub is_printable : Request → Bool
is_printable (Request.readlink path link size) = has_zero link
is_printable (Request.setxattr path name value size flags) = has_zero value
is_printable req = true

abbrev pub line_of : Text → Request → List Line
line_of root (Request.getattr path) = getattr_of (root ++ path) ∷ []
line_of root (Request.fsyncdir path datasync) = []
line_of root Request.init = []
line_of root req = asked req ∷ []

module _ (sys : System) (root : Text) where
  -- The state in which the object is there and has its root.
  abbrev pub serving : List Line → ℕ → sys.World → State sys.World
  serving out e w = record {
    instance = some (record { root = some root });
    output = out;
    errno = e;
    world = w;
  }

  abbrev pub FitsIn : Text → Type 0
  FitsIn path = length root + length path < sys.path_max

  abs_path_lem :
      (path : Text) (out : List Line) (e : ℕ) (w : sys.World)
      → FitsIn path
      → abs_path sys path (serving out e w) ≡ done (root ++ path, serving out e w)
  unfolding abs_path
  abs_path_lem path out e w h =
      let whole : take sys.path_max path ≡ path = take_all sys.path_max path (omega arith) in
      let short : length (root ++ path) < sys.path_max = omega (arith, length-append root path) in
      rw (whole, lt→ltb _ _ short)

module _ (sys : System) (root : Text) (out : List Line) (e : ℕ) (w : sys.World) where
  abbrev said : List Line → ℕ
  said [] = e
  said (line ∷ lines) = sys.errno_after line e

  -- The request is printed, and the one call is made, if there is one.
  abbrev pub perform :
      (Kind → Reply → Answer) → Request → Option LibCall → Outcome (Answer × State sys.World)
  perform answer req none =
      done (status (pos 0), serving sys root (out ++ line_of root req) (said (line_of root req)) w)
  perform answer req (some c) =
      let (r, w') = sys.call c w in
      done (answer (kind_of req) r, serving sys root (out ++ line_of root req) r.errno w')

  abbrev made : Request → Outcome (Answer × State sys.World)
  made req = perform made_by req (call_of root req)

  abbrev pub carried_out : Request → Outcome (Answer × State sys.World)
  carried_out req = perform answer_by req (call_of root req)

  perform-made_by :
      (req : Request) (o : Option LibCall) → perform made_by req o ≡ perform answer_by req o
  perform-made_by req none = refl
  perform-made_by req (some c) =
      let (r, w') = sys.call c w in
      ap (λ a. done (a, serving sys root (out ++ line_of root req) r.errno w'))
        (made_by-answer_by (kind_of req) r)

  on_path_lem :
      (req : Request) (path : Text) (c : Text → LibCall)
      → FitsIn sys root path
      → let (r, w') = sys.call (c (root ++ path)) w in
        on_path sys req path c (serving sys root out e w)
        ≡ done (status (return_errno r), serving sys root (out ++ (asked req ∷ [])) r.errno w')
  unfolding print invoke
  on_path_lem req path c h =
      rw (abs_path_lem sys root path (out ++ (asked req ∷ [])) (sys.errno_after (asked req) e) w h)

  filling_lem :
      (req : Request) (path : Text) (c : Text → LibCall)
      → FitsIn sys root path
      → let (r, w') = sys.call (c (root ++ path)) w in
        filling sys req path c (serving sys root out e w)
        ≡ done (filled_by r, serving sys root (out ++ (asked req ∷ [])) r.errno w')
  unfolding print invoke
  filling_lem req path c h =
      rw (abs_path_lem sys root path (out ++ (asked req ∷ [])) (sys.errno_after (asked req) e) w h)

  method-made :
      (req : Request)
      → All (FitsIn sys root) (paths_of req)
      → is_printable req ≡ true
      → method sys req (serving sys root out e w) ≡ made req
  unfolding method Methods.getattr Methods.readlink Methods.mknod Methods.mkdir Methods.unlink
      Methods.rmdir Methods.symlink Methods.rename Methods.link Methods.chmod Methods.chown
      Methods.truncate Methods.utime Methods.open_file Methods.read Methods.write Methods.statfs
      Methods.flush Methods.release Methods.fsync Methods.setxattr Methods.getxattr
      Methods.listxattr Methods.removexattr Directory.opendir Directory.releasedir
      Directory.fsyncdir Directory.init print invoke
  method-made (Request.getattr path) (h, _) p = rw (abs_path_lem sys root path out e w h)
  method-made (Request.readlink path link size) (h, _) p = rw p (filling_lem _ path _ h)
  method-made (Request.mknod path mode dev) (h, _) p = on_path_lem _ path _ h
  method-made (Request.mkdir path mode) (h, _) p = on_path_lem _ path _ h
  method-made (Request.unlink path) (h, _) p = on_path_lem _ path _ h
  method-made (Request.rmdir path) (h, _) p = on_path_lem _ path _ h
  method-made (Request.symlink path link) (h, _) p = on_path_lem _ path _ h
  method-made (Request.rename path newpath) (h, _) p = on_path_lem _ path _ h
  method-made (Request.link path newpath) (h, (h', _)) p =
      let req = asked (Request.link path newpath) in
      rw (
        abs_path_lem sys root path (out ++ (req ∷ [])) (sys.errno_after req e) w h,
        abs_path_lem sys root newpath (out ++ (req ∷ [])) (sys.errno_after req e) w h',
      )
  method-made (Request.chmod path mode) (h, _) p = on_path_lem _ path _ h
  method-made (Request.chown path uid gid) (h, _) p = on_path_lem _ path _ h
  method-made (Request.truncate path size) (h, _) p = on_path_lem _ path _ h
  method-made (Request.utime path a m) (h, _) p = on_path_lem _ path _ h
  method-made (Request.open_file path flags) (h, _) p =
      let req = asked (Request.open_file path flags) in
      rw (abs_path_lem sys root path (out ++ (req ∷ [])) (sys.errno_after req e) w h)
  method-made (Request.read path size offset fh) h p = refl
  method-made (Request.write path buf size offset fh) h p = refl
  method-made (Request.statfs path) (h, _) p = filling_lem _ path _ h
  method-made (Request.flush path) h p = refl
  method-made (Request.release path) h p = refl
  method-made (Request.fsync path datasync fh) h p = refl
  method-made (Request.setxattr path name value size flags) (h, _) p = rw p (on_path_lem _ path _ h)
  method-made (Request.getxattr path name size) (h, _) p = filling_lem _ path _ h
  method-made (Request.listxattr path size) (h, _) p = filling_lem _ path _ h
  method-made (Request.removexattr path name) (h, _) p = on_path_lem _ path _ h
  method-made (Request.opendir path) (h, _) p =
      let req = asked (Request.opendir path) in
      rw (abs_path_lem sys root path (out ++ (req ∷ [])) (sys.errno_after req e) w h)
  method-made (Request.releasedir path fh) h p = refl
  method-made (Request.fsyncdir path datasync) h p = rw (append-nil out)
  method-made Request.init h p = rw (append-nil out)

  -- Each request but `readdir`, once the root is set and where the paths that are put below it fit in
  -- PATH_MAX and what is printed with `%s` ends, is printed, makes exactly the one call it stands
  -- for, or none, and answers as its kind says: 0 where the call returned 0 and -errno where it
  -- returned any other number, with what the call put into the caller's buffer or struct; 0 with the
  -- handle for `open`, and 0 for `closedir`, whatever they returned; and for `opendir` the stream, with
  -- -errno where it is null. `symlink` and `rename` put only their first path below the root.
  pub wrap-carried_out :
      (req : Request)
      → All (FitsIn sys root) (paths_of req)
      → is_printable req ≡ true
      → wrap sys req (serving sys root out e w) ≡ carried_out req
  unfolding wrap instance
  wrap-carried_out req h p = method-made req h p ∙ perform-made_by req (call_of root req)
