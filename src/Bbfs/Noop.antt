-- ===== src/Bbfs/Noop.antt =====
-- The file system as its authors describe it: it passes each request on and changes nothing. The
-- description says which call a request stands for and what its answer is, and has no log.
use os_ex.Common.{
  ◌==◌, Bool, true, false, zero, suc, take, ℕ, ◌+◌, ◌-◌, ◌^◌, ◌%◌, Option, none, some, List, [],
  ◌∷◌, ◌++◌, if◌then◌else◌,
}
use os_ex.Common.Int.{negated, ℤ, negsuc, pos, ltb_ℤ, eqb_ℤ}
use os_ex.Block.{Text}
use os_ex.Bbfs.{SysCall, Reply, Request, Answer, status}
use os_ex.Bbfs.Attributes.{is_regular, is_fifo}
use os_ex.Bbfs.Quiet.{streamed, result}

-- The path of the mount point itself is `/`.
abbrev pub at_root : Text → Bool
at_root [] = false
at_root (c ∷ []) = c == b'/'
at_root (c ∷ d ∷ path) = false

-- The call that a request stands for, with the paths below the root; `none` for a request that makes
-- no call or two of them, and where the log reads more than the call gave.
abbrev pub call_of : Text → Request → Option SysCall
call_of root (Request.getattr p) = some (SysCall.lstat (root ++ p))
call_of root (Request.readlink p link size) =
    some (SysCall.readlink (root ++ p) ((size + 2 ^ 64 - 1) % 2 ^ 64))
call_of root (Request.mknod p mode dev) =
    if is_regular mode
    then none
    else if is_fifo mode
    then some (SysCall.mkfifo (root ++ p) mode)
    else some (SysCall.mknod (root ++ p) mode dev)
call_of root (Request.mkdir p mode) = some (SysCall.mkdir (root ++ p) mode)
call_of root (Request.unlink p) = some (SysCall.unlink (root ++ p))
call_of root (Request.rmdir p) = some (SysCall.rmdir (root ++ p))
call_of root (Request.symlink p l) = some (SysCall.symlink p (root ++ l))
call_of root (Request.rename p q) = some (SysCall.rename (root ++ p) (root ++ q))
call_of root (Request.link p q) = some (SysCall.link (root ++ p) (root ++ q))
call_of root (Request.chmod p mode) = some (SysCall.chmod (root ++ p) mode)
call_of root (Request.chown p uid gid) = some (SysCall.chown (root ++ p) uid gid)
call_of root (Request.truncate p n) = some (SysCall.truncate (root ++ p) n)
call_of root (Request.utime p a m) = some (SysCall.utime (root ++ p) a m)
call_of root (Request.open_file p fi) = some (SysCall.open_file (root ++ p) fi.flags 0)
call_of root (Request.read p size offset fi) = some (SysCall.pread fi.fh size offset)
call_of root (Request.write p buf size offset fi) = some (SysCall.pwrite fi.fh buf size offset)
call_of root (Request.statfs p) = some (SysCall.statvfs (root ++ p))
call_of root (Request.flush p fi) = none
call_of root (Request.release p fi) = some (SysCall.close fi.fh)
call_of root (Request.fsync p datasync fi) =
    some (if eqb_ℤ datasync (pos 0) then SysCall.fsync fi.fh else SysCall.fdatasync fi.fh)
call_of root (Request.setxattr p name value size flags) =
    some (SysCall.lsetxattr (root ++ p) name value size flags)
call_of root (Request.getxattr p name size) = none
call_of root (Request.listxattr p size) = none
call_of root (Request.removexattr p name) = some (SysCall.lremovexattr (root ++ p) name)
call_of root (Request.opendir p fi) = some (SysCall.opendir (root ++ p))
call_of root (Request.releasedir p fi) = some (SysCall.closedir fi.fh)
call_of root (Request.fsyncdir p datasync fi) = none
call_of root (Request.access p mask) = some (SysCall.access (root ++ p) mask)
call_of root (Request.ftruncate p n fi) = some (SysCall.ftruncate fi.fh n)
call_of root (Request.fgetattr p fi) =
    some (if at_root p then SysCall.lstat (root ++ p) else SysCall.fstat fi.fh)
call_of root Request.destroy = none

-- The paths below the root that a request names.
abbrev pub paths_of : Request → List Text
paths_of (Request.symlink p l) = l ∷ []
paths_of (Request.rename p q) = p ∷ q ∷ []
paths_of (Request.link p q) = p ∷ q ∷ []
paths_of (Request.read p size offset fi) = []
paths_of (Request.write p buf size offset fi) = []
paths_of (Request.flush p fi) = []
paths_of (Request.release p fi) = []
paths_of (Request.fsync p datasync fi) = []
paths_of (Request.releasedir p fi) = []
paths_of (Request.fsyncdir p datasync fi) = []
paths_of (Request.ftruncate p n fi) = []
paths_of Request.destroy = []
paths_of (Request.getattr p) = p ∷ []
paths_of (Request.readlink p link size) = p ∷ []
paths_of (Request.mknod p mode dev) = p ∷ []
paths_of (Request.mkdir p mode) = p ∷ []
paths_of (Request.unlink p) = p ∷ []
paths_of (Request.rmdir p) = p ∷ []
paths_of (Request.chmod p mode) = p ∷ []
paths_of (Request.chown p uid gid) = p ∷ []
paths_of (Request.truncate p n) = p ∷ []
paths_of (Request.utime p a m) = p ∷ []
paths_of (Request.open_file p fi) = p ∷ []
paths_of (Request.statfs p) = p ∷ []
paths_of (Request.setxattr p name value size flags) = p ∷ []
paths_of (Request.getxattr p name size) = p ∷ []
paths_of (Request.listxattr p size) = p ∷ []
paths_of (Request.removexattr p name) = p ∷ []
paths_of (Request.opendir p fi) = p ∷ []
paths_of (Request.access p mask) = p ∷ []
paths_of (Request.fgetattr p fi) = p ∷ []

-- A text at a pointer has a zero at its end.
abbrev pub ends : List ℕ → Bool
ends [] = false
ends (zero ∷ bytes) = true
ends (suc b ∷ bytes) = ends bytes

-- What is logged as a text ends.
abbrev pub is_printable : Request → Bool
is_printable (Request.readlink p link size) = ends link
is_printable (Request.setxattr p name value size flags) = ends value
is_printable req = true

-- The result of the call, and what it filled.
abbrev pub filled_answer : Reply → Answer
filled_answer r = record { retstat = result r.ret r.errno; filled = r.filled; fh = pos 0 }

abbrev pub status_answer : Reply → Answer
status_answer r = status (result r.ret r.errno)

-- The target of a link with a zero behind it, and 0; on a failure, the bytes as they are.
abbrev pub linked : ℤ → List ℕ → Answer
linked (pos n) bytes = record { retstat = pos 0; filled = take n bytes ++ (0 ∷ []); fh = pos 0 }
linked (negsuc n) bytes = record { retstat = negsuc n; filled = bytes; fh = pos 0 }

-- The answer to a request, from the reply to its call.
abbrev pub answer_of : Request → Reply → Answer
answer_of (Request.getattr p) r = filled_answer r
answer_of (Request.statfs p) r = filled_answer r
answer_of (Request.read p size offset fi) r = filled_answer r
answer_of (Request.fgetattr p fi) r = filled_answer r
answer_of (Request.readlink p link size) r = linked (result r.ret r.errno) r.filled
answer_of (Request.open_file p fi) r =
    let fd = result r.ret r.errno in
    record { retstat = if ltb_ℤ fd (pos 0) then negated r.errno else pos 0; filled = []; fh = fd }
answer_of (Request.opendir p fi) r = record {
  retstat = streamed r.ret r.errno;
  filled = [];
  fh = r.ret;
}
answer_of (Request.releasedir p fi) r = status (pos 0)
answer_of _ r = status_answer r
