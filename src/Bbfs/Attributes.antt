-- ===== src/Bbfs/Attributes.antt =====
-- The handlers of bbfs.c that work on a path: attributes, links, directories and permissions.
use Prim.Native.String.{String}
use os_ex.Common.{
  zero, ◌+◌, drop, ◌++◌, suc, ◌^◌, ℕ, ◌-◌, ◌/◌, ◌%◌, Bool, List, [], ◌∷◌, length, take, ◌==◌,
  if◌then◌else◌,
}
use os_ex.Common.Int.{ℤ, pos, pos_part, ltb_ℤ}
use os_ex.Block.{Text}
use os_ex.Common.Stateful.{◌>>=◌, ◌>>◌, pure}
use os_ex.Bbfs.{SysCall, Request, request, text, attributes, System, M, Answer, status}
use os_ex.Bbfs.Logging.{
  log_msg, log_stat, log_statvfs, or_error, c_string, log_syscall, invoke, bb_fullpath,
}

-- `S_ISREG` and `S_ISFIFO`: the four bits of the file type.
abbrev pub is_regular : ℕ → Bool
is_regular mode = mode / 2 ^ 12 % 16 == 8

abbrev pub is_fifo : ℕ → Bool
is_fifo mode = mode / 2 ^ 12 % 16 == 1

-- O_CREAT | O_EXCL | O_WRONLY of Linux.
abbrev pub create_flags : ℕ
create_flags = 193

-- `link` has the bytes that the call wrote, and a zero behind as many as it returned.
abbrev pub terminated : ℤ → List ℕ → Answer
terminated retstat link =
    if ltb_ℤ retstat (pos 0)
    then record { retstat = retstat; filled = link; fh = pos 0 }
    else record { retstat = pos 0; filled = take (pos_part retstat) link ++ (0 ∷ []); fh = pos 0 }

module _ (sys : System) where
  -- The request is logged, and the call on the full path is made and logged.
  abbrev pub on_path : Request → Text → String → (Text → SysCall) → M sys Answer
  on_path req path name c = do
    log_msg sys (request req)
    fpath ← bb_fullpath sys path
    r ← invoke sys (c fpath)
    retstat ← log_syscall sys name r.ret 0
    pure (status retstat)

  unfoldable pub bb_getattr : Text → M sys Answer
  bb_getattr path = do
    log_msg sys (request (Request.getattr path))
    fpath ← bb_fullpath sys path
    r ← invoke sys (SysCall.lstat fpath)
    retstat ← log_syscall sys "lstat" r.ret 0
    log_stat sys r.filled
    pure (record { retstat = retstat; filled = r.filled; fh = pos 0 })

  -- The caller's buffer is logged as a text, up to its zero, before it is filled.
  unfoldable pub bb_readlink : Text → List ℕ → ℕ → M sys Answer
  bb_readlink path link size = do
    text_before ← c_string sys link
    log_msg sys (request (Request.readlink path text_before size))
    fpath ← bb_fullpath sys path
    r ← invoke sys (SysCall.readlink fpath ((size + 2 ^ 64 - 1) % 2 ^ 64))
    retstat ← log_syscall sys "fpath" r.ret 0
    pure (terminated retstat r.filled)

  -- A regular file is opened, and closed if that goes well.
  abbrev pub close_created : ℤ → M sys Answer
  close_created retstat = if ltb_ℤ retstat (pos 0) then pure (status retstat) else (do
    r ← invoke sys (SysCall.close retstat)
    closed ← log_syscall sys "close" r.ret 0
    pure (status closed))

  abbrev pub mknod_regular : Text → ℕ → M sys Answer
  mknod_regular fpath mode = do
    r ← invoke sys (SysCall.open_file fpath create_flags mode)
    retstat ← log_syscall sys "open" r.ret 0
    close_created retstat

  abbrev pub mknod_other : String → SysCall → M sys Answer
  mknod_other name c = do
    r ← invoke sys c
    retstat ← log_syscall sys name r.ret 0
    pure (status retstat)

  unfoldable pub bb_mknod : Text → ℕ → ℕ → M sys Answer
  bb_mknod path mode dev = do
    log_msg sys (request (Request.mknod path mode dev))
    fpath ← bb_fullpath sys path
    if is_regular mode
        then mknod_regular fpath mode
        else if is_fifo mode
        then mknod_other "mkfifo" (SysCall.mkfifo fpath mode)
        else mknod_other "mknod" (SysCall.mknod fpath mode dev)

  unfoldable pub bb_mkdir : Text → ℕ → M sys Answer
  bb_mkdir path mode =
      on_path (Request.mkdir path mode) path "mkdir" (λ fpath. SysCall.mkdir fpath mode)

  unfoldable pub bb_unlink : Text → M sys Answer
  bb_unlink path = on_path (Request.unlink path) path "unlink" SysCall.unlink

  unfoldable pub bb_rmdir : Text → M sys Answer
  bb_rmdir path = on_path (Request.rmdir path) path "rmdir" SysCall.rmdir

  -- The path of the link is below the root, what it points to is left as it is.
  unfoldable pub bb_symlink : Text → Text → M sys Answer
  bb_symlink path link = on_path (Request.symlink path link) link "symlink" (SysCall.symlink path)

  -- Two paths below the root.
  abbrev pub on_paths : Request → Text → Text → String → (Text → Text → SysCall) → M sys Answer
  on_paths req path newpath name c = do
    log_msg sys (request req)
    fpath ← bb_fullpath sys path
    fnewpath ← bb_fullpath sys newpath
    r ← invoke sys (c fpath fnewpath)
    retstat ← log_syscall sys name r.ret 0
    pure (status retstat)

  unfoldable pub bb_rename : Text → Text → M sys Answer
  bb_rename path newpath =
      on_paths (Request.rename path newpath) path newpath "rename" SysCall.rename

  unfoldable pub bb_link : Text → Text → M sys Answer
  bb_link path newpath = on_paths (Request.link path newpath) path newpath "link" SysCall.link

  unfoldable pub bb_chmod : Text → ℕ → M sys Answer
  bb_chmod path mode =
      on_path (Request.chmod path mode) path "chmod" (λ fpath. SysCall.chmod fpath mode)

  unfoldable pub bb_chown : Text → ℕ → ℕ → M sys Answer
  bb_chown path uid gid =
      on_path (Request.chown path uid gid) path "chown" (λ fpath. SysCall.chown fpath uid gid)

  unfoldable pub bb_truncate : Text → ℤ → M sys Answer
  bb_truncate path newsize =
      on_path (Request.truncate path newsize) path "truncate"
        (λ fpath. SysCall.truncate fpath newsize)

  unfoldable pub bb_utime : Text → ℕ → ℕ → M sys Answer
  bb_utime path actime modtime =
      on_path (Request.utime path actime modtime) path "utime"
        (λ fpath. SysCall.utime fpath actime modtime)

  unfoldable pub bb_statfs : Text → M sys Answer
  bb_statfs path = do
    log_msg sys (request (Request.statfs path))
    fpath ← bb_fullpath sys path
    r ← invoke sys (SysCall.statvfs fpath)
    retstat ← log_syscall sys "statvfs" r.ret 0
    log_statvfs sys r.filled
    pure (record { retstat = retstat; filled = r.filled; fh = pos 0 })

  -- The value is logged as a text, up to its zero.
  unfoldable pub bb_setxattr : Text → Text → List ℕ → ℕ → ℕ → M sys Answer
  bb_setxattr path name value size flags = do
    value_text ← c_string sys value
    on_path (Request.setxattr path name value_text size flags) path "lsetxattr"
        (λ fpath. SysCall.lsetxattr fpath name value size flags)

  -- The value is logged as a text, up to its zero.
  abbrev pub log_value : ℤ → List ℕ → M sys (Unit {0})
  log_value retstat value =
      if ltb_ℤ retstat (pos 0)
      then pure tt
      else (do v ← c_string sys value; log_msg sys (text "value" v))

  unfoldable pub bb_getxattr : Text → Text → ℕ → M sys Answer
  bb_getxattr path name size = do
    log_msg sys (request (Request.getxattr path name size))
    fpath ← bb_fullpath sys path
    r ← invoke sys (SysCall.lgetxattr fpath name size)
    retstat ← log_syscall sys "lgetxattr" r.ret 0
    log_value retstat r.filled
    pure (record { retstat = retstat; filled = r.filled; fh = pos 0 })

  -- The loop of `bb_listxattr` with the bytes that are left of those returned, and the buffer from
  -- `ptr` on; each round takes a byte at least.
  unfoldable pub log_attributes : ℕ → ℕ → List ℕ → M sys (Unit {0})
  log_attributes fuel zero list = pure tt
  log_attributes zero (suc left) list = pure tt
  log_attributes (suc fuel) (suc left) list = do
    ptr ← c_string sys list
    log_msg sys (text "" ptr)
    log_attributes fuel (left - length ptr) (drop (length ptr + 1) list)

  abbrev pub log_list : ℤ → List ℕ → M sys (Unit {0})
  log_list retstat list = if ltb_ℤ retstat (pos 0) then pure tt else (do
    log_msg sys (attributes retstat)
    log_attributes (pos_part retstat) (pos_part retstat) list)

  unfoldable pub bb_listxattr : Text → ℕ → M sys Answer
  bb_listxattr path size = do
    log_msg sys (request (Request.listxattr path size))
    fpath ← bb_fullpath sys path
    r ← invoke sys (SysCall.llistxattr fpath size)
    retstat ← log_syscall sys "llistxattr" r.ret 0
    log_list retstat r.filled
    pure (record { retstat = retstat; filled = r.filled; fh = pos 0 })

  unfoldable pub bb_removexattr : Text → Text → M sys Answer
  bb_removexattr path name =
      on_path (Request.removexattr path name) path "lremovexattr"
        (λ fpath. SysCall.lremovexattr fpath name)

  unfoldable pub bb_access : Text → ℕ → M sys Answer
  bb_access path mask = do
    log_msg sys (request (Request.access path mask))
    fpath ← bb_fullpath sys path
    r ← invoke sys (SysCall.access fpath mask)
    retstat ← or_error sys "bb_access access" r.ret
    pure (status retstat)
