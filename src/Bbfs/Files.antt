-- ===== src/Bbfs/Files.antt =====
-- The handlers of bbfs.c that work on an open file.
use Prim.Native.String.{String}
use os_ex.Common.{false, ℕ, Bool, [], ◌∷◌, ◌==◌, if◌then◌else◌}
use os_ex.Common.Int.{ℤ, pos, eqb_ℤ, ltb_ℤ}
use os_ex.Block.{Text}
use os_ex.Common.Stateful.{◌>>=◌, ◌>>◌, pure}
use os_ex.Bbfs.{FileInfo, SysCall, Request, request, System, M, Answer, status}
use os_ex.Bbfs.Logging.{log_msg, log_stat, log_fi, log_syscall, or_error, invoke, bb_fullpath}
use os_ex.Bbfs.Attributes.{bb_getattr}

-- The path `/`.
abbrev pub is_root : Text → Bool
is_root (c ∷ []) = c == b'/'
is_root _ = false

module _ (sys : System) where
  -- The request and the file are logged, and the call on the file is made and logged.
  abbrev pub on_file : Request → FileInfo → String → SysCall → M sys Answer
  on_file req fi name c = do
    log_msg sys (request req)
    log_fi sys fi
    r ← invoke sys c
    retstat ← log_syscall sys name r.ret 0
    pure (status retstat)

  -- `errno` is read once more for the result.
  unfoldable pub bb_open : Text → FileInfo → M sys Answer
  bb_open path fi = do
    log_msg sys (request (Request.open_file path fi))
    fpath ← bb_fullpath sys path
    r ← invoke sys (SysCall.open_file fpath fi.flags 0)
    fd ← log_syscall sys "open" r.ret 0
    error ← or_error sys "open" fd
    log_fi sys (record fi { fh = fd })
    pure (record { retstat = if ltb_ℤ fd (pos 0) then error else pos 0; filled = []; fh = fd })

  unfoldable pub bb_read : Text → ℕ → ℤ → FileInfo → M sys Answer
  bb_read path size offset fi = do
    log_msg sys (request (Request.read path size offset fi))
    log_fi sys fi
    r ← invoke sys (SysCall.pread fi.fh size offset)
    retstat ← log_syscall sys "pread" r.ret 0
    pure (record { retstat = retstat; filled = r.filled; fh = pos 0 })

  unfoldable pub bb_write : Text → Text → ℕ → ℤ → FileInfo → M sys Answer
  bb_write path buf size offset fi =
      on_file (Request.write path buf size offset fi) fi "pwrite"
        (SysCall.pwrite fi.fh buf size offset)

  unfoldable pub bb_flush : Text → FileInfo → M sys Answer
  bb_flush path fi = do
    log_msg sys (request (Request.flush path fi))
    log_fi sys fi
    pure (status (pos 0))

  unfoldable pub bb_release : Text → FileInfo → M sys Answer
  bb_release path fi = on_file (Request.release path fi) fi "close" (SysCall.close fi.fh)

  -- config.h has HAVE_FDATASYNC.
  unfoldable pub bb_fsync : Text → ℤ → FileInfo → M sys Answer
  bb_fsync path datasync fi =
      if eqb_ℤ datasync (pos 0)
      then on_file (Request.fsync path datasync fi) fi "fsync" (SysCall.fsync fi.fh)
      else on_file (Request.fsync path datasync fi) fi "fdatasync" (SysCall.fdatasync fi.fh)

  unfoldable pub bb_ftruncate : Text → ℤ → FileInfo → M sys Answer
  bb_ftruncate path offset fi = do
    log_msg sys (request (Request.ftruncate path offset fi))
    log_fi sys fi
    r ← invoke sys (SysCall.ftruncate fi.fh offset)
    retstat ← or_error sys "bb_ftruncate ftruncate" r.ret
    pure (status retstat)

  abbrev pub stat_file : FileInfo → M sys Answer
  stat_file fi = do
    r ← invoke sys (SysCall.fstat fi.fh)
    retstat ← or_error sys "bb_fgetattr fstat" r.ret
    log_stat sys r.filled
    pure (record { retstat = retstat; filled = r.filled; fh = pos 0 })

  unfoldable pub bb_fgetattr : Text → FileInfo → M sys Answer
  bb_fgetattr path fi = do
    log_msg sys (request (Request.fgetattr path fi))
    log_fi sys fi
    if is_root path then bb_getattr sys path else stat_file fi
