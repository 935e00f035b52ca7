-- ===== src/Bbfs/Logging.antt =====
-- log.c, and `bb_fullpath` of bbfs.c.
use Prim.Native.String.{String}
use os_ex.Common.{
  ◌==◌, uninitialised, ℕ, zero, suc, ◌++◌, Bool, List, [], ◌∷◌, Outcome, done, undefined, exited,
  bad_copy, length, take, ltb, require, if◌then◌else◌,
}
use os_ex.Common
use os_ex.Common.Int.{ℤ, pos, ◌-ℤ◌, ltb_ℤ}
use os_ex.Common.Stateful.{◌>>=◌, ◌>>◌, pure}
use os_ex.Block.{Text}
use os_ex.Bbfs.{
  FileInfo, SysCall, Reply, Line, returned, failed, title, field, text, full_path, System, M,
}

-- -errno
abbrev pub minus : ℕ → ℤ
minus e = pos 0 -ℤ pos e

abbrev pub stat_fields : List String
stat_fields =
    "st_dev" ∷ "st_ino" ∷ "st_mode" ∷ "st_nlink" ∷ "st_uid" ∷ "st_gid" ∷ "st_rdev" ∷ "st_size"
    ∷ "st_blksize" ∷ "st_blocks" ∷ "st_atime" ∷ "st_mtime" ∷ "st_ctime" ∷ []

abbrev pub statvfs_fields : List String
statvfs_fields =
    "f_bsize" ∷ "f_frsize" ∷ "f_blocks" ∷ "f_bfree" ∷ "f_bavail" ∷ "f_files" ∷ "f_ffree"
    ∷ "f_favail" ∷ "f_fsid" ∷ "f_flag" ∷ "f_namemax" ∷ []

abbrev pub conn_fields : List String
conn_fields =
    "proto_major" ∷ "proto_minor" ∷ "async_read" ∷ "max_write" ∷ "max_readahead" ∷ "capable"
    ∷ "want" ∷ "max_background" ∷ "congestion_threshold" ∷ []

abbrev pub context_fields : List String
context_fields = "fuse" ∷ "uid" ∷ "gid" ∷ "pid" ∷ "private_data" ∷ "logfile" ∷ []

module _ (sys : System) where
  unfoldable pub log_msg : Line → M sys (Unit {0})
  log_msg line s =
      done
        (tt, record s { logfile = s.logfile ++ (line ∷ []); errno = sys.errno_after line s.errno })

  -- `log_struct` on each field of a struct that has a value for each.
  unfoldable pub log_fields : List String → List ℕ → M sys (Unit {0})
  log_fields [] vs = pure tt
  log_fields (n ∷ ns) [] = pure tt
  log_fields (n ∷ ns) (v ∷ vs) = do log_msg (field n (pos v)); log_fields ns vs

  unfoldable pub log_stat : List ℕ → M sys (Unit {0})
  log_stat si = do log_msg (title "si"); log_fields stat_fields si

  unfoldable pub log_statvfs : List ℕ → M sys (Unit {0})
  log_statvfs sv = do log_msg (title "sv"); log_fields statvfs_fields sv

  unfoldable pub log_fi : FileInfo → M sys (Unit {0})
  log_fi fi = do
    log_msg (title "fi")
    log_msg (field "flags" (pos fi.flags))
    log_msg (field "fh_old" (pos fi.fh_old))
    log_msg (field "writepage" fi.writepage)
    log_msg (field "direct_io" (pos fi.direct_io))
    log_msg (field "keep_cache" (pos fi.keep_cache))
    log_msg (field "fh" fi.fh)
    log_msg (field "lock_owner" (pos fi.lock_owner))

  unfoldable pub log_error : String → M sys ℤ
  log_error func s = let ret = minus s.errno in (do log_msg (failed func s.errno); pure ret) s

  -- `errno` is as before.
  unfoldable pub log_retstat : String → ℤ → M sys (Unit {0})
  log_retstat func retstat s =
      let errsave = s.errno in
      (do log_msg (returned func retstat); λ t. done (tt, record t { errno = errsave })) s

  -- `errno` is read once more after `log_error`, which does not keep it.
  unfoldable pub log_failure : String → M sys ℤ
  log_failure func = do log_error func; λ s. done (minus s.errno, s)

  unfoldable pub log_syscall : String → ℤ → ℕ → M sys ℤ
  log_syscall func retstat min_ret = do
    log_retstat func retstat
    if ltb_ℤ retstat (pos min_ret) then log_failure func else pure retstat

  -- `log_error` where a call failed, for the handlers that do not use `log_syscall`.
  unfoldable pub or_error : String → ℤ → M sys ℤ
  or_error func retstat = if ltb_ℤ retstat (pos 0) then log_error func else pure retstat

  -- The call, and `errno` as it leaves it.
  unfoldable pub invoke : SysCall → M sys Reply
  invoke c s = let (r, w) = sys.call c s.world in done (r, record s { errno = r.errno; world = w })

  -- `bb_fullpath` into an array of PATH_MAX bytes, with the final zero.
  unfoldable pub bb_fullpath : Text → M sys Text
  bb_fullpath path s =
      let full = s.rootdir ++ take sys.path_max path in
      Common.◌>>◌ (require (ltb (length full) sys.path_max) bad_copy)
        ((do log_msg (full_path s.rootdir path full); pure full) s)

  -- The text at a pointer, up to its zero; the bytes behind those of the buffer were never set.
  unfoldable pub c_string : List ℕ → M sys Text
  c_string [] = λ s. undefined uninitialised
  c_string (b ∷ bs) =
      let rest = c_string bs in if b == 0 then pure [] else (do t ← rest; pure (b ∷ t))

  unfoldable pub log_conn : List ℕ → M sys (Unit {0})
  log_conn conn = do log_msg (title "conn"); log_fields conn_fields conn

  -- The fields of the context before `rootdir`, and its `umask`.
  unfoldable pub log_fuse_context : List ℕ → ℕ → M sys (Unit {0})
  log_fuse_context context umask = do
    log_msg (title "context")
    log_fields context_fields context
    λ s. log_msg (text "rootdir" s.rootdir) s
    log_msg (field "umask" (pos umask))
