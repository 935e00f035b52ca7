-- ===== src/Bbfs/Directories.antt =====
-- The handlers of bbfs.c that work on directories, and those that begin and end a mount.
use Prim.Native.String.{String}
use os_ex.Common.{none, some, Option, ℕ, zero, suc, ◌++◌, Bool, List, [], ◌∷◌, if◌then◌else◌}
use os_ex.Common.Int.{ℤ, pos, eqb_ℤ}
use os_ex.Block.{Text}
use os_ex.Common.Stateful.{◌>>=◌, ◌>>◌, pure}
use os_ex.Bbfs.{
  FileInfo, SysCall, Request, request, listing, returned, title, text, System, M, Answer, status,
}
use os_ex.Bbfs.Logging.{
  minus, log_msg, log_fi, log_error, log_conn, log_fuse_context, invoke, bb_fullpath,
}

abbrev pub is_null : ℤ → Bool
is_null p = eqb_ℤ p (pos 0)

-- ENOMEM of Linux.
abbrev pub enomem : ℕ
enomem = 12

-- What `bb_readdir` returns, and the names that the filler took.
pub record Listing : Type 0 where
  pub retstat : ℤ
  pub names : List Text

module _ (sys : System) where
  -- `log_error` on a null pointer.
  unfoldable pub null_error : String → ℤ → M sys ℤ
  null_error func p = if is_null p then log_error sys func else pure (pos 0)

  unfoldable pub bb_opendir : Text → FileInfo → M sys Answer
  bb_opendir path fi = do
    log_msg sys (request (Request.opendir path fi))
    fpath ← bb_fullpath sys path
    dp ← invoke sys (SysCall.opendir fpath)
    log_msg sys (returned "opendir" dp.ret)
    retstat ← null_error "bb_opendir opendir" dp.ret
    log_fi sys (record fi { fh = dp.ret })
    pure (record { retstat = retstat; filled = []; fh = dp.ret })

  -- `filler` says of the names that it took and a further one whether its buffer is full.
  module _ (filler : List Text → Text → Bool) (fi : FileInfo) where
    abbrev pub finish : List Text → M sys (Option Listing)
    finish names = do log_fi sys fi; pure (some (record { retstat = pos 0; names = names }))

    -- The rounds of the loop from an entry's name on, for as many entries as there is fuel; `none` is
    -- a loop that is not at its end then.
    unfoldable pub fill : ℕ → List Text → Text → M sys (Option Listing)
    fill zero names name = pure none
    fill (suc fuel) names name = do
      log_msg sys (text "calling filler with name" name)
      if filler names name
          then (do
            log_msg sys (title "ERROR bb_readdir filler:  buffer full")
            pure (some (record { retstat = minus enomem; names = names })))
          else (do
            de ← invoke sys (SysCall.readdir fi.fh)
            let again = fill fuel (names ++ (name ∷ [])) de.filled
            if is_null de.ret then finish (names ++ (name ∷ [])) else again)

    abbrev pub no_entry : M sys (Option Listing)
    no_entry = do
      retstat ← log_error sys "bb_readdir readdir"
      pure (some (record { retstat = retstat; names = [] }))

    unfoldable pub bb_readdir : ℕ → Text → ℤ → M sys (Option Listing)
    bb_readdir fuel path offset = do
      log_msg sys (listing path offset fi)
      de ← invoke sys (SysCall.readdir fi.fh)
      log_msg sys (returned "readdir" de.ret)
      if is_null de.ret then no_entry else fill fuel [] de.filled

  -- What `closedir` returns is not looked at.
  unfoldable pub bb_releasedir : Text → FileInfo → M sys Answer
  bb_releasedir path fi = do
    log_msg sys (request (Request.releasedir path fi))
    log_fi sys fi
    invoke sys (SysCall.closedir fi.fh)
    pure (status (pos 0))

  unfoldable pub bb_fsyncdir : Text → ℤ → FileInfo → M sys Answer
  bb_fsyncdir path datasync fi = do
    log_msg sys (request (Request.fsyncdir path datasync fi))
    log_fi sys fi
    pure (status (pos 0))

  -- The result is the state itself.
  unfoldable pub bb_init : List ℕ → List ℕ → ℕ → M sys (Unit {0})
  bb_init conn context umask = do
    log_msg sys (title "bb_init()")
    log_conn sys conn
    log_fuse_context sys context umask

  unfoldable pub bb_destroy : M sys Answer
  bb_destroy = do log_msg sys (request Request.destroy); pure (status (pos 0))
