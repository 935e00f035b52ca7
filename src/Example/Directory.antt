-- ===== src/Example/Directory.antt =====
-- The methods of `ExampleFS` on directories, and `Init`.
use os_ex.Common.{ℕ, zero, suc, Bool, Option, none, some, List, [], ◌∷◌, ◌++◌, if◌then◌else◌}
use os_ex.Common.Stateful.{◌>>=◌, ◌>>◌, pure}
use os_ex.Common.Int.{ℤ, pos}
use os_ex.Block.{Text}
use os_ex.Bbfs.{Answer, status}
use os_ex.Bbfs.Logging.{minus}
use os_ex.Bbfs.Directories.{Listing, enomem, is_null}
use os_ex.Example.{LibCall, Request, asked, readdir_of, System, M}
use os_ex.Example.Methods.{print, invoke, abs_path}

module _ (sys : System) where
  unfoldable pub opendir : Text → M sys Answer
  opendir path = do
    print sys (asked (Request.opendir path))
    full ← abs_path sys path
    dir ← invoke sys (LibCall.opendir full)
    pure (record {
      retstat = if is_null dir.ret then minus dir.errno else pos 0;
      filled = [];
      fh = dir.ret;
    })

  -- `filler` says of the names that it took and a further one whether its buffer is full.
  module _ (filler : List Text → Text → Bool) (fh : ℤ) where
    -- The rounds of the loop from an entry's name on, for as many entries as there is fuel; `none` is
    -- a loop that is not at its end then.
    unfoldable pub fill : ℕ → List Text → Text → M sys (Option Listing)
    fill zero names name = pure none
    fill (suc fuel) names name =
        if filler names name
        then pure (some (record { retstat = minus enomem; names = names }))
        else (do
          de ← invoke sys (LibCall.readdir fh)
          let again = fill fuel (names ++ (name ∷ [])) de.filled
          let ended = pure (some (record { retstat = pos 0; names = names ++ (name ∷ []) }))
          if is_null de.ret then ended else again)

    unfoldable pub readdir : ℕ → Text → ℤ → M sys (Option Listing)
    readdir fuel path offset = do
      print sys (readdir_of path offset)
      de ← invoke sys (LibCall.readdir fh)
      let failed = pure (some (record { retstat = minus de.errno; names = [] }))
      if is_null de.ret then failed else fill fuel [] de.filled

  -- What `closedir` returns is not looked at.
  unfoldable pub releasedir : Text → ℤ → M sys Answer
  releasedir path fh = do
    print sys (asked (Request.releasedir path fh))
    invoke sys (LibCall.closedir fh)
    pure (status (pos 0))

  unfoldable pub fsyncdir : Text → ℤ → M sys Answer
  fsyncdir path datasync = pure (status (pos 0))

  unfoldable pub init : M sys Answer
  init = pure (status (pos 0))
