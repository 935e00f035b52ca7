-- ===== src/Handlers/Contents.antt =====
-- What `caching_ioctl` writes to the log.
use os_ex.Common.{ℕ, ◌≡◌, done}
use os_ex.Block.{Text}
use os_ex.Read.{gives}
use os_ex.Table.Reading.{read_rows}
use os_ex.Table.Rows.{rows_of}
use os_ex.Handlers.{System, CallName, Fs, log_call}
use os_ex.Handlers.Reading.{ioctl_log, caching_ioctl}

-- The log has the call and a table with those rows, and nothing else is done.
abbrev pub Prints : (sys : System) → ℕ → Fs sys → Type 0
Prints sys fuel fs =
    (t : Text) × (caching_ioctl sys fs
      ≡ done (gives tt, ioctl_log sys t (log_call sys CallName.ioctl fs)))
    × (read_rows fuel t ≡ rows_of fs.cache_manager.cache_chain)
