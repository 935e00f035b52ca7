-- ===== src/Handlers/Log.antt =====
-- The path of a file below the root, after a call is logged.
use os_ex.Common.{◌≡◌, done}
use os_ex.Block.{Text}
use os_ex.Handlers.{System, CallName, log_call, caching_full_path, Fs}

module _ (sys : System) where
  pub full_path_logged :
      (name : CallName) (path full : Text) (fs : Fs sys)
      → caching_full_path sys path fs ≡ done full
      → caching_full_path sys path (log_call sys name fs) ≡ done full
  unfolding caching_full_path log_call
  full_path_logged name path full fs e = e
