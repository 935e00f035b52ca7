-- ===== src/Session.antt =====
-- A session of the mounted file system: the requests that `init_caching_oper` of
-- CachingFileSystem.cpp gives handlers to, one after the other.
pub mod Kept
pub mod Handled
pub mod Reached
pub mod Live
pub mod Blind
mod Tests
use os_ex.Common.{ℕ, ◌<◌, ◌^◌, ◌≡◌, Bool, Option, none, some, List, Outcome, done, ◌>>=◌}
use os_ex.Common.Int.{ℤ}
use os_ex.Block.{Text}
use os_ex.Read.{Call}
use os_ex.Handlers.{
  System, Fs, caching_getattr, caching_fgetattr, caching_access, caching_open, caching_flush,
  caching_release, caching_opendir, caching_releasedir, caching_rename, caching_init,
  caching_destroy,
}
use os_ex.Handlers.Directory.{Entry, caching_readdir}
use os_ex.Handlers.Reading.{caching_read, caching_ioctl}

-- The operations of `caching_oper` that are not null, with the arguments that their handlers use.
-- `readdir` has the filler, and a bound on the rounds of the loop.
pub data Request : Type 0 where
  getattr : Text → Request
  access : Text → ℕ → Request
  open_file : Text → ℕ → Request
  read : Text → ℕ → ℕ → ℤ → Request
  flush : Text → Request
  release : Text → ℕ → Request
  opendir : Text → Request
  readdir : (List Entry → Entry → Bool) → Text → ℕ → ℕ → Request
  releasedir : Text → ℕ → Request
  rename : Text → Text → Request
  init : Request
  destroy : Request
  ioctl : Request
  fgetattr : Text → ℕ → Request

-- The size of a read is a `size_t`.
abbrev pub IsSized : Request → Type 0
IsSized (Request.read path fh size offset) = size < 2 ^ 64
IsSized _ = Unit {0}

module _ (sys : System) where
  abbrev pub answered : {A : Type 0} → Outcome (Call A × Fs sys) → Outcome (Option (Fs sys))
  answered o = do (r, fs) ← o; done (some fs)

  -- Nothing where the loop is not at its end.
  abbrev pub listed : Option (List Entry) × Fs sys → Outcome (Option (Fs sys))
  listed (none, fs) = done none
  listed (some names, fs) = done (some fs)

  -- The handler of the request, and the state it leaves.
  unfoldable pub handle : Request → Fs sys → Outcome (Option (Fs sys))
  handle (Request.getattr path) fs = answered (caching_getattr sys path fs)
  handle (Request.access path mask) fs = answered (caching_access sys path mask fs)
  handle (Request.open_file path flags) fs = answered (caching_open sys path flags fs)
  handle (Request.read path fh size offset) fs = answered (caching_read sys path fh size offset fs)
  handle (Request.flush path) fs = answered (caching_flush sys path fs)
  handle (Request.release path fh) fs = answered (caching_release sys path fh fs)
  handle (Request.opendir path) fs = answered (caching_opendir sys path fs)
  handle (Request.readdir filler path dp rounds) fs =
      caching_readdir sys filler path dp rounds fs >>= listed
  handle (Request.releasedir path dp) fs = answered (caching_releasedir sys path dp fs)
  handle (Request.rename path newpath) fs = answered (caching_rename sys path newpath fs)
  handle Request.init fs = done (some (caching_init sys fs))
  handle Request.destroy fs = done (some (caching_destroy sys fs))
  handle Request.ioctl fs = answered (caching_ioctl sys fs)
  handle (Request.fgetattr path fh) fs = answered (caching_fgetattr sys path fh fs)

  -- The states that requests lead to, each served to its end before the next: FUSE runs with one
  -- thread.
  pub data Reaches (fs : Fs sys) : Fs sys → Type 0 where
    begins : Reaches fs fs
    serves :
        {now then_ : Fs sys}
        → Reaches fs now
        → (q : Request) → IsSized q
        → handle q now ≡ done (some then_)
        → Reaches fs then_
