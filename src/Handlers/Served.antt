-- ===== src/Handlers/Served.antt =====
-- `caching_read` as a whole: the handler, the loop, and the cache of the program.
use os_ex.Common.{
  ℕ, ◌+◌, ◌-◌, ◌%◌, ◌^◌, min, ◌≡◌, ◌<◌, ◌≤◌, false, length, take, drop, Outcome, done,
}
use os_ex.Common.Int.{pos}
use os_ex.Block.{BlockId, Buffer, Text}
use os_ex.Manager.{CacheManager}
use os_ex.Paths.Segments.{same_text}
use os_ex.Read.{Call, gives, manager_cache}
use os_ex.Read.Fetch.{Shows}
use os_ex.Read.File.{to_int, blocks_for, read_file-aligned}
use os_ex.Read.Cached.{IsPrepared, manager_laws}
use os_ex.Handlers.{System, CallName, Fs, log_call, caching_full_path, unless_log}
use os_ex.Handlers.Log.{full_path_logged}
use os_ex.Handlers.Reading.{read_stated, caching_read}

module _ (sys : System) (content : BlockId → Buffer) (a b c : ℕ) (fs : Fs sys) where
  -- The bytes are read, the call is logged, and the cache is well formed.
  abbrev pub Serves : Buffer → sys.World → Outcome (Call Buffer × Fs sys) → Type 0
  Serves bytes w o =
      (m : CacheManager) × (o
        ≡ done
            (gives bytes, record (log_call sys CallName.read fs) { cache_manager = m; world = w }))
      × IsPrepared content a b c 0 m

  -- `caching_read` of an offset at the start of a block of a file, whose path fits and is not the
  -- log's, gives exactly the bytes of the file from the offset on, as many as are asked for or fewer
  -- at its end, logs the call, and leaves the cache of the program well formed. The cache is well
  -- formed before, holds nothing but data of the files, has a block in its new section and more than
  -- one in its old section, and an empty slot for each block of the answer, with counts that can
  -- grow by as much. `fstat` succeeds, `pread` of a whole block gives what the file has of it, the
  -- size and the block size of the file are `int`s, and the request fits a `size_t`.
  pub caching_read-Serves :
      (path full : Text) (fh size offset : ℕ) (file : Buffer) (att : sys.Attributes) (w : sys.World)
      → 1 ≤ a
      → 2 ≤ c
      → caching_full_path sys path fs ≡ done full
      → same_text full fs.logfile_full_path ≡ false
      → sys.fstat fh (log_call sys CallName.read fs).world ≡ (gives att, w)
      → let st = sys.stat_of att in
        Shows (sys.pread w fh) content (to_int st.st_ino) st.st_blksize file
        → st.st_size ≡ length file
        → st.st_blksize < 2 ^ 31
        → offset % st.st_blksize ≡ 0
        → size + offset < 2 ^ 64
        → IsPrepared content a b c
            (blocks_for (min size (length file - offset)) st.st_blksize)
            fs.cache_manager
        → Serves (take size (drop offset file)) w (caching_read sys path fh size (pos offset) fs)
  unfolding caching_read unless_log read_stated log_call
  caching_read-Serves path full fh size offset file att w ha hc fits other stated shows sized blk z
        room ready =
      let st = sys.stat_of att in
      let (m, runs, ready') =
        read_file-aligned manager_cache (sys.pread w fh) st path content
          (manager_laws content a b c ha hc) file shows size offset fs.cache_manager sized blk z
          room ready in
      (
        m,
        rw (
          full_path_logged sys CallName.read path full fs fits,
          log_call,
          other,
          read_stated,
          stated,
          runs,
        ),
        ready',
      )
