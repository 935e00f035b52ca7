-- ===== src/Session/Live.antt =====
-- Sessions of reads that come to their end: those of whole blocks, while the cache has empty slots.
use os_ex.Common.{
  arith, ◌⊎◌, some, subst, sym, ℕ, suc, ◌+◌, ◌-◌, ◌%◌, ◌^◌, min, ◌≡◌, ◌<◌, ◌≤◌, refl, false, List,
  [], ◌∷◌, map, All, length, take, drop, none, Outcome, done, ◌>>=◌,
}
use os_ex.Common.Int.{pos}
use os_ex.Block.{BlockId, Buffer, Text}
use os_ex.Manager.{CacheManager, retrieve_buffer}
use os_ex.Paths.Segments.{same_text}
use os_ex.Read.{Call, gives, manager_cache}
use os_ex.Read.Fetch.{CacheLaws, Shows}
use os_ex.Read.File.{to_int, blocks_for, read_file-aligned}
use os_ex.Read.Cached.{IsPrepared, retrieve_buffer-IsPrepared, insert_block-IsPrepared}
use os_ex.Handlers.{System, CallName, Fs, log_call, caching_full_path, unless_log}
use os_ex.Handlers.Log.{full_path_logged}
use os_ex.Handlers.Reading.{read_stated, caching_read}

-- The size and the offset of a read.
abbrev pub Wish : Type 0
Wish = ℕ × ℕ

module _ (sys : System) (path : Text) (fh : ℕ) where
  -- The reads one after the other, with their replies.
  unfoldable pub read_all : List Wish → Fs sys → Outcome (List (Call Buffer) × Fs sys)
  read_all [] fs = done ([], fs)
  read_all (wish ∷ wishes) fs = do
    (reply, fs') ← caching_read sys path fh wish.0 (pos wish.1) fs
    (replies, fs'') ← read_all wishes fs'
    done (reply ∷ replies, fs'')

one_more : (j n : ℕ) → suc (j + n) ≡ j + suc n
one_more j n = omega arith

module _ (sys : System) (content : BlockId → Buffer) (a b c : ℕ) (ha : 1 ≤ a) (hc : 2 ≤ c)
    (path full : Text) (fh : ℕ) (file : Buffer) (att : sys.Attributes) where
  -- The cache as one with room for `j` calls more than the loop makes.
  abbrev laws_before : ℕ → CacheLaws manager_cache content
  laws_before j = record {
    Inv = λ n m. IsPrepared content a b c (j + n) m;
    Absent = λ k m. m.blocks_map k ≡ none;
    retrieve_law = λ n k m real.
        subst
          (λ x.
            IsPrepared content a b c x m
            → ((m' : CacheManager) × (retrieve_buffer k m ≡ done (none, m'))
                × IsPrepared content a b c x m'
                × (m'.blocks_map k ≡ none))
              ⊎ ((m' : CacheManager) × (retrieve_buffer k m ≡ done (some (content k), m'))
                  × IsPrepared content a b c (j + n) m'))
          (one_more j n) (retrieve_buffer-IsPrepared content a b c ha hc (j + n) k m real);
    insert_law = λ n k p m real i.
        insert_block-IsPrepared content a b c ha hc (j + n) k p m real
          (subst (λ x. IsPrepared content a b c x m) (sym (one_more j n)) i);
  }

  -- The bytes of the file that are asked for.
  abbrev pub wished : Wish → Buffer
  wished wish = take wish.0 (drop wish.1 file)

  -- From the start of a block, and in the range of a `size_t`.
  abbrev pub IsWhole : Wish → Type 0
  IsWhole wish = (wish.1 % (sys.stat_of att).st_blksize ≡ 0) × (wish.0 + wish.1 < 2 ^ 64)

  -- The blocks of the answers.
  abbrev pub blocks_of : List Wish → ℕ
  blocks_of [] = 0
  blocks_of (wish ∷ wishes) =
      blocks_of wishes + blocks_for (min wish.0 (length file - wish.1)) (sys.stat_of att).st_blksize

  -- In every world, `fstat` and `pread` give the file.
  abbrev pub StaysSo : Type 0
  StaysSo =
      let st = sys.stat_of att in
      (w : sys.World)
      → (w' : sys.World) × (sys.fstat fh w ≡ (gives att, w'))
        × Shows (sys.pread w' fh) content (to_int st.st_ino) st.st_blksize file

  module _ (sized : (sys.stat_of att).st_size ≡ length file)
      (blk : (sys.stat_of att).st_blksize < 2 ^ 31) (stays : StaysSo) where
    -- The state after a read: a call logged, and another cache and world.
    abbrev read_state : Fs sys → CacheManager → sys.World → Fs sys
    read_state fs m w = record (log_call sys CallName.read fs) { cache_manager = m; world = w }

    one_read :
        (j : ℕ) (wish : Wish) (fs : Fs sys)
        → caching_full_path sys path fs ≡ done full
        → same_text full fs.logfile_full_path ≡ false
        → IsWhole wish
        → IsPrepared content a b c
            (j + blocks_for (min wish.0 (length file - wish.1)) (sys.stat_of att).st_blksize)
            fs.cache_manager
        → (m : CacheManager) × (w : sys.World) × (caching_read sys path fh wish.0 (pos wish.1) fs
            ≡ done (gives (wished wish), read_state fs m w))
          × IsPrepared content a b c j m
    unfolding caching_read unless_log read_stated log_call
    one_read j wish fs fits other (whole, room) ready =
        let (w, stated, shows) = stays (log_call sys CallName.read fs).world in
        let (m, runs, ready') =
          read_file-aligned manager_cache (sys.pread w fh) (sys.stat_of att) path content
            (laws_before j) file shows wish.0 wish.1 fs.cache_manager sized blk whole room ready in
        (
          m,
          w,
          rw (
            full_path_logged sys CallName.read path full fs fits,
            log_call,
            other,
            read_stated,
            stated,
            runs,
          ),
          subst (λ x. IsPrepared content a b c x m) (omega arith) ready',
        )

    -- A session of reads of a file, each from the start of a block, comes to its end, and each reply
    -- has exactly the bytes that were asked for, or fewer at the end of the file. The cache is well
    -- formed at the start, with a new section and more than one block in the old one, and it has as
    -- many empty slots as the answers have blocks, with counts that can grow by as much; `fstat` and
    -- `pread` give the file all the time, the path fits and is not the log's, the size and the block
    -- size are `int`s, and each request fits a `size_t`.
    pub read_all-map :
        (wishes : List Wish) (fs : Fs sys)
        → caching_full_path sys path fs ≡ done full
        → same_text full fs.logfile_full_path ≡ false
        → All IsWhole wishes
        → IsPrepared content a b c (blocks_of wishes) fs.cache_manager
        → (after : Fs sys) × (read_all sys path fh wishes fs
            ≡ done (map (λ wish. gives (wished wish)) wishes, after))
    unfolding read_all log_call caching_full_path
    read_all-map [] fs fits other whole ready = (fs, refl)
    read_all-map (wish ∷ wishes) fs fits other whole ready =
        let (m, w, runs, ready') = one_read (blocks_of wishes) wish fs fits other whole.0 ready in
        let (after, rest) = read_all-map wishes (read_state fs m w) fits other whole.1 ready' in
        (after, rw (runs, rest))
