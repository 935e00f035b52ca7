-- ===== src/Read/Fetch.antt =====
-- A block of the file, from the cache or from the disk.
use os_ex.Common.{
  true, ℕ, suc, ◌*◌, ◌^◌, ◌≡◌, ◌<◌, ◌≤◌, refl, ◌⊎◌, inl, inr, none, some, length, take, drop, arith,
  lt→ltb, done,
}
use os_ex.Common.Int.{ℤ, pos}
use os_ex.Block.{BlockId, Buffer, Text}
use os_ex.Manager.Stems.{holds}
use os_ex.Read.{Call, gives, BlockCache, Request, Progress, next, load_block, fetch}

-- What the loop needs of a cache that holds the given data: it goes on for as many calls as it says,
-- and returns the data or nothing. A number below 0 stands for no block.
pub record CacheLaws (cache : BlockCache) (content : BlockId → Buffer) : Type 1 where
  pub Inv : ℕ → cache.State → Type 0
  pub Absent : BlockId → cache.State → Type 0
  pub retrieve_law :
      (n : ℕ) (k : BlockId) (s : cache.State)
      → holds k ≡ true
      → Inv (suc n) s
      → ((s' : cache.State) × (cache.retrieve k s ≡ done (none, s')) × Inv (suc n) s' × Absent k s')
        ⊎ ((s' : cache.State) × (cache.retrieve k s ≡ done (some (content k), s')) × Inv n s')
  pub insert_law :
      (n : ℕ) (k : BlockId) (path : Text) (s : cache.State)
      → holds k ≡ true
      → Inv (suc n) s
      → Absent k s
      → (s' : cache.State) × (cache.insert k.file_id k.block_number (content k) path s ≡ done s')
        × Inv n s'

-- Block `b` of the file.
abbrev pub file_block : ℕ → Buffer → ℕ → Buffer
file_block block_size file b = take block_size (drop (b * block_size) file)

-- The file as `pread` and the cache show it: `pread` of a whole block gives what the file has of it.
pub record Shows (pread : ℕ → ℕ → Call Buffer) (content : BlockId → Buffer) (ino : ℤ)
    (block_size : ℕ) (file : Buffer) : Type 0 where
  pub small : length file < 2 ^ 31
  pub positive : 1 ≤ block_size
  pub pread_block :
      (b : ℕ)
      → b * block_size < length file
      → pread block_size (b * block_size) ≡ gives (file_block block_size file b)
  pub content_block :
      (b : ℕ)
      → content (record { file_id = ino; block_number = pos b }) ≡ file_block block_size file b

module _ (cache : BlockCache) (pread : ℕ → ℕ → Call Buffer) (r : Request)
    (content : BlockId → Buffer) (laws : CacheLaws cache content) (file : Buffer)
    (shows : Shows pread content r.ino r.block_size file) where
  -- What `fetch` gives: the bytes of the block, and the length of the bytes read, if any were.
  pub record Fetched (n block : ℕ) (p : Progress cache.State) : Type 0 where
    pub state : cache.State
    pub pread_ret : ℕ
    pub runs :
        fetch cache pread r block p
        ≡ done (
            next (
              file_block r.block_size file block,
              record p { state = state; pread_ret = pread_ret },
            ))
    pub inv : laws.Inv n state
    pub ret : (pread_ret ≡ p.pread_ret) ⊎ (pread_ret ≡ length (file_block r.block_size file block))

  id : ℕ → BlockId
  id block = record { file_id = r.ino; block_number = pos block }

  -- A block that the file has is fetched.
  pub fetch-Fetched :
      (n block : ℕ) (p : Progress cache.State)
      → laws.Inv (suc n) p.state
      → block * r.block_size < length file
      → Fetched n block p
  unfolding fetch load_block id
  fetch-Fetched n block p inv h = elim (laws.retrieve_law n (id block) p.state refl inv) [
    | inr (s, runs, inv') ↦ record {
      state = s;
      pread_ret = p.pread_ret;
      runs = rw (runs, shows.content_block block);
      inv = inv';
      ret = inl refl;
    }
    | inl (s, runs, inv', absent) ↦
        let (s', inserts, inv'') = laws.insert_law n (id block) r.path s refl inv' absent in
        let at = shows.content_block block in
        record {
          state = s';
          pread_ret = length (file_block r.block_size file block);
          runs = rw (
            runs,
            lt→ltb (block * r.block_size) (2 ^ 31) (omega (arith, shows.small)),
            shows.pread_block block h,
            ← at,
            inserts,
          );
          inv = inv'';
          ret = inr refl;
        }
  ]
