-- ===== src/Read/Wherever.antt =====
-- The loop of `caching_read` from any offset, with any blocks in the cache, wherever it goes on.
use os_ex.Common.{
  Ensures, Ensures-bind, true, Bool-cases, ℕ, ◌+◌, ◌-◌, ◌*◌, ◌^◌, ◌≡◌, ◌∙◌, ◌<◌, ◌≤◌, refl, sym, ap,
  subst, ◌⊎◌, inl, inr, Option, none, some, ◌++◌, length, take, drop, take-take, take-drop_add,
  drop-drop, drop-take, arith, leb→le, leb, ltb, done,
}
use os_ex.Common.Int.{pos}
use os_ex.Block.{BlockId, Buffer, Text}
use os_ex.Manager.Stems.{holds}
use os_ex.Read.{
  Call, BlockCache, Request, Progress, Step, next, stop, load_block, fetch, offset_in, size_to_copy,
  copy_block,
}
use os_ex.Read.Fetch.{Shows, file_block}

-- A cache that gives the data of a block or nothing, as long as it goes on.
pub record SafeCache (cache : BlockCache) (content : BlockId → Buffer) : Type 1 where
  pub Inv : cache.State → Type 0
  pub retrieve_law :
      (k : BlockId) (s : cache.State)
      → holds k ≡ true
      → Inv s
      → Ensures (λ r. ((y : Buffer) → r.0 ≡ some y → y ≡ content k) × Inv r.1) (cache.retrieve k s)
  pub insert_law :
      (k : BlockId) (path : Text) (s : cache.State)
      → holds k ≡ true
      → Inv s
      → Ensures Inv (cache.insert k.file_id k.block_number (content k) path s)

-- Bytes of a block behind those copied so far.
pub slice-more :
    (bs from n copied off block : ℕ) (file : Buffer)
    → off + copied ≡ block * bs + from
    → from + n ≤ bs
    → take copied (drop off file) ++ take n (drop from (file_block bs file block))
      ≡ take (copied + n) (drop off file)
slice-more bs from n copied off block file at room =
    let whole : from + (bs - from) ≡ bs = omega (arith, room) in
    ap (λ t. take copied (drop off file) ++ t)
      (ap (λ k. take n (drop from (take k (drop (block * bs) file)))) (sym whole)
        ∙ ap (take n) (drop-take from (bs - from) (drop (block * bs) file))
        ∙ take-take n (bs - from) (drop from (drop (block * bs) file)) (omega (arith, room))
        ∙ ap (take n) (
            drop-drop from (block * bs) file
            ∙ ap (λ k. drop k file) (sym at)
            ∙ sym (drop-drop copied off file)))
    ∙ take-drop_add copied n (drop off file)

module _ (cache : BlockCache) (pread : ℕ → ℕ → Call Buffer) (r : Request)
    (content : BlockId → Buffer) (safe : SafeCache cache content) (file : Buffer)
    (shows : Shows pread content r.ino r.block_size file) where
  -- What `fetch` gives, where it goes on.
  abbrev pub Fetched :
      ℕ → Progress cache.State → Step cache.State (Buffer × Progress cache.State) → Type 0
  Fetched block p (stop errno s) = safe.Inv s
  Fetched block p (next (bytes, p')) =
      (bytes ≡ file_block r.block_size file block)
      × (p'.out ≡ p.out)
      × (p'.remaining ≡ p.remaining)
      × safe.Inv p'.state
      × ((p'.pread_ret ≡ p.pread_ret) ⊎ (p'.pread_ret ≡ length bytes))

  id : ℕ → BlockId
  id block = record { file_id = r.ino; block_number = pos block }

  load_block-Ensures :
      (block : ℕ) (p : Progress cache.State)
      → safe.Inv p.state
      → block * r.block_size < length file
      → Ensures (Fetched block p) (load_block cache pread r block p)
  unfolding load_block id
  load_block-Ensures block p inv h = elim (Bool-cases (ltb (block * r.block_size) (2 ^ 31))) [
    | inr big ↦ rw big tt
    | inl small ↦
        rw (small, shows.pread_block block h, ← shows.content_block block)
          (Ensures-bind (Fetched block p)
            (cache.insert r.ino (pos block) (content (id block)) r.path p.state) _
            (λ s runs. (
              shows.content_block block,
              refl,
              refl,
              subst (Ensures safe.Inv) runs (safe.insert_law (id block) r.path p.state refl inv),
              inr refl,
            )))
  ]

  pub fetch-Ensures :
      (block : ℕ) (p : Progress cache.State)
      → safe.Inv p.state
      → block * r.block_size < length file
      → Ensures (Fetched block p) (fetch cache pread r block p)
  unfolding fetch id
  fetch-Ensures block p inv h =
      Ensures-bind (Fetched block p) (cache.retrieve (id block) p.state) _ (λ x runs.
        let (same, inv') =
          subst
            (Ensures (λ r. ((y : Buffer) → r.0 ≡ some y → y ≡ content (id block)) × safe.Inv r.1))
            runs (safe.retrieve_law (id block) p.state refl inv) in
        found x.0 x.1 same inv')
    where
      found :
          (o : Option Buffer) (s : cache.State)
          → ((y : Buffer) → o ≡ some y → y ≡ content (id block))
          → safe.Inv s
          → Ensures (Fetched block p) (elim o [
            | none ↦ load_block cache pread r block (record p { state = s })
            | some bytes ↦ done (next (bytes, record p { state = s }))
          ])
      found none s same inv' = load_block-Ensures block (record p { state = s }) inv' h
      found (some y) s same inv' =
          (same y refl ∙ shows.content_block block, refl, refl, inv', inl refl)

  -- Where a copy goes on, its bytes are there.
  abbrev pub Copies : ℕ → Buffer → Progress cache.State → Progress cache.State → Type 0
  Copies block bytes p p' =
      let from = offset_in cache pread r block in
      let n = size_to_copy cache pread r block p in
      (from + n ≤ length bytes)
      × (p' ≡ record p { out = p.out ++ take n (drop from bytes); remaining = p.remaining - n })

  pub copy_block-Ensures :
      (block : ℕ) (bytes : Buffer) (p : Progress cache.State)
      → Ensures (Copies block bytes p) (copy_block cache pread r block bytes p)
  unfolding copy_block
  copy_block-Ensures block bytes p =
      let n = size_to_copy cache pread r block p in
      elim (Bool-cases (leb (offset_in cache pread r block + n) (length bytes))) [
        | inr short ↦ rw short tt
        | inl there ↦ elim (Bool-cases (leb (length p.out + n) r.size)) [
          | inr small ↦ rw (there, small) tt
          | inl fits ↦ rw (there, fits) (leb→le _ _ there, refl)
        ]
      ]
