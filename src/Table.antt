-- ===== src/Table.antt =====
-- `CacheManager::cacheToString` of CacheManager.cpp: the table of the cached blocks.
pub mod Reading
pub mod Rows
mod Tests
use os_ex.Common.{
  ℕ, ◌+◌, ◌^◌, Bool, List, [], ◌∷◌, ◌++◌, drop, Outcome, done, int_overflow, require, ◌>>=◌, ◌>>◌,
  if◌then◌else◌,
}
use os_ex.Common.Int.{◌-ℤ◌, ℤ, pos, ◌+ℤ◌, ltb_ℤ}
use os_ex.Common.Decimal.{to_string}
use os_ex.Block.{Text, CacheBlock, is_real, int_max}
use os_ex.Chain.{Node}
use os_ex.Manager.{CacheChain, CacheManager}

abbrev pub space : ℕ
space = b' '

abbrev pub newline : ℕ
newline = 10

-- The path without its first character, the number of the block counted from 1, and the count.
unfoldable pub block_row : CacheBlock → Outcome Text
block_row b = do
  require (ltb_ℤ b.block_number (pos int_max)) int_overflow
  done (
      drop 1 b.path
      ++ (space
          ∷ (to_string (b.block_number +ℤ pos 1)
              ++ (space ∷ (to_string (pos b.ref_count) ++ (newline ∷ []))))))

-- The slots that hold no block are passed over.
abbrev pub row_text : CacheBlock → Outcome Text
row_text b = if is_real b then block_row b else done []

-- From the back of the list to its front.
unfoldable pub rows_text : CacheChain → Outcome Text
rows_text [] = done []
rows_text (n ∷ c) = do behind ← rows_text c; row ← row_text n.item; done (behind ++ row)

unfoldable pub cache_to_string : CacheManager → Outcome Text
cache_to_string m = rows_text m.cache_chain
