-- ===== src/Paths.antt =====
-- `CacheManager::updatePaths` of CacheManager.cpp: the paths of the cached blocks after a rename.
pub mod Segments
pub mod Rename
pub mod Wherever
pub mod Tests
use os_ex.Common.{
  ℕ, Bool, not, ◌&&◌, List, [], ◌∷◌, ◌++◌, length, drop, Outcome, done, undefined, bad_index, ◌>>=◌,
  ◌==◌, if◌then◌else◌, true, false,
}
use os_ex.Common.Int.{eqb_ℤ}
use os_ex.Block.{Text, CacheBlock, set_path, null_block}
use os_ex.Chain.{Node, node}
use os_ex.Manager.{CacheChain, CacheManager}

abbrev pub slash : ℕ
slash = b'/'

-- `s[s.length() - 1]`, which is out of the range of an empty string.
abbrev pub last_char : Text → Outcome ℕ
last_char [] = undefined bad_index
last_char (c ∷ []) = done c
last_char (c ∷ d ∷ s) = last_char (d ∷ s)

-- `s[0]`, which is the final zero of an empty string.
abbrev pub first_char : Text → ℕ
first_char [] = 0
first_char (c ∷ s) = c

-- `s.pop_back()` on a string that is not empty.
abbrev pub drop_last_char : Text → Text
drop_last_char [] = []
drop_last_char (c ∷ []) = []
drop_last_char (c ∷ d ∷ s) = c ∷ drop_last_char (d ∷ s)

-- `if (s[s.length() - 1] != '/') s.push_back('/')`
unfoldable pub with_slash : Text → Outcome Text
with_slash s = do c ← last_char s; done (if c == slash then s else s ++ (slash ∷ []))

-- `s.compare(0, prefix.size(), prefix) == 0`
abbrev pub starts_with : Text → Text → Bool
starts_with [] s = true
starts_with (c ∷ p) [] = false
starts_with (c ∷ p) (d ∷ s) = c == d && starts_with p s

-- `if (s[s.length() - 1] == '/') s.pop_back()`
unfoldable pub without_slash : Text → Outcome Text
without_slash s = do c ← last_char s; done (if c == slash then drop_last_char s else s)

-- The new path of a block whose path, with a slash at its end, begins with the prefix: `suffix` is
-- what follows.
unfoldable pub replace_prefix : Text → Text → Outcome Text
replace_prefix new_prefix suffix = do
  c ← last_char new_prefix
  let joint =
      if not (c == slash) && not (first_char suffix == slash)
      then new_prefix ++ (slash ∷ [])
      else new_prefix
  without_slash (joint ++ suffix)

-- One round of the loop; the prefix ends in a slash.
unfoldable pub rename_path : Text → Text → Text → Outcome Text
rename_path prefix new_prefix path = do
  s ← with_slash path
  if starts_with prefix s then replace_prefix new_prefix (drop (length prefix) s) else done path

-- The test `getFileId() == NULL_BLOCK` of the loop.
abbrev pub has_no_file : CacheBlock → Bool
has_no_file b = eqb_ℤ b.file_id null_block

abbrev pub rename_block : Text → Text → CacheBlock → Outcome CacheBlock
rename_block prefix new_prefix b =
    if has_no_file b
    then done b
    else do p ← rename_path prefix new_prefix b.path; done (set_path p b)

unfoldable pub rename_nodes : Text → Text → CacheChain → Outcome CacheChain
rename_nodes prefix new_prefix [] = done []
rename_nodes prefix new_prefix (n ∷ c) = do
  b ← rename_block prefix new_prefix n.item
  rest ← rename_nodes prefix new_prefix c
  done (node n.id b ∷ rest)

unfoldable pub update_paths : Text → Text → CacheManager → Outcome CacheManager
update_paths prefix new_prefix m = do
  p ← with_slash prefix
  c ← rename_nodes p new_prefix m.cache_chain
  done (record m { cache_chain = c })
