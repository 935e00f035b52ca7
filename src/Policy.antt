-- ===== src/Policy.antt =====
-- The replacement policy of CacheManager.h as it is meant: one list of entries, the one used last
-- in front, whose first places are the new section and whose last ones are the old section. There
-- are no addresses, iterators or section attributes here, and no map.
pub mod View
pub mod Lookup
pub mod Admit
pub mod Trace
mod Tests
use os_ex.Common.{
  ℕ, zero, suc, ◌+◌, ◌-◌, Bool, true, false, not, ◌&&◌, Option, none, some, List, [], ◌∷◌, ◌++◌,
  take, drop, ltb, if◌then◌else◌, ◌==◌,
}
use os_ex.Block.{BlockId, Text, Buffer, same_id}
use os_ex.Manager.Stems.{holds}
use os_ex.Manager.Victim.{is_nil}

-- A block or an empty slot, without its section.
pub record Entry : Type 0 where
  pub key : BlockId
  pub count : ℕ
  pub content : Option Buffer
  pub path : Text

-- The place holds the block.
abbrev pub is_at : BlockId → Entry → Bool
is_at k e = holds e.key && same_id e.key k

-- A reference is counted behind the new section, which has that many places.
abbrev pub count_at : ℕ → Entry → Entry
count_at zero e = record e { count = e.count + 1 }
count_at (suc a) e = e

abbrev pub before : Entry → Option (Entry × List Entry) → Option (Entry × List Entry)
before e none = none
before e (some (found, rest)) = some (found, e ∷ rest)

-- The block as it is after a reference, and the other entries.
unfoldable pub take_out : ℕ → BlockId → List Entry → Option (Entry × List Entry)
take_out a k [] = none
take_out a k (e ∷ es) =
    let later = before e (take_out (a - 1) k es) in
    if is_at k e then some (count_at a e, es) else later

-- A lookup moves the block to the front.
abbrev pub to_front : List Entry → Option (Entry × List Entry) → Option Buffer × List Entry
to_front es none = (none, es)
to_front es (some (e, rest)) = (e.content, e ∷ rest)

abbrev pub lookup : ℕ → BlockId → List Entry → Option Buffer × List Entry
lookup a k es = to_front es (take_out a k es)

-- Every entry has more references than that.
abbrev pub all_above : ℕ → List Entry → Bool
all_above n [] = true
all_above n (e ∷ es) = ltb n e.count && all_above n es

-- The entries without the last of those with the fewest references.
unfoldable pub drop_least : List Entry → List Entry
drop_least [] = []
drop_least (e ∷ es) = let rest = drop_least es in if all_above e.count es then es else e ∷ rest

abbrev pub ends_in_slot : List Entry → Bool
ends_in_slot [] = false
ends_in_slot (e ∷ []) = not (holds e.key)
ends_in_slot (e ∷ e' ∷ es) = ends_in_slot (e' ∷ es)

unfoldable pub without_last : List Entry → List Entry
without_last [] = []
without_last (e ∷ []) = []
without_last (e ∷ e' ∷ es) = e ∷ without_last (e' ∷ es)

-- An empty slot at the end goes, or else a block of the old section.
abbrev pub make_space : List Entry → List Entry
make_space old = if ends_in_slot old then without_last old else drop_least old

-- The entry that goes is the first of the old section.
abbrev pub drops_first : List Entry → Bool
drops_first [] = false
drops_first (e ∷ es) = if ends_in_slot (e ∷ es) then is_nil es else all_above e.count es

-- A new block goes to the front; the old section is behind so many places.
abbrev pub admit : ℕ → Entry → List Entry → List Entry
admit n e es = e ∷ (take n es ++ make_space (drop n es))
