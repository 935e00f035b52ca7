-- ===== src/Manager/Layout.antt =====
-- The well-formed states of `CacheManager`: three sections, one after the other, that the two
-- iterators and the attributes of the blocks describe.
use os_ex.Common.{Option, ℕ, ◌≡◌, ◌≤◌, refl, ap, subst, false, ◌⊎◌, [], ◌∷◌, ◌++◌, map, All, length}
use os_ex.Block.{Buffer, Section, BlockId, CacheBlock, get_block_id, int_max, is_real}
use os_ex.Chain.{Node, node}
use os_ex.Chain.Zip.{Distinct, ids, Starts}
use os_ex.Manager.{CacheChain, CacheManager}
use os_ex.Manager.Stems.{Stems, Sound}

-- The node without what may change of its block.
abbrev pub stem : Node CacheBlock → Node BlockId
stem n = node n.id (get_block_id n.item)

abbrev pub stems : CacheChain → Stems
stems = map stem

-- Every block of the list has the attribute; an empty slot may have any.
abbrev pub Tagged : Section → CacheChain → Type 0
Tagged s = All (λ n. (is_real n.item ≡ false) ⊎ (n.item.section ≡ s))

-- What is known of the data that a block is stored with.
abbrev pub Stored : Type 1
Stored = BlockId → Option Buffer → Type 0

-- A count is in the range of `int`, and the data is as known.
abbrev pub Fit : Stored → Node CacheBlock → Type 0
Fit P n =
    (1 ≤ n.item.ref_count) × (n.item.ref_count ≤ int_max) × P (get_block_id n.item) n.item.buff

abbrev pub AllFit : Stored → CacheChain → Type 0
AllFit P = All (Fit P)

pub record Layout (P : Stored) (m : CacheManager) (new mid old : CacheChain) : Type 0 where
  pub chain : m.cache_chain ≡ new ++ (mid ++ old)
  pub sound : Sound m.blocks_map (stems (new ++ (mid ++ old))) m.next_id
  pub middle_at : Starts m.middle_section_iter (mid ++ old)
  pub old_at : Starts m.old_section_iter old
  pub new_tagged : Tagged Section.new_section new
  pub middle_tagged : Tagged Section.middle_section mid
  pub old_tagged : Tagged Section.old_section old
  pub fit : AllFit P (new ++ (mid ++ old))

-- The sections have the sizes that the constructor gave them.
pub record IsValid (P : Stored) (new_size middle_size old_size : ℕ) (m : CacheManager)
    : Type 0 where
  pub new : CacheChain
  pub mid : CacheChain
  pub old : CacheChain
  pub layout : Layout P m new mid old
  pub new_length : length new ≡ new_size
  pub middle_length : length mid ≡ middle_size
  pub old_length : length old ≡ old_size

pub ids-stems : (c : CacheChain) → ids (stems c) ≡ ids c
ids-stems [] = refl
ids-stems (n ∷ c) = ap (◌∷◌ n.id) (ids-stems c)

pub stems-replace :
    (xs : CacheChain) (n n' : Node CacheBlock) (ys : CacheChain)
    → stem n ≡ stem n'
    → stems (xs ++ (n ∷ ys)) ≡ stems (xs ++ (n' ∷ ys))
stems-replace [] n n' ys e = ap (λ x. x ∷ stems ys) e
stems-replace (x ∷ xs) n n' ys e = ap (◌∷◌ (stem x)) (stems-replace xs n n' ys e)

module _ {P : Stored} {m : CacheManager} {new mid old : CacheChain}
    (l : Layout P m new mid old) where
  pub Layout-Distinct : (xs : CacheChain) → new ++ (mid ++ old) ≡ xs → Distinct (ids xs)
  Layout-Distinct xs e =
      subst Distinct (ids-stems xs) (subst (λ c. Distinct (ids (stems c))) e l.sound.distinct)

pub Tagged-append :
    (s : Section) (xs : CacheChain) (n : Node CacheBlock) → Tagged s (xs ++ (n ∷ [])) → Tagged s xs
Tagged-append s [] n h = tt
Tagged-append s (x ∷ xs) n h = (h.0, Tagged-append s xs n h.1)
