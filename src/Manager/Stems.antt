-- ===== src/Manager/Stems.antt =====
-- Which blocks a chain holds and where: what the map of `CacheManager` should say, whatever the
-- sections and the counts of the blocks are.
use os_ex.Common.{
  ℕ, suc, ◌≡◌, ◌≢◌, ◌∙◌, ◌<◌, refl, sym, Bool, true, false, not, ◌&&◌, Option, none, some, [], ◌∷◌,
  ◌++◌, arith, if◌then◌else◌, All, All-mono, inl, inr, Bool-cases,
}
use os_ex.Common.Int.{eqb_ℤ}
use os_ex.Block.{BlockId, same_id, same_id_iff, null_block}
use os_ex.Chain.{Node, Chain, node}
use os_ex.Chain.Zip.{Distinct, ids, All-ids-drop, Distinct-drop}
use os_ex.Manager.{BlocksMap, put}

abbrev pub Stems : Type 0
Stems = Chain BlockId

-- The slot holds a block.
abbrev pub holds : BlockId → Bool
holds k = not (eqb_ℤ k.block_number null_block)

-- The node of a block.
abbrev pub index_of : BlockId → Stems → Option ℕ
index_of k [] = none
index_of k (n ∷ s) = if holds n.item && same_id n.item k then some n.id else index_of k s

-- No block stands in two nodes.
abbrev pub Unique : Stems → Type 0
Unique [] = Unit
Unique (n ∷ s) = (index_of n.item s ≡ none) × Unique s

abbrev pub all_empty : Stems → Bool
all_empty [] = true
all_empty (n ∷ s) = not (holds n.item) && all_empty s

-- No block stands behind an empty slot.
abbrev pub packed : Stems → Bool
packed [] = true
packed (n ∷ s) = if holds n.item then packed s else all_empty s

-- The map says where each block is, and the nodes are in order.
pub record Sound (blocks : BlocksMap) (s : Stems) (next : ℕ) : Type 0 where
  pub distinct : Distinct (ids s)
  pub fresh : All (λ i. i < next) (ids s)
  pub unique : Unique s
  pub filled : packed s ≡ true
  pub mapped : (k : BlockId) → blocks k ≡ index_of k s

index_of_mid :
    (k : BlockId) (xs : Stems) (h : Node BlockId) (ys : Stems)
    → index_of k (xs ++ (h ∷ ys)) ≡ none
    → ((holds h.item && same_id h.item k) ≡ false) × (index_of k (xs ++ ys) ≡ none)
index_of_mid k [] h ys e = ground arith
index_of_mid k (x ∷ xs) h ys e = ground (arith, index_of_mid k xs h ys)

pub index_of_ne :
    (k : BlockId) (xs : Stems) (h : Node BlockId) (ys : Stems)
    → (holds h.item && same_id h.item k) ≡ false
    → index_of k (xs ++ (h ∷ ys)) ≡ index_of k (xs ++ ys)
index_of_ne k [] h ys e = ground arith
index_of_ne k (x ∷ xs) h ys e = ground (arith, index_of_ne k xs h ys e)

Unique-drop :
    (xs : Stems) (h : Node BlockId) (ys : Stems) → Unique (xs ++ (h ∷ ys)) → Unique (xs ++ ys)
Unique-drop [] h ys u = u.1
Unique-drop (x ∷ xs) h ys u = ((index_of_mid x.item xs h ys u.0).1, Unique-drop xs h ys u.1)

same_id_sym : (a b : BlockId) → same_id a b ≡ true → same_id b a ≡ true
same_id_sym a b e = (same_id_iff b a).1 (sym ((same_id_iff a b).0 e))

-- A block that is taken out of the chain is in no other node.
pub index_of_removed :
    (xs : Stems) (h : Node BlockId) (ys : Stems)
    → Unique (xs ++ (h ∷ ys))
    → index_of h.item (xs ++ ys) ≡ none
index_of_removed [] h ys u = u.0
index_of_removed (x ∷ xs) h ys u = elim (Bool-cases (same_id x.item h.item)) [
  | inl e ↦ ground (
    arith,
    same_id_iff x.item h.item,
    same_id_sym x.item h.item e,
    index_of_mid x.item xs h ys u.0,
    index_of_removed xs h ys u.1,
  )
  | inr e ↦ ground (arith, index_of_removed xs h ys u.1)
]

pub all_empty-packed : (s : Stems) → all_empty s ≡ true → packed s ≡ true
all_empty-packed [] e = refl
all_empty-packed (n ∷ s) e = ground arith

all_empty-drop :
    (xs : Stems) (h : Node BlockId) (ys : Stems)
    → all_empty (xs ++ (h ∷ ys)) ≡ true
    → all_empty (xs ++ ys) ≡ true
all_empty-drop [] h ys e = ground arith
all_empty-drop (x ∷ xs) h ys e = ground (arith, all_empty-drop xs h ys)

packed-drop :
    (xs : Stems) (h : Node BlockId) (ys : Stems)
    → packed (xs ++ (h ∷ ys)) ≡ true
    → packed (xs ++ ys) ≡ true
packed-drop [] h ys e = ground (arith, all_empty-packed ys)
packed-drop (x ∷ xs) h ys e = ground (arith, packed-drop xs h ys, all_empty-drop xs h ys)

all_empty_last :
    (xs : Stems) (n : Node BlockId) → all_empty (xs ++ (n ∷ [])) ≡ true → holds n.item ≡ false
all_empty_last [] n e = ground arith
all_empty_last (x ∷ xs) n e = ground (arith, all_empty_last xs n)

-- Where the last node holds a block, every node does.
pub packed_last :
    (xs : Stems) (n : Node BlockId)
    → packed (xs ++ (n ∷ [])) ≡ true
    → holds n.item ≡ true
    → All (λ x. holds x.item ≡ true) (xs ++ (n ∷ []))
packed_last [] n e h = (h, tt)
packed_last (x ∷ xs) n e h = elim (Bool-cases (holds x.item)) [
  | inl r ↦ (r, packed_last xs n (ground arith) h)
  | inr r ↦ absurd (ground (arith, all_empty_last xs n))
]

module _ (blocks : BlocksMap) (next : ℕ) where
  -- A block that is not in the chain gets a node at the head.
  pub push-Sound :
      (k : BlockId) (s : Stems)
      → Sound blocks s next
      → holds k ≡ true
      → blocks k ≡ none
      → Sound (put k (some next) blocks) (node next k ∷ s) (suc next)
  push-Sound k s v r e = record {
    distinct =
        (All-mono (λ i. i < next) (λ i. i ≢ next) (λ i h. omega arith) (ids s) v.fresh, v.distinct);
    fresh = (
      omega arith,
      All-mono (λ i. i < next) (λ i. i < suc next) (λ i h. omega arith) (ids s) v.fresh,
    );
    unique = (sym (v.mapped k) ∙ e, v.unique);
    filled = ground arith;
    mapped = λ j. ground (arith, v.mapped j);
  }

  -- A block is taken out of the chain and of the map.
  pub remove-Sound :
      (xs : Stems) (h : Node BlockId) (ys : Stems)
      → Sound blocks (xs ++ (h ∷ ys)) next
      → Sound (put h.item none blocks) (xs ++ ys) next
  remove-Sound xs h ys v = record {
    distinct = Distinct-drop xs h ys v.distinct;
    fresh = All-ids-drop (λ i. i < next) xs h ys v.fresh;
    unique = Unique-drop xs h ys v.unique;
    filled = packed-drop xs h ys v.filled;
    mapped = λ k. elim (Bool-cases (same_id h.item k)) [
      | inl e ↦ ground (arith, same_id_iff h.item k, index_of_removed xs h ys v.unique)
      | inr e ↦ ground (arith, v.mapped k, index_of_ne k xs h ys)
    ];
  }

  -- An empty slot is taken out of the chain.
  pub remove_empty-Sound :
      (xs : Stems) (h : Node BlockId) (ys : Stems)
      → holds h.item ≡ false
      → Sound blocks (xs ++ (h ∷ ys)) next
      → Sound blocks (xs ++ ys) next
  remove_empty-Sound xs h ys e v = record {
    distinct = Distinct-drop xs h ys v.distinct;
    fresh = All-ids-drop (λ i. i < next) xs h ys v.fresh;
    unique = Unique-drop xs h ys v.unique;
    filled = packed-drop xs h ys v.filled;
    mapped = λ k. v.mapped k ∙ index_of_ne k xs h ys (ground arith);
  }

pub put_self : (k : BlockId) (v : Option ℕ) (blocks : BlocksMap) → put k v blocks k ≡ v
put_self k v blocks = rw ((same_id_iff k k).1 refl)
