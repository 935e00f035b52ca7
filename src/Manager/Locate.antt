-- ===== src/Manager/Locate.antt =====
-- Where a block that the map has stands in the chain.
use os_ex.Common.{
  ℕ, ◌≡◌, refl, ap, true, inl, inr, ◌⊎◌, some, [], ◌∷◌, ◌++◌, arith, ◌&&◌, Bool-cases,
}
use os_ex.Block.{BlockId, CacheBlock, get_block_id, same_id, same_id_iff, is_real}
use os_ex.Chain.{Node}
use os_ex.Manager.{CacheChain}
use os_ex.Manager.Stems.{index_of}
use os_ex.Manager.Layout.{stems}

-- The node of the block in a part of the chain.
pub record Located (k : BlockId) (it : ℕ) (c : CacheChain) : Type 0 where
  pub before : CacheChain
  pub here : Node CacheBlock
  pub after : CacheChain
  pub split : c ≡ before ++ (here ∷ after)
  pub address : here.id ≡ it
  pub key : get_block_id here.item ≡ k
  pub real : is_real here.item ≡ true

pub locate :
    (k : BlockId) (it : ℕ) (c rest : CacheChain)
    → index_of k (stems (c ++ rest)) ≡ some it
    → Located k it c ⊎ (index_of k (stems rest) ≡ some it)
locate k it [] rest e = inr e
locate k it (n ∷ c) rest e = elim (Bool-cases (is_real n.item && same_id (get_block_id n.item) k)) [
  | inl h ↦ inl (record {
    before = [];
    here = n;
    after = c;
    split = refl;
    address = ground arith;
    key = (same_id_iff _ k).0 (ground arith);
    real = ground arith;
  })
  | inr h ↦ elim (locate k it c rest (ground arith)) [
    | inl l ↦ inl (record {
      before = n ∷ l.before;
      here = l.here;
      after = l.after;
      split = ap (◌∷◌ n) l.split;
      address = l.address;
      key = l.key;
      real = l.real;
    })
    | inr l ↦ inr l
  ]
]
