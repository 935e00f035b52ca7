-- ===== src/Manager/Victim.antt =====
-- Which node `insertBlock` takes out of the old section.
use os_ex.Common.{
  ℕ, ◌≡◌, ◌<◌, ◌≤◌, refl, ap, Bool, true, false, not, ◌&&◌, inl, inr, ◌⊎◌, Option, none, some, List,
  [], ◌∷◌, ◌++◌, arith, All, ltb, leb, leb→le, if◌then◌else◌, Bool-cases,
}
use os_ex.Block.{CacheBlock, is_real, int_max}
use os_ex.Chain.{Node}
use os_ex.Manager.{CacheChain, least_referenced}
use os_ex.Manager.Layout.{Stored, AllFit}

abbrev pub is_nil {ℓ} : {A : Type ℓ} → List A → Bool
is_nil [] = true
is_nil (x ∷ xs) = false

-- The last node of the chain is an empty slot.
abbrev pub ends_empty : CacheChain → Bool
ends_empty [] = false
ends_empty (n ∷ []) = not (is_real n.item)
ends_empty (n ∷ n' ∷ c) = ends_empty (n' ∷ c)

-- Every block of the chain has more references than that.
abbrev pub all_above : ℕ → CacheChain → Bool
all_above r [] = true
all_above r (n ∷ c) = ltb r n.item.ref_count && all_above r c

-- The node that goes is the first of the old section: the only one, where the last node is an empty
-- slot, and else the one block with the fewest references.
abbrev pub evicts_first : CacheChain → Bool
evicts_first [] = false
evicts_first (n ∷ c) = if ends_empty (n ∷ c) then is_nil c else all_above n.item.ref_count c

-- The block has the fewest references of its section, and those behind it have more.
pub record Victim (old : CacheChain) : Type 0 where
  pub before : CacheChain
  pub chosen : Node CacheBlock
  pub after : CacheChain
  pub split : old ≡ before ++ (chosen ∷ after)
  pub least : All (λ n. chosen.item.ref_count ≤ n.item.ref_count) before
  pub last : All (λ n. chosen.item.ref_count < n.item.ref_count) after

abbrev Found : ℕ → Option ℕ → CacheChain → Type 0
Found minimal candidate old =
    ((least_referenced minimal candidate old ≡ candidate)
      × All (λ n. minimal < n.item.ref_count) old)
    ⊎ ((v : Victim old) × (v.chosen.item.ref_count ≤ minimal)
        × (least_referenced minimal candidate old ≡ some v.chosen.id))

abbrev skip :
    (n : Node CacheBlock) {c : CacheChain} (v : Victim c)
    → v.chosen.item.ref_count ≤ n.item.ref_count
    → Victim (n ∷ c)
skip n v h = record {
  before = n ∷ v.before;
  chosen = v.chosen;
  after = v.after;
  split = ap (◌∷◌ n) v.split;
  least = (h, v.least);
  last = v.last;
}

found : (minimal : ℕ) (candidate : Option ℕ) (old : CacheChain) → Found minimal candidate old
unfolding least_referenced
found minimal candidate [] = inl (refl, tt)
found minimal candidate (n ∷ c) = elim (Bool-cases (leb n.item.ref_count minimal)) [
  | inl e ↦ rw e (elim (found n.item.ref_count (some n.id) c) [
    | inl (same, above) ↦ inr (
      record { before = []; chosen = n; after = c; split = refl; least = tt; last = above },
      leb→le _ _ e,
      same,
    )
    | inr (v, few, eq) ↦ inr (skip n v few, omega (arith, leb→le n.item.ref_count minimal e), eq)
  ])
  | inr e ↦ rw e (elim (found minimal candidate c) [
    | inl (same, above) ↦ inl (same, (ground arith, above))
    | inr (v, few, eq) ↦ inr (skip n v (ground arith), few, eq)
  ])
]

-- The loop of `insertBlock` finds a block of a section that is not empty.
pub victim :
    (P : Stored) (n : Node CacheBlock) (c : CacheChain)
    → AllFit P (n ∷ c)
    → (v : Victim (n ∷ c)) × (least_referenced int_max none (n ∷ c) ≡ some v.chosen.id)
victim P n c h = elim (found int_max none (n ∷ c)) [
  | inl (same, above) ↦ absurd (omega arith)
  | inr (v, few, eq) ↦ (v, eq)
]

not-all_above :
    (n : Node CacheBlock) (r : ℕ) (xs ys : CacheChain)
    → n.item.ref_count ≤ r
    → all_above r (xs ++ (n ∷ ys)) ≡ false
not-all_above n r [] ys h = ground arith
not-all_above n r (x ∷ xs) ys h = ground (arith, not-all_above n r xs ys h)

all_above_of_All :
    (r : ℕ) (c : CacheChain) → All (λ n. r < n.item.ref_count) c → all_above r c ≡ true
all_above_of_All r [] h = refl
all_above_of_All r (n ∷ c) h = ground (arith, all_above_of_All r c h.1)

-- The block found is the first of the section exactly if that one has the fewest references.
pub all_above-victim :
    (n : Node CacheBlock) (c xs : CacheChain) (v : Node CacheBlock) (ys : CacheChain)
    → n ∷ c ≡ xs ++ (v ∷ ys)
    → All (λ n. v.item.ref_count ≤ n.item.ref_count) xs
    → All (λ n. v.item.ref_count < n.item.ref_count) ys
    → all_above n.item.ref_count c ≡ is_nil xs
all_above-victim n c [] v ys e h k =
    let p : n ≡ v = cc in let q : c ≡ ys = cc in rw (p, q) (all_above_of_All v.item.ref_count ys k)
all_above-victim n c (x ∷ xs) v ys e h k =
    let p : n ≡ x = cc in
    let q : c ≡ xs ++ (v ∷ ys) = cc in rw (p, q) (not-all_above v x.item.ref_count xs ys h.0)
