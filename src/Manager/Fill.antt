-- ===== src/Manager/Fill.antt =====
-- An insertion while there is an empty slot: the slot at the end of the list goes.
use os_ex.Common.{
  Ensures, Ensures-bind, ℕ, suc, ◌≡◌, ◌∙◌, ◌≤◌, refl, sym, subst, true, false, inl, inr, Bool-cases,
  [], ◌∷◌, ◌++◌, arith, length, done, if◌then◌else◌,
}
use os_ex.Block.{CacheBlock, is_real}
use os_ex.Chain.{Node, node, back, pop_back}
use os_ex.Manager.{CacheChain, CacheManager, drop_last, make_room, evict, add_block, push_block}
use os_ex.Manager.Stems.{all_empty, packed}
use os_ex.Manager.Layout.{stems}
use os_ex.Manager.Victim.{ends_empty, evicts_first}
use os_ex.Manager.Spare.{slot, spare, Low}
use os_ex.Manager.Load.{Kept, lower_both-Kept}

ends_empty-all_empty :
    (c : CacheChain) → all_empty (stems c) ≡ true → 1 ≤ length c → ends_empty c ≡ true
ends_empty-all_empty [] e h = absurd (omega arith)
ends_empty-all_empty (n ∷ []) e h = ground arith
ends_empty-all_empty (n ∷ n' ∷ c) e h = ends_empty-all_empty (n' ∷ c) (ground arith) (omega arith)

spare_cons : (c : CacheChain) → 1 ≤ spare c → 1 ≤ length c
spare_cons [] h = absurd (omega arith)
spare_cons (n ∷ c) h = omega arith

-- Where there is an empty slot, the last one is.
ends_empty-packed : (c : CacheChain) → packed (stems c) ≡ true → 1 ≤ spare c → ends_empty c ≡ true
ends_empty-packed [] e h = absurd (omega arith)
ends_empty-packed (n ∷ []) e h = ground arith
ends_empty-packed (n ∷ n' ∷ c) e h = elim (Bool-cases (is_real n.item)) [
  | inl real ↦ ends_empty-packed (n' ∷ c) (ground arith) (ground arith)
  | inr empty ↦ ends_empty-all_empty (n' ∷ c) (ground arith) (omega arith)
]

ends_empty-cons :
    (n : Node CacheBlock) (c : CacheChain) → 1 ≤ length c → ends_empty (n ∷ c) ≡ ends_empty c
ends_empty-cons n [] h = absurd (omega arith)
ends_empty-cons n (x ∷ c) h = refl

ends_empty-append : (xs ys : CacheChain) → 1 ≤ length ys → ends_empty (xs ++ ys) ≡ ends_empty ys
ends_empty-append [] ys h = refl
ends_empty-append (x ∷ []) ys h = ends_empty-cons x ys h
ends_empty-append (x ∷ x' ∷ xs) ys h = ends_empty-append (x' ∷ xs) ys h

-- With more than one block in it, the old section keeps its first one then.
pub evicts_first-packed :
    (xs ys : CacheChain)
    → packed (stems (xs ++ ys)) ≡ true
    → 1 ≤ spare (xs ++ ys)
    → 2 ≤ length ys
    → evicts_first ys ≡ false
evicts_first-packed xs [] e h l = absurd (omega arith)
evicts_first-packed xs (y ∷ []) e h l = absurd (omega arith)
evicts_first-packed xs (y ∷ y' ∷ ys) e h l =
    let ends =
      sym (ends_empty-append xs (y ∷ y' ∷ ys) (omega arith))
      ∙ ends_empty-packed (xs ++ (y ∷ y' ∷ ys)) e h in
    rw ends refl

back_empty : (c : CacheChain) → ends_empty c ≡ true → Ensures (λ b. is_real b ≡ false) (back c)
unfolding back
back_empty [] e = tt
back_empty (n ∷ []) e = ground arith
back_empty (n ∷ n' ∷ c) e = back_empty (n' ∷ c) e

pop_back-spare :
    (k : ℕ) (c : CacheChain)
    → ends_empty c ≡ true
    → Low k c
    → Ensures (λ c'. (suc (spare c') ≡ spare c) × Low k c') (pop_back c)
unfolding pop_back
pop_back-spare k [] e h = tt
pop_back-spare k (n ∷ []) e h = (ground arith, tt)
pop_back-spare k (n ∷ n' ∷ c) e (h, hs) =
    Ensures-bind (λ c'. (suc (spare c') ≡ spare (n ∷ n' ∷ c)) × Low k c') (pop_back (n' ∷ c))
      (λ c'. done (n ∷ c'))
      (λ c' runs.
        let (s, l) =
          subst (Ensures (λ c'. (suc (spare c') ≡ spare (n' ∷ c)) × Low k c')) runs
            (pop_back-spare k (n' ∷ c) e hs) in
        (omega (arith, s), (h, l)))

make_room-Kept :
    (s k : ℕ) (m : CacheManager)
    → ends_empty m.cache_chain ≡ true
    → Kept (suc s) k m
    → Ensures (Kept s k) (make_room m)
unfolding make_room drop_last
make_room-Kept s k m ends (e, low) =
    Ensures-bind (Kept s k) (back m.cache_chain)
      (λ last. if is_real last then evict m else drop_last m)
      (λ last at.
        let empty = subst (Ensures (λ b. is_real b ≡ false)) at (back_empty m.cache_chain ends) in
        rw empty (
          Ensures-bind (Kept s k) (pop_back m.cache_chain)
            (λ c. done (record m { cache_chain = c }))
            (λ c runs.
              let (e', l) =
                subst (Ensures (λ c'. (suc (spare c') ≡ spare m.cache_chain) × Low k c')) runs
                  (pop_back-spare k m.cache_chain ends low) in
              (omega (arith, e', e), l))))

pub add_block-Kept :
    (s k : ℕ) (b : CacheBlock) (m : CacheManager)
    → packed (stems m.cache_chain) ≡ true
    → is_real b ≡ true
    → b.ref_count ≤ k
    → Kept (suc s) k m
    → Ensures (Kept s k) (add_block b m)
unfolding add_block
add_block-Kept s k b m full real few (e, low) =
    let some_slot : 1 ≤ spare m.cache_chain = omega (arith, e) in
    let ends =
      ends_empty-cons (node m.next_id b) m.cache_chain (spare_cons m.cache_chain some_slot)
      ∙ ends_empty-packed m.cache_chain full some_slot in
    let empty : slot b ≡ 0 = rw real refl in
    let pushed : Kept (suc s) k (push_block b m) = (omega (arith, empty, e), (few, low)) in
    Ensures-bind (Kept s k) (make_room (push_block b m)) _ (λ m' runs.
      lower_both-Kept s k m'
        (subst (Ensures (Kept s k)) runs (make_room-Kept s k (push_block b m) ends pushed)))
