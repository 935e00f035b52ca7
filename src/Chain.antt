-- ===== src/Chain.antt =====
-- `std::list<CacheBlock *>` of CacheManager.h, as far as CacheManager.cpp uses it. Each node has an
-- address that is never used again, an iterator is such an address, and an iterator whose node
-- is gone names none: to use it is undefined. The item stands in the node in place of the pointer to it: no block is
-- reached from two nodes but while one of them is being moved to the head.
pub mod Zip
use os_ex.Common.{
  ℕ, Bool, ◌==◌, if◌then◌else◌, List, [], ◌∷◌, Outcome, done, undefined, bad_iterator, ◌>>=◌,
}

pub record Node {ℓ} (A : Type ℓ) : Type ℓ where
  pub id : ℕ
  pub item : A

abbrev pub Chain {ℓ} : Type ℓ → Type ℓ
Chain A = List (Node A)

abbrev pub node {ℓ} : {A : Type ℓ} → ℕ → A → Node A
node i a = record { id = i; item = a }

module _ {ℓ} {A : Type ℓ} where
  -- `*it`
  unfoldable pub deref : ℕ → Chain A → Outcome A
  deref it [] = undefined bad_iterator
  deref it (n ∷ c) = if n.id == it then done n.item else deref it c

  -- A write through `*it`.
  unfoldable pub modify : ℕ → (A → A) → Chain A → Outcome (Chain A)
  modify it f [] = undefined bad_iterator
  modify it f (n ∷ c) =
      let rest = modify it f c in
      if n.id == it then done (node n.id (f n.item) ∷ c) else do c' ← rest; done (n ∷ c')

  -- `erase(it)`
  unfoldable pub erase : ℕ → Chain A → Outcome (Chain A)
  erase it [] = undefined bad_iterator
  erase it (n ∷ c) =
      let rest = erase it c in if n.id == it then done c else do c' ← rest; done (n ∷ c')

  -- The node before `it`, among those after the node `before`.
  unfoldable pub retreat_from : ℕ → ℕ → Chain A → Outcome ℕ
  retreat_from before it [] = undefined bad_iterator
  retreat_from before it (n ∷ c) = if n.id == it then done before else retreat_from n.id it c

  -- `it--`
  unfoldable pub retreat : ℕ → Chain A → Outcome ℕ
  retreat it [] = undefined bad_iterator
  retreat it (n ∷ c) = if n.id == it then undefined bad_iterator else retreat_from n.id it c

  -- The nodes of a loop from `it` up to `end()`.
  unfoldable pub nodes_from : ℕ → Chain A → Outcome (Chain A)
  nodes_from it [] = undefined bad_iterator
  nodes_from it (n ∷ c) = if n.id == it then done (n ∷ c) else nodes_from it c

  -- `back()`
  unfoldable pub back : Chain A → Outcome A
  back [] = undefined bad_iterator
  back (n ∷ []) = done n.item
  back (n ∷ n' ∷ c) = back (n' ∷ c)

  -- `pop_back()`
  unfoldable pub pop_back : Chain A → Outcome (Chain A)
  pop_back [] = undefined bad_iterator
  pop_back (n ∷ []) = done []
  pop_back (n ∷ n' ∷ c) = do c' ← pop_back (n' ∷ c); done (n ∷ c')
