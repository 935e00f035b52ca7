-- ===== src/Chain/Zip.antt =====
-- What the operations of a chain do at a node between two parts of it.
use os_ex.Common.{
  sym, ap, ◌⊎◌, inl, inr, Bool-cases, ◌==◌, ℕ, ◌≡◌, ◌≢◌, refl, List, [], ◌∷◌, ◌++◌, map, arith, All,
  done, undefined, bad_iterator,
}
use os_ex.Chain.{
  Node, Chain, node, deref, modify, erase, retreat_from, retreat, nodes_from, back, pop_back,
}

-- No two numbers of the list are equal.
abbrev pub Distinct : List ℕ → Type 0
Distinct [] = Unit
Distinct (i ∷ is) = All (λ j. j ≢ i) is × Distinct is

module _ {ℓ} {A : Type ℓ} where
  abbrev pub ids : Chain A → List ℕ
  ids = map (λ n. n.id)

  abbrev pub update_item : (A → A) → Node A → Node A
  update_item f n = node n.id (f n.item)

  -- The iterator names the first node.
  abbrev pub Starts : ℕ → Chain A → Type 0
  Starts it [] = ⊥
  Starts it (n ∷ c) = n.id ≡ it

  pub Starts-front :
      (it : ℕ) (ms : Chain A) (f : Node A) (c c' : Chain A)
      → Starts it (ms ++ (f ∷ c))
      → Starts it (ms ++ (f ∷ c'))
  Starts-front it [] f c c' h = h
  Starts-front it (x ∷ ms) f c c' h = h

  pub Starts-replace :
      (it : ℕ) (xs : Chain A) (n : Node A) (f : A → A) (ys : Chain A)
      → Starts it (xs ++ (n ∷ ys))
      → Starts it (xs ++ (update_item f n ∷ ys))
  Starts-replace it [] n f ys h = h
  Starts-replace it (x ∷ xs) n f ys h = h

  pub apart_mid :
      (i : ℕ) (xs : Chain A) (n : Node A) (ys : Chain A)
      → All (λ j. j ≢ i) (ids (xs ++ (n ∷ ys)))
      → n.id ≢ i
  apart_mid i [] n ys h = h.0
  apart_mid i (x ∷ xs) n ys h = apart_mid i xs n ys h.1

  pub All-ids-drop :
      (P : ℕ → Type 0) (xs : Chain A) (n : Node A) (ys : Chain A)
      → All P (ids (xs ++ (n ∷ ys)))
      → All P (ids (xs ++ ys))
  All-ids-drop P [] n ys h = h.1
  All-ids-drop P (x ∷ xs) n ys h = (h.0, All-ids-drop P xs n ys h.1)

  pub Distinct-drop :
      (xs : Chain A) (n : Node A) (ys : Chain A)
      → Distinct (ids (xs ++ (n ∷ ys)))
      → Distinct (ids (xs ++ ys))
  Distinct-drop [] n ys h = h.1
  Distinct-drop (x ∷ xs) n ys h =
      (All-ids-drop (λ j. j ≢ x.id) xs n ys h.0, Distinct-drop xs n ys h.1)

  -- The address of a node that is taken out names no node.
  pub removed_apart :
      (xs : Chain A) (n : Node A) (ys : Chain A)
      → Distinct (ids (xs ++ (n ∷ ys)))
      → All (λ j. j ≢ n.id) (ids (xs ++ ys))
  removed_apart [] n ys h = h.0
  removed_apart (x ∷ xs) n ys h =
      (λ e. apart_mid x.id xs n ys h.0 (sym e), removed_apart xs n ys h.1)

  module _ (n : Node A) (ys : Chain A) where
    pub deref_at :
        (xs : Chain A) → Distinct (ids (xs ++ (n ∷ ys))) → deref n.id (xs ++ (n ∷ ys)) ≡ done n.item
    unfolding deref
    deref_at [] h = ground arith
    deref_at (x ∷ xs) h = ground (arith, apart_mid x.id xs n ys h.0, deref_at xs h.1)

    pub modify_at :
        (f : A → A) (xs : Chain A)
        → Distinct (ids (xs ++ (n ∷ ys)))
        → modify n.id f (xs ++ (n ∷ ys)) ≡ done (xs ++ (update_item f n ∷ ys))
    unfolding modify
    modify_at f [] h = ground arith
    modify_at f (x ∷ xs) h = ground (arith, apart_mid x.id xs n ys h.0, modify_at f xs h.1)

    pub erase_at :
        (xs : Chain A)
        → Distinct (ids (xs ++ (n ∷ ys)))
        → erase n.id (xs ++ (n ∷ ys)) ≡ done (xs ++ ys)
    unfolding erase
    erase_at [] h = ground arith
    erase_at (x ∷ xs) h = ground (arith, apart_mid x.id xs n ys h.0, erase_at xs h.1)

    pub nodes_from_at :
        (xs : Chain A)
        → Distinct (ids (xs ++ (n ∷ ys)))
        → nodes_from n.id (xs ++ (n ∷ ys)) ≡ done (n ∷ ys)
    unfolding nodes_from
    nodes_from_at [] h = ground arith
    nodes_from_at (x ∷ xs) h = ground (arith, apart_mid x.id xs n ys h.0, nodes_from_at xs h.1)

    retreat_from_at :
        (before : ℕ) (p : Node A) (xs : Chain A)
        → Distinct (ids (xs ++ (p ∷ n ∷ ys)))
        → retreat_from before n.id (xs ++ (p ∷ n ∷ ys)) ≡ done p.id
    unfolding retreat_from
    retreat_from_at before p [] h = ground arith
    retreat_from_at before p (x ∷ xs) h = ground (
      arith,
      apart_mid x.id xs p (n ∷ ys) h.0,
      apart_mid x.id xs n ys (All-ids-drop (λ j. j ≢ x.id) xs p (n ∷ ys) h.0),
      retreat_from_at x.id p xs h.1,
    )

    pub retreat_at :
        (p : Node A) (xs : Chain A)
        → Distinct (ids (xs ++ (p ∷ n ∷ ys)))
        → retreat n.id (xs ++ (p ∷ n ∷ ys)) ≡ done p.id
    unfolding retreat retreat_from
    retreat_at p [] h = ground arith
    retreat_at p (x ∷ xs) h = ground (
      arith,
      apart_mid x.id xs p (n ∷ ys) h.0,
      apart_mid x.id xs n ys (All-ids-drop (λ j. j ≢ x.id) xs p (n ∷ ys) h.0),
      retreat_from_at x.id p xs h.1,
    )

  pub retreat_before :
      (it : ℕ) (p : Node A) (xs zs : Chain A)
      → Starts it zs
      → Distinct (ids (xs ++ (p ∷ zs)))
      → retreat it (xs ++ (p ∷ zs)) ≡ done p.id
  retreat_before it p xs [] h d = absurd h
  retreat_before it p xs (z ∷ zs) h d = rw (← h) (retreat_at z zs p xs d)

  -- An iterator whose node is gone cannot be moved.
  retreat_from_absent :
      (before it : ℕ) (c : Chain A)
      → All (λ j. j ≢ it) (ids c)
      → retreat_from before it c ≡ undefined bad_iterator
  unfolding retreat_from
  retreat_from_absent before it [] h = refl
  retreat_from_absent before it (x ∷ c) h = ground (arith, retreat_from_absent x.id it c h.1)

  pub retreat_absent :
      (it : ℕ) (c : Chain A) → All (λ j. j ≢ it) (ids c) → retreat it c ≡ undefined bad_iterator
  unfolding retreat
  retreat_absent it [] h = refl
  retreat_absent it (x ∷ c) h = ground (arith, retreat_from_absent x.id it c h.1)

  retreat_from_either :
      (before it : ℕ) (c : Chain A)
      → (retreat_from before it c ≡ undefined bad_iterator)
        ⊎ ((i : ℕ) × (retreat_from before it c ≡ done i))
  unfolding retreat_from
  retreat_from_either before it [] = inl refl
  retreat_from_either before it (x ∷ c) = elim (Bool-cases (x.id == it)) [
    | inl e ↦ inr (before, rw e)
    | inr e ↦ rw e (retreat_from_either x.id it c)
  ]

  -- To move an iterator back faults by that iterator or goes on.
  pub retreat_either :
      (it : ℕ) (c : Chain A)
      → (retreat it c ≡ undefined bad_iterator) ⊎ ((i : ℕ) × (retreat it c ≡ done i))
  unfolding retreat
  retreat_either it [] = inl refl
  retreat_either it (x ∷ c) = elim (Bool-cases (x.id == it)) [
    | inl e ↦ inl (rw e)
    | inr e ↦ rw e (retreat_from_either x.id it c)
  ]

  -- A write through an iterator faults by that iterator or leaves the nodes in place.
  pub modify_either :
      (it : ℕ) (f : A → A) (c : Chain A)
      → (modify it f c ≡ undefined bad_iterator)
        ⊎ ((c' : Chain A) × (modify it f c ≡ done c') × (ids c' ≡ ids c))
  unfolding modify
  modify_either it f [] = inl refl
  modify_either it f (x ∷ c) = elim (Bool-cases (x.id == it)) [
    | inl e ↦ inr (node x.id (f x.item) ∷ c, rw e, refl)
    | inr e ↦ elim (modify_either it f c) [
      | inl u ↦ inl (rw (e, u))
      | inr (c', u, s) ↦ inr (x ∷ c', rw (e, u), ap (◌∷◌ x.id) s)
    ]
  ]

  pub back_at : (xs : Chain A) (n : Node A) → back (xs ++ (n ∷ [])) ≡ done n.item
  unfolding back
  back_at [] n = refl
  back_at (x ∷ []) n = refl
  back_at (x ∷ y ∷ xs) n = back_at (y ∷ xs) n

  pub pop_back_at : (xs : Chain A) (n : Node A) → pop_back (xs ++ (n ∷ [])) ≡ done xs
  unfolding pop_back
  pop_back_at [] n = refl
  pop_back_at (x ∷ []) n = refl
  pop_back_at (x ∷ y ∷ xs) n = rw (pop_back_at (y ∷ xs) n)
