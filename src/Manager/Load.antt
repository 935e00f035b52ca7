-- ===== src/Manager/Load.antt =====
-- The empty slots and the counts of a manager, through a hit and through an insertion.
use os_ex.Common.{
  Ensures, Ensures-bind, ℕ, suc, ◌+◌, ◌≡◌, ◌∙◌, ◌≤◌, refl, subst, true, inl, inr, Bool-cases,
  Option, ◌∷◌, arith, All-mono, ltb, done, ◌>>=◌, ◌==◌, if◌then◌else◌,
}
use os_ex.Block.{
  Section, BlockId, CacheBlock, int_max, increment_ref_count, is_new_section, set_section,
}
use os_ex.Chain.{node, deref, modify, erase, retreat}
use os_ex.Manager.{
  CacheChain, CacheManager, count_reference, correct_bounds, lower_middle, lower_old, move_to_head,
  touch,
}
use os_ex.Manager.Spare.{
  slot, spare, Low, Keeps, deref-Low, modify-Keeps, set_section-Keeps, erase-spare,
}

-- The manager has so many empty slots, and counts up to that.
abbrev pub Kept : ℕ → ℕ → CacheManager → Type 0
Kept s k m = Keeps s k m.cache_chain

lower_middle-Kept : (s k : ℕ) (m : CacheManager) → Kept s k m → Ensures (Kept s k) (lower_middle m)
unfolding lower_middle
lower_middle-Kept s k m (e, low) =
    Ensures-bind (Kept s k) (retreat m.middle_section_iter m.cache_chain) _ (λ it at.
      Ensures-bind (Kept s k) (modify it (set_section Section.middle_section) m.cache_chain) _
        (λ c runs.
          let (e', low') =
            subst (Ensures (Keeps (spare m.cache_chain) k)) runs
              (set_section-Keeps it k Section.middle_section m.cache_chain low) in
          (e' ∙ e, low')))

lower_old-Kept : (s k : ℕ) (m : CacheManager) → Kept s k m → Ensures (Kept s k) (lower_old m)
unfolding lower_old
lower_old-Kept s k m (e, low) =
    Ensures-bind (Kept s k) (retreat m.old_section_iter m.cache_chain) _ (λ it at.
      Ensures-bind (Kept s k) (modify it (set_section Section.old_section) m.cache_chain) _
        (λ c runs.
          let (e', low') =
            subst (Ensures (Keeps (spare m.cache_chain) k)) runs
              (set_section-Keeps it k Section.old_section m.cache_chain low) in
          (e' ∙ e, low')))

pub lower_both-Kept :
    (s k : ℕ) (m : CacheManager) → Kept s k m → Ensures (Kept s k) (lower_middle m >>= lower_old)
lower_both-Kept s k m h =
    Ensures-bind (Kept s k) (lower_middle m) lower_old (λ m' runs.
      lower_old-Kept s k m' (subst (Ensures (Kept s k)) runs (lower_middle-Kept s k m h)))

correct_bounds-Kept :
    (s k : ℕ) (t : Section) (m : CacheManager)
    → Kept s k m
    → Ensures (Kept s k) (correct_bounds t m)
unfolding correct_bounds
correct_bounds-Kept s k Section.new_section m h = h
correct_bounds-Kept s k Section.middle_section m h = lower_middle-Kept s k m h
correct_bounds-Kept s k Section.old_section m h = lower_both-Kept s k m h

-- What is counted is the block, with at most one reference more.
counted_lem :
    (k : ℕ) (b : CacheBlock)
    → b.ref_count ≤ k
    → Ensures
        (λ d. (slot d ≡ slot b) × (d.ref_count ≤ suc k))
        (if is_new_section b.section then done b else increment_ref_count b)
counted_lem k b h = elim (Bool-cases (is_new_section b.section)) [
  | inl new ↦ rw new (refl, omega arith)
  | inr other ↦ elim (Bool-cases (ltb b.ref_count int_max)) [
    | inl room ↦ rw (other, room) (refl, omega arith)
    | inr full ↦ rw (other, full) tt
  ]
]

Low-suc : (k : ℕ) (c : CacheChain) → Low k c → Low (suc k) c
Low-suc k c =
    All-mono (λ n. n.item.ref_count ≤ k) (λ n. n.item.ref_count ≤ suc k) (λ n h. omega arith) c

count_reference-Kept :
    (s k it : ℕ) (m : CacheManager) → Kept s k m → Ensures (Kept s (suc k)) (count_reference it m)
unfolding count_reference
count_reference-Kept s k it m (e, low) =
    Ensures-bind (Kept s (suc k)) (deref it m.cache_chain) _ (λ b at.
      let least = subst (Ensures (λ b. b.ref_count ≤ k)) at (deref-Low it k m.cache_chain low) in
      Ensures-bind (Kept s (suc k))
        (if is_new_section b.section then done b else increment_ref_count b) _
        (λ d counted.
          let (same, few) =
            subst (Ensures (λ d. (slot d ≡ slot b) × (d.ref_count ≤ suc k))) counted
              (counted_lem k b least) in
          Ensures-bind (Kept s (suc k)) (modify it (λ _. d) m.cache_chain) _ (λ c runs.
            let (e', low') = subst (Ensures (Keeps (spare m.cache_chain) (suc k))) runs (
              modify-Keeps it (suc k) (λ _. d) m.cache_chain b at same few
                (Low-suc k m.cache_chain low)) in
            (e' ∙ e, low'))))

-- Behind a new head, the iterator still names a block that is empty or not as the first one is.
deref_behind :
    (it : ℕ) (h : ℕ) (b b' : CacheBlock) (c : CacheChain)
    → deref it c ≡ done b
    → slot b' ≡ slot b
    → (d : CacheBlock) × (deref it (node h b' ∷ c) ≡ done d) × (slot d ≡ slot b)
unfolding deref
deref_behind it h b b' c e same = elim (Bool-cases (h == it)) [
  | inl here ↦ (b', rw here refl, same)
  | inr there ↦ (b, rw there e, refl)
]

move_to_head-Kept :
    (s k : ℕ) (key : BlockId) (it : ℕ) (m : CacheManager)
    → Kept s k m
    → Ensures (λ r. Kept s k r.1) (move_to_head key it m)
unfolding move_to_head modify
move_to_head-Kept s k key it m (e, low) =
    let Q = λ (r : Option ℕ × CacheManager). Kept s k r.1 in
    let h = m.next_id in
    let own : (h == h) ≡ true = ground arith in
    Ensures-bind Q (deref it m.cache_chain) _ (λ b at.
      let b' = set_section Section.new_section b in
      let (d, at', same) = deref_behind it h b b' m.cache_chain at refl in
      let least = subst (Ensures (λ b. b.ref_count ≤ k)) at (deref-Low it k m.cache_chain low) in
      let R : CacheChain → Type 0 =
        λ c. (slot d + spare c ≡ slot b' + spare m.cache_chain) × Low k c in
      rw own (
        Ensures-bind Q (erase it (node h b' ∷ m.cache_chain)) _ (λ c runs.
          let (e', low') =
            subst (Ensures R) runs
              (erase-spare it k (node h b' ∷ m.cache_chain) d at' (least, low)) in
          (omega (arith, e', e, same), low'))))

pub touch-Kept :
    (s k : ℕ) (key : BlockId) (it : ℕ) (m : CacheManager)
    → Kept s k m
    → Ensures (λ r. Kept s (suc k) r.1) (touch key it m)
unfolding touch
touch-Kept s k key it m h =
    let Q = λ (r : Option ℕ × CacheManager). Kept s (suc k) r.1 in
    Ensures-bind Q (count_reference it m) _ (λ m1 e1.
      let h1 = subst (Ensures (Kept s (suc k))) e1 (count_reference-Kept s k it m h) in
      Ensures-bind Q (deref it m1.cache_chain) _ (λ b at.
        Ensures-bind Q (correct_bounds b.section m1) _ (λ m2 e2.
          move_to_head-Kept s (suc k) key it m2
            (subst (Ensures (Kept s (suc k))) e2 (correct_bounds-Kept s (suc k) b.section m1 h1)))))
