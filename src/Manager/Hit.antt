-- ===== src/Manager/Hit.antt =====
-- `findBlock` on a block that the cache holds, by the section that the block is in.
use os_ex.Common.{
  int_overflow, undefined, ltb, ℕ, ◌+◌, ◌≡◌, ◌<◌, ◌∙◌, refl, sym, ap, subst, true, false, inl, inr,
  ◌⊎◌, Option, some, [], ◌∷◌, ◌++◌, append_assoc, arith, All-mid, All-replace, Outcome, done,
  lt→ltb,
}
use os_ex.Block.{Section, BlockId, CacheBlock, get_block_id, is_real, is_new_section, int_max}
use os_ex.Chain.{Node, node, deref}
use os_ex.Chain.Zip.{Distinct, ids, deref_at, modify_at, Starts, Starts-replace}
use os_ex.Manager.{CacheChain, CacheManager, count_reference, correct_bounds, move_to_head, touch}
use os_ex.Manager.Stems.{Sound}
use os_ex.Manager.Layout.{Stored, stems, Fit, AllFit, Layout, Layout-Distinct, stems-replace}
use os_ex.Manager.Bounds.{tag, lower_middle_lem, lower_both_lem}
use os_ex.Manager.Move.{
  head_node, moved, move_new_lem, move_middle_lem, move_old_lem, regroup_middle, regroup_old,
}

abbrev add_reference : CacheBlock → CacheBlock
add_reference b = record b { ref_count = b.ref_count + 1 }

-- The node with one more reference.
abbrev pub referenced : Node CacheBlock → Node CacheBlock
referenced n = node n.id (record n.item { ref_count = n.item.ref_count + 1 })

module _ (m : CacheManager) (xs : CacheChain) (h : Node CacheBlock) (ys : CacheChain)
    (d : Distinct (ids (xs ++ (h ∷ ys)))) (e : m.cache_chain ≡ xs ++ (h ∷ ys)) where
  -- In the new section a reference is not counted.
  count_new :
      is_new_section h.item.section ≡ true
      → count_reference h.id m ≡ done (record m { cache_chain = xs ++ (h ∷ ys) })
  unfolding count_reference
  count_new s = rw (e, deref_at h ys xs d, s, modify_at h ys (λ _. h.item) xs d)

  count_other :
      is_new_section h.item.section ≡ false
      → h.item.ref_count < int_max
      → count_reference h.id m ≡ done (record m { cache_chain = xs ++ (referenced h ∷ ys) })
  unfolding count_reference
  count_other s r =
      rw (e, deref_at h ys xs d, s, lt→ltb _ _ r, modify_at h ys (λ _. (referenced h).item) xs d)

  -- A count that is the greatest `int` is not added to.
  pub touch_full :
      (k : BlockId)
      → is_new_section h.item.section ≡ false
      → ltb h.item.ref_count int_max ≡ false
      → touch k h.id m ≡ undefined int_overflow
  unfolding touch count_reference
  touch_full k s full = rw (e, deref_at h ys xs d, s, full) refl

pub tagged_real :
    (s : Section) (n : Node CacheBlock)
    → is_real n.item ≡ true
    → (is_real n.item ≡ false) ⊎ (n.item.section ≡ s)
    → n.item.section ≡ s
tagged_real s n r (inl e) = cc
tagged_real s n r (inr e) = e

referenced-Fit :
    (P : Stored) (n : Node CacheBlock) → n.item.ref_count < int_max → Fit P n → Fit P (referenced n)
referenced-Fit P n h f = (omega arith, omega arith, f.2)

touch_by :
    (k : BlockId) (it : ℕ) (m c n : CacheManager) (b : CacheBlock)
    {r : Outcome (Option ℕ × CacheManager)}
    → count_reference it m ≡ done c
    → deref it c.cache_chain ≡ done b
    → correct_bounds b.section c ≡ done n
    → move_to_head k it n ≡ r
    → touch k it m ≡ r
unfolding touch
touch_by k it m c n b p q s t = rw (p, q, s, t)

Layout-set :
    {P : Stored} {m : CacheManager} {new mid old : CacheChain} (c : CacheChain)
    → Layout P m new mid old
    → new ++ (mid ++ old) ≡ c
    → Layout P (record m { cache_chain = c }) new mid old
Layout-set c l e = record {
  chain = sym e;
  sound = l.sound;
  middle_at = l.middle_at;
  old_at = l.old_at;
  new_tagged = l.new_tagged;
  middle_tagged = l.middle_tagged;
  old_tagged = l.old_tagged;
  fit = l.fit;
}

-- A hit in the new section: the block moves to the head, and nothing else changes.
pub touch_new :
    {P : Stored} {m : CacheManager} {mid old : CacheChain} (xs : CacheChain) (h : Node CacheBlock)
    (ys : CacheChain)
    → Layout P m (xs ++ (h ∷ ys)) mid old
    → is_real h.item ≡ true
    → let m' = moved m h ((xs ++ ys) ++ (mid ++ old)) in
      (touch (get_block_id h.item) h.id m ≡ done (some m.next_id, m'))
      × Layout P m' (head_node m h ∷ (xs ++ ys)) mid old
unfolding correct_bounds
touch_new {P} {m} {mid} {old} xs h ys l r =
    let a = append_assoc xs (h ∷ ys) (mid ++ old) in
    let d = Layout-Distinct l _ a in
    let s = tagged_real Section.new_section h r (All-mid _ xs h ys l.new_tagged) in
    let zs = ys ++ (mid ++ old) in
    let c = record m { cache_chain = xs ++ (h ∷ zs) } in
    let (moves, l') = move_new_lem xs h ys (Layout-set (xs ++ (h ∷ zs)) l a) r in
    (
      touch_by (get_block_id h.item) h.id m c c h.item (count_new m xs h zs d (l.chain ∙ a) (rw s))
          (deref_at h zs xs d) (rw s) moves,
      l',
    )

-- The counted node in the place of the node, within the middle section.
count_middle-Layout :
    {P : Stored} {m : CacheManager} {new old : CacheChain} (xs : CacheChain) (h : Node CacheBlock)
    (ys : CacheChain)
    → Layout P m new (xs ++ (h ∷ ys)) old
    → h.item.ref_count < int_max
    → Layout P
        (record m { cache_chain = (new ++ xs) ++ (referenced h ∷ (ys ++ old)) })
        new
        (xs ++ (referenced h ∷ ys))
        old
count_middle-Layout {P} {m} {new} {old} xs h ys l r =
    let it = m.middle_section_iter in
    let a = regroup_middle new xs h ys old in
    let a' = regroup_middle new xs (referenced h) ys old in
    record {
      chain = sym a';
      sound =
          subst (λ s. Sound m.blocks_map s m.next_id)
            (ap stems a
              ∙ stems-replace (new ++ xs) h (referenced h) (ys ++ old) refl
              ∙ ap stems (sym a'))
            l.sound;
      middle_at = subst (Starts it) (sym (append_assoc xs (referenced h ∷ ys) old)) (
          Starts-replace it xs h add_reference (ys ++ old)
            (subst (Starts it) (append_assoc xs (h ∷ ys) old) l.middle_at));
      old_at = l.old_at;
      new_tagged = l.new_tagged;
      middle_tagged =
          All-replace _ xs h (referenced h) ys (All-mid _ xs h ys l.middle_tagged) l.middle_tagged;
      old_tagged = l.old_tagged;
      fit = subst (AllFit P) (sym a') (
          All-replace (Fit P) (new ++ xs) h (referenced h) (ys ++ old)
            (referenced-Fit P h r (All-mid (Fit P) _ h _ (subst (AllFit P) a l.fit)))
            (subst (AllFit P) a l.fit));
    }

count_old-Layout :
    {P : Stored} {m : CacheManager} {new mid : CacheChain} (xs : CacheChain) (h : Node CacheBlock)
    (ys : CacheChain)
    → Layout P m new mid (xs ++ (h ∷ ys))
    → h.item.ref_count < int_max
    → Layout P
        (record m { cache_chain = (new ++ (mid ++ xs)) ++ (referenced h ∷ ys) })
        new
        mid
        (xs ++ (referenced h ∷ ys))
count_old-Layout {P} {m} {new} {mid} xs h ys l r =
    let it = m.middle_section_iter in
    let a = regroup_old new mid xs h ys in
    let a' = regroup_old new mid xs (referenced h) ys in
    record {
      chain = sym a';
      sound =
          subst (λ s. Sound m.blocks_map s m.next_id)
            (ap stems a
              ∙ stems-replace (new ++ (mid ++ xs)) h (referenced h) ys refl
              ∙ ap stems (sym a'))
            l.sound;
      middle_at = subst (Starts it) (append_assoc mid xs (referenced h ∷ ys)) (
          Starts-replace it (mid ++ xs) h add_reference ys
            (subst (Starts it) (sym (append_assoc mid xs (h ∷ ys))) l.middle_at));
      old_at = Starts-replace m.old_section_iter xs h add_reference ys l.old_at;
      new_tagged = l.new_tagged;
      middle_tagged = l.middle_tagged;
      old_tagged =
          All-replace _ xs h (referenced h) ys (All-mid _ xs h ys l.old_tagged) l.old_tagged;
      fit = subst (AllFit P) (sym a') (
          All-replace (Fit P) (new ++ (mid ++ xs)) h (referenced h) ys
            (referenced-Fit P h r (All-mid (Fit P) _ h _ (subst (AllFit P) a l.fit)))
            (subst (AllFit P) a l.fit));
    }

-- A hit in the middle section: the block counts one more reference and moves to the head, and the
-- last block of the new section goes down into the middle section.
pub touch_middle :
    {P : Stored} {m : CacheManager} {old : CacheChain} (ns : CacheChain) (p : Node CacheBlock)
    (xs : CacheChain) (h : Node CacheBlock) (ys : CacheChain)
    → Layout P m (ns ++ (p ∷ [])) (xs ++ (h ∷ ys)) old
    → is_real h.item ≡ true
    → h.item.ref_count < int_max
    → let p' = tag Section.middle_section p in
      let m' = record (moved m (referenced h) (ns ++ (p' ∷ ((xs ++ ys) ++ old)))) {
        middle_section_iter = p.id;
      } in
      (touch (get_block_id h.item) h.id m ≡ done (some m.next_id, m'))
      × Layout P m' (head_node m (referenced h) ∷ ns) (p' ∷ (xs ++ ys)) old
unfolding correct_bounds
touch_middle {P} {m} {old} ns p xs h ys l r few =
    let new = ns ++ (p ∷ []) in
    let a = regroup_middle new xs h ys old in
    let s = tagged_real Section.middle_section h r (All-mid _ xs h ys l.middle_tagged) in
    let lc = count_middle-Layout xs h ys l few in
    let c = record m { cache_chain = (new ++ xs) ++ (referenced h ∷ (ys ++ old)) } in
    let (low, l1) = lower_middle_lem p lc in
    let (moves, l2) = move_middle_lem (tag Section.middle_section p) xs (referenced h) ys l1 r in
    (
      touch_by (get_block_id h.item) h.id m c _ (referenced h).item
          (count_other m (new ++ xs) h (ys ++ old) (Layout-Distinct l _ a) (l.chain ∙ a) (rw s) few)
          (deref_at (referenced h) (ys ++ old) (new ++ xs) (Layout-Distinct lc _ (sym lc.chain)))
          (ap (λ t. correct_bounds t c) s ∙ low) moves,
      l2,
    )

-- A hit in the old section: the block counts one more reference and moves to the head, the last
-- block of the new section goes down into the middle section, and then the last block of the
-- middle section into the old section.
pub touch_old :
    {P : Stored} {m : CacheManager} {mid : CacheChain} (ns : CacheChain) (p : Node CacheBlock)
    (ms : CacheChain) (q : Node CacheBlock) (xs : CacheChain) (h : Node CacheBlock)
    (ys : CacheChain)
    → Layout P m (ns ++ (p ∷ [])) mid (xs ++ (h ∷ ys))
    → tag Section.middle_section p ∷ mid ≡ ms ++ (q ∷ [])
    → is_real h.item ≡ true
    → h.item.ref_count < int_max
    → let q' = tag Section.old_section q in
      let m' = record (moved m (referenced h) (ns ++ (ms ++ (q' ∷ (xs ++ ys))))) {
        middle_section_iter = p.id;
        old_section_iter = q.id;
      } in
      (touch (get_block_id h.item) h.id m ≡ done (some m.next_id, m'))
      × Layout P m' (head_node m (referenced h) ∷ ns) ms (q' ∷ (xs ++ ys))
unfolding correct_bounds
touch_old {P} {m} {mid} ns p ms q xs h ys l e r few =
    let new = ns ++ (p ∷ []) in
    let a = regroup_old new mid xs h ys in
    let s = tagged_real Section.old_section h r (All-mid _ xs h ys l.old_tagged) in
    let lc = count_old-Layout xs h ys l few in
    let c = record m { cache_chain = (new ++ (mid ++ xs)) ++ (referenced h ∷ ys) } in
    let (low, l1) = lower_both_lem p q lc e in
    let (moves, l2) = move_old_lem (tag Section.old_section q) xs (referenced h) ys l1 r in
    (
      touch_by (get_block_id h.item) h.id m c _ (referenced h).item
          (count_other m (new ++ (mid ++ xs)) h ys (Layout-Distinct l _ a) (l.chain ∙ a) (rw s) few)
          (deref_at (referenced h) ys (new ++ (mid ++ xs)) (Layout-Distinct lc _ (sym lc.chain)))
          (ap (λ t. correct_bounds t c) s ∙ low) moves,
      l2,
    )
