-- ===== src/Manager/Push.antt =====
-- The parts of `insertBlock`: the new block at the head, the node that goes, and an old section that
-- has lost its first node.
use os_ex.Common.{
  ℕ, ◌≡◌, ◌≢◌, ◌∙◌, ◌<◌, ◌≤◌, refl, ap, subst, true, false, inl, inr, ◌⊎◌, none, ◌∷◌, ◌++◌,
  append_assoc, arith, All, All-drop, All-append, All-mono, ◌&&◌, if◌then◌else◌, Outcome, done,
  undefined, bad_iterator, ◌>>=◌,
}
use os_ex.Block.{Section, BlockId, CacheBlock, get_block_id, same_id, is_real}
use os_ex.Chain.{Node, node}
use os_ex.Chain.Zip.{Starts, Starts-front, ids, retreat_absent, retreat_either, modify_either}
use os_ex.Manager.{
  BlocksMap, CacheChain, CacheManager, push_block, make_room, lower_middle, lower_old, add_block,
}
use os_ex.Manager.Stems.{Sound, push-Sound}
use os_ex.Manager.Layout.{Stored, stems, Fit, AllFit, Tagged, Layout}
use os_ex.Manager.Room.{Choice, Room}

-- The new block at the head of a well-formed chain.
pub push_block-Layout :
    {P : Stored} {m : CacheManager} {new mid old : CacheChain} (b : CacheBlock)
    → Layout P m new mid old
    → is_real b ≡ true
    → b.section ≡ Section.new_section
    → Fit P (node m.next_id b)
    → m.blocks_map (get_block_id b) ≡ none
    → Layout P (push_block b m) (node m.next_id b ∷ new) mid old
push_block-Layout {P} {m} b l r s f absent = record {
  chain = ap (◌∷◌ (node m.next_id b)) l.chain;
  sound = push-Sound m.blocks_map m.next_id (get_block_id b) _ l.sound r absent;
  middle_at = l.middle_at;
  old_at = l.old_at;
  new_tagged = (inr s, l.new_tagged);
  middle_tagged = l.middle_tagged;
  old_tagged = l.old_tagged;
  fit = (f, l.fit);
}

-- The manager after `make_room`.
abbrev pub roomy : (m : CacheManager) (new mid old : CacheChain) → Room m new mid old → CacheManager
roomy m new mid old r = record m {
  blocks_map = r.blocks;
  cache_chain = new ++ (mid ++ (r.before ++ r.after));
}

-- The state is well formed still, if it is not the first node of the old section that went.
pub roomy-Layout :
    {P : Stored} {m : CacheManager} {new mid old : CacheChain} (l : Layout P m new mid old)
    (r : Room m new mid old) (f : Node CacheBlock) (bs : CacheChain)
    → r.before ≡ f ∷ bs
    → Layout P (roomy m new mid old r) new mid (f ∷ (bs ++ r.after))
roomy-Layout {P} {m} {new} {mid} l r f bs e =
    let s : _ ≡ f ∷ (bs ++ (r.gone ∷ r.after)) = r.split ∙ ap (λ c. c ++ (r.gone ∷ r.after)) e in
    let c : new ++ (mid ++ (r.before ++ r.after)) ≡ new ++ (mid ++ (f ∷ (bs ++ r.after))) =
      ap (λ c. new ++ (mid ++ (c ++ r.after))) e in
    let w : new ++ (mid ++ (f ∷ (bs ++ (r.gone ∷ r.after))))
        ≡ (new ++ (mid ++ (f ∷ bs))) ++ (r.gone ∷ r.after) =
      simp append_assoc in
    let w' : (new ++ (mid ++ (f ∷ bs))) ++ r.after ≡ new ++ (mid ++ (f ∷ (bs ++ r.after))) =
      simp append_assoc in
    let tagged = subst (Tagged Section.old_section) s l.old_tagged in
    record {
      chain = c;
      sound = subst (λ c. Sound r.blocks (stems c) m.next_id) c r.sound;
      middle_at =
          Starts-front m.middle_section_iter mid f _ _
            (subst (λ o. Starts m.middle_section_iter (mid ++ o)) s l.middle_at);
      old_at = subst (Starts m.old_section_iter) s l.old_at;
      new_tagged = l.new_tagged;
      middle_tagged = l.middle_tagged;
      old_tagged = (tagged.0, All-drop _ bs r.gone r.after tagged.1);
      fit = subst (AllFit P) w' (
          All-drop (Fit P) (new ++ (mid ++ (f ∷ bs))) r.gone r.after
            (subst (AllFit P) (ap (λ o. new ++ (mid ++ o)) s ∙ w) l.fit));
    }

pub add_block_by :
    (b : CacheBlock) (m n : CacheManager) {r : Outcome CacheManager}
    → make_room (push_block b m) ≡ done n
    → (lower_middle n >>= lower_old) ≡ r
    → add_block b m ≡ r
unfolding add_block
add_block_by b m n p q = rw p q

-- A boundary whose node is gone cannot move.
pub lower_old_gone :
    (m : CacheManager)
    → All (λ j. j ≢ m.old_section_iter) (ids m.cache_chain)
    → lower_old m ≡ undefined bad_iterator
unfolding lower_old
lower_old_gone m h = rw (retreat_absent m.old_section_iter m.cache_chain h)

pub lower_both_gone :
    (m : CacheManager)
    → All (λ j. j ≢ m.old_section_iter) (ids m.cache_chain)
    → (lower_middle m >>= lower_old) ≡ undefined bad_iterator
unfolding lower_middle
lower_both_gone m h = elim (retreat_either m.middle_section_iter m.cache_chain) [
  | inl u ↦ rw u
  | inr (i, u) ↦
      elim (modify_either i (λ b. record b { section = Section.middle_section }) m.cache_chain) [
        | inl v ↦ rw (u, v)
        | inr (c, v, same) ↦
            rw (u, v)
              (lower_old_gone (record m { cache_chain = c; middle_section_iter = i }) (rw same h))
      ]
]

-- The map without the block that went, if it was one.
abbrev pub put_real : CacheBlock → BlocksMap → BlocksMap
put_real gone blocks j = if is_real gone && same_id (get_block_id gone) j then none else blocks j

pub others_kept :
    (b : CacheBlock) (m : CacheManager) (before after : CacheChain) (gone : Node CacheBlock)
    (blocks : BlocksMap)
    → Choice (push_block b m) before gone after blocks
    → (j : BlockId) → same_id (get_block_id b) j ≡ false
    → blocks j ≡ put_real gone.item m.blocks_map j
others_kept b m before after gone blocks (Choice.slot e nil) j ne = ground arith
others_kept b m before after gone blocks (Choice.block r least last full) j ne = ground arith

pub All-least :
    (n : ℕ) (xs : CacheChain) (g : Node CacheBlock) (ys : CacheChain)
    → n ≡ g.item.ref_count
    → All (λ x. n ≤ x.item.ref_count) xs
    → All (λ x. n < x.item.ref_count) ys
    → All (λ x. n ≤ x.item.ref_count) (xs ++ (g ∷ ys))
All-least n xs g ys e h k = All-append _ xs (g ∷ ys) h (
  omega arith,
  All-mono (λ x. n < x.item.ref_count) (λ x. n ≤ x.item.ref_count) (λ x h. omega arith) ys k,
)

pub least_gone :
    {m : CacheManager} {before after : CacheChain} {gone : Node CacheBlock} {blocks : BlocksMap}
    → Choice m before gone after blocks
    → (is_real gone.item ≡ false)
      ⊎ All (λ n. gone.item.ref_count ≤ n.item.ref_count) (before ++ (gone ∷ after))
least_gone (Choice.slot e nil) = inl e
least_gone {before = xs} {after = ys} {gone = g} (Choice.block r least last full) =
    inr (All-least _ xs g ys refl least last)
