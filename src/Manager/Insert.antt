-- ===== src/Manager/Insert.antt =====
-- `insertBlock`: the new block, the node that goes, and the two boundaries.
use os_ex.Common.{
  ◌+◌, ◌≡◌, ◌≢◌, ◌∙◌, ◌<◌, ◌≤◌, refl, sym, ap, subst, true, false, ◌⊎◌, none, some, [], ◌∷◌, ◌++◌,
  arith, All, length, length-append, unsnoc, done, undefined, bad_iterator,
}
use os_ex.Block.{Section, BlockId, CacheBlock, get_block_id, same_id, same_id_iff, is_real}
use os_ex.Chain.{Node, node}
use os_ex.Chain.Zip.{ids, removed_apart}
use os_ex.Manager.{BlocksMap, CacheChain, CacheManager, push_block, add_block}
use os_ex.Manager.Layout.{Stored, Fit, Layout, Layout-Distinct}
use os_ex.Manager.Bounds.{tag, lower_both_lem}
use os_ex.Manager.Victim.{is_nil, ends_empty, evicts_first}
use os_ex.Policy.View.{entry, view, view_shifted}
use os_ex.Manager.Room.{Choice, Room, room, whole, rest}
use os_ex.Manager.Push.{
  roomy, put_real, push_block-Layout, roomy-Layout, add_block_by, lower_both_gone, others_kept,
  least_gone,
}

-- Which node goes: an empty slot at the end, or the last of those with the fewest references.
pub data Chosen (front : CacheChain) (gone : Node CacheBlock) (behind : CacheChain) : Type 0 where
  slot : is_real gone.item ≡ false → behind ≡ [] → Chosen front gone behind
  block :
      All (λ n. gone.item.ref_count ≤ n.item.ref_count) front
      → All (λ n. gone.item.ref_count < n.item.ref_count) behind
      → ends_empty (front ++ (gone ∷ behind)) ≡ false
      → Chosen front gone behind

choice-Chosen :
    {m : CacheManager} {front behind : CacheChain} {gone : Node CacheBlock} {blocks : BlocksMap}
    → Choice m front gone behind blocks
    → Chosen front gone behind
choice-Chosen (Choice.slot e nil) = Chosen.slot e nil
choice-Chosen (Choice.block r least last full) = Chosen.block least last full

-- The state after an insertion.
pub record Added (P : Stored) (m : CacheManager) (new mid old : CacheChain) (b : CacheBlock)
    : Type 0 where
  pub after : CacheManager
  pub runs : add_block b m ≡ done after
  pub own : after.blocks_map (get_block_id b) ≡ some m.next_id
  pub gone : Node CacheBlock
  pub others :
      (j : BlockId)
      → same_id (get_block_id b) j ≡ false
      → after.blocks_map j ≡ put_real gone.item m.blocks_map j
  pub least : (is_real gone.item ≡ false) ⊎ All (λ n. gone.item.ref_count ≤ n.item.ref_count) old
  pub new' : CacheChain
  pub mid' : CacheChain
  pub old' : CacheChain
  pub layout : Layout P after new' mid' old'
  pub new_length : length new' ≡ length new
  pub middle_length : length mid' ≡ length mid
  pub old_length : length old' ≡ length old
  pub front : CacheChain
  pub behind : CacheChain
  pub split : old ≡ front ++ (gone ∷ behind)
  pub chosen : Chosen front gone behind
  pub viewed : view after.cache_chain ≡ entry b ∷ view (new ++ (mid ++ (front ++ behind)))

module _ {P : Stored} {m : CacheManager} {new mid : CacheChain} (o : Node CacheBlock)
    (os : CacheChain) (b : CacheBlock) (l : Layout P m new mid (o ∷ os)) (r : is_real b ≡ true)
    (s : b.section ≡ Section.new_section) (f : Fit P (node m.next_id b))
    (absent : m.blocks_map (get_block_id b) ≡ none) where
  pushed : Layout P (push_block b m) (node m.next_id b ∷ new) mid (o ∷ os)
  pushed = push_block-Layout b l r s f absent

  pub the_room : Room (push_block b m) (node m.next_id b ∷ new) mid (o ∷ os)
  the_room = room o os pushed

  pub all_room : CacheManager
  all_room = roomy (push_block b m) (node m.next_id b ∷ new) mid (o ∷ os) the_room

  add_shifted :
      (g : Node CacheBlock) (bs ns : CacheChain) (p : Node CacheBlock) (ms : CacheChain)
      (q : Node CacheBlock)
      → the_room.before ≡ g ∷ bs
      → node m.next_id b ∷ new ≡ ns ++ (p ∷ [])
      → tag Section.middle_section p ∷ mid ≡ ms ++ (q ∷ [])
      → Added P m new mid (o ∷ os) b
  unfolding all_room
  add_shifted g bs ns p ms q e en em =
      let lr = roomy-Layout pushed the_room g bs e in
      let (runs, l') =
        lower_both_lem p q (subst (λ c. Layout P all_room c mid (g ∷ (bs ++ the_room.after))) en lr)
          em in
      record {
        after = record all_room {
          cache_chain = ns ++ (ms ++ (tag Section.old_section q ∷ g ∷ (bs ++ the_room.after)));
          middle_section_iter = p.id;
          old_section_iter = q.id;
        };
        runs = add_block_by b m all_room the_room.runs runs;
        own =
            lr.sound.mapped (get_block_id b)
            ∙ ground (arith, same_id_iff (get_block_id b) (get_block_id b));
        gone = the_room.gone;
        others =
            others_kept b m the_room.before the_room.after the_room.gone the_room.blocks
              the_room.choice;
        least =
            subst
              (λ z.
                (is_real the_room.gone.item ≡ false)
                ⊎ All (λ n. the_room.gone.item.ref_count ≤ n.item.ref_count) z)
              (sym the_room.split) (least_gone the_room.choice);
        new' = ns;
        mid' = ms;
        old' = tag Section.old_section q ∷ g ∷ (bs ++ the_room.after);
        layout = l';
        new_length = omega (arith, ap length en, length-append ns (p ∷ []));
        middle_length = omega (arith, ap length em, length-append ms (q ∷ []));
        old_length = omega (arith, length_kept, ap length e, length-append bs the_room.after);
        front = the_room.before;
        behind = the_room.after;
        split = the_room.split;
        chosen = choice-Chosen the_room.choice;
        viewed =
            view_shifted ns p mid ms q (g ∷ (bs ++ the_room.after)) em
            ∙ ap (λ c. view (c ++ (mid ++ (g ∷ (bs ++ the_room.after))))) (sym en)
            ∙ ap (λ c. view (node m.next_id b ∷ (new ++ (mid ++ (c ++ the_room.after))))) (sym e);
      }
    where
      length_kept : length (the_room.before) + length the_room.after ≡ length os
      length_kept = omega (
        arith,
        ap length the_room.split,
        length-append the_room.before (the_room.gone ∷ the_room.after),
      )

  add_behind :
      (g : Node CacheBlock) (bs : CacheChain)
      → the_room.before ≡ g ∷ bs
      → Added P m new mid (o ∷ os) b
  add_behind g bs e =
      let (ns, p, en) = unsnoc (length new) (node m.next_id b ∷ new) refl in
      let (ms, q, em) = unsnoc (length mid) (tag Section.middle_section p ∷ mid) refl in
      add_shifted g bs ns p ms q e en em

  nil_of : (c : CacheChain) → is_nil c ≡ true → c ≡ []
  nil_of [] e = refl
  nil_of (x ∷ c) e = cc

  -- An insertion goes on where it is not the first node of the old section that goes.
  pub add_block_done : evicts_first (o ∷ os) ≡ false → Added P m new mid (o ∷ os) b
  add_block_done e = behind the_room.before refl
    where
      behind : (c : CacheChain) → the_room.before ≡ c → Added P m new mid (o ∷ os) b
      behind [] h = let t : false ≡ true = sym e ∙ (the_room.first ∙ ap is_nil h) in cc
      behind (g ∷ bs) h = add_behind g bs h

  -- It is undefined where that node goes: the iterator of the old section names it.
  pub add_block_undefined : evicts_first (o ∷ os) ≡ true → add_block b m ≡ undefined bad_iterator
  unfolding all_room
  add_block_undefined e =
      let nil : the_room.before ≡ [] = nil_of the_room.before (sym the_room.first ∙ e) in
      let here : o ∷ os ≡ the_room.gone ∷ the_room.after =
        the_room.split ∙ ap (λ c. c ++ (the_room.gone ∷ the_room.after)) nil in
      let first : o ≡ the_room.gone = cc in
      let apart =
        removed_apart ((node m.next_id b ∷ new) ++ (mid ++ the_room.before)) the_room.gone
          the_room.after
          (Layout-Distinct pushed _
            (whole pushed the_room.before the_room.gone the_room.after the_room.split)) in
      let at : the_room.gone.id ≡ m.old_section_iter = sym (ap (λ n. n.id) first) ∙ pushed.old_at in
      add_block_by b m all_room the_room.runs (
        lower_both_gone all_room (
          subst (λ c. All (λ j. j ≢ m.old_section_iter) (ids c))
            (rest pushed the_room.before the_room.gone the_room.after the_room.split)
            (subst
              (λ i.
                All (λ j. j ≢ i)
                  (ids (((node m.next_id b ∷ new) ++ (mid ++ the_room.before)) ++ the_room.after)))
              at apart)))
