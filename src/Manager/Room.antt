-- ===== src/Manager/Room.antt =====
-- `make_room`: one node of the old section goes.
use os_ex.Common.{
  ℕ, ◌≡◌, ◌∙◌, ◌<◌, ◌≤◌, refl, sym, ap, subst, true, false, not, inl, inr, none, some, [], ◌∷◌,
  ◌++◌, map-append, append_assoc, append-nil, All, All-right, All-mid, Bool-cases, length, unsnoc,
  done, Outcome,
}
use os_ex.Block.{CacheBlock, get_block_id, is_real, int_max}
use os_ex.Chain.{Node, deref, erase, nodes_from, back}
use os_ex.Chain.Zip.{deref_at, erase_at, nodes_from_at, back_at, pop_back_at}
use os_ex.Manager.{
  BlocksMap, CacheChain, CacheManager, put, least_referenced, evict, drop_last, make_room,
}
use os_ex.Manager.Stems.{Sound, holds, packed, remove-Sound, remove_empty-Sound, packed_last}
use os_ex.Manager.Layout.{Stored, stem, stems, Fit, Layout, Layout-Distinct}
use os_ex.Manager.Move.{regroup_old}
use os_ex.Manager.Victim.{is_nil, ends_empty, evicts_first, victim, all_above-victim}

-- What `make_room` takes: an empty slot at the end, or the victim of a section full of blocks.
pub data Choice (m : CacheManager) (before : CacheChain) (gone : Node CacheBlock)
    (after : CacheChain) : BlocksMap → Type 0 where
  slot : is_real gone.item ≡ false → after ≡ [] → Choice m before gone after m.blocks_map
  block :
      is_real gone.item ≡ true
      → All (λ n. gone.item.ref_count ≤ n.item.ref_count) before
      → All (λ n. gone.item.ref_count < n.item.ref_count) after
      → ends_empty (before ++ (gone ∷ after)) ≡ false
      → Choice m before gone after (put (get_block_id gone.item) none m.blocks_map)

pub record Room (m : CacheManager) (new mid old : CacheChain) : Type 0 where
  pub before : CacheChain
  pub gone : Node CacheBlock
  pub after : CacheChain
  pub blocks : BlocksMap
  pub split : old ≡ before ++ (gone ∷ after)
  pub first : evicts_first old ≡ is_nil before
  pub runs :
      make_room m
      ≡ done (record m { blocks_map = blocks; cache_chain = new ++ (mid ++ (before ++ after)) })
  pub sound : Sound blocks (stems (new ++ (mid ++ (before ++ after)))) m.next_id
  pub choice : Choice m before gone after blocks

ends_empty_last :
    (zs : CacheChain) (z : Node CacheBlock) → ends_empty (zs ++ (z ∷ [])) ≡ not (is_real z.item)
ends_empty_last [] z = refl
ends_empty_last (x ∷ []) z = refl
ends_empty_last (x ∷ y ∷ zs) z = ends_empty_last (y ∷ zs) z

evicts_slot :
    (zs : CacheChain) (z : Node CacheBlock)
    → is_real z.item ≡ false
    → evicts_first (zs ++ (z ∷ [])) ≡ is_nil zs
evicts_slot [] z e = rw e
evicts_slot (x ∷ zs) z e = rw (ends_empty_last (x ∷ zs) z, e) (not_nil zs)
  where
    not_nil : (xs : CacheChain) → is_nil (xs ++ (z ∷ [])) ≡ false
    not_nil [] = refl
    not_nil (x ∷ xs) = refl

make_room_by :
    (m : CacheManager) (last : CacheBlock) {r : Outcome CacheManager}
    → back m.cache_chain ≡ done last
    → is_real last ≡ true
    → evict m ≡ r
    → make_room m ≡ r
unfolding make_room
make_room_by m last p q e = rw (p, q, e)

evict_by :
    (m : CacheManager) (old c : CacheChain) (it : ℕ) (b : CacheBlock)
    → nodes_from m.old_section_iter m.cache_chain ≡ done old
    → least_referenced int_max none old ≡ some it
    → deref it m.cache_chain ≡ done b
    → erase it m.cache_chain ≡ done c
    → evict m
      ≡ done (record m { blocks_map = put (get_block_id b) none m.blocks_map; cache_chain = c })
unfolding evict
evict_by m old c it b p q r s = rw (p, q, r, s)

module _ {P : Stored} {m : CacheManager} {new mid old : CacheChain} (l : Layout P m new mid old)
    (xs : CacheChain) (h : Node CacheBlock) (ys : CacheChain) (split : old ≡ xs ++ (h ∷ ys)) where
  pub whole : new ++ (mid ++ old) ≡ (new ++ (mid ++ xs)) ++ (h ∷ ys)
  whole = rw split (regroup_old new mid xs h ys)

  pub rest : (new ++ (mid ++ xs)) ++ ys ≡ new ++ (mid ++ (xs ++ ys))
  rest = simp append_assoc

  Sound-whole : Sound m.blocks_map (stems (new ++ (mid ++ xs)) ++ (stem h ∷ stems ys)) m.next_id
  Sound-whole =
      subst (λ s. Sound m.blocks_map s m.next_id)
        (ap stems whole ∙ map-append stem (new ++ (mid ++ xs)) (h ∷ ys)) l.sound

  Sound-rest :
      (blocks : BlocksMap)
      → Sound blocks (stems (new ++ (mid ++ xs)) ++ stems ys) m.next_id
      → Sound blocks (stems (new ++ (mid ++ (xs ++ ys)))) m.next_id
  Sound-rest blocks =
      subst (λ s. Sound blocks s m.next_id)
        (sym (map-append stem (new ++ (mid ++ xs)) ys) ∙ ap stems rest)

  -- An empty slot at the end goes.
  slot_room : ys ≡ [] → is_real h.item ≡ false → Room m new mid old
  unfolding make_room drop_last
  slot_room nil e = record {
    before = xs;
    gone = h;
    after = ys;
    blocks = m.blocks_map;
    split = split;
    first = rw (split, nil) (evicts_slot xs h e);
    runs = rw (
      l.chain,
      whole,
      nil,
      back_at (new ++ (mid ++ xs)) h,
      e,
      pop_back_at (new ++ (mid ++ xs)) h,
      append-nil,
    );
    sound = Sound-rest m.blocks_map (
        remove_empty-Sound m.blocks_map m.next_id (stems (new ++ (mid ++ xs))) (stem h) (stems ys) e
          Sound-whole);
    choice = slot e nil;
  }

nodes-old :
    {P : Stored} {m : CacheManager} {new mid : CacheChain} (o : Node CacheBlock) (os : CacheChain)
    → Layout P m new mid (o ∷ os)
    → nodes_from m.old_section_iter m.cache_chain ≡ done (o ∷ os)
nodes-old {P} {m} {new} {mid} o os l =
    let e = sym (append_assoc new mid (o ∷ os)) in
    rw (l.chain, e, ← l.old_at) (nodes_from_at o os (new ++ mid) (Layout-Distinct l _ e))

All-held :
    {P : Stored} {m : CacheManager} {new mid old : CacheChain} (l : Layout P m new mid old)
    (zs : CacheChain) (z : Node CacheBlock)
    → old ≡ zs ++ (z ∷ [])
    → is_real z.item ≡ true
    → All (λ n. holds n.item ≡ true) (stems (new ++ (mid ++ old)))
All-held {P} {m} {new} {mid} l zs z e r =
    let c = ap stems (whole l zs z [] e) ∙ map-append stem (new ++ (mid ++ zs)) (z ∷ []) in
    subst (All (λ n. holds n.item ≡ true)) (sym c) (
      packed_last (stems (new ++ (mid ++ zs))) (stem z)
        (subst (λ s. packed s ≡ true) c l.sound.filled) r)

-- Where no slot is left, the block with the fewest references of the old section goes.
block_room :
    {P : Stored} {m : CacheManager} {new mid : CacheChain} (o : Node CacheBlock) (os : CacheChain)
    (l : Layout P m new mid (o ∷ os)) (zs : CacheChain) (z : Node CacheBlock)
    → o ∷ os ≡ zs ++ (z ∷ [])
    → is_real z.item ≡ true
    → Room m new mid (o ∷ os)
block_room {P} {m} {new} {mid} o os l zs z e r =
    let (v, found) =
      victim P o os
        (All-right (Fit P) mid (o ∷ os) (All-right (Fit P) new (mid ++ (o ∷ os)) l.fit)) in
    let pre = new ++ (mid ++ v.before) in
    let w = whole l v.before v.chosen v.after v.split in
    let d = Layout-Distinct l _ w in
    let held =
      subst (All (λ n. holds n.item ≡ true)) (ap stems w ∙ map-append stem pre (v.chosen ∷ v.after))
        (All-held l zs z e r) in
    let full : ends_empty (o ∷ os) ≡ false = ap ends_empty e ∙ (ends_empty_last zs z ∙ ap not r) in
    record {
      before = v.before;
      gone = v.chosen;
      after = v.after;
      blocks = put (get_block_id v.chosen.item) none m.blocks_map;
      split = v.split;
      first = rw full (all_above-victim o os v.before v.chosen v.after v.split v.least v.last);
      runs =
          make_room_by m z.item (rw (l.chain, whole l zs z [] e) (back_at (new ++ (mid ++ zs)) z)) r
            (evict_by m (o ∷ os) _ v.chosen.id v.chosen.item (nodes-old o os l) found
              (rw (l.chain, w) (deref_at v.chosen v.after pre d))
              (rw (
                l.chain,
                w,
                erase_at v.chosen v.after pre d,
                rest l v.before v.chosen v.after v.split,
              )));
      sound = Sound-rest l v.before v.chosen v.after v.split _ (
          remove-Sound m.blocks_map m.next_id (stems pre) (stem v.chosen) (stems v.after)
            (Sound-whole l v.before v.chosen v.after v.split));
      choice =
          block (All-mid _ (stems pre) (stem v.chosen) (stems v.after) held) v.least v.last
            (sym (ap ends_empty v.split) ∙ full);
    }

-- From a well-formed state with an old section `make_room` goes on.
pub room :
    {P : Stored} {m : CacheManager} {new mid : CacheChain} (o : Node CacheBlock) (os : CacheChain)
    → Layout P m new mid (o ∷ os)
    → Room m new mid (o ∷ os)
room o os l =
    let (zs, z, e) = unsnoc (length os) (o ∷ os) refl in
    elim (Bool-cases (is_real z.item)) [
      | inl r ↦ block_room o os l zs z e r
      | inr r ↦ slot_room l zs z [] e refl r
    ]
