-- ===== src/Manager/Move.antt =====
-- `move_to_head`: a block leaves its node for a new one at the head of the new section.
use os_ex.Common.{
  ℕ, suc, ◌≡◌, ◌≢◌, ◌<◌, ◌∙◌, refl, sym, ap, subst, true, inr, none, some, [], ◌∷◌, ◌++◌,
  map-append, append_assoc, arith, All, All-mono, All-mid, All-drop, done,
}
use os_ex.Block.{Section, BlockId, CacheBlock, get_block_id, set_section, is_real}
use os_ex.Chain.{Node, node}
use os_ex.Chain.Zip.{Distinct, ids, deref_at, modify_at, erase_at, Starts-front}
use os_ex.Manager.{BlocksMap, CacheChain, CacheManager, put, move_to_head}
use os_ex.Manager.Stems.{Stems, Sound, push-Sound, remove-Sound, put_self}
use os_ex.Manager.Layout.{Stored, stem, stems, ids-stems, Fit, AllFit, Layout, Layout-Distinct}

abbrev pub head_node : CacheManager → Node CacheBlock → Node CacheBlock
head_node m h = node m.next_id (set_section Section.new_section h.item)

-- The manager with the block of `h` at the head, and the other nodes `c`.
abbrev pub moved : CacheManager → Node CacheBlock → CacheChain → CacheManager
moved m h c = record m {
  blocks_map = put (get_block_id h.item) (some m.next_id) m.blocks_map;
  cache_chain = head_node m h ∷ c;
  next_id = suc m.next_id;
}

Sound-same :
    (a b : BlocksMap) (s : Stems) (next : ℕ)
    → ((k : BlockId) → a k ≡ b k)
    → Sound a s next
    → Sound b s next
Sound-same a b s next e v = record {
  distinct = v.distinct;
  fresh = v.fresh;
  unique = v.unique;
  filled = v.filled;
  mapped = λ k. sym (e k) ∙ v.mapped k;
}

module _ {P : Stored} {m : CacheManager} {new mid old : CacheChain} (l : Layout P m new mid old)
    (xs : CacheChain) (h : Node CacheBlock) (ys : CacheChain)
    (e : new ++ (mid ++ old) ≡ xs ++ (h ∷ ys)) where
  Sound-at : Sound m.blocks_map (stems xs ++ (stem h ∷ stems ys)) m.next_id
  Sound-at =
      subst (λ s. Sound m.blocks_map s m.next_id) (ap stems e ∙ map-append stem xs (h ∷ ys)) l.sound

  Distinct-head : (b : CacheBlock) → Distinct (ids (node m.next_id b ∷ (xs ++ (h ∷ ys))))
  Distinct-head b = (
    subst (All (λ j. j ≢ m.next_id)) (ids-stems (xs ++ (h ∷ ys))) (
        subst (λ c. All (λ j. j ≢ m.next_id) (ids (stems c))) e
          (All-mono (λ i. i < m.next_id) (λ i. i ≢ m.next_id) (λ i h. omega arith) _
            l.sound.fresh)),
    Layout-Distinct l _ e,
  )

  pub move_lem :
      move_to_head (get_block_id h.item) h.id m ≡ done (some m.next_id, moved m h (xs ++ ys))
  unfolding move_to_head
  move_lem = rw (
    l.chain,
    e,
    deref_at h ys xs (Layout-Distinct l _ e),
    modify_at (node m.next_id h.item) (xs ++ (h ∷ ys)) (set_section Section.new_section) []
        (Distinct-head h.item),
    erase_at h ys (head_node m h ∷ xs) (Distinct-head (set_section Section.new_section h.item)),
  )

  pub moved-Sound :
      is_real h.item ≡ true
      → Sound (moved m h (xs ++ ys)).blocks_map (stems (head_node m h ∷ (xs ++ ys))) (suc m.next_id)
  moved-Sound r =
      let k = get_block_id h.item in
      Sound-same _ _ _ _ (λ j. ground arith)
        (subst
          (λ s.
            Sound (put k (some m.next_id) (put k none m.blocks_map)) (node m.next_id k ∷ s)
              (suc m.next_id))
          (sym (map-append stem xs ys))
          (push-Sound (put k none m.blocks_map) m.next_id k (stems xs ++ stems ys)
            (remove-Sound m.blocks_map m.next_id (stems xs) (stem h) (stems ys) Sound-at) r
            (put_self k none m.blocks_map)))

  pub moved-AllFit : AllFit P (head_node m h ∷ (xs ++ ys))
  moved-AllFit =
      let c = subst (AllFit P) e l.fit in (All-mid (Fit P) xs h ys c, All-drop (Fit P) xs h ys c)

pub regroup_middle :
    (new xs : CacheChain) (h : Node CacheBlock) (ys old : CacheChain)
    → new ++ ((xs ++ (h ∷ ys)) ++ old) ≡ (new ++ xs) ++ (h ∷ (ys ++ old))
regroup_middle new xs h ys old = simp append_assoc

pub regroup_old :
    (new mid xs : CacheChain) (h : Node CacheBlock) (ys : CacheChain)
    → new ++ (mid ++ (xs ++ (h ∷ ys))) ≡ (new ++ (mid ++ xs)) ++ (h ∷ ys)
regroup_old new mid xs h ys = simp append_assoc

-- A block of the new section moves to the head of that section.
pub move_new_lem :
    {P : Stored} {m : CacheManager} {mid old : CacheChain} (xs : CacheChain) (h : Node CacheBlock)
    (ys : CacheChain)
    → Layout P m (xs ++ (h ∷ ys)) mid old
    → is_real h.item ≡ true
    → let m' = moved m h ((xs ++ ys) ++ (mid ++ old)) in
      (move_to_head (get_block_id h.item) h.id m ≡ done (some m.next_id, m'))
      × Layout P m' (head_node m h ∷ (xs ++ ys)) mid old
move_new_lem {P} {m} {mid} {old} xs h ys l r =
    let e = append_assoc xs (h ∷ ys) (mid ++ old) in
    let c = sym (append_assoc xs ys (mid ++ old)) in
    (
      move_lem l xs h (ys ++ (mid ++ old)) e ∙ ap (λ z. done (some m.next_id, moved m h z)) c,
      record {
        chain = refl;
        sound =
            subst
              (λ z.
                Sound (put (get_block_id h.item) (some m.next_id) m.blocks_map)
                  (stems (head_node m h ∷ z)) (suc m.next_id))
              c (moved-Sound l xs h (ys ++ (mid ++ old)) e r);
        middle_at = l.middle_at;
        old_at = l.old_at;
        new_tagged = (inr refl, All-drop _ xs h ys l.new_tagged);
        middle_tagged = l.middle_tagged;
        old_tagged = l.old_tagged;
        fit =
            subst (λ z. AllFit P (head_node m h ∷ z)) c
              (moved-AllFit l xs h (ys ++ (mid ++ old)) e);
      },
    )

-- A block of the middle section, but not the first, moves to the head of the new section.
pub move_middle_lem :
    {P : Stored} {m : CacheManager} {new old : CacheChain} (f : Node CacheBlock) (xs : CacheChain)
    (h : Node CacheBlock) (ys : CacheChain)
    → Layout P m new (f ∷ (xs ++ (h ∷ ys))) old
    → is_real h.item ≡ true
    → let m' = moved m h (new ++ (f ∷ ((xs ++ ys) ++ old))) in
      (move_to_head (get_block_id h.item) h.id m ≡ done (some m.next_id, m'))
      × Layout P m' (head_node m h ∷ new) (f ∷ (xs ++ ys)) old
move_middle_lem {P} {m} {new} {old} f xs h ys l r =
    let e = regroup_middle new (f ∷ xs) h ys old in
    let c : (new ++ (f ∷ xs)) ++ (ys ++ old) ≡ new ++ (f ∷ ((xs ++ ys) ++ old)) =
      simp append_assoc in
    (
      move_lem l (new ++ (f ∷ xs)) h (ys ++ old) e ∙ ap (λ z. done (some m.next_id, moved m h z)) c,
      record {
        chain = refl;
        sound =
            subst
              (λ z.
                Sound (put (get_block_id h.item) (some m.next_id) m.blocks_map)
                  (stems (head_node m h ∷ z)) (suc m.next_id))
              c (moved-Sound l (new ++ (f ∷ xs)) h (ys ++ old) e r);
        middle_at = l.middle_at;
        old_at = l.old_at;
        new_tagged = (inr refl, l.new_tagged);
        middle_tagged = (l.middle_tagged.0, All-drop _ xs h ys l.middle_tagged.1);
        old_tagged = l.old_tagged;
        fit =
            subst (λ z. AllFit P (head_node m h ∷ z)) c
              (moved-AllFit l (new ++ (f ∷ xs)) h (ys ++ old) e);
      },
    )

-- A block of the old section, but not the first, moves to the head of the new section.
pub move_old_lem :
    {P : Stored} {m : CacheManager} {new mid : CacheChain} (f : Node CacheBlock) (xs : CacheChain)
    (h : Node CacheBlock) (ys : CacheChain)
    → Layout P m new mid (f ∷ (xs ++ (h ∷ ys)))
    → is_real h.item ≡ true
    → let m' = moved m h (new ++ (mid ++ (f ∷ (xs ++ ys)))) in
      (move_to_head (get_block_id h.item) h.id m ≡ done (some m.next_id, m'))
      × Layout P m' (head_node m h ∷ new) mid (f ∷ (xs ++ ys))
move_old_lem {P} {m} {new} {mid} f xs h ys l r =
    let e = regroup_old new mid (f ∷ xs) h ys in
    let c : (new ++ (mid ++ (f ∷ xs))) ++ ys ≡ new ++ (mid ++ (f ∷ (xs ++ ys))) =
      simp append_assoc in
    (
      move_lem l (new ++ (mid ++ (f ∷ xs))) h ys e ∙ ap (λ z. done (some m.next_id, moved m h z)) c,
      record {
        chain = refl;
        sound =
            subst
              (λ z.
                Sound (put (get_block_id h.item) (some m.next_id) m.blocks_map)
                  (stems (head_node m h ∷ z)) (suc m.next_id))
              c (moved-Sound l (new ++ (mid ++ (f ∷ xs))) h ys e r);
        middle_at = Starts-front m.middle_section_iter mid f _ _ l.middle_at;
        old_at = l.old_at;
        new_tagged = (inr refl, l.new_tagged);
        middle_tagged = l.middle_tagged;
        old_tagged = (l.old_tagged.0, All-drop _ xs h ys l.old_tagged.1);
        fit =
            subst (λ z. AllFit P (head_node m h ∷ z)) c
              (moved-AllFit l (new ++ (mid ++ (f ∷ xs))) h ys e);
      },
    )
