-- ===== src/Manager/Found.antt =====
-- `findBlock` on a block that a well-formed manager has: where the block is, and where it goes.
use os_ex.Common.{
  ltb, false, int_overflow, append_assoc, undefined, ℕ, suc, ◌-◌, ◌≡◌, ◌∙◌, ◌<◌, ◌≤◌, refl, sym, ap,
  subst, inl, inr, ◌⊎◌, some, [], ◌∷◌, ◌++◌, append-nil, arith, All, All-mid, length, length-append,
  unsnoc, done, Bool-cases,
}
use os_ex.Block.{is_new_section, Section, BlockId, CacheBlock, get_block_id, int_max}
use os_ex.Chain.{node, Node, deref}
use os_ex.Manager.{CacheChain, CacheManager, put, touch}
use os_ex.Manager.Layout.{Layout-Distinct, Tagged, Stored, Layout, IsValid}
use os_ex.Manager.Bounds.{tag}
use os_ex.Manager.Move.{head_node, moved}
use os_ex.Manager.Hit.{touch_full, tagged_real, referenced, touch_new, touch_middle, touch_old}
use os_ex.Manager.Taken.{Taken, Taken-new, Taken-middle, Taken-old}
use os_ex.Manager.Locate.{Located, locate}

-- Every count can still grow.
abbrev pub CanCount : CacheManager → Type 0
CanCount m = All (λ n. n.item.ref_count < int_max) m.cache_chain

-- What a hit does: the block is at the head, in a node of its own, and the map says so.
pub record Hit (P : Stored) (a b c : ℕ) (k : BlockId) (it : ℕ) (m : CacheManager) : Type 0 where
  pub after : CacheManager
  pub runs : touch k it m ≡ done (some m.next_id, after)
  pub valid : IsValid P a b c after
  pub block : CacheBlock
  pub found : deref m.next_id after.cache_chain ≡ done block
  pub is_block : get_block_id block ≡ k
  pub stored : P k block.buff
  pub mapped : (j : BlockId) → after.blocks_map j ≡ put k (some m.next_id) m.blocks_map j
  pub taken : Taken a k m after
  pub others : CacheChain
  pub at_front : after.cache_chain ≡ node m.next_id block ∷ others

module _ (P : Stored) (a b c : ℕ) (k : BlockId) (it : ℕ) (m : CacheManager) where
  Hit-by :
      (m' : CacheManager) (h h' : Node CacheBlock) (ns ms os : CacheChain)
      → get_block_id h.item ≡ k
      → h.id ≡ it
      → touch (get_block_id h.item) h.id m ≡ done (some m.next_id, m')
      → Layout P m' (head_node m h' ∷ ns) ms os
      → get_block_id h'.item ≡ get_block_id h.item
      → ((j : BlockId)
          → m'.blocks_map j ≡ put (get_block_id h.item) (some m.next_id) m.blocks_map j)
      → suc (length ns) ≡ a
      → length ms ≡ b
      → length os ≡ c
      → Taken a (get_block_id h.item) m m'
      → Hit P a b c k it m
  unfolding deref
  Hit-by m' h h' ns ms os key address runs l same map la lb lc t = record {
    taken = subst (λ j. Taken a j m m') key t;
    others = ns ++ (ms ++ os);
    at_front = l.chain;
    after = m';
    runs = rw (← key, ← address) runs;
    valid = record {
      new = head_node m h' ∷ ns;
      mid = ms;
      old = os;
      layout = l;
      new_length = la;
      middle_length = lb;
      old_length = lc;
    };
    block = (head_node m h').item;
    found = rw l.chain (ground arith);
    is_block = same ∙ key;
    stored = subst (λ j. P j h'.item.buff) (same ∙ key) l.fit.0.2;
    mapped = λ j. map j ∙ ap (λ i. put i (some m.next_id) m.blocks_map j) key;
  }

  module _ (v : IsValid P a b c m) where
    Hit-new : Located k it v.new → Hit P a b c k it m
    Hit-new l =
        let (runs, lay) =
          touch_new l.before l.here l.after (subst (λ n. Layout P m n v.mid v.old) l.split v.layout)
            l.real in
        Hit-by (moved m l.here ((l.before ++ l.after) ++ (v.mid ++ v.old))) l.here l.here
          (l.before ++ l.after) v.mid v.old l.key l.address runs lay refl (λ j. refl)
          (omega (
            arith,
            v.new_length,
            ap length l.split,
            length-append l.before (l.here ∷ l.after),
            length-append l.before l.after,
          ))
          v.middle_length v.old_length
          (Taken-new a l.here l.real l.before l.after (v.mid ++ v.old)
            (v.layout.chain ∙ ap (λ n. n ++ (v.mid ++ v.old)) l.split) refl
            (sym (ap length l.split) ∙ v.new_length))

    Hit-middle :
        (ns : CacheChain) (p : Node CacheBlock)
        → v.new ≡ ns ++ (p ∷ [])
        → (l : Located k it v.mid) → l.here.item.ref_count < int_max
        → Hit P a b c k it m
    Hit-middle ns p e l low =
        let p' = tag Section.middle_section p in
        let (runs, lay) =
          touch_middle ns p l.before l.here l.after
            (subst (λ n. Layout P m n (l.before ++ (l.here ∷ l.after)) v.old) e
              (subst (λ n. Layout P m v.new n v.old) l.split v.layout))
            l.real low in
        Hit-by
          (record (moved m (referenced l.here) (ns ++ (p' ∷ ((l.before ++ l.after) ++ v.old)))) {
            middle_section_iter = p.id;
          })
          l.here (referenced l.here) ns (p' ∷ (l.before ++ l.after)) v.old l.key l.address runs lay
          refl (λ j. refl) (omega (arith, v.new_length, ap length e, length-append ns (p ∷ [])))
          (omega (
            arith,
            v.middle_length,
            ap length l.split,
            length-append l.before (l.here ∷ l.after),
            length-append l.before l.after,
          ))
          v.old_length
          (Taken-middle a l.here l.real ns p l.before l.after v.old
            (v.layout.chain
              ∙ ap (λ n. n ++ (v.mid ++ v.old)) e
              ∙ ap (λ n. (ns ++ (p ∷ [])) ++ (n ++ v.old)) l.split)
            refl (sym (ap length e) ∙ v.new_length))

    Hit-old :
        (ns : CacheChain) (p : Node CacheBlock) (ms : CacheChain) (q : Node CacheBlock)
        → v.new ≡ ns ++ (p ∷ [])
        → tag Section.middle_section p ∷ v.mid ≡ ms ++ (q ∷ [])
        → (l : Located k it v.old) → l.here.item.ref_count < int_max
        → Hit P a b c k it m
    Hit-old ns p ms q e e' l low =
        let q' = tag Section.old_section q in
        let (runs, lay) =
          touch_old ns p ms q l.before l.here l.after
            (subst (λ n. Layout P m n v.mid (l.before ++ (l.here ∷ l.after))) e
              (subst (λ n. Layout P m v.new v.mid n) l.split v.layout))
            e' l.real low in
        Hit-by
          (record (moved m (referenced l.here) (ns ++ (ms ++ (q' ∷ (l.before ++ l.after))))) {
            middle_section_iter = p.id;
            old_section_iter = q.id;
          })
          l.here (referenced l.here) ns ms (q' ∷ (l.before ++ l.after)) l.key l.address runs lay
          refl (λ j. refl) (omega (arith, v.new_length, ap length e, length-append ns (p ∷ [])))
          (omega (arith, v.middle_length, ap length e', length-append ms (q ∷ [])))
          (omega (
            arith,
            v.old_length,
            ap length l.split,
            length-append l.before (l.here ∷ l.after),
            length-append l.before l.after,
          ))
          (Taken-old a l.here l.real ns p v.mid ms q l.before l.after
            (v.layout.chain
              ∙ ap (λ n. n ++ (v.mid ++ v.old)) e
              ∙ ap (λ n. (ns ++ (p ∷ [])) ++ (v.mid ++ n)) l.split)
            e' refl (sym (ap length e) ∙ v.new_length))

    -- The block is taken to the front, or its count would leave the range of `int`.
    abbrev pub HitOrFull : Type 0
    HitOrFull = Hit P a b c k it m ⊎ ((touch k it m ≡ undefined int_overflow) × (¬ (CanCount m)))

    by_count :
        (xs ys : CacheChain) (h : Node CacheBlock)
        → v.new ++ (v.mid ++ v.old) ≡ xs ++ (h ∷ ys)
        → h.id ≡ it
        → is_new_section h.item.section ≡ false
        → (h.item.ref_count < int_max → Hit P a b c k it m)
        → HitOrFull
    by_count xs ys h e address other go = elim (Bool-cases (ltb h.item.ref_count int_max)) [
      | inl low ↦ inl (go (ground arith))
      | inr full ↦ inr (
        rw (← address)
            (touch_full m xs h ys (Layout-Distinct v.layout _ e) (v.layout.chain ∙ e) k other full),
        (λ few.
            let low =
              All-mid (λ n. n.item.ref_count < int_max) xs h ys
                (subst (All (λ n. n.item.ref_count < int_max)) (v.layout.chain ∙ e) few) in
            ground arith),
      )
    ]

    -- A block that the map has is found, wherever it stands.
    pub hit_or_full : 1 ≤ a → m.blocks_map k ≡ some it → HitOrFull
    hit_or_full ha e =
        let (ns, p, en) = unsnoc (a - 1) v.new (omega (arith, v.new_length)) in
        let (ms, q, em) = unsnoc (length v.mid) (tag Section.middle_section p ∷ v.mid) refl in
        elim (locate k it v.new (v.mid ++ v.old) (sym (v.layout.sound.mapped k) ∙ e)) [
          | inl l ↦ inl (Hit-new l)
          | inr r ↦ elim (locate k it v.mid v.old r) [
            | inl l ↦
                by_count (v.new ++ l.before) (l.after ++ v.old) l.here
                  (ap (λ c. v.new ++ (c ++ v.old)) l.split ∙ simp append_assoc) l.address
                  (rw
                    (tagged_real Section.middle_section l.here l.real (
                      All-mid _ l.before l.here l.after
                        (subst (Tagged Section.middle_section) l.split v.layout.middle_tagged)))
                    refl)
                  (Hit-middle ns p en l)
            | inr r' ↦ elim (locate k it v.old [] (rw append-nil r')) [
              | inl l ↦
                  by_count (v.new ++ (v.mid ++ l.before)) l.after l.here
                    (ap (λ c. v.new ++ (v.mid ++ c)) l.split ∙ simp append_assoc) l.address
                    (rw
                      (tagged_real Section.old_section l.here l.real (
                        All-mid _ l.before l.here l.after
                          (subst (Tagged Section.old_section) l.split v.layout.old_tagged)))
                      refl)
                    (Hit-old ns p ms q en em l)
              | inr r3 ↦ cc
            ]
          ]
        ]

    -- With counts that can grow, the block is taken to the front.
    pub hit : CanCount m → 1 ≤ a → m.blocks_map k ≡ some it → Hit P a b c k it m
    hit few ha e = elim (hit_or_full ha e) [ inl h ↦ h | inr full ↦ absurd (full.1 few) ]
