-- ===== src/Manager/Taken.antt =====
-- A hit as the policy sees it: one entry leaves its place for the front.
use os_ex.Common.{
  ℕ, ◌-◌, ◌≡◌, ◌∙◌, refl, sym, ap, true, [], ◌∷◌, ◌++◌, append_assoc, length, length-append, arith,
}
use os_ex.Block.{Section, BlockId, CacheBlock, get_block_id, is_real}
use os_ex.Chain.{Node}
use os_ex.Manager.{CacheChain, CacheManager}
use os_ex.Manager.Bounds.{tag}
use os_ex.Manager.Move.{head_node, regroup_middle, regroup_old}
use os_ex.Manager.Hit.{referenced}
use os_ex.Policy.{count_at}
use os_ex.Policy.View.{view_shifted, entry, view, view-tag, count_at-new, count_at-other}

-- The block leaves its place for the front, and the others stay as the policy sees them.
pub record Taken (a : ℕ) (k : BlockId) (m after : CacheManager) : Type 0 where
  pub front : CacheChain
  pub here : Node CacheBlock
  pub behind : CacheChain
  pub whole : m.cache_chain ≡ front ++ (here ∷ behind)
  pub key : get_block_id here.item ≡ k
  pub real : is_real here.item ≡ true
  pub viewed :
      view after.cache_chain
      ≡ count_at (a - length front) (entry here.item) ∷ view (front ++ behind)

module _ {m after : CacheManager} (a : ℕ) (h : Node CacheBlock) (r : is_real h.item ≡ true) where
  pub Taken-new :
      (xs ys rest : CacheChain)
      → m.cache_chain ≡ (xs ++ (h ∷ ys)) ++ rest
      → after.cache_chain ≡ head_node m h ∷ ((xs ++ ys) ++ rest)
      → length (xs ++ (h ∷ ys)) ≡ a
      → Taken a (get_block_id h.item) m after
  Taken-new xs ys rest e e' n = record {
    front = xs;
    here = h;
    behind = ys ++ rest;
    whole = e ∙ append_assoc xs (h ∷ ys) rest;
    key = refl;
    real = r;
    viewed =
        ap view e'
        ∙ ap (λ c. entry h.item ∷ view c) (append_assoc xs ys rest)
        ∙ ap (λ x. x ∷ view (xs ++ (ys ++ rest)))
            (sym (
              count_at-new a (length xs) (entry h.item)
                (omega (arith, n, length-append xs (h ∷ ys)))));
  }

  -- The others are the same, and the block is behind the new section.
  Taken-other :
      (new front behind cs : CacheChain)
      → m.cache_chain ≡ (new ++ front) ++ (h ∷ behind)
      → after.cache_chain ≡ head_node m (referenced h) ∷ cs
      → view cs ≡ view ((new ++ front) ++ behind)
      → length new ≡ a
      → Taken a (get_block_id h.item) m after
  Taken-other new front behind cs e e' same n = record {
    front = new ++ front;
    here = h;
    behind = behind;
    whole = e;
    key = refl;
    real = r;
    viewed =
        ap view e'
        ∙ ap (λ c. entry (referenced h).item ∷ c) same
        ∙ ap (λ x. x ∷ view ((new ++ front) ++ behind))
            (sym (
              count_at-other a (length (new ++ front)) (entry h.item)
                (omega (arith, n, length-append new front))));
  }

  pub Taken-middle :
      (ns : CacheChain) (p : Node CacheBlock) (xs ys old : CacheChain)
      → m.cache_chain ≡ (ns ++ (p ∷ [])) ++ ((xs ++ (h ∷ ys)) ++ old)
      → after.cache_chain
        ≡ head_node m (referenced h) ∷ (ns ++ (tag Section.middle_section p ∷ ((xs ++ ys) ++ old)))
      → length (ns ++ (p ∷ [])) ≡ a
      → Taken a (get_block_id h.item) m after
  Taken-middle ns p xs ys old e e' n =
      let new = ns ++ (p ∷ []) in
      let regroup : new ++ ((xs ++ ys) ++ old) ≡ (new ++ xs) ++ (ys ++ old) = simp append_assoc in
      Taken-other new xs (ys ++ old) _ (e ∙ regroup_middle new xs h ys old) e'
        (view-tag Section.middle_section ns p ((xs ++ ys) ++ old) ∙ ap view regroup) n

  pub Taken-old :
      (ns : CacheChain) (p : Node CacheBlock) (mid ms : CacheChain) (q : Node CacheBlock)
      (xs ys : CacheChain)
      → m.cache_chain ≡ (ns ++ (p ∷ [])) ++ (mid ++ (xs ++ (h ∷ ys)))
      → tag Section.middle_section p ∷ mid ≡ ms ++ (q ∷ [])
      → after.cache_chain
        ≡ head_node m (referenced h) ∷ (ns ++ (ms ++ (tag Section.old_section q ∷ (xs ++ ys))))
      → length (ns ++ (p ∷ [])) ≡ a
      → Taken a (get_block_id h.item) m after
  Taken-old ns p mid ms q xs ys e em e' n =
      let new = ns ++ (p ∷ []) in
      let regroup : new ++ (mid ++ (xs ++ ys)) ≡ (new ++ (mid ++ xs)) ++ ys = simp append_assoc in
      Taken-other new (mid ++ xs) ys _ (e ∙ regroup_old new mid xs h ys) e'
        (view_shifted ns p mid ms q (xs ++ ys) em ∙ ap view regroup) n
