-- ===== src/Manager/Insertion.antt =====
-- `insertBlock` on a well-formed manager: it goes on, is undefined, or ends the process.
use os_ex.Common.{
  append_assoc, ◌++◌, ℕ, ◌≡◌, ◌≢◌, ◌∙◌, ◌≤◌, refl, sym, ap, subst, true, false, inl, inr, ◌⊎◌, none,
  some, List, [], ◌∷◌, arith, All, length, not, Outcome, done, undefined, exited, bad_iterator,
}
use os_ex.Common.Int.{ℤ, eqb_ℤ}
use os_ex.Block.{BlockId, CacheBlock, Buffer, Text, same_id, is_real, make_block, null_block}
use os_ex.Manager.{CacheChain, CacheManager, add_block, insert_block}
use os_ex.Manager.Layout.{Stored, Layout, IsValid}
use os_ex.Manager.Victim.{evicts_first}
use os_ex.Manager.Find.{find_block_miss, find_block-IsValid}
use os_ex.Manager.Found.{CanCount}
use os_ex.Manager.Push.{put_real}
use os_ex.Policy.View.{entry, view}
use os_ex.Chain.{Node}
use os_ex.Manager.Insert.{Chosen, Added, add_block_done, add_block_undefined}

abbrev pub block_id : ℤ → ℤ → BlockId
block_id file_id block_number = record { file_id = file_id; block_number = block_number }

pub add_absent :
    (file_id block_number : ℤ) (buff : Buffer) (path : Text) (m : CacheManager)
    → m.blocks_map (record { file_id = file_id; block_number = block_number }) ≡ none
    → insert_block file_id block_number buff path m
      ≡ add_block (make_block file_id block_number (some buff) (some path)) m
unfolding insert_block
add_absent file_id block_number buff path m e = rw (find_block_miss _ m e)

cons_of :
    {A : Type 0} (n : ℕ) (xs : List A)
    → length xs ≡ n
    → 1 ≤ n
    → (y : A) × (ys : List A) × (xs ≡ y ∷ ys)
cons_of n [] e h = absurd (omega arith)
cons_of n (x ∷ xs) e h = (x, xs, refl)

-- What an insertion does: the manager is well formed, with sections of the same sizes, the new block
-- is in the map and in front, and every other block is as before but the one that goes, a node of the
-- old section: the last of those with the fewest references, or an empty slot at the end.
pub record Inserted (P : Stored) (a b c : ℕ) (k : BlockId) (m : CacheManager) (block : CacheBlock)
    (kept old : CacheChain) (r : Outcome CacheManager) : Type 0 where
  pub after : CacheManager
  pub runs : r ≡ done after
  pub valid : IsValid P a b c after
  pub own : after.blocks_map k ≡ some m.next_id
  pub gone : Node CacheBlock
  pub front : CacheChain
  pub behind : CacheChain
  pub split : old ≡ front ++ (gone ∷ behind)
  pub chosen : Chosen front gone behind
  pub others :
      (j : BlockId) → same_id k j ≡ false → after.blocks_map j ≡ put_real gone.item m.blocks_map j
  pub least : (is_real gone.item ≡ false) ⊎ All (λ n. gone.item.ref_count ≤ n.item.ref_count) old
  pub viewed : view after.cache_chain ≡ entry block ∷ view (kept ++ (front ++ behind))

module _ (P : Stored) (a b c : ℕ) (file_id block_number : ℤ) (buff : Buffer) (path : Text)
    (m : CacheManager) (v : IsValid P a b c m) (hc : 1 ≤ c)
    (real : eqb_ℤ block_number null_block ≡ false)
    (p : P (block_id file_id block_number) (some buff))
    (absent : m.blocks_map (block_id file_id block_number) ≡ none) where
  -- The block that is added, and the state after it.
  pub added :
      evicts_first v.old ≡ false
      → Added P m v.new v.mid v.old (make_block file_id block_number (some buff) (some path))
  added kept =
      let block = make_block file_id block_number (some buff) (some path) in
      let (o, os, e) = cons_of c v.old v.old_length hc in
      subst (λ x. Added P m v.new v.mid x block) (sym e)
        (add_block_done o os block (subst (λ x. Layout P m v.new v.mid x) e v.layout) (ap not real)
          refl (omega arith, omega arith, p) absent (ap evicts_first (sym e) ∙ kept))

  pub added-IsValid :
      (x : Added P m v.new v.mid v.old (make_block file_id block_number (some buff) (some path)))
      → IsValid P a b c x.after
  added-IsValid x = record {
    new = x.new';
    mid = x.mid';
    old = x.old';
    layout = x.layout;
    new_length = x.new_length ∙ v.new_length;
    middle_length = x.middle_length ∙ v.middle_length;
    old_length = x.old_length ∙ v.old_length;
  }

  -- `insertBlock` of a block that is not in the cache goes on where it is not the first node of the
  -- old section that goes. The manager stays well formed, with sections of the same sizes, and the
  -- map gets the new block, which stands in front. What goes is a node of the old section: an empty slot
  -- at its end, or the last of the blocks with the fewest references, and then no empty slot is left.
  -- Every other block is as before, in the same order and with the same count, and so is every other
  -- entry of the map.
  pub insert_block-Inserted :
      evicts_first v.old ≡ false
      → Inserted P a b c
          (block_id file_id block_number)
          m
          (make_block file_id block_number (some buff) (some path))
          (v.new ++ v.mid)
          v.old
          (insert_block file_id block_number buff path m)
  insert_block-Inserted kept =
      let x = added kept in
      let block = make_block file_id block_number (some buff) (some path) in
      record {
        after = x.after;
        runs = add_absent file_id block_number buff path m absent ∙ x.runs;
        valid = added-IsValid x;
        own = x.own;
        gone = x.gone;
        front = x.front;
        behind = x.behind;
        split = x.split;
        chosen = x.chosen;
        others = x.others;
        least = x.least;
        viewed =
            x.viewed
            ∙ ap (λ c. entry block ∷ view c) (sym (append_assoc v.new v.mid (x.front ++ x.behind)));
      }

  -- `insertBlock` of a block that is not in the cache is undefined where the first node of the old
  -- section goes: `oldSectionIter` names that node, and is moved after it is gone.
  pub insert_block-undefined :
      evicts_first v.old ≡ true
      → insert_block file_id block_number buff path m ≡ undefined bad_iterator
  insert_block-undefined goes =
      let (o, os, e) = cons_of c v.old v.old_length hc in
      add_absent file_id block_number buff path m absent
      ∙ add_block_undefined o os (make_block file_id block_number (some buff) (some path))
          (subst (λ x. Layout P m v.new v.mid x) e v.layout) (ap not real) refl
          (omega arith, omega arith, p) absent (ap evicts_first (sym e) ∙ goes)

-- `insertBlock` of a block that is in the cache ends the process with status 1.
pub insert_block-exits :
    (P : Stored) (a b c : ℕ) (file_id block_number : ℤ) (buff : Buffer) (path : Text)
    (m : CacheManager)
    → IsValid P a b c m
    → CanCount m
    → 1 ≤ a
    → m.blocks_map (block_id file_id block_number) ≢ none
    → insert_block file_id block_number buff path m ≡ exited 1
unfolding insert_block
insert_block-exits P a b c file_id block_number buff path m v few ha held =
    elim (find_block-IsValid P a b c (block_id file_id block_number) m ha v few) [
      | inl (e, runs) ↦ absurd (held e)
      | inr (it, e, h, runs) ↦ rw runs
    ]
