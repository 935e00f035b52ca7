-- ===== src/Policy/Admit.antt =====
-- `insertBlock` does what the policy says of a new block.
use os_ex.Common.{
  ℕ, ◌+◌, ◌≡◌, ◌∙◌, ◌<◌, ◌≤◌, refl, sym, ap, true, false, ◌&&◌, none, some, List, [], ◌∷◌, ◌++◌,
  append_assoc, append-nil, All, arith, length, length-append, drop, take_left, drop_left, done,
  ltb,
}
use os_ex.Common.Int.{ℤ, eqb_ℤ}
use os_ex.Block.{Buffer, Text, CacheBlock, is_real, make_block, null_block}
use os_ex.Chain.{Node}
use os_ex.Manager.{CacheChain, CacheManager, insert_block}
use os_ex.Manager.Layout.{Stored}
use os_ex.Manager.Victim
use os_ex.Manager.Victim.{is_nil, evicts_first, ends_empty}
use os_ex.Manager.Insert.{Chosen}
use os_ex.Manager.Insertion.{block_id, added, added-IsValid, add_absent}
use os_ex.Policy.{
  Entry, all_above, drop_least, ends_in_slot, without_last, drops_first, make_space, admit,
}
use os_ex.Policy.View.{entry, view, view-append, length-view}
use os_ex.Policy.Lookup.{Implements}

ends_in_slot-view : (c : CacheChain) → ends_in_slot (view c) ≡ ends_empty c
ends_in_slot-view [] = refl
ends_in_slot-view (n ∷ []) = refl
ends_in_slot-view (n ∷ n' ∷ c) = ends_in_slot-view (n' ∷ c)

ends_empty_last :
    (xs : CacheChain) (n : Node CacheBlock)
    → is_real n.item ≡ false
    → ends_empty (xs ++ (n ∷ [])) ≡ true
ends_empty_last [] n e = rw e refl
ends_empty_last (x ∷ []) n e = rw e refl
ends_empty_last (x ∷ y ∷ xs) n e = ends_empty_last (y ∷ xs) n e

without_last-view :
    (xs : CacheChain) (n : Node CacheBlock) → without_last (view (xs ++ (n ∷ []))) ≡ view xs
unfolding without_last
without_last-view [] n = refl
without_last-view (x ∷ []) n = refl
without_last-view (x ∷ y ∷ xs) n = ap (◌∷◌ (entry x.item)) (without_last-view (y ∷ xs) n)

all_above-view :
    (n : ℕ) (c : CacheChain) → All (λ x. n < x.item.ref_count) c → all_above n (view c) ≡ true
all_above-view n [] h = refl
all_above-view n (x ∷ c) h = ground (arith, all_above-view n c h.1)

not_above :
    (n : ℕ) (xs : CacheChain) (g : Node CacheBlock) (ys : CacheChain)
    → g.item.ref_count ≤ n
    → all_above n (view (xs ++ (g ∷ ys))) ≡ false
not_above n [] g ys h = ground arith
not_above n (x ∷ xs) g ys h = ground (arith, not_above n xs g ys h)

drop_least-view :
    (xs : CacheChain) (g : Node CacheBlock) (ys : CacheChain)
    → All (λ n. g.item.ref_count ≤ n.item.ref_count) xs
    → All (λ n. g.item.ref_count < n.item.ref_count) ys
    → drop_least (view (xs ++ (g ∷ ys))) ≡ view (xs ++ ys)
unfolding drop_least
drop_least-view [] g ys h k = rw (all_above-view g.item.ref_count ys k) refl
drop_least-view (x ∷ xs) g ys h k =
    rw (not_above x.item.ref_count xs g ys h.0, drop_least-view xs g ys h.1 k) refl

all_above_same : (n : ℕ) (c : CacheChain) → Victim.all_above n c ≡ all_above n (view c)
all_above_same n [] = refl
all_above_same n (x ∷ c) = ap (λ z. ltb n x.item.ref_count && z) (all_above_same n c)

is_nil-view : (c : CacheChain) → is_nil c ≡ is_nil (view c)
is_nil-view [] = refl
is_nil-view (x ∷ c) = refl

evicts_first-view : (c : CacheChain) → evicts_first c ≡ drops_first (view c)
evicts_first-view [] = refl
evicts_first-view (n ∷ c) =
    rw (ends_in_slot-view (n ∷ c), all_above_same n.item.ref_count c, is_nil-view c) refl

-- The node that `insertBlock` takes is the entry that the policy drops.
make_space-Chosen :
    (xs : CacheChain) (g : Node CacheBlock) (ys : CacheChain)
    → Chosen xs g ys
    → make_space (view (xs ++ (g ∷ ys))) ≡ view (xs ++ ys)
make_space-Chosen xs g ys (Chosen.slot e nil) =
    rw (nil, ends_in_slot-view (xs ++ (g ∷ [])), ends_empty_last xs g e, append-nil)
      (without_last-view xs g)
make_space-Chosen xs g ys (Chosen.block least last full) =
    rw (ends_in_slot-view (xs ++ (g ∷ ys)), full) (drop_least-view xs g ys least last)

admit_parts :
    (n : ℕ) (e : Entry) (kept old : List Entry)
    → length kept ≡ n
    → admit n e (kept ++ old) ≡ e ∷ (kept ++ make_space old)
admit_parts n e kept old h = rw (← h, take_left kept old, drop_left kept old) refl

module _ (P : Stored) (a b c : ℕ) (file_id block_number : ℤ) (buff : Buffer) (path : Text)
    (m : CacheManager) (es : List Entry) (i : Implements P a b c m es) where
  -- The entry that is added.
  abbrev pub new_entry : Entry
  new_entry = entry (make_block file_id block_number (some buff) (some path))

  -- `insertBlock` implements what the policy says of a new block: of a block that is not in a
  -- well-formed manager, it leaves a well-formed manager that has the entries that the policy has
  -- then, in the same order and with the same counts. This is where the entry that goes is not the
  -- first one of the old section.
  pub insert_block-admit :
      1 ≤ c
      → eqb_ℤ block_number null_block ≡ false
      → P (block_id file_id block_number) (some buff)
      → m.blocks_map (block_id file_id block_number) ≡ none
      → drops_first (drop (a + b) es) ≡ false
      → (m' : CacheManager) × (insert_block file_id block_number buff path m ≡ done m')
        × Implements P a b c m' (admit (a + b) new_entry es)
  insert_block-admit hc real p absent kept =
      let v = i.0 in
      let front = view (v.new ++ v.mid) in
      let size : length front ≡ a + b =
        length-view (v.new ++ v.mid)
        ∙ omega (arith, length-append v.new v.mid, v.new_length, v.middle_length) in
      let whole : es ≡ front ++ view v.old =
        sym i.1
        ∙ ap view (v.layout.chain ∙ sym (append_assoc v.new v.mid v.old))
        ∙ view-append (v.new ++ v.mid) v.old in
      let behind : drop (a + b) es ≡ view v.old =
        ap (drop (a + b)) whole
        ∙ ap (λ n. drop n (front ++ view v.old)) (sym size)
        ∙ drop_left front (view v.old) in
      let kept' = evicts_first-view v.old ∙ ap drops_first (sym behind) ∙ kept in
      let x = added P a b c file_id block_number buff path m v hc real p absent kept' in
      let listed : es ≡ front ++ view (x.front ++ (x.gone ∷ x.behind)) =
        whole ∙ ap (λ z. front ++ view z) x.split in
      let after : view x.after.cache_chain ≡ new_entry ∷ (front ++ view (x.front ++ x.behind)) =
        x.viewed
        ∙ ap (λ z. new_entry ∷ view z) (sym (append_assoc v.new v.mid (x.front ++ x.behind)))
        ∙ ap (λ z. new_entry ∷ z) (view-append (v.new ++ v.mid) (x.front ++ x.behind)) in
      let policy : admit (a + b) new_entry es ≡ new_entry ∷ (front ++ view (x.front ++ x.behind)) =
        ap (admit (a + b) new_entry) listed
        ∙ admit_parts (a + b) new_entry front (view (x.front ++ (x.gone ∷ x.behind))) size
        ∙ ap (λ z. new_entry ∷ (front ++ z)) (make_space-Chosen x.front x.gone x.behind x.chosen) in
      (
        x.after,
        add_absent file_id block_number buff path m absent ∙ x.runs,
        (
          added-IsValid P a b c file_id block_number buff path m v hc real p absent x,
          after ∙ sym policy,
        ),
      )
