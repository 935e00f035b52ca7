-- ===== src/Manager/Construct.antt =====
-- The constructor of `CacheManager` builds an empty cache with its three sections.
use os_ex.Common.{
  ℕ, zero, suc, ◌+◌, ◌≡◌, ◌≢◌, ◌∙◌, ◌<◌, ◌≤◌, refl, sym, ap, subst, true, false, inl, ◌⊎◌, none, [],
  ◌∷◌, ◌++◌, append_assoc, arith, All, All-mono, All-left, All-right, length, take, drop,
  length-take, length-drop, take-append-drop, length-append, if◌then◌else◌,
}
use os_ex.Common.Int.{pos_add, ℤ, pos, ◌-ℤ◌, eqb_ℤ}
use os_ex.Block.{Section, BlockId, CacheBlock, get_block_id, is_real}
use os_ex.Chain.{Node, node}
use os_ex.Chain.Zip.{Starts, Distinct, ids}
use os_ex.Manager.{CacheChain, empty_slot, push_empty_slots, assign_bounds, construct_sections}
use os_ex.Manager.Stems.{Sound, index_of, all_empty, Unique, all_empty-packed}
use os_ex.Manager.Layout.{Stored, stems, Fit, Tagged, IsValid}

slots : ℕ → CacheChain
slots n = (push_empty_slots n).0

next-slots : (n : ℕ) → (push_empty_slots n).1 ≡ suc n
unfolding push_empty_slots
next-slots zero = refl
next-slots (suc n) = ap suc (next-slots n)

abbrev IsSlot : Node CacheBlock → Type 0
IsSlot n = n.item ≡ empty_slot

slots-IsSlot : (n : ℕ) → All IsSlot (slots n)
unfolding slots push_empty_slots
slots-IsSlot zero = tt
slots-IsSlot (suc n) = (refl, slots-IsSlot n)

length-slots : (n : ℕ) → length (slots n) ≡ n
unfolding slots push_empty_slots
length-slots zero = refl
length-slots (suc n) = ap suc (length-slots n)

ids-slots : (n : ℕ) → All (λ i. i < suc n) (ids (stems (slots n)))
unfolding slots push_empty_slots
ids-slots zero = tt
ids-slots (suc n) = (
  omega (arith, next-slots n),
  All-mono (λ i. i < suc n) (λ i. i < suc (suc n)) (λ i h. omega arith) _ (ids-slots n),
)

index_of-slots : (k : BlockId) (n : ℕ) → index_of k (stems (slots n)) ≡ none
unfolding slots push_empty_slots
index_of-slots k zero = refl
index_of-slots k (suc n) = index_of-slots k n

slots-Distinct : (n : ℕ) → Distinct (ids (stems (slots n)))
unfolding slots push_empty_slots
slots-Distinct zero = tt
slots-Distinct (suc n) = (
  All-mono (λ i. i < suc n) (λ i. i ≢ (push_empty_slots n).1) (λ i h. omega (arith, next-slots n)) _
      (ids-slots n),
  slots-Distinct n,
)

slots-Unique : (n : ℕ) → Unique (stems (slots n))
unfolding slots push_empty_slots
slots-Unique zero = tt
slots-Unique (suc n) = (index_of-slots _ n, slots-Unique n)

slots_empty : (n : ℕ) → all_empty (stems (slots n)) ≡ true
unfolding slots push_empty_slots
slots_empty zero = refl
slots_empty (suc n) = slots_empty n

slots-Sound : (n : ℕ) → Sound (λ _. none) (stems (slots n)) (suc n)
slots-Sound n = record {
  distinct = slots-Distinct n;
  fresh = ids-slots n;
  unique = slots-Unique n;
  filled = all_empty-packed (stems (slots n)) (slots_empty n);
  mapped = λ k. sym (index_of-slots k n);
}

-- One of the two iterators that the second loop of the constructor assigns.
pick : ℤ → ℕ → CacheChain → ℕ → ℕ
pick target i [] it = it
pick target i (n ∷ c) it = pick target (i + 1) c (if eqb_ℤ (pos i) target then n.id else it)

assign_bounds-pick :
    (fm fo : ℤ) (i : ℕ) (c : CacheChain) (middle old : ℕ)
    → assign_bounds fm fo i c (middle, old) ≡ (pick fm i c middle, pick fo i c old)
unfolding assign_bounds pick
assign_bounds-pick fm fo i [] middle old = refl
assign_bounds-pick fm fo i (n ∷ c) middle old = assign_bounds-pick fm fo (i + 1) c _ _

pick_past : (t i : ℕ) (c : CacheChain) (it : ℕ) → t < i → pick (pos t) i c it ≡ it
unfolding pick
pick_past t i [] it h = refl
pick_past t i (n ∷ c) it h = ground (arith, pick_past t (i + 1) c it (omega arith))

pick-Starts :
    (t i : ℕ) (xs ys : CacheChain) (it : ℕ)
    → t ≡ i + length xs
    → 1 ≤ length ys
    → Starts (pick (pos t) i (xs ++ ys) it) ys
unfolding pick
pick-Starts t i [] [] it e h = absurd (omega arith)
pick-Starts t i [] (y ∷ ys) it e h = ground (arith, pick_past t (i + 1) ys y.id)
pick-Starts t i (x ∷ xs) ys it e h = pick-Starts t (i + 1) xs ys _ (omega arith) h

slot-Tagged : (s : Section) (c : CacheChain) → All IsSlot c → Tagged s c
slot-Tagged s =
    All-mono IsSlot (λ n. (is_real n.item ≡ false) ⊎ (n.item.section ≡ s))
      (λ n e. inl (ap is_real e))

slot-Fit :
    (P : Stored) (n : Node CacheBlock) → P (get_block_id empty_slot) none → IsSlot n → Fit P n
slot-Fit P n p e = subst (λ b. Fit P (node n.id b)) (sym e) (omega arith, omega arith, p)

-- The sizes that the program computes are numbers; the rest is the middle section.
middle_size : (a b c : ℕ) → pos (a + b + c) -ℤ pos a -ℤ pos c ≡ pos b
unfolding ◌-ℤ◌
middle_size a b c = ground arith

construct_lem :
    (a b c : ℕ)
    → construct_sections (pos (a + b + c)) (pos a) (pos c) ≡ record {
      number_of_blocks = pos (a + b + c);
      blocks_map = λ _. none;
      cache_chain = slots (a + b + c);
      middle_section_iter = pick (pos (a + 1)) 1 (slots (a + b + c)) 0;
      old_section_iter = pick (pos (a + b + 1)) 1 (slots (a + b + c)) 0;
      next_id = suc (a + b + c);
    }
unfolding construct_sections slots
construct_lem a b c =
    rw (
      middle_size a b c,
      next-slots,
      pos_add a 1,
      pos_add a b,
      pos_add (a + b) 1,
      assign_bounds-pick,
    )

-- With a block at least in the new and in the old section, the constructor builds a well-formed
-- manager that caches nothing, whose sections have the sizes computed.
pub construct_sections-IsValid :
    (P : Stored) (a b c : ℕ)
    → 1 ≤ a
    → 1 ≤ c
    → P (get_block_id empty_slot) none
    → let m = construct_sections (pos (a + b + c)) (pos a) (pos c) in
      IsValid P a b c m × ((k : BlockId) → m.blocks_map k ≡ none)
construct_sections-IsValid P a b c ha hc p =
    let n = a + b + c in
    let ch = slots n in
    let new = take a ch in
    let mid = take b (drop a ch) in
    let old = drop b (drop a ch) in
    let e : mid ++ old ≡ drop a ch = take-append-drop b (drop a ch) in
    let e' : new ++ (mid ++ old) ≡ ch = ap (λ z. new ++ z) e ∙ take-append-drop a ch in
    let e3 : (new ++ mid) ++ old ≡ ch = append_assoc new mid old ∙ e' in
    let len : length ch ≡ n = length-slots n in
    let empty = subst (All IsSlot) (sym e') (slots-IsSlot n) in
    let tagged = λ (s : Section). slot-Tagged s (new ++ (mid ++ old)) empty in
    rw (construct_lem a b c) (
      record {
        new = new;
        mid = mid;
        old = old;
        layout = record {
          chain = sym e';
          sound = subst (λ z. Sound (λ _. none) (stems z) (suc n)) (sym e') (slots-Sound n);
          middle_at =
              subst (λ z. Starts (pick (pos (a + 1)) 1 z 0) (mid ++ old)) e'
                (pick-Starts (a + 1) 1 new (mid ++ old) 0 (omega (arith, len, length-take a ch))
                  (omega (arith, len, ap length e, length-drop a ch)));
          old_at =
              subst (λ z. Starts (pick (pos (a + b + 1)) 1 z 0) old) e3
                (pick-Starts (a + b + 1) 1 (new ++ mid) old 0
                  (omega (
                    arith,
                    len,
                    length-append new mid,
                    length-take a ch,
                    length-take b (drop a ch),
                    length-drop a ch,
                  ))
                  (omega (arith, len, length-drop b (drop a ch), length-drop a ch)));
          new_tagged = All-left _ new (mid ++ old) (tagged Section.new_section);
          middle_tagged =
              All-left _ mid old (All-right _ new (mid ++ old) (tagged Section.middle_section));
          old_tagged =
              All-right _ mid old (All-right _ new (mid ++ old) (tagged Section.old_section));
          fit = All-mono IsSlot (Fit P) (λ n e. slot-Fit P n p e) (new ++ (mid ++ old)) empty;
        };
        new_length = omega (arith, len, length-take a ch);
        middle_length = omega (arith, len, length-take b (drop a ch), length-drop a ch);
        old_length = omega (arith, len, length-drop b (drop a ch), length-drop a ch);
      },
      λ k. refl,
    )
