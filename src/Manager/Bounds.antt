-- ===== src/Manager/Bounds.antt =====
-- `lower_middle` and `lower_old`: a boundary moves one node towards the head.
use os_ex.Common.{
  ℕ, ◌≡◌, ◌∙◌, refl, sym, ap, subst, inr, [], ◌∷◌, ◌++◌, append_assoc, All-mid, All-replace, done,
  ◌>>=◌,
}
use os_ex.Block.{Section, CacheBlock, set_section}
use os_ex.Chain.{Node}
use os_ex.Chain.Zip.{Starts, update_item, modify_at, retreat_before}
use os_ex.Manager.{CacheChain, CacheManager, lower_middle, lower_old}
use os_ex.Manager.Stems.{Sound}
use os_ex.Manager.Layout.{
  Stored, stems, Fit, AllFit, Layout, Layout-Distinct, stems-replace, Tagged-append,
}

abbrev pub tag : Section → Node CacheBlock → Node CacheBlock
tag s = update_item (set_section s)

regroup :
    (ns : CacheChain) (p : Node CacheBlock) (zs : CacheChain)
    → (ns ++ (p ∷ [])) ++ zs ≡ ns ++ (p ∷ zs)
regroup ns p zs = append_assoc ns (p ∷ []) zs

regroup_both :
    (new ms : CacheChain) (q : Node CacheBlock) (old : CacheChain)
    → new ++ ((ms ++ (q ∷ [])) ++ old) ≡ (new ++ ms) ++ (q ∷ old)
regroup_both new ms q old =
    ap (λ c. new ++ c) (regroup ms q old) ∙ sym (append_assoc new ms (q ∷ old))

AllFit-tag :
    (P : Stored) (s : Section) (xs : CacheChain) (n : Node CacheBlock) (ys : CacheChain)
    → AllFit P (xs ++ (n ∷ ys))
    → AllFit P (xs ++ (tag s n ∷ ys))
AllFit-tag P s xs n ys h = All-replace (Fit P) xs n (tag s n) ys (All-mid (Fit P) xs n ys h) h

Starts-tag :
    (it : ℕ) (s : Section) (ms : CacheChain) (q : Node CacheBlock) (old : CacheChain)
    → Starts it ((ms ++ (q ∷ [])) ++ old)
    → Starts it (ms ++ (tag s q ∷ old))
Starts-tag it s [] q old h = h
Starts-tag it s (x ∷ ms) q old h = h

module _ {P : Stored} {m : CacheManager} {ns mid old : CacheChain} (p : Node CacheBlock)
    (l : Layout P m (ns ++ (p ∷ [])) mid old) where
  -- The last node of the new section becomes the first of the middle section.
  pub lower_middle_lem :
      let p' = tag Section.middle_section p in
      let m' = record m { cache_chain = ns ++ (p' ∷ (mid ++ old)); middle_section_iter = p.id } in
      (lower_middle m ≡ done m') × Layout P m' ns (p' ∷ mid) old
  unfolding lower_middle
  lower_middle_lem =
      let e = regroup ns p (mid ++ old) in
      let d = Layout-Distinct l _ e in
      let s = Section.middle_section in
      (
        rw (
          l.chain,
          e,
          retreat_before _ p ns (mid ++ old) l.middle_at d,
          modify_at p (mid ++ old) (set_section s) ns d,
        ),
        record {
          chain = refl;
          sound =
              subst (λ c. Sound m.blocks_map c m.next_id)
                (ap stems e ∙ stems-replace ns p (tag s p) (mid ++ old) refl) l.sound;
          middle_at = refl;
          old_at = l.old_at;
          new_tagged = Tagged-append Section.new_section ns p l.new_tagged;
          middle_tagged = (inr refl, l.middle_tagged);
          old_tagged = l.old_tagged;
          fit = AllFit-tag P s ns p (mid ++ old) (subst (AllFit P) e l.fit);
        },
      )

module _ {P : Stored} {m : CacheManager} {new ms old : CacheChain} (q : Node CacheBlock)
    (l : Layout P m new (ms ++ (q ∷ [])) old) where
  -- The last node of the middle section becomes the first of the old section.
  pub lower_old_lem :
      let q' = tag Section.old_section q in
      let m' = record m { cache_chain = new ++ (ms ++ (q' ∷ old)); old_section_iter = q.id } in
      (lower_old m ≡ done m') × Layout P m' new ms (q' ∷ old)
  unfolding lower_old
  lower_old_lem =
      let e = regroup_both new ms q old in
      let d = Layout-Distinct l _ e in
      let s = Section.old_section in
      (
        rw (
          l.chain,
          e,
          retreat_before _ q (new ++ ms) old l.old_at d,
          modify_at q old (set_section s) (new ++ ms) d,
          append_assoc new ms,
        ),
        record {
          chain = refl;
          sound =
              subst (λ c. Sound m.blocks_map c m.next_id)
                (ap stems e
                  ∙ stems-replace (new ++ ms) q (tag s q) old refl
                  ∙ ap stems (append_assoc new ms (tag s q ∷ old)))
                l.sound;
          middle_at = Starts-tag m.middle_section_iter s ms q old l.middle_at;
          old_at = refl;
          new_tagged = l.new_tagged;
          middle_tagged = Tagged-append Section.middle_section ms q l.middle_tagged;
          old_tagged = (inr refl, l.old_tagged);
          fit =
              subst (AllFit P) (append_assoc new ms (tag s q ∷ old))
                (AllFit-tag P s (new ++ ms) q old (subst (AllFit P) e l.fit));
        },
      )

module _ {P : Stored} {m : CacheManager} {ns ms mid old : CacheChain} (p q : Node CacheBlock)
    (l : Layout P m (ns ++ (p ∷ [])) mid old)
    (e : tag Section.middle_section p ∷ mid ≡ ms ++ (q ∷ [])) where
  -- Both boundaries move; with an empty middle section the same node crosses both.
  pub lower_both_lem :
      let q' = tag Section.old_section q in
      let m' = record m {
        cache_chain = ns ++ (ms ++ (q' ∷ old));
        middle_section_iter = p.id;
        old_section_iter = q.id;
      } in
      ((lower_middle m >>= lower_old) ≡ done m') × Layout P m' ns ms (q' ∷ old)
  lower_both_lem =
      let p' = tag Section.middle_section p in
      let m1 = record m { cache_chain = ns ++ (p' ∷ (mid ++ old)); middle_section_iter = p.id } in
      let (low, l1) = lower_middle_lem p l in
      let (low', l2) = lower_old_lem q (subst (λ c. Layout P m1 ns c old) e l1) in (rw low low', l2)
