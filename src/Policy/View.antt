-- ===== src/Policy/View.antt =====
-- The list of the cache as the policy sees it.
use os_ex.Common.{
  ℕ, ◌+◌, ◌-◌, ◌≡◌, ◌<◌, ◌≤◌, ◌∙◌, refl, sym, ap, suc, [], ◌∷◌, ◌++◌, List, map, map-append, length,
  arith,
}
use os_ex.Block.{Section, CacheBlock, get_block_id}
use os_ex.Chain.{Node}
use os_ex.Manager.{CacheChain}
use os_ex.Manager.Bounds.{tag}
use os_ex.Policy.{Entry, count_at}

abbrev pub entry : CacheBlock → Entry
entry b = record { key = get_block_id b; count = b.ref_count; content = b.buff; path = b.path }

abbrev pub view : CacheChain → List Entry
view = map (λ n. entry n.item)

pub view-append : (xs ys : CacheChain) → view (xs ++ ys) ≡ view xs ++ view ys
view-append xs ys = map-append (λ n. entry n.item) xs ys

-- A block in another section is the same to the policy.
pub view-tag :
    (s : Section) (xs : CacheChain) (p : Node CacheBlock) (ys : CacheChain)
    → view (xs ++ (tag s p ∷ ys)) ≡ view ((xs ++ (p ∷ [])) ++ ys)
view-tag s [] p ys = refl
view-tag s (x ∷ xs) p ys = ap (◌∷◌ (entry x.item)) (view-tag s xs p ys)

pub length-view : (xs : CacheChain) → length (view xs) ≡ length xs
length-view [] = refl
length-view (x ∷ xs) = ap suc (length-view xs)

-- A reference is counted exactly behind the new section.
pub count_at-new : (a n : ℕ) (e : Entry) → n < a → count_at (a - n) e ≡ e
count_at-new a n e h =
    let some : a - n ≡ suc (a - n - 1) = omega (arith, h) in ap (λ k. count_at k e) some

pub count_at-other :
    (a n : ℕ) (e : Entry) → a ≤ n → count_at (a - n) e ≡ record e { count = e.count + 1 }
count_at-other a n e h = let none : a - n ≡ 0 = omega (arith, h) in ap (λ k. count_at k e) none

-- Both boundaries move, and the policy sees nothing of it.
pub view_shifted :
    (ns : CacheChain) (p : Node CacheBlock) (mid ms : CacheChain) (q : Node CacheBlock)
    (old : CacheChain)
    → tag Section.middle_section p ∷ mid ≡ ms ++ (q ∷ [])
    → view (ns ++ (ms ++ (tag Section.old_section q ∷ old)))
      ≡ view ((ns ++ (p ∷ [])) ++ (mid ++ old))
view_shifted ns p mid ms q old e =
    view-append ns (ms ++ (tag Section.old_section q ∷ old))
    ∙ ap (λ l. view ns ++ l)
        (view-tag Section.old_section ms q old ∙ ap (λ c. view (c ++ old)) (sym e))
    ∙ sym (view-append ns (tag Section.middle_section p ∷ (mid ++ old)))
    ∙ view-tag Section.middle_section ns p (mid ++ old)
