-- ===== src/Manager/Spare.antt =====
-- What a hit and an insertion do to the number of empty slots and to the greatest count.
use os_ex.Common.{
  Ensures, Ensures-bind, ℕ, ◌+◌, ◌≡◌, ◌∙◌, ◌≤◌, refl, sym, ap, subst, true, false, inl, inr,
  Bool-cases, [], ◌∷◌, arith, All, Outcome, done, ◌==◌, if◌then◌else◌,
}
use os_ex.Block.{Section, CacheBlock, is_real, set_section}
use os_ex.Chain.{Node, deref, modify, erase}
use os_ex.Manager.{CacheChain}

-- 1 for an empty slot.
abbrev pub slot : CacheBlock → ℕ
slot b = if is_real b then 0 else 1

abbrev pub spare : CacheChain → ℕ
spare [] = 0
spare (n ∷ c) = slot n.item + spare c

abbrev pub Low : ℕ → CacheChain → Type 0
Low k = All (λ n. n.item.ref_count ≤ k)

-- So many empty slots, and counts up to that.
abbrev pub Keeps : ℕ → ℕ → CacheChain → Type 0
Keeps s k c = (spare c ≡ s) × Low k c

pub done_inj : {A : Type 0} (a b : A) → done a ≡ done b → a ≡ b
done_inj {A} a b e = ap out e
  where
    out : Outcome A → A
    out (done x) = x
    out _ = a

pub deref-Low : (it k : ℕ) (c : CacheChain) → Low k c → Ensures (λ b. b.ref_count ≤ k) (deref it c)
unfolding deref
deref-Low it k [] h = tt
deref-Low it k (n ∷ c) (h, hs) = elim (Bool-cases (n.id == it)) [
  | inl here ↦ rw here h
  | inr there ↦ rw there (deref-Low it k c hs)
]

deref_here :
    (it : ℕ) (n : Node CacheBlock) (c : CacheChain) (b : CacheBlock)
    → (n.id == it) ≡ true
    → deref it (n ∷ c) ≡ done b
    → n.item ≡ b
unfolding deref
deref_here it n c b here e = done_inj n.item b (sym (rw here refl) ∙ e)

deref_there :
    (it : ℕ) (n : Node CacheBlock) (c : CacheChain) (b : CacheBlock)
    → (n.id == it) ≡ false
    → deref it (n ∷ c) ≡ done b
    → deref it c ≡ done b
unfolding deref
deref_there it n c b there e = sym (rw there refl) ∙ e

pub modify-Keeps :
    (it k : ℕ) (f : CacheBlock → CacheBlock) (c : CacheChain) (b : CacheBlock)
    → deref it c ≡ done b
    → slot (f b) ≡ slot b
    → (f b).ref_count ≤ k
    → Low k c
    → Ensures (Keeps (spare c) k) (modify it f c)
unfolding modify
modify-Keeps it k f [] b e same low hs = tt
modify-Keeps it k f (n ∷ c) b e same low (h, hs) = elim (Bool-cases (n.id == it)) [
  | inl here ↦
      let at = deref_here it n c b here e in
      rw here (
        ap (λ s. s + spare c) (subst (λ x. slot (f x) ≡ slot x) (sym at) same),
        (subst (λ x. (f x).ref_count ≤ k) (sym at) low, hs),
      )
  | inr there ↦
      let rest = modify-Keeps it k f c b (deref_there it n c b there e) same low hs in
      rw there (
        Ensures-bind (Keeps (spare (n ∷ c)) k) (modify it f c) (λ c'. done (n ∷ c'))
          (λ c' runs.
            let (s, l) = subst (Ensures (Keeps (spare c) k)) runs rest in
            (ap (λ x. slot n.item + x) s, (h, l))))
]

pub set_section-Keeps :
    (it k : ℕ) (s : Section) (c : CacheChain)
    → Low k c
    → Ensures (Keeps (spare c) k) (modify it (set_section s) c)
unfolding modify
set_section-Keeps it k s [] hs = tt
set_section-Keeps it k s (n ∷ c) (h, hs) = elim (Bool-cases (n.id == it)) [
  | inl here ↦ rw here (refl, (h, hs))
  | inr there ↦ rw there (
      Ensures-bind (Keeps (spare (n ∷ c)) k) (modify it (set_section s) c) (λ c'. done (n ∷ c'))
        (λ c' runs.
          let (e, l) = subst (Ensures (Keeps (spare c) k)) runs (set_section-Keeps it k s c hs) in
          (ap (λ x. slot n.item + x) e, (h, l))))
]

pub erase-spare :
    (it k : ℕ) (c : CacheChain) (b : CacheBlock)
    → deref it c ≡ done b
    → Low k c
    → Ensures (λ c'. (slot b + spare c' ≡ spare c) × Low k c') (erase it c)
unfolding erase
erase-spare it k [] b e hs = tt
erase-spare it k (n ∷ c) b e (h, hs) = elim (Bool-cases (n.id == it)) [
  | inl here ↦ rw here (ap (λ x. slot x + spare c) (sym (deref_here it n c b here e)), hs)
  | inr there ↦
      let rest = erase-spare it k c b (deref_there it n c b there e) hs in
      rw there (
        Ensures-bind (λ c'. (slot b + spare c' ≡ spare (n ∷ c)) × Low k c') (erase it c)
          (λ c'. done (n ∷ c'))
          (λ c' runs.
            let (s, l) =
              subst (Ensures (λ c'. (slot b + spare c' ≡ spare c) × Low k c')) runs rest in
            (omega (arith, s), (h, l))))
]
