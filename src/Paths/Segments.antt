-- ===== src/Paths/Segments.antt =====
-- `rename_path` on paths as lists of names: a directory and what is below it is renamed, and a path
-- that only begins with the same letters is not.
use os_ex.Common.{
  ℕ, ◌≡◌, ◌≢◌, ◌∙◌, refl, sym, ap, subst, Bool, true, false, ◌&&◌, Option, none, some, List, [],
  ◌∷◌, ◌++◌, append_assoc, append-nil, arith, All, length, drop, Outcome, done, ◌==◌, if◌then◌else◌,
  Bool-cases, inl, inr,
}
use os_ex.Block.{Text}
use os_ex.Paths.{
  slash, last_char, first_char, drop_last_char, with_slash, starts_with, without_slash,
  replace_prefix, rename_path,
}

-- `/a/b` for the names `a` and `b`.
abbrev pub render : List Text → Text
render [] = []
render (s ∷ ss) = slash ∷ (s ++ render ss)

-- The name of a file: some bytes, none of them a slash.
abbrev pub IsName : Text → Type 0
IsName [] = ⊥
IsName (c ∷ s) = All (λ d. d ≢ slash) (c ∷ s)

abbrev pub same_text : Text → Text → Bool
same_text [] [] = true
same_text (c ∷ s) (d ∷ t) = c == d && same_text s t
same_text _ _ = false

-- What is below the directory `ps`, if the path is that directory or below it.
abbrev pub below : List Text → List Text → Option (List Text)
below [] xs = some xs
below (p ∷ ps) [] = none
below (p ∷ ps) (x ∷ xs) = if same_text p x then below ps xs else none

abbrev pub moved_below : Option (List Text) → List Text → List Text → List Text
moved_below none ns xs = xs
moved_below (some rest) ns xs = ns ++ rest

-- The path after the directory or file `ps` has become `ns`.
abbrev pub rename_segments : List Text → List Text → List Text → List Text
rename_segments ps ns xs = moved_below (below ps xs) ns xs

-- The names, each with a slash behind it.
body : List Text → Text
body [] = []
body (s ∷ ss) = s ++ (slash ∷ body ss)

render-slash : (ss : List Text) → render ss ++ (slash ∷ []) ≡ slash ∷ body ss
unfolding body
render-slash [] = refl
render-slash (s ∷ ss) =
    ap (◌∷◌ slash) (append_assoc s (render ss) (slash ∷ []) ∙ ap (λ t. s ++ t) (render-slash ss))

last_append : (s : Text) (c : ℕ) → last_char (s ++ (c ∷ [])) ≡ done c
last_append [] c = refl
last_append (x ∷ []) c = refl
last_append (x ∷ y ∷ s) c = last_append (y ∷ s) c

drop_last_append : (s : Text) (c : ℕ) → drop_last_char (s ++ (c ∷ [])) ≡ s
drop_last_append [] c = refl
drop_last_append (x ∷ []) c = refl
drop_last_append (x ∷ y ∷ s) c = ap (◌∷◌ x) (drop_last_append (y ∷ s) c)

-- The last character of a path is the last of its last name.
last_name : (s t : Text) (c : ℕ) → last_char t ≡ done c → last_char (s ++ t) ≡ done c
last_name [] t c h = h
last_name (x ∷ []) [] c h = cc
last_name (x ∷ []) (y ∷ t) c h = h
last_name (x ∷ y ∷ s) t c h = last_name (y ∷ s) t c h

name_end : (s : Text) → IsName s → (c : ℕ) × (last_char s ≡ done c) × (c ≢ slash)
name_end (c ∷ []) h = (c, refl, h.0)
name_end (c ∷ d ∷ s) h = name_end (d ∷ s) h.1
name_end [] h = absurd h

render_end :
    (s : Text) (ss : List Text)
    → All IsName (s ∷ ss)
    → (c : ℕ) × (last_char (render (s ∷ ss)) ≡ done c) × (c ≢ slash)
render_end s [] h =
    let (c, e, ne) = name_end s h.0 in (c, rw append-nil (last_name (slash ∷ []) s c e), ne)
render_end s (t ∷ ss) h =
    let (c, e, ne) = render_end t ss h.1 in (c, last_name (slash ∷ s) (render (t ∷ ss)) c e, ne)

-- Names are compared whole, since each ends at its slash.
starts_with_name :
    (s t p q : Text)
    → All (λ d. d ≢ slash) s
    → All (λ d. d ≢ slash) t
    → starts_with (s ++ (slash ∷ p)) (t ++ (slash ∷ q)) ≡ (same_text s t && starts_with p q)
starts_with_name [] [] p q hs ht = refl
starts_with_name [] (d ∷ t) p q hs ht = ground arith
starts_with_name (c ∷ s) [] p q hs ht = ground arith
starts_with_name (c ∷ s) (d ∷ t) p q hs ht = ground (arith, starts_with_name s t p q hs.1 ht.1)

drop_name :
    (s t p q : Text)
    → same_text s t ≡ true
    → drop (length (s ++ (slash ∷ p))) (t ++ (slash ∷ q)) ≡ drop (length p) q
drop_name [] [] p q e = refl
drop_name [] (d ∷ t) p q e = cc
drop_name (c ∷ s) [] p q e = cc
drop_name (c ∷ s) (d ∷ t) p q e = drop_name s t p q (ground arith)

no_slash : (s : Text) → IsName s → All (λ d. d ≢ slash) s
no_slash [] h = absurd h
no_slash (c ∷ s) h = h

body-below-none :
    (ps xs : List Text)
    → All IsName ps
    → All IsName xs
    → below ps xs ≡ none
    → starts_with (body ps) (body xs) ≡ false
unfolding body
body-below-none [] xs hp hx e = cc
body-below-none ([] ∷ ps) [] hp hx e = absurd hp.0
body-below-none ((c ∷ p) ∷ ps) [] hp hx e = refl
body-below-none (p ∷ ps) (x ∷ xs) hp hx e =
    rw (starts_with_name p x (body ps) (body xs) (no_slash p hp.0) (no_slash x hx.0))
      (ground (arith, body-below-none ps xs hp.1 hx.1))

body-below-some :
    (ps xs rest : List Text)
    → All IsName ps
    → All IsName xs
    → below ps xs ≡ some rest
    → (starts_with (body ps) (body xs) ≡ true)
      × (drop (length (body ps)) (body xs) ≡ body rest)
      × All IsName rest
unfolding body
body-below-some [] xs rest hp hx e =
    let r : xs ≡ rest = cc in (refl, ap body r, subst (All IsName) r hx)
body-below-some (p ∷ ps) [] rest hp hx e = cc
body-below-some (p ∷ ps) (x ∷ xs) rest hp hx e = elim (Bool-cases (same_text p x)) [
  | inl same ↦
      let (starts, drops, names) = body-below-some ps xs rest hp.1 hx.1 (ground arith) in
      (
        starts_with_name p x (body ps) (body xs) (no_slash p hp.0) (no_slash x hx.0) ∙ ground arith,
        drop_name p x (body ps) (body xs) same ∙ drops,
        names,
      )
  | inr other ↦ absurd (ground arith)
]

render-append : (ss ts : List Text) → render (ss ++ ts) ≡ render ss ++ render ts
render-append [] ts = refl
render-append (s ∷ ss) ts =
    ap (λ t. slash ∷ (s ++ t)) (render-append ss ts)
    ∙ ap (◌∷◌ slash) (sym (append_assoc s (render ss) (render ts)))

first-body : (rest : List Text) → All IsName rest → (first_char (body rest) == slash) ≡ false
unfolding body
first-body [] h = refl
first-body ([] ∷ ss) h = absurd h.0
first-body ((c ∷ s) ∷ ss) h = ground arith

pub with_slash-render :
    (x : Text) (xs : List Text)
    → All IsName (x ∷ xs)
    → with_slash (render (x ∷ xs)) ≡ done (render (x ∷ xs) ++ (slash ∷ []))
unfolding with_slash
with_slash-render x xs h = let (c, e, ne) = render_end x xs h in rw e (ground arith)

without_slash-append : (s : Text) → without_slash (s ++ (slash ∷ [])) ≡ done s
unfolding without_slash
without_slash-append s = rw (last_append, drop_last_append)

replace_prefix-render :
    (n : Text) (ns rest : List Text)
    → All IsName (n ∷ ns)
    → All IsName rest
    → replace_prefix (render (n ∷ ns)) (body rest) ≡ done (render ((n ∷ ns) ++ rest))
unfolding replace_prefix
replace_prefix-render n ns rest h hr =
    let (c, e, ne) = render_end n ns h in
    let other : (c == slash) ≡ false = ground arith in
    let whole : (render (n ∷ ns) ++ (slash ∷ [])) ++ body rest
        ≡ render ((n ∷ ns) ++ rest) ++ (slash ∷ []) =
      append_assoc (render (n ∷ ns)) (slash ∷ []) (body rest)
      ∙ (ap (λ t. render (n ∷ ns) ++ t) (sym (render-slash rest))
          ∙ (sym (append_assoc (render (n ∷ ns)) (render rest) (slash ∷ []))
              ∙ ap (λ t. t ++ (slash ∷ [])) (sym (render-append (n ∷ ns) rest)))) in
    rw (e, other, first-body rest hr)
      (ap without_slash whole ∙ without_slash-append (render ((n ∷ ns) ++ rest)))

rename_by : Text → Text → Text → Text → Outcome Text
rename_by q t new path =
    if starts_with q t then replace_prefix new (drop (length q) t) else done path

rename_path_by :
    (q t new path : Text)
    → with_slash path ≡ done t
    → rename_path q new path ≡ rename_by q t new path
unfolding rename_path rename_by
rename_path_by q t new path e = rw e

rename_by-body :
    (p n x : Text) (ps ns xs : List Text)
    → All IsName (p ∷ ps)
    → All IsName (n ∷ ns)
    → All IsName (x ∷ xs)
    → (o : Option (List Text)) → below (p ∷ ps) (x ∷ xs) ≡ o
    → rename_by (slash ∷ body (p ∷ ps)) (slash ∷ body (x ∷ xs)) (render (n ∷ ns)) (render (x ∷ xs))
      ≡ done (render (moved_below (below (p ∷ ps) (x ∷ xs)) (n ∷ ns) (x ∷ xs)))
unfolding rename_by
rename_by-body p n x ps ns xs hp hn hx none e = rw (body-below-none (p ∷ ps) (x ∷ xs) hp hx e, e)
rename_by-body p n x ps ns xs hp hn hx (some rest) e =
    let (starts, drops, names) = body-below-some (p ∷ ps) (x ∷ xs) rest hp hx e in
    rw (starts, drops, e) (replace_prefix-render n ns rest hn names)

-- `updatePaths` gives a block below the renamed directory, or of the renamed file, the path below
-- the new name, and leaves every other path alone; also one that goes on with other letters, as
-- `/ab` does after `/a`. The old and the new path have at least one name each.
pub rename_path-render :
    (p n x : Text) (ps ns xs : List Text)
    → All IsName (p ∷ ps)
    → All IsName (n ∷ ns)
    → All IsName (x ∷ xs)
    → rename_path (render (p ∷ ps) ++ (slash ∷ [])) (render (n ∷ ns)) (render (x ∷ xs))
      ≡ done (render (rename_segments (p ∷ ps) (n ∷ ns) (x ∷ xs)))
rename_path-render p n x ps ns xs hp hn hx =
    rename_path_by (render (p ∷ ps) ++ (slash ∷ [])) (render (x ∷ xs) ++ (slash ∷ []))
      (render (n ∷ ns)) (render (x ∷ xs)) (with_slash-render x xs hx)
    ∙ (ap (λ q. rename_by q (render (x ∷ xs) ++ (slash ∷ [])) (render (n ∷ ns)) (render (x ∷ xs)))
          (render-slash (p ∷ ps))
        ∙ (ap (λ t. rename_by (slash ∷ body (p ∷ ps)) t (render (n ∷ ns)) (render (x ∷ xs)))
              (render-slash (x ∷ xs))
            ∙ rename_by-body p n x ps ns xs hp hn hx (below (p ∷ ps) (x ∷ xs)) refl))
