-- ===== src/Paths/Rename.antt =====
-- `updatePaths` over the whole cache: the paths change, and nothing else.
use os_ex.Common.{
  Bool-cases, ℕ, ◌≡◌, ◌∙◌, refl, sym, ap, subst, true, ◌⊎◌, inl, inr, List, [], ◌∷◌, ◌++◌, map,
  map-append, arith, All, length, done, if◌then◌else◌,
}
use os_ex.Block.{Section, Text, CacheBlock, set_path}
use os_ex.Chain.{Node, node}
use os_ex.Chain.Zip.{Starts}
use os_ex.Manager.{CacheChain, CacheManager}
use os_ex.Manager.Stems.{Sound}
use os_ex.Manager.Layout.{Stored, stem, stems, AllFit, Tagged, IsValid}
use os_ex.Paths.{slash, has_no_file, rename_path, rename_block, rename_nodes, update_paths}
use os_ex.Paths.Segments.{render, IsName, rename_segments, with_slash-render, rename_path-render}

module _ (path_of : Node CacheBlock → Text) where
  -- The node with another path.
  abbrev pub with_path : Node CacheBlock → Node CacheBlock
  with_path n = node n.id (set_path (path_of n) n.item)

  stems-with_path : (c : CacheChain) → stems (map with_path c) ≡ stems c
  stems-with_path [] = refl
  stems-with_path (n ∷ c) = ap (◌∷◌ (stem n)) (stems-with_path c)

  length-with_path : (c : CacheChain) → length (map with_path c) ≡ length c
  length-with_path [] = refl
  length-with_path (n ∷ c) = omega (arith, length-with_path c)

  Starts-with_path : (it : ℕ) (c : CacheChain) → Starts it c → Starts it (map with_path c)
  Starts-with_path it [] h = h
  Starts-with_path it (n ∷ c) h = h

  Tagged-with_path : (s : Section) (c : CacheChain) → Tagged s c → Tagged s (map with_path c)
  Tagged-with_path s [] h = tt
  Tagged-with_path s (n ∷ c) h = (h.0, Tagged-with_path s c h.1)

  AllFit-with_path : (P : Stored) (c : CacheChain) → AllFit P c → AllFit P (map with_path c)
  AllFit-with_path P [] h = tt
  AllFit-with_path P (n ∷ c) h = (h.0, AllFit-with_path P c h.1)

  pub with_path-IsValid :
      (P : Stored) (a b c : ℕ) (m : CacheManager)
      → IsValid P a b c m
      → IsValid P a b c (record m { cache_chain = map with_path m.cache_chain })
  with_path-IsValid P a b c m v =
      let l = v.layout in
      let parts : map with_path (v.new ++ (v.mid ++ v.old))
          ≡ map with_path v.new ++ (map with_path v.mid ++ map with_path v.old) =
        map-append with_path v.new (v.mid ++ v.old)
        ∙ ap (λ z. map with_path v.new ++ z) (map-append with_path v.mid v.old) in
      record {
        new = map with_path v.new;
        mid = map with_path v.mid;
        old = map with_path v.old;
        layout = record {
          chain = ap (map with_path) l.chain ∙ parts;
          sound =
              subst (λ s. Sound m.blocks_map s m.next_id) (sym (stems-with_path _) ∙ ap stems parts)
                l.sound;
          middle_at =
              subst (Starts m.middle_section_iter) (map-append with_path v.mid v.old)
                (Starts-with_path m.middle_section_iter (v.mid ++ v.old) l.middle_at);
          old_at = Starts-with_path m.old_section_iter v.old l.old_at;
          new_tagged = Tagged-with_path Section.new_section v.new l.new_tagged;
          middle_tagged = Tagged-with_path Section.middle_section v.mid l.middle_tagged;
          old_tagged = Tagged-with_path Section.old_section v.old l.old_tagged;
          fit = subst (AllFit P) parts (AllFit-with_path P _ l.fit);
        };
        new_length = length-with_path v.new ∙ v.new_length;
        middle_length = length-with_path v.mid ∙ v.middle_length;
        old_length = length-with_path v.old ∙ v.old_length;
      }

-- The names at a node are those on its path, unless it has no file.
abbrev pub HasNames : (ℕ → List Text) → Node CacheBlock → Type 0
HasNames names n =
    (has_no_file n.item ≡ true)
    ⊎ ((x : Text) × (xs : List Text) × (names n.id ≡ x ∷ xs)
        × All IsName (x ∷ xs)
        × (n.item.path ≡ render (x ∷ xs)))

module _ (ps ns : List Text) (names : ℕ → List Text) where
  -- The path of a node after the rename, where `names` are the names on the path at each node.
  abbrev pub new_path : Node CacheBlock → Text
  new_path n =
      if has_no_file n.item then n.item.path else render (rename_segments ps ns (names n.id))

module _ (p n : Text) (ps ns : List Text) (hp : All IsName (p ∷ ps)) (hn : All IsName (n ∷ ns))
    (names : ℕ → List Text) where
  abbrev prefix : Text
  prefix = render (p ∷ ps) ++ (slash ∷ [])

  rename_block_lem :
      (nd : Node CacheBlock)
      → HasNames names nd
      → rename_block prefix (render (n ∷ ns)) nd.item
        ≡ done (with_path (new_path (p ∷ ps) (n ∷ ns) names) nd).item
  rename_block_lem nd (inl e) = rw e
  rename_block_lem nd (inr (x, xs, e, h, path)) = elim (Bool-cases (has_no_file nd.item)) [
    | inl none ↦ rw none
    | inr file ↦
        let renamed =
          ap (rename_path prefix (render (n ∷ ns))) path
          ∙ (rename_path-render p n x ps ns xs hp hn h
              ∙ ap (λ z. done (render (rename_segments (p ∷ ps) (n ∷ ns) z))) (sym e)) in
        rw (file, renamed)
  ]

  rename_nodes_lem :
      (c : CacheChain)
      → All (HasNames names) c
      → rename_nodes prefix (render (n ∷ ns)) c
        ≡ done (map (with_path (new_path (p ∷ ps) (n ∷ ns) names)) c)
  unfolding rename_nodes
  rename_nodes_lem [] h = refl
  rename_nodes_lem (nd ∷ c) h = rw (rename_block_lem nd h.0, rename_nodes_lem c h.1)

  -- `updatePaths` on a well-formed manager whose paths are lists of names goes on: every block of a
  -- file has the path that `rename_segments` gives, and nothing else of the manager changes. It is
  -- well formed still.
  pub update_paths-IsValid :
      (P : Stored) (a b c : ℕ) (m : CacheManager)
      → IsValid P a b c m
      → All (HasNames names) m.cache_chain
      → let m' = record m {
        cache_chain = map (with_path (new_path (p ∷ ps) (n ∷ ns) names)) m.cache_chain;
      } in
        (update_paths (render (p ∷ ps)) (render (n ∷ ns)) m ≡ done m') × IsValid P a b c m'
  unfolding update_paths
  update_paths-IsValid P a b c m v h = (
    rw (with_slash-render p ps hp, rename_nodes_lem m.cache_chain h),
    with_path-IsValid (new_path (p ∷ ps) (n ∷ ns) names) P a b c m v,
  )
