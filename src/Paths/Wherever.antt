-- ===== src/Paths/Wherever.antt =====
-- `updatePaths` on any paths, wherever it goes on.
use os_ex.Common.{
  ◌>>=◌, ◌∙◌, Ensures, Ensures-bind, Bool-cases, ◌≡◌, refl, ap, subst, inl, inr, [], ◌∷◌, map,
  Outcome, done, undefined, exited, ℕ,
}
use os_ex.Block.{Text, CacheBlock, set_path}
use os_ex.Chain.{Node, node}
use os_ex.Manager.{CacheChain, CacheManager}
use os_ex.Manager.Layout.{Stored, IsValid}
use os_ex.Paths.{has_no_file, with_slash, rename_path, rename_block, rename_nodes, update_paths}
use os_ex.Paths.Rename.{with_path, with_path-IsValid}

module _ (prefix new_prefix : Text) where
  abbrev path_in : Text → Outcome CacheBlock → Text
  path_in path (done b) = b.path
  path_in path _ = path

  -- The path that the round gives to a node, or its own where the round does not go on.
  abbrev path_after : Node CacheBlock → Text
  path_after n = path_in n.item.path (rename_block prefix new_prefix n.item)

  rename_block-Ensures :
      (n : Node CacheBlock)
      → Ensures (λ b. b ≡ set_path (path_after n) n.item) (rename_block prefix new_prefix n.item)
  rename_block-Ensures n = elim (Bool-cases (has_no_file n.item)) [
    | inl none ↦ rw none refl
    | inr file ↦ rw file (renamed (rename_path prefix new_prefix n.item.path))
  ]
    where
      renamed :
          (o : Outcome Text)
          → let o' = o >>= (λ p. done (set_path p n.item)) in
            Ensures (λ b. b ≡ set_path (path_in n.item.path o') n.item) o'
      renamed (done p) = refl
      renamed (undefined e) = tt
      renamed (exited k) = tt

  rename_nodes-Ensures :
      (c : CacheChain)
      → Ensures (λ c'. c' ≡ map (with_path path_after) c) (rename_nodes prefix new_prefix c)
  unfolding rename_nodes
  rename_nodes-Ensures [] = refl
  rename_nodes-Ensures (n ∷ c) =
      let Q = λ (c' : CacheChain). c' ≡ map (with_path path_after) (n ∷ c) in
      Ensures-bind Q (rename_block prefix new_prefix n.item) _ (λ b is_b.
        let at =
          subst (Ensures (λ b. b ≡ set_path (path_after n) n.item)) is_b (rename_block-Ensures n) in
        Ensures-bind Q (rename_nodes prefix new_prefix c) _ (λ rest is_rest.
          let behind =
            subst (Ensures (λ c'. c' ≡ map (with_path path_after) c)) is_rest
              (rename_nodes-Ensures c) in
          ap (λ x. node n.id x ∷ rest) at ∙ ap (λ t. with_path path_after n ∷ t) behind))

module _ (P : Stored) (a b c : ℕ) where
  pub update_paths-Ensures :
      (prefix new_prefix : Text) (m : CacheManager)
      → IsValid P a b c m
      → Ensures (IsValid P a b c) (update_paths prefix new_prefix m)
  unfolding update_paths
  update_paths-Ensures prefix new_prefix m v =
      Ensures-bind (IsValid P a b c) (with_slash prefix) _ (λ p is_p.
        Ensures-bind (IsValid P a b c) (rename_nodes p new_prefix m.cache_chain) _ (λ c' runs.
          let at =
            subst (Ensures (λ c'. c' ≡ map (with_path (path_after p new_prefix)) m.cache_chain))
              runs (rename_nodes-Ensures p new_prefix m.cache_chain) in
          rw at (with_path-IsValid (path_after p new_prefix) P a b c m v)))
