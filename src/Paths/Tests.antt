-- ===== src/Paths/Tests.antt =====
-- A rename of the directory `/a` to `/c/d`, on one path and on a cache.
use os_ex.Common.{
  ℕ, ◌≡◌, refl, List, [], ◌∷◌, ◌++◌, arith, ◌==◌, if◌then◌else◌, some, done, inl, inr,
}
use os_ex.Common.Int.{pos}
use os_ex.Block.{Section, Text, CacheBlock}
use os_ex.Chain.{node}
use os_ex.Manager.{CacheManager, CacheChain, empty_slot}
use os_ex.Manager.Stems.{index_of}
use os_ex.Manager.Layout.{Stored, IsValid, stems}
use os_ex.Paths.{slash, rename_path, update_paths}
use os_ex.Paths.Segments.{render, IsName, rename_path-render}
use os_ex.Paths.Rename.{update_paths-IsValid}

abbrev pub a : Text
a = b'a' ∷ []

abbrev pub b : Text
b = b'b' ∷ []

abbrev pub c : Text
c = b'c' ∷ []

pub a-IsName : IsName a
a-IsName = (ground arith, tt)

pub ab-IsName : IsName (a ++ b)
ab-IsName = (ground arith, (ground arith, tt))

pub b-IsName : IsName b
b-IsName = (ground arith, tt)

pub c-IsName : IsName c
c-IsName = (ground arith, tt)

rename_path-render_example :
    rename_path (render (a ∷ []) ++ (slash ∷ [])) (render (c ∷ b ∷ [])) (render (a ∷ b ∷ []))
    ≡ done (render (c ∷ b ∷ b ∷ []))
rename_path-render_example =
    rename_path-render a c a [] (b ∷ []) (b ∷ []) (a-IsName, tt) (c-IsName, (b-IsName, tt))
      (a-IsName, (b-IsName, tt))

abbrev pub cached : ℕ → Section → Text → CacheBlock
cached n s path = record {
  ref_count = 1;
  block_number = pos n;
  file_id = pos 7;
  buff = some (n ∷ []);
  section = s;
  path = path;
}

-- The block in the new section is of `/a/b` and the first of the old section of `/ab`.
abbrev pub chain : Text → CacheChain
chain path =
    node 3 (cached 0 Section.new_section path)
    ∷ node 2 (cached 1 Section.old_section (render ((a ++ b) ∷ [])))
    ∷ node 1 empty_slot
    ∷ []

abbrev pub cache : Text → CacheManager
cache path = record {
  number_of_blocks = pos 3;
  blocks_map = λ k. index_of k (stems (chain path));
  cache_chain = chain path;
  middle_section_iter = 2;
  old_section_iter = 2;
  next_id = 4;
}

abbrev pub any_data : Stored
any_data k y = Unit {0}

pub cache-IsValid : (path : Text) → IsValid any_data 1 0 2 (cache path)
cache-IsValid path = record {
  new = node 3 (cached 0 Section.new_section path) ∷ [];
  mid = [];
  old = node 2 (cached 1 Section.old_section (render ((a ++ b) ∷ []))) ∷ node 1 empty_slot ∷ [];
  layout = record {
    chain = refl;
    sound = record {
      distinct = omega arith;
      fresh = omega arith;
      unique = (refl, (refl, (refl, tt)));
      filled = refl;
      mapped = λ k. refl;
    };
    middle_at = refl;
    old_at = refl;
    new_tagged = (inr refl, tt);
    middle_tagged = tt;
    old_tagged = (inr refl, (inl refl, tt));
    fit = (
      (omega arith, omega arith, tt),
      ((omega arith, omega arith, tt), ((omega arith, omega arith, tt), tt)),
    );
  };
  new_length = refl;
  middle_length = refl;
  old_length = refl;
}

abbrev pub names : ℕ → List Text
names n = if n == 3 then a ∷ b ∷ [] else (a ++ b) ∷ []

update_paths-IsValid_example :
    (update_paths (render (a ∷ [])) (render (c ∷ b ∷ [])) (cache (render (a ∷ b ∷ [])))
      ≡ done (cache (render (c ∷ b ∷ b ∷ []))))
    × IsValid any_data 1 0 2 (cache (render (c ∷ b ∷ b ∷ [])))
update_paths-IsValid_example =
    update_paths-IsValid a c [] (b ∷ []) (a-IsName, tt) (c-IsName, (b-IsName, tt)) names any_data 1
      0 2 (cache (render (a ∷ b ∷ []))) (cache-IsValid (render (a ∷ b ∷ [])))
      (
        inr (a, b ∷ [], refl, (a-IsName, (b-IsName, tt)), refl),
        (inr (a ++ b, [], refl, (ab-IsName, tt), refl), (inl refl, tt)),
      )
