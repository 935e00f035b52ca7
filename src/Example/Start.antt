-- ===== src/Example/Start.antt =====
-- `main2` of main.c: what is done before FUSE takes over.
pub mod Arguments
use os_ex.Common.{
  ℕ, Bool, true, false, Option, none, some, List, [], ◌∷◌, ◌++◌, ◌==◌, if◌then◌else◌,
}
use os_ex.Block.{Text}
use os_ex.Bbfs.Start.{is_hyphen}

-- What `fuse_main` gets: the arguments, and the root that was set, if `realpath` gave one.
pub record Mounted : Type 0 where
  pub arguments : List Text
  pub root : Option Text

-- At the end of the list `argv[argc]` is a null pointer, for which `realpath` gives another one;
-- then `argc--` takes off the last argument.
abbrev pub without_last : List Text → List Text
without_last [] = []
without_last (x ∷ []) = []
without_last (x ∷ y ∷ xs) = x ∷ without_last (y ∷ xs)

module _ (realpath : Text → Option Text) where
  -- The first loop, after the arguments `before`, and the second one, which shifts the rest.
  unfoldable pub from_arguments : List Text → List Text → Mounted
  from_arguments before [] = record { arguments = without_last before; root = none }
  from_arguments before (arg ∷ rest) =
      let later = from_arguments (before ++ (arg ∷ [])) rest in
      if is_hyphen arg then later else record { arguments = before ++ rest; root = realpath arg }

  -- The program's name is not looked at.
  unfoldable pub main2 : Text → List Text → Mounted
  main2 program arguments = from_arguments (program ∷ []) arguments
