-- ===== src/Example/Start/Arguments.antt =====
-- What `main2` makes of its arguments.
use os_ex.Common.{
  ◌≡◌, ◌∙◌, refl, sym, ap, true, false, Option, none, List, [], ◌∷◌, ◌++◌, append_assoc, append-nil,
  All,
}
use os_ex.Block.{Text}
use os_ex.Bbfs.Start.{is_hyphen}
use os_ex.Example.Start.{without_last, from_arguments, main2}

options_skipped :
    (realpath : Text → Option Text) (before options rest : List Text)
    → All (λ o. is_hyphen o ≡ true) options
    → from_arguments realpath before (options ++ rest)
      ≡ from_arguments realpath (before ++ options) rest
unfolding from_arguments
options_skipped realpath before [] rest h =
    ap (λ l. from_arguments realpath l rest) (sym (append-nil before))
options_skipped realpath before (o ∷ options) rest h = rw h.0 (
    options_skipped realpath (before ++ (o ∷ [])) options rest h.1
    ∙ ap (λ l. from_arguments realpath l rest) (append_assoc before (o ∷ []) options))

-- `main2` takes the first argument that does not begin with a hyphen out of the arguments, and its real
-- path is the root; where there is none, it drops the last argument and leaves the root a null
-- pointer.
pub main2-arguments :
    (realpath : Text → Option Text) (program : Text) (options : List Text)
    → All (λ o. is_hyphen o ≡ true) options
    → ((root_dir : Text) (rest : List Text)
        → is_hyphen root_dir ≡ false
        → main2 realpath program (options ++ (root_dir ∷ rest))
          ≡ record { arguments = program ∷ (options ++ rest); root = realpath root_dir })
      × (main2 realpath program options
          ≡ record { arguments = without_last (program ∷ options); root = none })
unfolding main2 from_arguments
main2-arguments realpath program options h = (
  λ root_dir rest plain.
      options_skipped realpath (program ∷ []) options (root_dir ∷ rest) h ∙ rw plain refl,
  ap (from_arguments realpath (program ∷ [])) (sym (append-nil options))
      ∙ options_skipped realpath (program ∷ []) options [] h,
)
