-- ===== src/Bbfs/Start/Arguments.antt =====
-- What `main` of bbfs.c makes of its arguments.
use os_ex.Common.{
  ◌≡◌, ◌∙◌, refl, sym, ap, true, false, ◌||◌, List, [], ◌∷◌, ◌++◌, append-nil, append_assoc, ◌==◌,
}
use os_ex.Block.{Text}
use os_ex.Bbfs.Start.{
  Host, usage, mounts, is_hyphen, log_name, log_open, mount, from_arguments, bb_main,
}

from_arguments_lem :
    (host : Host) (before options : List Text) (root_dir mount_point : Text)
    → from_arguments host before (options ++ (root_dir ∷ mount_point ∷ []))
      ≡ mount host (before ++ options) root_dir mount_point
unfolding from_arguments
from_arguments_lem host before [] root_dir mount_point =
    ap (λ l. mount host l root_dir mount_point) (sym (append-nil before))
from_arguments_lem host before (o ∷ []) root_dir mount_point = refl
from_arguments_lem host before (o ∷ o' ∷ []) root_dir mount_point =
    ap (λ l. mount host l root_dir mount_point) (append_assoc before (o ∷ []) (o' ∷ []))
from_arguments_lem host before (o ∷ o' ∷ o'' ∷ options) root_dir mount_point =
    from_arguments_lem host (before ++ (o ∷ [])) (o' ∷ o'' ∷ options) root_dir mount_point
    ∙ ap (λ l. mount host l root_dir mount_point)
        (append_assoc before (o ∷ []) (o' ∷ o'' ∷ options))

-- `main` of bbfs, for a user who is not root and where memory and the log file can be had, runs FUSE
-- on all its arguments but the last but one, whose real path is the root; where the last or the last
-- but one begins with a hyphen, it prints the usage and aborts.
pub bb_main-mounts :
    (host : Host) (program root_dir mount_point : Text) (options : List Text)
    → (host.getuid == 0) || (host.geteuid == 0) ≡ false
    → host.malloc ≡ true
    → host.fopen log_name ≡ true
    → let run = bb_main host (program ∷ (options ++ (root_dir ∷ mount_point ∷ []))) in
      (is_hyphen root_dir || is_hyphen mount_point ≡ false
        → run ≡ mounts (program ∷ (options ++ (mount_point ∷ []))) (host.realpath root_dir))
      × (is_hyphen root_dir || is_hyphen mount_point ≡ true → run ≡ usage)
unfolding bb_main mount log_open
bb_main-mounts host program root_dir mount_point options user room opened =
    let given = from_arguments_lem host (program ∷ []) options root_dir mount_point in
    (λ plain. rw (user, given, plain, room, opened), λ hyphen. rw (user, given, hyphen))
