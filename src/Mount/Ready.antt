-- ===== src/Mount/Ready.antt =====
-- What FUSE is started with where the arguments are accepted.
use os_ex.Common.{
  ℕ, ◌+◌, ◌≡◌, ◌∙◌, ◌<◌, ◌≤◌, ◌-◌, refl, sym, ap, subst, Bool, true, false, ◌||◌, not, none, some,
  [], ◌∷◌, ◌++◌, length, take_all, length-append, arith, lt→ltb, Outcome, done,
}
use os_ex.Common.Int.{ℤ, pos, negsuc, ltb_ℤ}
use os_ex.Block.{Text, BlockId, get_block_id}
use os_ex.Manager.{Doubles, CacheManager, construct, construct_sections, empty_slot}
use os_ex.Manager.Layout.{Stored, IsValid}
use os_ex.Manager.Construct.{construct_sections-IsValid}
use os_ex.Paths.{slash}
use os_ex.Handlers.Directory.{logfile_name}
use os_ex.Mount.{
  start_with, Host, Start, mounts, are_directories, are_sizes, set_root_dir, log_full_path, mount,
  main,
}

-- What is used of the arithmetic of doubles, for two finite fractions of a number of blocks: the test
-- on `floor` is the one on its value as an `int`, and fractions that are not above one together
-- are not more than the whole.
pub record Rounds (d : Doubles) (n : ℕ) (f_old f_new : d.Double) : Type 0 where
  pub old_floor : d.floor_below_one f_old (pos n) ≡ ltb_ℤ (d.floor_times f_old (pos n)) (pos 1)
  pub new_floor : d.floor_below_one f_new (pos n) ≡ ltb_ℤ (d.floor_times f_new (pos n)) (pos 1)
  pub sum_floor :
      (a c : ℕ)
      → d.sum_above_one f_old f_new ≡ false
      → d.floor_times f_new (pos n) ≡ pos a
      → d.floor_times f_old (pos n) ≡ pos c
      → a + c ≤ n

tests_false :
    (a b c e f g : Bool)
    → not (a || b || c || e || f || g) ≡ true
    → (a ≡ false) × (c ≡ false) × (f ≡ false)
tests_false a b c e f g h = ground arith

at_least_one : (z : ℤ) → ltb_ℤ z (pos 1) ≡ false → (a : ℕ) × (z ≡ pos a) × (1 ≤ a)
at_least_one (pos a) h = (a, refl, ground arith)
at_least_one (negsuc a) h = ground arith

-- A well-formed manager of `n` blocks that caches nothing, with no section empty but the middle one.
abbrev pub IsFresh : Stored → ℕ → CacheManager → Type 0
IsFresh P n m =
    (a : ℕ) × (b : ℕ) × (c : ℕ) × (a + b + c ≡ n)
    × (1 ≤ a)
    × (1 ≤ c)
    × IsValid P a b c m
    × ((k : BlockId) → m.blocks_map k ≡ none)

construct-IsFresh :
    (P : Stored) (d : Doubles) (n : ℕ) (f_old f_new : d.Double)
    → Rounds d n f_old f_new
    → P (get_block_id empty_slot) none
    → are_sizes d (pos n) f_old f_new ≡ true
    → IsFresh P n (construct d (pos n) f_old f_new)
unfolding construct
construct-IsFresh P d n f_old f_new rounds p h =
    let (old_ok, new_ok, sum_ok) =
      tests_false (d.floor_below_one f_old (pos n)) (d.at_least_one f_old)
        (d.floor_below_one f_new (pos n)) (d.at_least_one f_new) (d.sum_above_one f_old f_new)
        (ltb_ℤ (pos n) (pos 1)) h in
    let (c, ec, hc) = at_least_one (d.floor_times f_old (pos n)) (sym rounds.old_floor ∙ old_ok) in
    let (a, ea, ha) = at_least_one (d.floor_times f_new (pos n)) (sym rounds.new_floor ∙ new_ok) in
    let total : a + (n - (a + c)) + c ≡ n = omega (arith, rounds.sum_floor a c sum_ok ea ec) in
    let (valid, empty) = construct_sections-IsValid P a (n - (a + c)) c ha hc p in
    let same : construct_sections (pos (a + (n - (a + c)) + c)) (pos a) (pos c)
        ≡ construct d (pos n) f_old f_new =
      ap (λ k. construct_sections (pos k) (pos a) (pos c)) total
      ∙ sym (
          ap (λ z. construct_sections (pos n) z (d.floor_times f_old (pos n))) ea
          ∙ ap (λ z. construct_sections (pos n) (pos a) z) ec) in
    let (valid', empty') =
      subst (λ m. IsValid P a (n - (a + c)) c m × ((k : BlockId) → m.blocks_map k ≡ none)) same
        (valid, empty) in
    (a, n - (a + c), c, total, ha, hc, valid', empty')

module _ (P : Stored) (d : Doubles) (host : Host d) {World : Type 0} (world : World) where
  -- FUSE runs on the directory with one thread and a fresh cache of `n` blocks.
  abbrev pub IsReady : Text → Text → Text → ℕ → Outcome (Start World) → Type 0
  IsReady program full mount_dir n o =
      (m : CacheManager) × (o
        ≡ done (
            mounts (program ∷ mount_dir ∷ (b'-' ∷ b's' ∷ []) ∷ []) (record {
              logfile_full_path = full ++ (slash ∷ logfile_name);
              logfile = [];
              rootdir = full;
              cache_manager = m;
              world = world;
            })))
      × IsFresh P n m

  log_full_path_lem :
      (full : Text)
      → length full + 17 ≤ host.path_max
      → log_full_path d host world full ≡ done (full ++ (slash ∷ logfile_name))
  unfolding log_full_path
  log_full_path_lem full h =
      let room = take_all host.path_max logfile_name (omega arith) in
      let short : length (full ++ (slash ∷ logfile_name)) < host.path_max =
        omega (arith, length-append full (slash ∷ logfile_name)) in
      rw (room, lt→ltb _ _ short)

  -- `main`, on six arguments that it accepts, gives `fuse_main` the mount point and a state whose root
  -- is the real path of the first directory, whose log is the file `.filesystem.log` in it, and
  -- whose cache is well formed, has as many blocks as asked for, none of them cached, and a new and
  -- an old section that are not empty. The two fractions are finite, the path of the log fits in
  -- PATH_MAX, and the log can be opened.
  pub main-IsReady :
      (program root mount_dir blocks old new : Text) (full : Text) (n : ℕ) (f_old f_new : d.Double)
      → host.stoi blocks ≡ some (pos n)
      → host.stod old ≡ some f_old
      → host.stod new ≡ some f_new
      → Rounds d n f_old f_new
      → P (get_block_id empty_slot) none
      → are_directories d host world root mount_dir ≡ true
      → are_sizes d (pos n) f_old f_new ≡ true
      → host.realpath root ≡ some full
      → length full + 17 ≤ host.path_max
      → host.fopen (full ++ (slash ∷ logfile_name)) ≡ true
      → IsReady program full mount_dir n
          (main d host world (program ∷ root ∷ mount_dir ∷ blocks ∷ old ∷ new ∷ []))
  unfolding main start_with mount set_root_dir
  main-IsReady program root mount_dir blocks old new full n f_old f_new eb eo en rounds p dirs sizes
        real room opened =
      (
        construct d (pos n) f_old f_new,
        rw (
          eb,
          eo,
          en,
          dirs,
          sizes,
          mount,
          set_root_dir,
          real,
          log_full_path_lem full room,
          opened,
        ),
        construct-IsFresh P d n f_old f_new rounds p sizes,
      )
