-- ===== src/Handlers/Rename.antt =====
-- `caching_rename`: the file and the paths of the cached blocks.
use os_ex.Common.{ℕ, ◌≡◌, ◌⊎◌, inl, inr, refl, false, List, ◌∷◌, map, All, Outcome, done}
use os_ex.Block.{Text}
use os_ex.Manager.{CacheManager}
use os_ex.Manager.Layout.{Stored, IsValid}
use os_ex.Paths.Segments.{same_text, render, IsName}
use os_ex.Paths.Rename.{HasNames, with_path, new_path, update_paths-IsValid}
use os_ex.Read.{Call, gives, fails}
use os_ex.Handlers.{System, CallName, log_call, caching_full_path, Fs, caching_rename}

module _ (sys : System) (p n : Text) (ps ns : List Text) (hp : All IsName (p ∷ ps))
    (hn : All IsName (n ∷ ns)) (names : ℕ → List Text) (P : Stored) (a b c : ℕ) (fs : Fs sys)
    (v : IsValid P a b c fs.cache_manager)
    (h : All (HasNames names) fs.cache_manager.cache_chain) where
  -- The manager with the paths after the rename.
  abbrev pub renamed : CacheManager → CacheManager
  renamed m = record m {
    cache_chain = map (with_path (new_path (p ∷ ps) (n ∷ ns) names)) m.cache_chain;
  }

  -- What the handler leaves: the world as `rename` leaves it, and the cache to match its result.
  pub record Renamed (full new_full : Text) (o : Outcome (Call (Unit {0}) × Fs sys)) : Type 0 where
    pub reply : Call (Unit {0})
    pub after : Fs sys
    pub runs : o ≡ done (reply, after)
    pub forwarded :
        sys.rename full new_full (log_call sys CallName.rename fs).world ≡ (reply, after.world)
    pub valid : IsValid P a b c after.cache_manager
    pub cached :
        ((errno : ℕ) × (reply ≡ fails errno) × (after.cache_manager ≡ fs.cache_manager))
        ⊎ ((reply ≡ gives tt) × (after.cache_manager ≡ renamed fs.cache_manager))

  module _ (full new_full : Text) (e : caching_full_path sys (render (p ∷ ps)) fs ≡ done full)
      (e' : caching_full_path sys (render (n ∷ ns)) fs ≡ done new_full)
      (other : same_text full fs.logfile_full_path ≡ false) where
    by_reply :
        (r : Call (Unit {0})) (w : sys.World)
        → sys.rename full new_full (log_call sys CallName.rename fs).world ≡ (r, w)
        → Renamed full new_full (caching_rename sys (render (p ∷ ps)) (render (n ∷ ns)) fs)
    unfolding caching_rename log_call caching_full_path
    by_reply (fails errno) w q = record {
      reply = fails errno;
      after = record (log_call sys CallName.rename fs) { world = w };
      runs = rw (e, e', other, q);
      forwarded = q;
      valid = v;
      cached = inl (errno, refl, refl);
    }
    by_reply (gives t) w q =
        let (moves, valid) =
          update_paths-IsValid p n ps ns hp hn names P a b c fs.cache_manager v h in
        record {
          reply = gives tt;
          after = record (log_call sys CallName.rename fs) {
            world = w;
            cache_manager = renamed fs.cache_manager;
          };
          runs = rw (e, e', other, q, moves);
          forwarded = q;
          valid = valid;
          cached = inr (refl, refl);
        }

    -- `caching_rename` of a file that is not the log, on paths that fit and are lists of names, over a
    -- well-formed cache whose paths are lists of names, returns what `rename` of the full paths does.
    -- If that fails the cache is as before; else every block of the renamed file or below the renamed
    -- directory has its new path. The cache is well formed in both cases.
    pub caching_rename-Renamed :
        Renamed full new_full (caching_rename sys (render (p ∷ ps)) (render (n ∷ ns)) fs)
    caching_rename-Renamed =
        by_reply (sys.rename full new_full (log_call sys CallName.rename fs).world).0
          (sys.rename full new_full (log_call sys CallName.rename fs).world).1 refl
