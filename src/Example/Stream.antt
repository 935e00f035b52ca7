-- ===== src/Example/Stream.antt =====
-- `Readdir` on a directory with given entries, against a reading of the list of the entries.
use os_ex.Common.{
  ℕ, zero, suc, ◌≡◌, ◌<◌, refl, Bool, true, false, inl, inr, Bool-cases, Option, some, List, [],
  ◌∷◌, ◌++◌, arith, length, Outcome, done,
}
use os_ex.Common.Int.{ℤ}
use os_ex.Block.{Text}
use os_ex.Bbfs.Directories.{is_null, Listing}
use os_ex.Bbfs.Stream.{taken}
use os_ex.Example.{LibCall, System, State}
use os_ex.Example.Methods.{print, invoke}
use os_ex.Example.Directory
use os_ex.Example.Wrap.{instance, wrap_readdir}

module _ (sys : System) (filler : List Text → Text → Bool) (fh : ℤ) where
  -- The calls of `readdir` from here on give the entries, and then a null pointer.
  abbrev pub Streams : List Text → sys.World → Type 0
  Streams [] w = is_null (sys.call (LibCall.readdir fh) w).0.ret ≡ true
  Streams (x ∷ xs) w =
      let (r, w') = sys.call (LibCall.readdir fh) w in
      (is_null r.ret ≡ false) × (r.filled ≡ x) × Streams xs w'

  -- The loop ends with that listing.
  abbrev Lists : Listing → Outcome (Option Listing × State sys.World) → Type 0
  Lists l o = (t : State sys.World) × (o ≡ done (some l, t))

  fill-taken :
      (fuel : ℕ) (names : List Text) (x : Text) (xs : List Text) (s : State sys.World)
      → length xs < fuel
      → Streams xs s.world
      → Lists (taken filler names (x ∷ xs)) (Directory.fill sys filler fh fuel names x s)
  unfolding Directory.fill invoke
  fill-taken zero names x xs s f h = absurd (omega arith)
  fill-taken (suc fuel) names x [] s f h = elim (Bool-cases (filler names x)) [
    | inl full ↦ rw full (_, refl)
    | inr room ↦ rw (room, h) (_, refl)
  ]
  fill-taken (suc fuel) names x (y ∷ ys) s f (more, name, rest) =
      elim (Bool-cases (filler names x)) [
        | inl full ↦ rw full (_, refl)
        | inr room ↦
            rw (room, more, name)
              (fill-taken fuel (names ++ (x ∷ [])) y ys _ (omega (arith, f)) rest)
      ]

  -- `wrap_readdir` on a directory whose entries are read one by one, with as much fuel as there are
  -- entries, returns what the reading of their list gives: all names and 0, or -ENOMEM and the names
  -- that the filler took before it was full.
  pub wrap_readdir-taken :
      (fuel : ℕ) (path : Text) (offset : ℤ) (x : Text) (xs : List Text) (s : State sys.World)
      → length xs < fuel
      → Streams (x ∷ xs) s.world
      → (t : State sys.World) × (wrap_readdir sys filler fh fuel path offset s
          ≡ done (some (taken filler [] (x ∷ xs)), t))
  unfolding wrap_readdir instance Directory.readdir print invoke
  wrap_readdir-taken fuel path offset x xs s f (more, name, rest) =
      rw (more, name) (fill-taken fuel [] x xs _ f rest)
