-- ===== src/Bbfs/Stream.antt =====
-- `bb_readdir` on a directory with given entries, against a reading of the list of the entries.
use os_ex.Common.{
  ℕ, zero, suc, ◌≡◌, ◌<◌, refl, Bool, true, false, inl, inr, Bool-cases, Option, some, List, [],
  ◌∷◌, ◌++◌, arith, length, Outcome, done, if◌then◌else◌,
}
use os_ex.Common.Int.{ℤ, pos}
use os_ex.Block.{Text}
use os_ex.Bbfs.{FileInfo, SysCall, System, State}
use os_ex.Bbfs.Logging.{minus, log_msg, log_fi, invoke}
use os_ex.Bbfs.Directories.{is_null, enomem, Listing, fill, bb_readdir}

-- The names that the filler takes, from a list of entries, until it is full.
abbrev pub taken : (List Text → Text → Bool) → List Text → List Text → Listing
taken filler names [] = record { retstat = pos 0; names = names }
taken filler names (x ∷ xs) =
    let rest = taken filler (names ++ (x ∷ [])) xs in
    if filler names x then record { retstat = minus enomem; names = names } else rest

module _ (sys : System) (filler : List Text → Text → Bool) (fi : FileInfo) where
  -- The calls of `readdir` from here on give the entries, and then a null pointer.
  abbrev pub Streams : List Text → sys.World → Type 0
  Streams [] w = is_null (sys.call (SysCall.readdir fi.fh) w).0.ret ≡ true
  Streams (x ∷ xs) w =
      let (r, w') = sys.call (SysCall.readdir fi.fh) w in
      (is_null r.ret ≡ false) × (r.filled ≡ x) × Streams xs w'

  -- The loop ends with that listing.
  abbrev Lists : Listing → Outcome (Option Listing × State sys.World) → Type 0
  Lists l o = (t : State sys.World) × (o ≡ done (some l, t))

  fill-taken :
      (fuel : ℕ) (names : List Text) (x : Text) (xs : List Text) (s : State sys.World)
      → length xs < fuel
      → Streams xs s.world
      → Lists (taken filler names (x ∷ xs)) (fill sys filler fi fuel names x s)
  unfolding fill log_msg invoke log_fi
  fill-taken zero names x xs s f h = absurd (omega arith)
  fill-taken (suc fuel) names x [] s f h = elim (Bool-cases (filler names x)) [
    | inl full ↦ rw full (_, refl)
    | inr room ↦ rw (room, h) (_, refl)
  ]
  fill-taken (suc fuel) names x (y ∷ ys) s f (more, name, rest) =
      elim (Bool-cases (filler names x)) [
        | inl full ↦ rw full (_, refl)
        | inr room ↦
            rw (room, more, name)
              (fill-taken fuel (names ++ (x ∷ [])) y ys _ (omega (arith, f)) rest)
      ]

  -- `bb_readdir` on a directory whose entries are read one by one, with as much fuel as there are
  -- entries, returns what the reading of their list gives: all names and 0, or -ENOMEM and the names
  -- that the filler took before it was full.
  pub bb_readdir-taken :
      (fuel : ℕ) (path : Text) (offset : ℤ) (x : Text) (xs : List Text) (s : State sys.World)
      → length xs < fuel
      → Streams (x ∷ xs) s.world
      → (t : State sys.World) × (bb_readdir sys filler fi fuel path offset s
          ≡ done (some (taken filler [] (x ∷ xs)), t))
  unfolding bb_readdir log_msg invoke
  bb_readdir-taken fuel path offset x xs s f (more, name, rest) =
      rw (more, name) (fill-taken fuel [] x xs _ f rest)
