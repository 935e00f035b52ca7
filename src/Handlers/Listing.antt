-- ===== src/Handlers/Listing.antt =====
-- `caching_readdir` on a directory with given entries, against a reading of their list.
use os_ex.Common.{
  ◌==◌, ◌&&◌, ◌∙◌, sym, ℕ, zero, suc, ◌++◌, ◌≡◌, ◌<◌, refl, Bool, true, false, inl, inr, Bool-cases,
  Option, none, some, List, [], ◌∷◌, All, All-append, arith, length, Outcome, done, if◌then◌else◌,
}
use os_ex.Block.{Text}
use os_ex.Paths.{slash}
use os_ex.Paths.Segments.{same_text}
use os_ex.Handlers.{System, CallName, Fs, log_call, caching_full_path}
use os_ex.Handlers.Directory.{Entry, logfile_name, is_log, fill, caching_readdir}

-- An entry of this name is hidden in the root, which is `/`, and in no other directory.
abbrev pub hides : Text → Entry → Bool
hides [] e = false
hides (c ∷ []) e = c == b'/' && same_text e.0 logfile_name
hides (c ∷ d ∷ path) e = false

is_log-hides : (path : Text) (e : Entry) → is_log path e ≡ hides path e
is_log-hides [] e = ground arith
is_log-hides (c ∷ []) e = ground arith
is_log-hides (c ∷ d ∷ path) e = ground arith

-- The entries that are shown: all but the log of the root, until the filler stops.
abbrev pub shown : (List Entry → Entry → Bool) → Text → List Entry → List Entry → List Entry
shown filler path names [] = names
shown filler path names (e ∷ es) =
    let skip = shown filler path names es in
    let more = shown filler path (names ++ (e ∷ [])) es in
    if hides path e then skip else if filler names e then names else more

-- The entry does not have the name of the log.
abbrev pub IsOther : Entry → Type 0
IsOther e = same_text e.0 logfile_name ≡ false

shown-IsOther :
    (filler : List Entry → Entry → Bool) (path : Text) (names es : List Entry)
    → same_text path (slash ∷ []) ≡ true
    → All IsOther names
    → All IsOther (shown filler path names es)
shown-IsOther filler path names [] root h = h
shown-IsOther filler path names (e ∷ es) root h = elim (Bool-cases (same_text e.0 logfile_name)) [
  | inl log ↦
      let hidden : hides path e ≡ true = sym (is_log-hides path e) ∙ rw (log, root) in
      rw hidden (shown-IsOther filler path names es root h)
  | inr other ↦
      let seen : hides path e ≡ false = sym (is_log-hides path e) ∙ rw (other) in
      elim (Bool-cases (filler names e)) [
        | inl stop ↦ rw (seen, stop) h
        | inr room ↦
            rw (seen, room)
              (shown-IsOther filler path (names ++ (e ∷ [])) es root
                (All-append IsOther names (e ∷ []) h (other, tt)))
      ]
]

module _ (sys : System) (filler : List Entry → Entry → Bool) (path : Text) (dp : ℕ) where
  -- The calls of `readdir` from here on give the entries and then none.
  abbrev pub Streams : List Entry → sys.World → Type 0
  Streams [] w = (sys.readdir dp w).0 ≡ none
  Streams (e ∷ es) w = ((sys.readdir dp w).0 ≡ some e) × Streams es (sys.readdir dp w).1

  -- The loop ends with that listing, and has done nothing but read.
  abbrev Shows : List Entry → Fs sys → Outcome (Option (List Entry) × Fs sys) → Type 0
  Shows es fs o = (w : sys.World) × (o ≡ done (some es, record fs { world = w }))

  fill-shown :
      (fuel : ℕ) (names es : List Entry) (fs : Fs sys) (full : Text)
      → length es < fuel
      → caching_full_path sys path fs ≡ done full
      → Streams es fs.world
      → Shows (shown filler path names es) fs (fill sys filler path dp fuel names fs)
  unfolding fill caching_full_path
  fill-shown zero names es fs full f e h = absurd (omega arith)
  fill-shown (suc fuel) names [] fs full f e h = rw (h, fill) (_, refl)
  fill-shown (suc fuel) names (x ∷ es) fs full f e (h, rest) =
      let again = λ (ns : List Entry).
        fill-shown fuel ns es (record fs { world = (sys.readdir dp fs.world).1 }) full
          (omega (arith, f)) e rest in
      elim (Bool-cases (is_log path x)) [
        | inl log ↦
            let hidden : hides path x ≡ true = sym (is_log-hides path x) ∙ log in
            rw (h, fill, e, log, hidden) (again names)
        | inr other ↦
            let seen : hides path x ≡ false = sym (is_log-hides path x) ∙ other in
            elim (Bool-cases (filler names x)) [
              | inl stop ↦ rw (h, fill, e, other, seen, stop) (_, refl)
              | inr room ↦ rw (h, fill, e, other, seen, room) (again (names ++ (x ∷ [])))
            ]
      ]

  -- `caching_readdir` of a path that fits, on a directory whose entries are read one by one, with more
  -- fuel than there are entries, shows all of them up to one at which the filler stops, but for those
  -- of the log's name in the root `/`, which it never shows; in every other directory it shows them. It logs the call, and does nothing else but read.
  pub caching_readdir-shown :
      (fuel : ℕ) (es : List Entry) (fs : Fs sys) (full : Text)
      → length es < fuel
      → caching_full_path sys path fs ≡ done full
      → Streams es (log_call sys CallName.readdir fs).world
      → let listed = shown filler path [] es in
        (w : sys.World) × (caching_readdir sys filler path dp fuel fs
          ≡ done (some listed, record (log_call sys CallName.readdir fs) { world = w }))
        × (same_text path (slash ∷ []) ≡ true → All IsOther listed)
  unfolding caching_readdir caching_full_path log_call
  caching_readdir-shown fuel es fs full f e h =
      let (w, runs) = fill-shown fuel [] es (log_call sys CallName.readdir fs) full f e h in
      (w, runs, λ root. shown-IsOther filler path [] es root tt)
