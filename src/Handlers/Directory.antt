-- ===== src/Handlers/Directory.antt =====
-- `caching_readdir` of CachingFileSystem.cpp.
use os_ex.Common.{
  ℕ, zero, suc, ◌++◌, Bool, ◌&&◌, Option, none, some, List, [], ◌∷◌, Outcome, done, ◌>>=◌,
  if◌then◌else◌,
}
use os_ex.Block.{Text}
use os_ex.Paths.{slash}
use os_ex.Paths.Segments.{same_text}
use os_ex.Handlers.{System, CallName, Fs, log_call, caching_full_path}

abbrev pub Entry : Type 0
Entry = Text × ℕ

-- `.filesystem.log`
abbrev pub logfile_name : Text
logfile_name =
    b'.' ∷ b'f' ∷ b'i' ∷ b'l' ∷ b'e' ∷ b's' ∷ b'y' ∷ b's' ∷ b't' ∷ b'e' ∷ b'm' ∷ b'.' ∷ b'l' ∷ b'o'
    ∷ b'g' ∷ []

-- The test for the log in the loop.
abbrev pub is_log : Text → Entry → Bool
is_log path e = same_text e.0 logfile_name && same_text path (slash ∷ [])

-- `filler` says of the entries that it took and a further one whether it stops the loop; it takes
-- the entry then if its buffer has room, which the program does not see.
module _ (sys : System) (filler : List Entry → Entry → Bool) (path : Text) (dp : ℕ) where
  -- The rounds of the loop, for as many entries as there is fuel; `none` is a loop that is not at its
  -- end then. The entries are those that the filler was given and did not stop at.
  unfoldable pub fill : ℕ → List Entry → Fs sys → Outcome (Option (List Entry) × Fs sys)
  fill zero names fs = done (none, fs)
  fill (suc fuel) names fs =
      let read = sys.readdir dp fs.world in
      let fs' = record fs { world = read.1 } in
      elim read.0 [
        | none ↦ done (some names, fs')
        | some e ↦ do
          fpath ← caching_full_path sys path fs'
          let skip = fill fuel names fs'
          let stop = done (some names, fs')
          let more = fill fuel (names ++ (e ∷ [])) fs'
          if is_log path e then skip else if filler names e then stop else more
      ]

  -- The result is 0, and the entries that were shown.
  unfoldable pub caching_readdir : ℕ → Fs sys → Outcome (Option (List Entry) × Fs sys)
  caching_readdir fuel fs = fill fuel [] (log_call sys CallName.readdir fs)
