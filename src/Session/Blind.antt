-- ===== src/Session/Blind.antt =====
-- What the files under the mount point do at the path of the log never shows in a session.
use os_ex.Common.{ℕ, ◌≡◌, false}
use os_ex.Block.{Text}
use os_ex.Paths.Segments.{same_text}
use os_ex.Read.{Call}
use os_ex.Handlers.{System}

-- Other answers of the system calls that take the path of a file to look at, open or move.
pub record Calls (sys : System) : Type 0 where
  pub lstat : Text → sys.World → Call sys.Attributes × sys.World
  pub access : Text → ℕ → sys.World → Call (Unit {0}) × sys.World
  pub open_file : Text → sys.World → Call ℕ × sys.World
  pub opendir : Text → sys.World → Call ℕ × sys.World
  pub rename : Text → Text → sys.World → Call (Unit {0}) × sys.World

-- The system with those answers.
abbrev pub with_calls : (sys : System) → Calls sys → System
with_calls sys calls = record sys {
  lstat = calls.lstat;
  access = calls.access;
  open_file = calls.open_file;
  opendir = calls.opendir;
  rename = calls.rename;
}

-- They are the same on every path but that of the log; for a move, on every path to move from.
pub record AgreeOff (sys : System) (calls : Calls sys) (log : Text) : Type 0 where
  pub lstat : (p : Text) → same_text p log ≡ false → calls.lstat p ≡ sys.lstat p
  pub access : (p : Text) → same_text p log ≡ false → calls.access p ≡ sys.access p
  pub open_file : (p : Text) → same_text p log ≡ false → calls.open_file p ≡ sys.open_file p
  pub opendir : (p : Text) → same_text p log ≡ false → calls.opendir p ≡ sys.opendir p
  pub rename : (p : Text) → same_text p log ≡ false → calls.rename p ≡ sys.rename p

module _ (sys : System) (calls : Calls sys) (log : Text) (agree : AgreeOff sys calls log) where
  abbrev sys' : System
  sys' = with_calls sys calls
