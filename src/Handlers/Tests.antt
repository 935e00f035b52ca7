-- ===== src/Handlers/Tests.antt =====
-- Handlers on a system where every call succeeds, with PATH_MAX of 16.
use os_ex.Common.{
  if◌then◌else◌, ◌==◌, All, Bool, true, false, Option, some, arith, drop, take, none, List, ℕ, suc,
  ◌≡◌, refl, [], ◌∷◌, ◌++◌, inl, inr, done,
}
use os_ex.Paths.Segments.{render}
use os_ex.Paths.Tests.{
  a, b, c, a-IsName, b-IsName, c-IsName, ab-IsName, cache, cache-IsValid, any_data, names,
}
use os_ex.Read.{gives}
use os_ex.Handlers.{
  called, System, CallName, FileSystem, log_call, caching_full_path, caching_rename,
}
use os_ex.Paths.{slash}
use os_ex.Paths.Segments.{same_text}
use os_ex.Handlers.Directory.{Entry, logfile_name, caching_readdir}
use os_ex.Handlers.Listing.{IsOther, caching_readdir-shown}
use os_ex.Common.Int.{ℤ, pos, negsuc}
use os_ex.Block.{BlockId, Buffer}
use os_ex.Manager.{CacheManager, construct_sections, push_empty_slots}
use os_ex.Manager.Construct.{construct_sections-IsValid}
use os_ex.Read.Fetch.{Shows, file_block}
use os_ex.Read.File.{to_int}
use os_ex.Read.Cached.{Backed, IsPrepared}
use os_ex.Handlers.Reading.{caching_read}
use os_ex.Handlers.Served.{Serves, caching_read-Serves}
use os_ex.Handlers.Rename.{Renamed, caching_rename-Renamed}

abbrev pub file : List ℕ
file = 1 ∷ 2 ∷ 3 ∷ 4 ∷ 5 ∷ []

-- The world counts the seconds.
abbrev pub sys : System
sys = record {
  World = ℕ;
  Attributes = Unit {0};
  path_max = 16;
  time = λ w. (w, suc w);
  lstat = λ path w. (gives tt, w);
  fstat = λ fd w. (gives tt, w);
  access = λ path mask w. (gives tt, w);
  open_file = λ path w. (gives 3, w);
  close = λ fd w. (gives tt, w);
  opendir = λ path w. (gives 4, w);
  closedir = λ dp w. (gives tt, w);
  rename = λ path newpath w. (gives tt, w);
  readdir = λ dp w. (none, w);
  stat_of = λ a. record { st_ino = 7; st_size = 5; st_blksize = 2 };
  pread = λ w fd count offset. gives (take count (drop offset file));
}

-- The root is `/c` and the log is `/c/c`.
abbrev pub mounted : FileSystem ℕ
mounted = record {
  logfile_full_path = render (c ∷ c ∷ []);
  logfile = [];
  rootdir = render (c ∷ []);
  cache_manager = cache (render (a ∷ b ∷ []));
  world = 5;
}

abbrev logged : CallName → FileSystem ℕ
logged name = record mounted { logfile = called 5 name ∷ []; world = 6 }

caching_rename-Renamed_example :
    Renamed sys a c []
      (b ∷ [])
      (a-IsName, tt)
      (c-IsName, (b-IsName, tt))
      names
      any_data
      1
      0
      2
      mounted
      (cache-IsValid (render (a ∷ b ∷ [])))
      (
        inr (a, b ∷ [], refl, (a-IsName, (b-IsName, tt)), refl),
        (inr (a ++ b, [], refl, (ab-IsName, tt), refl), (inl refl, tt)),
      )
      (render (c ∷ a ∷ []))
      (render (c ∷ c ∷ b ∷ []))
      (caching_rename sys (render (a ∷ [])) (render (c ∷ b ∷ [])) mounted)
unfolding caching_full_path
caching_rename-Renamed_example =
    caching_rename-Renamed sys a c [] (b ∷ []) (a-IsName, tt) (c-IsName, (b-IsName, tt)) names
      any_data 1 0 2 mounted (cache-IsValid (render (a ∷ b ∷ [])))
      (
        inr (a, b ∷ [], refl, (a-IsName, (b-IsName, tt)), refl),
        (inr (a ++ b, [], refl, (ab-IsName, tt), refl), (inl refl, tt)),
      )
      (render (c ∷ a ∷ [])) (render (c ∷ c ∷ b ∷ [])) refl refl refl

-- The directory has `a`, the log and `b`, and is read from second 6 on.
abbrev entry_at : ℕ → Option Entry
entry_at w =
    if w == 6
    then some (b'a' ∷ [], 11)
    else if w == 7
    then some (logfile_name, 12)
    else if w == 8
    then some (b'b' ∷ [], 13)
    else none

abbrev with_entries : System
with_entries = record sys { readdir = λ dp w. (entry_at w, suc w) }

-- A filler whose buffer is never full.
abbrev takes : List Entry → Entry → Bool
takes names e = false

caching_readdir-shown_example :
    let listed : List Entry = (b'a' ∷ [], 11) ∷ (b'b' ∷ [], 13) ∷ [] in
    (w : ℕ) × (caching_readdir with_entries takes (b'/' ∷ []) 4 9 mounted
      ≡ done (some listed, record (logged CallName.readdir) { world = w }))
    × (same_text (b'/' ∷ []) (slash ∷ []) ≡ true → All IsOther listed)
unfolding log_call caching_full_path
caching_readdir-shown_example =
    caching_readdir-shown with_entries takes (b'/' ∷ []) 4 9
      ((b'a' ∷ [], 11) ∷ (logfile_name, 12) ∷ (b'b' ∷ [], 13) ∷ []) mounted
      (render (c ∷ []) ++ (slash ∷ [])) (omega arith) refl (refl, (refl, (refl, refl)))

-- Block `n` of any file has the two bytes of `file` from `2 * n` on.
abbrev numbered : ℤ → Buffer
numbered (pos n) = file_block 2 file n
numbered (negsuc n) = []

abbrev pub content : BlockId → Buffer
content k = numbered k.block_number

abbrev pub fresh_cache : CacheManager
fresh_cache = construct_sections (pos 4) (pos 1) (pos 2)

pub fresh_cache-IsPrepared : IsPrepared content 1 1 2 2 fresh_cache
unfolding construct_sections push_empty_slots
fresh_cache-IsPrepared = record {
  valid =
      (construct_sections-IsValid (Backed content) 1 1 2 (omega arith) (omega arith)
        (λ real. ground arith)).0;
  slots = 4;
  greatest = 1;
  kept = (refl, (omega arith, (omega arith, (omega arith, (omega arith, tt)))));
  room = omega arith;
  low = omega arith;
  positive = omega arith;
}

abbrev pub fresh : FileSystem ℕ
fresh = record mounted { cache_manager = fresh_cache }

file-Shows : Shows (sys.pread 6 3) content (to_int 7) 2 file
file-Shows = record {
  small = omega arith;
  positive = omega arith;
  pread_block = λ n h. refl;
  content_block = λ n. refl;
}

caching_read-Serves_example :
    Serves sys content 1 1 2 fresh
      (3 ∷ 4 ∷ 5 ∷ [])
      6
      (caching_read sys (render (a ∷ [])) 3 4 (pos 2) fresh)
unfolding log_call caching_full_path
caching_read-Serves_example =
    caching_read-Serves sys content 1 1 2 fresh (render (a ∷ [])) (render (c ∷ a ∷ [])) 3 4 2 file
      tt 6 (omega arith) (omega arith) refl refl refl file-Shows refl (omega arith) refl
      (omega arith) fresh_cache-IsPrepared
