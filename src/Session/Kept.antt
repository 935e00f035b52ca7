-- ===== src/Session/Kept.antt =====
-- What each handler keeps: the root, the log and the cache.
use os_ex.Common.{
  if◌then◌else◌, Bool, Ensures, Ensures-bind, ℕ, ◌<◌, ◌≤◌, ◌^◌, ◌≡◌, ◌∙◌, refl, ap, subst,
  Bool-cases, inl, inr, Option, none, some, List, [], ◌∷◌, ◌++◌, append_assoc, length, Outcome,
  done, ◌>>=◌, zero, suc,
}
use os_ex.Common.Int.{ℤ}
use os_ex.Block.{BlockId, Buffer, Text}
use os_ex.Manager.{CacheManager}
use os_ex.Manager.Layout.{IsValid}
use os_ex.Paths.{update_paths}
use os_ex.Paths.Wherever.{update_paths-Ensures}
use os_ex.Read.{Call, gives, fails, manager_cache}
use os_ex.Read.Fetch.{Shows}
use os_ex.Read.File.{to_int, read_file}
use os_ex.Read.Slice.{read_file-Inv}
use os_ex.Read.Cached.{Backed, manager_safe}
use os_ex.Handlers.{
  System, CallName, LogLine, called, printed, Fs, Handler, log_call, caching_full_path,
  refering_logfile, unless_log, forward, rename_cached,
}
use os_ex.Handlers.Directory.{Entry, is_log, fill}
use os_ex.Handlers.Reading.{read_stated, ioctl_log}

-- The files stay as they are: wherever `fstat` succeeds, `pread` of a whole block gives what the file
-- has of it, which is the content of the block, and the size is that of the file, below 2 ^ 31. The
-- content of a block is a function of the inode as an `int` and the number, so two files whose inodes
-- are the same as an `int` have the same blocks here.
pub record Steady (sys : System) (content : BlockId → Buffer) : Type 0 where
  pub file : sys.Attributes → Buffer
  pub shows :
      (fh : ℕ) (w w' : sys.World) (att : sys.Attributes)
      → sys.fstat fh w ≡ (gives att, w')
      → let st = sys.stat_of att in
        Shows (sys.pread w' fh) content (to_int st.st_ino) st.st_blksize (file att)
  pub sized : (att : sys.Attributes) → (sys.stat_of att).st_size ≡ length (file att)

module _ (sys : System) (content : BlockId → Buffer) (a b c : ℕ) (origin : Fs sys) where
  -- Since the start, the root and the path of the log are the same, the log is only written on at
  -- its end, and the cache is well formed, with sections of the same sizes and no data but that
  -- of the files.
  pub record Serving (fs : Fs sys) : Type 0 where
    pub root : fs.rootdir ≡ origin.rootdir
    pub log_path : fs.logfile_full_path ≡ origin.logfile_full_path
    pub lines : List LogLine
    pub logged : fs.logfile ≡ origin.logfile ++ lines
    pub valid : IsValid (Backed content) a b c fs.cache_manager

  abbrev pub Keeps : {A : Type 0} → Outcome (A × Fs sys) → Type 0
  Keeps {A} = Ensures (λ (r : A × Fs sys). Serving r.1)

  pub log_call-Serving :
      (name : CallName) (fs : Fs sys) → Serving fs → Serving (log_call sys name fs)
  unfolding log_call
  log_call-Serving name fs s = record {
    root = s.root;
    log_path = s.log_path;
    lines = s.lines ++ (called (sys.time fs.world).0 name ∷ []);
    logged = ap (λ l. l ++ (called (sys.time fs.world).0 name ∷ [])) s.logged ∙ simp append_assoc;
    valid = s.valid;
  }

  pub with_world : (fs : Fs sys) (w : sys.World) → Serving fs → Serving (record fs { world = w })
  with_world fs w s = record {
    root = s.root;
    log_path = s.log_path;
    lines = s.lines;
    logged = s.logged;
    valid = s.valid;
  }

  pub forward-Keeps :
      {A : Type 0} (call : sys.World → Call A × sys.World) (fs : Fs sys)
      → Serving fs
      → Keeps (forward sys call fs)
  forward-Keeps call fs s = with_world fs (call fs.world).1 s

  pub unless_log-Keeps :
      {A : Type 0} (name : CallName) (path : Text) (errno : ℕ) (go : Text → Handler sys A)
      → ((full : Text) (fs : Fs sys) → Serving fs → Keeps (go full fs))
      → (fs : Fs sys) → Serving fs
      → Keeps (unless_log sys name path errno go fs)
  unfolding unless_log
  unless_log-Keeps {A} name path errno go kept fs s =
      let logged = log_call sys name fs in
      let s' = log_call-Serving name fs s in
      Ensures-bind (λ (r : Call A × Fs sys). Serving r.1) (caching_full_path sys path logged) _
        (λ full runs. elim (Bool-cases (refering_logfile sys full logged)) [
          | inl log ↦ rw log s'
          | inr other ↦ rw other (kept full logged s')
        ])

  with_cache :
      (fs : Fs sys) (m : CacheManager) (w : sys.World)
      → Serving fs
      → IsValid (Backed content) a b c m
      → Serving (record fs { cache_manager = m; world = w })
  with_cache fs m w s v = record {
    root = s.root;
    log_path = s.log_path;
    lines = s.lines;
    logged = s.logged;
    valid = v;
  }

  pub rename_cached-Keeps :
      (path newpath : Text) (r : Call (Unit {0}) × Fs sys)
      → Serving r.1
      → Keeps (rename_cached sys path newpath r)
  rename_cached-Keeps path newpath (fails errno, fs) s = s
  rename_cached-Keeps path newpath (gives t, fs) s =
      Ensures-bind (λ (r : Call (Unit {0}) × Fs sys). Serving r.1)
        (update_paths path newpath fs.cache_manager) _
        (λ m runs. with_cache fs m fs.world s (
          subst (Ensures (IsValid (Backed content) a b c)) runs
            (update_paths-Ensures (Backed content) a b c path newpath fs.cache_manager s.valid)))

  pub read_stated-Keeps :
      (path : Text) (fh size : ℕ) (offset : ℤ) (fs : Fs sys)
      → 1 ≤ a
      → 1 ≤ c
      → Steady sys content
      → size < 2 ^ 64
      → Serving fs
      → Keeps (read_stated sys path fh size offset (sys.fstat fh fs.world) fs)
  unfolding read_stated
  read_stated-Keeps path fh size offset fs ha hc steady bound s =
      stated (sys.fstat fh fs.world).0 (sys.fstat fh fs.world).1 refl
    where
      stated :
          (r : Call sys.Attributes) (w : sys.World)
          → sys.fstat fh fs.world ≡ (r, w)
          → Keeps (read_stated sys path fh size offset (r, w) fs)
      stated (fails errno) w e = tt
      stated (gives att) w e =
          let st = sys.stat_of att in
          Ensures-bind (λ (r : Call Buffer × Fs sys). Serving r.1)
            (read_file manager_cache (sys.pread w fh) st path size offset fs.cache_manager) _
            (λ x runs. with_cache fs x.1 w s (
              subst (Ensures (λ r. IsValid (Backed content) a b c r.1)) runs (
                read_file-Inv manager_cache (sys.pread w fh) st path content
                  (manager_safe content a b c ha hc) (steady.file att)
                  (steady.shows fh fs.world w att e) (steady.sized att) size offset fs.cache_manager
                  bound s.valid)))

  pub ioctl_log-Serving :
      (table : Text) (fs : Fs sys) → Serving fs → Serving (ioctl_log sys table fs)
  ioctl_log-Serving table fs s = record {
    root = s.root;
    log_path = s.log_path;
    lines = s.lines ++ (printed table ∷ []);
    logged = ap (λ l. l ++ (printed table ∷ [])) s.logged ∙ simp append_assoc;
    valid = s.valid;
  }

  fill_round :
      (filler : List Entry → Entry → Bool) (path : Text) (dp rounds : ℕ) (names : List Entry)
      (fs : Fs sys)
      → Serving fs
      → ((names : List Entry) → Keeps (fill sys filler path dp rounds names fs))
      → (o : Option Entry)
      → Keeps (elim o [
        | none ↦ done (some names, fs)
        | some e ↦ do
          fpath ← caching_full_path sys path fs
          let skip = fill sys filler path dp rounds names fs
          let stop = done (some names, fs)
          let more = fill sys filler path dp rounds (names ++ (e ∷ [])) fs
          if is_log path e then skip else if filler names e then stop else more
      ])
  fill_round filler path dp rounds names fs s rest none = s
  fill_round filler path dp rounds names fs s rest (some e) =
      Ensures-bind (λ (r : Option (List Entry) × Fs sys). Serving r.1)
        (caching_full_path sys path fs) _
        (λ full runs. elim (Bool-cases (is_log path e)) [
          | inl log ↦ rw log (rest names)
          | inr other ↦ elim (Bool-cases (filler names e)) [
            | inl stops ↦ rw (other, stops) s
            | inr takes ↦ rw (other, takes) (rest (names ++ (e ∷ [])))
          ]
        ])

  pub fill-Keeps :
      (filler : List Entry → Entry → Bool) (path : Text) (dp rounds : ℕ) (names : List Entry)
      (fs : Fs sys)
      → Serving fs
      → Keeps (fill sys filler path dp rounds names fs)
  unfolding fill
  fill-Keeps filler path dp zero names fs s = with_world fs fs.world s
  fill-Keeps filler path dp (suc rounds) names fs s =
      let read = sys.readdir dp fs.world in
      let now = with_world fs read.1 s in
      fill_round filler path dp rounds names (record fs { world = read.1 }) now
        (λ names'. fill-Keeps filler path dp rounds names' (record fs { world = read.1 }) now)
        read.0
