-- ===== src/Session/Handled.antt =====
-- What each request keeps.
use os_ex.Common.{
  ◌||◌, ◌==◌, Bool, ◌%◌, Ensures, Ensures-bind, ℕ, ◌≤◌, ◌≡◌, subst, Bool-cases, inl, inr, Option,
  none, some, List, [], Outcome, done, ◌>>=◌,
}
use os_ex.Block.{BlockId, Buffer, Text}
use os_ex.Read.{Call}
use os_ex.Table.{cache_to_string}
use os_ex.Handlers.{
  Handler, System, CallName, Fs, log_call, caching_full_path, refering_logfile, unless_log, forward,
  caching_getattr, caching_fgetattr, caching_access, caching_open, caching_flush, caching_release,
  caching_opendir, caching_releasedir, caching_rename, caching_init, caching_destroy,
  open_for_reading,
}
use os_ex.Handlers.Directory.{Entry, caching_readdir}
use os_ex.Handlers.Reading.{caching_read, caching_ioctl}
use os_ex.Session.{Request, IsSized, handle, answered, listed}
use os_ex.Session.Kept.{
  Steady, Serving, Keeps, log_call-Serving, with_world, forward-Keeps, unless_log-Keeps,
  rename_cached-Keeps, read_stated-Keeps, ioctl_log-Serving, fill-Keeps,
}

module _ (sys : System) (content : BlockId → Buffer) (a b c : ℕ) (ha : 1 ≤ a) (hc : 1 ≤ c)
    (steady : Steady sys content) (origin : Fs sys) where
  abbrev pub Ok : Fs sys → Type 0
  Ok = Serving sys content a b c origin

  -- If the loop of `readdir` is at its end, the state is as it should be.
  abbrev pub KeepsSome : Outcome (Option (Fs sys)) → Type 0
  KeepsSome = Ensures (λ (o : Option (Fs sys)). (fs : Fs sys) → o ≡ some fs → Ok fs)

  answered-Keeps :
      {A : Type 0} (o : Outcome (Call A × Fs sys))
      → Keeps sys content a b c origin o
      → KeepsSome (answered sys o)
  answered-Keeps {A} o h =
      Ensures-bind (λ (o : Option (Fs sys)). (fs : Fs sys) → o ≡ some fs → Ok fs) o
        (λ r. done (some r.1))
        (λ x runs fs e.
          let same : x.1 ≡ fs = cc in
          subst Ok same (subst (Ensures (λ (r : Call A × Fs sys). Ok r.1)) runs h))

  open-Keeps :
      (flags : ℕ) (full : Text) (fs : Fs sys)
      → Ok fs
      → Keeps sys content a b c origin (open_for_reading sys flags full fs)
  open-Keeps flags full fs s = elim (Bool-cases ((flags % 4 == 1) || (flags % 4 == 2))) [
    | inl writes ↦ rw writes s
    | inr reads ↦ rw reads (forward-Keeps sys content a b c origin (sys.open_file full) fs s)
  ]

  rename-Keeps :
      (path newpath : Text) (fs : Fs sys)
      → Ok fs
      → Keeps sys content a b c origin (caching_rename sys path newpath fs)
  unfolding caching_rename
  rename-Keeps path newpath fs s =
      let Q = λ (r : Call (Unit {0}) × Fs sys). Ok r.1 in
      let now = log_call sys CallName.rename fs in
      let s' = log_call-Serving sys content a b c origin CallName.rename fs s in
      Ensures-bind Q (caching_full_path sys path now) _ (λ full e.
        Ensures-bind Q (caching_full_path sys newpath now) _ (λ new_full e'.
          elim (Bool-cases (refering_logfile sys full now)) [
            | inl log ↦ rw log s'
            | inr other ↦ rw other (
                rename_cached-Keeps sys content a b c origin path newpath _ (
                  with_world sys content a b c origin now (sys.rename full new_full now.world).1
                    s'))
          ]))

  ioctl-Keeps : (fs : Fs sys) → Ok fs → Keeps sys content a b c origin (caching_ioctl sys fs)
  unfolding caching_ioctl
  ioctl-Keeps fs s =
      let logged = log_call-Serving sys content a b c origin CallName.ioctl fs s in
      Ensures-bind (λ (r : Call (Unit {0}) × Fs sys). Ok r.1)
        (cache_to_string (log_call sys CallName.ioctl fs).cache_manager) _
        (λ table runs.
          ioctl_log-Serving sys content a b c origin table (log_call sys CallName.ioctl fs) logged)

  releasedir-Keeps :
      (path : Text) (dp : ℕ) (fs : Fs sys)
      → Ok fs
      → Keeps sys content a b c origin (caching_releasedir sys path dp fs)
  unfolding caching_releasedir
  releasedir-Keeps path dp fs s =
      let now = log_call sys CallName.releasedir fs in
      let s' = log_call-Serving sys content a b c origin CallName.releasedir fs s in
      elim (Bool-cases (refering_logfile sys path now)) [
        | inl log ↦ rw log s'
        | inr other ↦ rw other (forward-Keeps sys content a b c origin (sys.closedir dp) now s')
      ]

  readdir-Keeps :
      (filler : List Entry → Entry → Bool) (path : Text) (dp rounds : ℕ) (fs : Fs sys)
      → Ok fs
      → KeepsSome (caching_readdir sys filler path dp rounds fs >>= listed sys)
  unfolding caching_readdir
  readdir-Keeps filler path dp rounds fs s =
      Ensures-bind (λ (o : Option (Fs sys)). (fs : Fs sys) → o ≡ some fs → Ok fs)
        (caching_readdir sys filler path dp rounds fs) (listed sys)
        (λ x runs. at_end x (
          subst (Ensures (λ (r : Option (List Entry) × Fs sys). Ok r.1)) runs (
            fill-Keeps sys content a b c origin filler path dp rounds [] _
              (log_call-Serving sys content a b c origin CallName.readdir fs s))))
    where
      at_end : (x : Option (List Entry) × Fs sys) → Ok x.1 → KeepsSome (listed sys x)
      at_end (none, fs) s = λ fs' e. cc
      at_end (some names, fs) s = λ fs' e. let same : fs ≡ fs' = cc in subst Ok same s

  refusing :
      {A : Type 0} (name : CallName) (path : Text) (errno : ℕ) (go : Text → Handler sys A)
      → ((full : Text) (fs : Fs sys) → Ok fs → Keeps sys content a b c origin (go full fs))
      → (fs : Fs sys) → Ok fs
      → KeepsSome (answered sys (unless_log sys name path errno go fs))
  refusing name path errno go kept fs s =
      answered-Keeps _ (unless_log-Keeps sys content a b c origin name path errno go kept fs s)

  forwarding :
      {A : Type 0} (name : CallName) (path : Text) (errno : ℕ)
      (call : Text → sys.World → Call A × sys.World) (fs : Fs sys)
      → Ok fs
      → KeepsSome
          (answered sys (unless_log sys name path errno (λ full. forward sys (call full)) fs))
  forwarding name path errno call =
      refusing name path errno (λ full. forward sys (call full))
        (λ full fs s. forward-Keeps sys content a b c origin (call full) fs s)

  only_logged :
      (name : CallName) (fs : Fs sys)
      → Ok fs
      → (fs' : Fs sys) → some (log_call sys name fs) ≡ some fs'
      → Ok fs'
  only_logged name fs s fs' e =
      let same : log_call sys name fs ≡ fs' = cc in
      subst Ok same (log_call-Serving sys content a b c origin name fs s)

  pub handle-Keeps : (q : Request) (fs : Fs sys) → IsSized q → Ok fs → KeepsSome (handle sys q fs)
  unfolding handle caching_getattr caching_fgetattr caching_access caching_open caching_flush
      caching_release caching_opendir caching_read caching_init caching_destroy
  handle-Keeps (Request.getattr path) fs sized s =
      forwarding CallName.getattr path _ (λ full. sys.lstat full) fs s
  handle-Keeps (Request.access path mask) fs sized s =
      forwarding CallName.access path _ (λ full. sys.access full mask) fs s
  handle-Keeps (Request.open_file path flags) fs sized s =
      refusing CallName.open_file path _ _ (λ full fs s. open-Keeps flags full fs s) fs s
  handle-Keeps (Request.read path fh size offset) fs sized s =
      refusing CallName.read path _ _
        (λ full fs s.
          read_stated-Keeps sys content a b c origin path fh size offset fs ha hc steady sized s)
        fs s
  handle-Keeps (Request.flush path) fs sized s =
      refusing CallName.flush path _ _ (λ full fs s. s) fs s
  handle-Keeps (Request.release path fh) fs sized s =
      refusing CallName.release path _ _
        (λ full fs s.
          forward-Keeps sys content a b c origin (sys.close fh) _
            (with_world sys content a b c origin fs (sys.fstat fh fs.world).1 s))
        fs s
  handle-Keeps (Request.opendir path) fs sized s =
      forwarding CallName.opendir path _ (λ full. sys.opendir full) fs s
  handle-Keeps (Request.readdir filler path dp rounds) fs sized s =
      readdir-Keeps filler path dp rounds fs s
  handle-Keeps (Request.releasedir path dp) fs sized s =
      answered-Keeps _ (releasedir-Keeps path dp fs s)
  handle-Keeps (Request.rename path newpath) fs sized s =
      answered-Keeps _ (rename-Keeps path newpath fs s)
  handle-Keeps Request.init fs sized s = only_logged CallName.init fs s
  handle-Keeps Request.destroy fs sized s = only_logged CallName.destroy fs s
  handle-Keeps Request.ioctl fs sized s = answered-Keeps _ (ioctl-Keeps fs s)
  handle-Keeps (Request.fgetattr path fh) fs sized s =
      forwarding CallName.fgetattr path _ (λ full. sys.fstat fh) fs s
