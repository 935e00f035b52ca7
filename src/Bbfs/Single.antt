-- ===== src/Bbfs/Single.antt =====
-- Each handler that has its own code, as code that makes one call.
use Prim.Native.String.{String}
use os_ex.Common.{
  List, true, zero, suc, ◌∷◌, ◌==◌, refl, arith, ℕ, ◌+◌, ◌-◌, ◌^◌, ◌%◌, ◌≡◌, ◌<◌, subst, false, inl,
  inr, Bool-cases, [], ◌++◌, length, if◌then◌else◌,
}
use os_ex.Common.Int.{negated, negsuc, ℤ, pos, ltb_ℤ, eqb_ℤ}
use os_ex.Block.{Text}
use os_ex.Common.Stateful.{pure}
use os_ex.Bbfs.{FileInfo, SysCall, Request, System, State, Answer, status}
use os_ex.Bbfs.Logging.{c_string, log_fi, or_error, log_stat, log_statvfs}
use os_ex.Bbfs.Attributes.{
  terminated, is_regular, is_fifo, mknod_other, bb_getattr, bb_readlink, bb_mknod, bb_statfs,
  bb_setxattr, bb_access,
}
use os_ex.Bbfs.Files.{stat_file, bb_open, bb_read, bb_fsync, bb_ftruncate, bb_fgetattr}
use os_ex.Bbfs.Directories.{is_null, null_error, bb_opendir, bb_releasedir}
use os_ex.Bbfs.Quiet.{
  streamed, is_null-streamed, minus-negated, Forwards-bind, IsQuiet, Quietly, relog, say-Quietly,
  Forwards, result, Quietly-pure, Quietly-bind, Forwards-invoke, log_stat-Quietly,
  log_statvfs-Quietly, log_fi-Quietly, log_error-Quietly, or_error-Quietly,
}
use os_ex.Bbfs.Noop.{at_root, ends, linked, filled_answer, status_answer, answer_of}
use os_ex.Bbfs.Shapes.{
  begin-Forwards, begin_file-Forwards, call-Forwards, checked-Forwards, on_path-Forwards,
  on_file-Forwards,
}

abbrev opened_answer : ℤ → ℤ → Answer
opened_answer fd error = record {
  retstat = if ltb_ℤ fd (pos 0) then error else pos 0;
  filled = [];
  fh = fd;
}

module _ (sys : System) (quiet : IsQuiet sys) where
  pub bb_getattr-Forwards :
      (path : Text) (s : State sys.World)
      → length (s.rootdir ++ path) < sys.path_max
      → let call = SysCall.lstat (s.rootdir ++ path) in
        Forwards sys s call (filled_answer (sys.call call s.world).0) (bb_getattr sys path s)
  unfolding bb_getattr
  bb_getattr-Forwards path s fits = begin-Forwards sys quiet _ path _ s fits λ l.
      call-Forwards sys quiet "lstat" _ _ (relog l s) λ l'.
        Quietly-bind sys (log_stat sys _) _ (log_stat-Quietly sys quiet _ _)
          λ _. Quietly-pure sys _ _

  -- After the second look at the result of `open`.
  opened :
      (fd : ℤ) (e : ℕ) (t : State sys.World)
      → Quietly sys t (opened_answer fd (negated e)) (pure (opened_answer fd (result fd e)) t)
  opened fd e t = elim (Bool-cases (ltb_ℤ fd (pos 0))) [
    | inl bad ↦ rw bad (Quietly-pure sys _ t)
    | inr good ↦ rw good (Quietly-pure sys _ t)
  ]

  pub bb_open-Forwards :
      (path : Text) (fi : FileInfo) (s : State sys.World)
      → length (s.rootdir ++ path) < sys.path_max
      → let call = SysCall.open_file (s.rootdir ++ path) fi.flags 0 in
        Forwards sys s call
          (answer_of (Request.open_file path fi) (sys.call call s.world).0)
          (bb_open sys path fi s)
  unfolding bb_open
  bb_open-Forwards path fi s fits = begin-Forwards sys quiet _ path _ s fits λ l.
      call-Forwards sys quiet "open" _ _ (relog l s) λ l'.
        Quietly-bind sys (or_error sys "open" _) _ (or_error-Quietly sys quiet "open" _ _)
          λ l''. Quietly-bind sys (log_fi sys _) _ (log_fi-Quietly sys quiet _ _) λ l3. opened _ _ _

  -- A text that ends is read, and nothing changes.
  c_string-Quietly :
      (bs : List ℕ) (s : State sys.World)
      → ends bs ≡ true
      → (t : Text) × Quietly sys s t (c_string sys bs s)
  unfolding c_string
  c_string-Quietly [] s e = cc
  c_string-Quietly (zero ∷ bs) s e = ([], Quietly-pure sys [] s)
  c_string-Quietly (suc b ∷ bs) s e =
      let (t, q) = c_string-Quietly bs s e in
      let other : (suc b == 0) ≡ false = ground arith in
      (suc b ∷ t, rw other (Quietly-bind sys (c_string sys bs) _ q λ l. Quietly-pure sys _ _))

  terminated-linked : (z : ℤ) (bytes : List ℕ) → terminated z bytes ≡ linked z bytes
  terminated-linked (pos n) bytes = ground arith
  terminated-linked (negsuc n) bytes =
      let below : ltb_ℤ (negsuc n) (pos 0) ≡ true = ground arith in rw below refl

  pub bb_setxattr-Forwards :
      (path name : Text) (value : List ℕ) (size flags : ℕ) (s : State sys.World)
      → length (s.rootdir ++ path) < sys.path_max
      → ends value ≡ true
      → let call = SysCall.lsetxattr (s.rootdir ++ path) name value size flags in
        Forwards sys s call
          (status_answer (sys.call call s.world).0)
          (bb_setxattr sys path name value size flags s)
  unfolding bb_setxattr
  bb_setxattr-Forwards path name value size flags s fits e =
      Forwards-bind sys (c_string sys value) _ (c_string-Quietly value s e).1
        λ l. on_path-Forwards sys quiet _ path "lsetxattr" _ (relog l s) fits

  pub bb_readlink-Forwards :
      (path : Text) (link : List ℕ) (size : ℕ) (s : State sys.World)
      → length (s.rootdir ++ path) < sys.path_max
      → ends link ≡ true
      → let call = SysCall.readlink (s.rootdir ++ path) ((size + 2 ^ 64 - 1) % 2 ^ 64) in
        Forwards sys s call
          (answer_of (Request.readlink path link size) (sys.call call s.world).0)
          (bb_readlink sys path link size s)
  unfolding bb_readlink
  bb_readlink-Forwards path link size s fits e =
      Forwards-bind sys (c_string sys link) _ (c_string-Quietly link s e).1 λ l0.
        begin-Forwards sys quiet _ path _ (relog l0 s) fits λ l.
          call-Forwards sys quiet "fpath" _ _ (relog l s)
            λ _. rw (terminated-linked _ _) (Quietly-pure sys _ _)

  pub bb_statfs-Forwards :
      (path : Text) (s : State sys.World)
      → length (s.rootdir ++ path) < sys.path_max
      → let call = SysCall.statvfs (s.rootdir ++ path) in
        Forwards sys s call (filled_answer (sys.call call s.world).0) (bb_statfs sys path s)
  unfolding bb_statfs
  bb_statfs-Forwards path s fits = begin-Forwards sys quiet _ path _ s fits λ l.
      call-Forwards sys quiet "statvfs" _ _ (relog l s) λ l'.
        Quietly-bind sys (log_statvfs sys _) _ (log_statvfs-Quietly sys quiet _ _)
          λ _. Quietly-pure sys _ _

  pub bb_access-Forwards :
      (path : Text) (mask : ℕ) (s : State sys.World)
      → length (s.rootdir ++ path) < sys.path_max
      → let call = SysCall.access (s.rootdir ++ path) mask in
        Forwards sys s call (status_answer (sys.call call s.world).0) (bb_access sys path mask s)
  unfolding bb_access
  bb_access-Forwards path mask s fits =
      begin-Forwards sys quiet _ path _ s fits
        λ l. checked-Forwards sys quiet "bb_access access" _ _ (relog l s) λ _. Quietly-pure sys _ _

  pub mknod_other-Forwards :
      (name : String) (c : SysCall) (s : State sys.World)
      → Forwards sys s c (status_answer (sys.call c s.world).0) (mknod_other sys name c s)
  mknod_other-Forwards name c s = call-Forwards sys quiet name c _ s λ _. Quietly-pure sys _ _

  pub bb_mknod-Forwards :
      (path : Text) (mode dev : ℕ) (s : State sys.World)
      → length (s.rootdir ++ path) < sys.path_max
      → is_regular mode ≡ false
      → let c =
          if is_fifo mode
          then SysCall.mkfifo (s.rootdir ++ path) mode
          else SysCall.mknod (s.rootdir ++ path) mode dev in
        Forwards sys s c (status_answer (sys.call c s.world).0) (bb_mknod sys path mode dev s)
  unfolding bb_mknod
  bb_mknod-Forwards path mode dev s fits special = begin-Forwards sys quiet _ path _ s fits λ l.
      elim (Bool-cases (is_fifo mode)) [
        | inl fifo ↦ rw (special, fifo) (mknod_other-Forwards "mkfifo" _ (relog l s))
        | inr other ↦ rw (special, other) (mknod_other-Forwards "mknod" _ (relog l s))
      ]

  pub bb_read-Forwards :
      (path : Text) (size : ℕ) (offset : ℤ) (fi : FileInfo) (s : State sys.World)
      → let call = SysCall.pread fi.fh size offset in
        Forwards sys s call
          (filled_answer (sys.call call s.world).0)
          (bb_read sys path size offset fi s)
  unfolding bb_read
  bb_read-Forwards path size offset fi s =
      begin_file-Forwards sys quiet _ fi _ s
        λ l. call-Forwards sys quiet "pread" _ _ (relog l s) λ _. Quietly-pure sys _ _

  pub bb_fsync-Forwards :
      (path : Text) (datasync : ℤ) (fi : FileInfo) (s : State sys.World)
      → let c = if eqb_ℤ datasync (pos 0) then SysCall.fsync fi.fh else SysCall.fdatasync fi.fh in
        Forwards sys s c (status_answer (sys.call c s.world).0) (bb_fsync sys path datasync fi s)
  unfolding bb_fsync
  bb_fsync-Forwards path datasync fi s = elim (Bool-cases (eqb_ℤ datasync (pos 0))) [
    | inl all ↦ rw all (on_file-Forwards sys quiet _ fi "fsync" _ s)
    | inr data_only ↦ rw data_only (on_file-Forwards sys quiet _ fi "fdatasync" _ s)
  ]

  pub bb_ftruncate-Forwards :
      (path : Text) (offset : ℤ) (fi : FileInfo) (s : State sys.World)
      → let call = SysCall.ftruncate fi.fh offset in
        Forwards sys s call
          (status_answer (sys.call call s.world).0)
          (bb_ftruncate sys path offset fi s)
  unfolding bb_ftruncate
  bb_ftruncate-Forwards path offset fi s = begin_file-Forwards sys quiet _ fi _ s λ l.
      checked-Forwards sys quiet "bb_ftruncate ftruncate" _ _ (relog l s) λ _. Quietly-pure sys _ _

  pub stat_file-Forwards :
      (fi : FileInfo) (s : State sys.World)
      → let call = SysCall.fstat fi.fh in
        Forwards sys s call (filled_answer (sys.call call s.world).0) (stat_file sys fi s)
  stat_file-Forwards fi s = checked-Forwards sys quiet "bb_fgetattr fstat" _ _ s λ _.
      Quietly-bind sys (log_stat sys _) _ (log_stat-Quietly sys quiet _ _) λ _. Quietly-pure sys _ _

  pub bb_fgetattr-Forwards :
      (path : Text) (fi : FileInfo) (s : State sys.World)
      → length (s.rootdir ++ path) < sys.path_max
      → let c = if at_root path then SysCall.lstat (s.rootdir ++ path) else SysCall.fstat fi.fh in
        Forwards sys s c (filled_answer (sys.call c s.world).0) (bb_fgetattr sys path fi s)
  unfolding bb_fgetattr
  bb_fgetattr-Forwards path fi s fits = begin_file-Forwards sys quiet _ fi _ s λ l.
      elim (Bool-cases (at_root path)) [
        | inl root ↦ rw root (bb_getattr-Forwards path (relog l s) fits)
        | inr file ↦ rw file (stat_file-Forwards fi (relog l s))
      ]

  null_error-Quietly :
      (func : String) (p : ℤ) (s : State sys.World)
      → Quietly sys s (streamed p s.errno) (null_error sys func p s)
  unfolding null_error
  null_error-Quietly func p s =
      subst (λ z. Quietly sys s z (null_error sys func p s)) (is_null-streamed p s.errno)
        (elim (Bool-cases (is_null p)) [
          | inl bad ↦ rw (bad, minus-negated s.errno) (log_error-Quietly sys quiet func s)
          | inr good ↦ rw good (Quietly-pure sys (pos 0) s)
        ])

  pub bb_opendir-Forwards :
      (path : Text) (fi : FileInfo) (s : State sys.World)
      → length (s.rootdir ++ path) < sys.path_max
      → let call = SysCall.opendir (s.rootdir ++ path) in
        Forwards sys s call
          (answer_of (Request.opendir path fi) (sys.call call s.world).0)
          (bb_opendir sys path fi s)
  unfolding bb_opendir
  bb_opendir-Forwards path fi s fits = begin-Forwards sys quiet _ path _ s fits λ l.
      Forwards-invoke sys (relog l s) _ _ (
        say-Quietly sys quiet _ _ _ λ l'.
          Quietly-bind sys (null_error sys _ _) _ (null_error-Quietly _ _ _) λ _.
            Quietly-bind sys (log_fi sys _) _ (log_fi-Quietly sys quiet _ _)
              λ _. Quietly-pure sys _ _)

  pub bb_releasedir-Forwards :
      (path : Text) (fi : FileInfo) (s : State sys.World)
      → Forwards sys s (SysCall.closedir fi.fh) (status (pos 0)) (bb_releasedir sys path fi s)
  unfolding bb_releasedir
  bb_releasedir-Forwards path fi s =
      begin_file-Forwards sys quiet _ fi _ s
        λ l. Forwards-invoke sys (relog l s) _ _ (Quietly-pure sys _ _)
