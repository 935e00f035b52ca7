-- ===== src/Bbfs/Quiet.antt =====
-- Code that only logs, where `vfprintf` leaves `errno` alone, and code that makes one call besides.
use Prim.Native.String.{String}
use os_ex.Common.{
  subst, zero, suc, false, ℕ, ◌≡◌, ◌∙◌, ◌<◌, refl, sym, ap, inl, inr, Bool-cases, List, [], ◌∷◌,
  ◌++◌, append_assoc, append-nil, arith, length, length-append, take, take_all, lt→ltb, Outcome,
  done, if◌then◌else◌,
}
use os_ex.Common.Int.{negated, negsuc, ◌-ℤ◌, ℤ, pos, ltb_ℤ}
use os_ex.Block.{Text}
use os_ex.Common.Stateful.{◌>>=◌, ◌>>◌, pure}
use os_ex.Bbfs.{FileInfo, SysCall, Reply, Line, returned, System, State, M}
use os_ex.Bbfs.Directories.{is_null}
use os_ex.Bbfs.Logging.{
  minus, log_msg, log_fields, log_stat, log_statvfs, log_fi, log_error, log_retstat, log_failure,
  log_syscall, or_error, invoke, bb_fullpath,
}

abbrev pub Extends {ℓ} : {A : Type ℓ} → List A → List A → Type ℓ
Extends {A} xs ys = (zs : List A) × (ys ≡ xs ++ zs)

Extends-trans {ℓ} : {A : Type ℓ} (xs ys zs : List A) → Extends xs ys → Extends ys zs → Extends xs zs
Extends-trans xs ys zs (us, e) (vs, e') =
    (us ++ vs, e' ∙ (ap (λ l. l ++ vs) e ∙ append_assoc xs us vs))

-- What printing a message that goes well does to `errno`: nothing.
abbrev pub IsQuiet : System → Type 0
IsQuiet sys = (line : Line) (e : ℕ) → sys.errno_after line e ≡ e

-- A result below 0 becomes -errno.
abbrev pub result : ℤ → ℕ → ℤ
result ret errno = if ltb_ℤ ret (pos 0) then negated errno else ret

-- 0 where there is a stream, and -errno where the pointer is null.
abbrev pub streamed : ℤ → ℕ → ℤ
streamed (pos zero) errno = negated errno
streamed (pos (suc n)) errno = pos 0
streamed (negsuc n) errno = pos 0

pub minus-negated : (e : ℕ) → minus e ≡ negated e
unfolding ◌-ℤ◌
minus-negated zero = refl
minus-negated (suc e) = ground arith

pub is_null-streamed : (z : ℤ) (e : ℕ) → (if is_null z then minus e else pos 0) ≡ streamed z e
is_null-streamed (pos zero) e = minus-negated e
is_null-streamed (pos (suc n)) e =
    let stream : is_null (pos (suc n)) ≡ false = ground arith in rw stream refl
is_null-streamed (negsuc n) e = refl

-- The state with another log.
abbrev pub relog : {World : Type 0} → List Line → State World → State World
relog l s = record s { logfile = l }

module _ (sys : System) where
  -- The code goes on with a value, and only adds to the log.
  pub record Quietly {A : Type 0} (s : State sys.World) (a : A) (o : Outcome (A × State sys.World))
      : Type 0 where
    pub log : List Line
    pub runs : o ≡ done (a, relog log s)
    pub extends : Extends s.logfile log

  -- The code makes one call of the system, adds to the log, and goes on with a value.
  pub record Forwards {A : Type 0} (s : State sys.World) (c : SysCall) (a : A)
      (o : Outcome (A × State sys.World)) : Type 0 where
    pub log : List Line
    pub runs :
        let (r, w) = sys.call c s.world in
        o ≡ done (a, record s { logfile = log; errno = r.errno; world = w })
    pub extends : Extends s.logfile log

  pub Quietly-pure : {A : Type 0} (a : A) (s : State sys.World) → Quietly s a (pure a s)
  Quietly-pure a s = record {
    log = s.logfile;
    runs = refl;
    extends = ([], sym (append-nil s.logfile));
  }

  pub Quietly-bind :
      {A B : Type 0} {s : State sys.World} {a : A} {b : B} (m : M sys A) (f : A → M sys B)
      → Quietly s a (m s)
      → ((l : List Line) → Quietly (relog l s) b (f a (relog l s)))
      → Quietly s b ((m >>= f) s)
  Quietly-bind m f q k =
      let r = k q.log in
      record {
        log = r.log;
        runs = rw (q.runs) r.runs;
        extends = Extends-trans _ _ _ q.extends r.extends;
      }

  -- Logging, and then code that makes a call.
  pub Forwards-bind :
      {A B : Type 0} {s : State sys.World} {c : SysCall} {a : A} {b : B} (m : M sys A)
      (f : A → M sys B)
      → Quietly s a (m s)
      → ((l : List Line) → Forwards (relog l s) c b (f a (relog l s)))
      → Forwards s c b ((m >>= f) s)
  Forwards-bind m f q k =
      let r = k q.log in
      record {
        log = r.log;
        runs = rw (q.runs) r.runs;
        extends = Extends-trans _ _ _ q.extends r.extends;
      }

  -- A call, and then logging.
  pub Forwards-invoke :
      {B : Type 0} {b : B} (s : State sys.World) (c : SysCall) (f : Reply → M sys B)
      → let (r, w) = sys.call c s.world in
        let t = record s { errno = r.errno; world = w } in
        Quietly t b (f r t) → Forwards s c b ((invoke sys c >>= f) s)
  unfolding invoke
  Forwards-invoke s c f q = record { log = q.log; runs = q.runs; extends = q.extends }

  module _ (quiet : IsQuiet sys) where
    pub log_msg-Quietly : (line : Line) (s : State sys.World) → Quietly s tt (log_msg sys line s)
    unfolding log_msg
    log_msg-Quietly line s = record {
      log = s.logfile ++ (line ∷ []);
      runs = rw (quiet line s.errno);
      extends = (line ∷ [], refl);
    }

    -- A message, and then code that only logs.
    pub say-Quietly :
        {A : Type 0} {a : A} (line : Line) (k : M sys A) (s : State sys.World)
        → ((l : List Line) → Quietly (relog l s) a (k (relog l s)))
        → Quietly s a ((log_msg sys line >> k) s)
    say-Quietly line k s = Quietly-bind (log_msg sys line) _ (log_msg-Quietly line s)

    -- A message, and then code that makes a call.
    pub say-Forwards :
        {A : Type 0} {a : A} {c : SysCall} (line : Line) (k : M sys A) (s : State sys.World)
        → ((l : List Line) → Forwards (relog l s) c a (k (relog l s)))
        → Forwards s c a ((log_msg sys line >> k) s)
    say-Forwards line k s = Forwards-bind (log_msg sys line) _ (log_msg-Quietly line s)

    pub log_fields-Quietly :
        (ns : List String) (vs : List ℕ) (s : State sys.World)
        → Quietly s tt (log_fields sys ns vs s)
    unfolding log_fields
    log_fields-Quietly [] vs s = Quietly-pure tt s
    log_fields-Quietly (n ∷ ns) [] s = Quietly-pure tt s
    log_fields-Quietly (n ∷ ns) (v ∷ vs) s =
        say-Quietly _ _ s λ l. log_fields-Quietly ns vs (relog l s)

    pub log_stat-Quietly : (si : List ℕ) (s : State sys.World) → Quietly s tt (log_stat sys si s)
    unfolding log_stat
    log_stat-Quietly si s = say-Quietly _ _ s λ l. log_fields-Quietly _ si (relog l s)

    pub log_statvfs-Quietly :
        (sv : List ℕ) (s : State sys.World) → Quietly s tt (log_statvfs sys sv s)
    unfolding log_statvfs
    log_statvfs-Quietly sv s = say-Quietly _ _ s λ l. log_fields-Quietly _ sv (relog l s)

    pub log_error-Quietly :
        (func : String) (s : State sys.World) → Quietly s (negated s.errno) (log_error sys func s)
    unfolding log_error
    log_error-Quietly func s =
        subst (λ z. Quietly s z (log_error sys func s)) (minus-negated s.errno)
          (say-Quietly _ _ s λ l. Quietly-pure (minus s.errno) (relog l s))

    pub bb_fullpath-Quietly :
        (path : Text) (s : State sys.World)
        → length (s.rootdir ++ path) < sys.path_max
        → Quietly s (s.rootdir ++ path) (bb_fullpath sys path s)
    unfolding bb_fullpath
    bb_fullpath-Quietly path s h =
        let whole : take sys.path_max path ≡ path =
          take_all sys.path_max path (omega (arith, h, length-append s.rootdir path)) in
        rw (whole, lt→ltb _ _ h)
          (say-Quietly _ _ s λ l. Quietly-pure (s.rootdir ++ path) (relog l s))

    pub log_fi-Quietly : (fi : FileInfo) (s : State sys.World) → Quietly s tt (log_fi sys fi s)
    unfolding log_fi
    log_fi-Quietly fi s = say-Quietly _ _ s λ _. say-Quietly _ _ _ λ _. say-Quietly _ _ _ λ _.
        say-Quietly _ _ _ λ _.
          say-Quietly _ _ _ λ _. say-Quietly _ _ _ λ _. say-Quietly _ _ _ λ _. log_msg-Quietly _ _

    log_retstat-Quietly :
        (func : String) (ret : ℤ) (s : State sys.World) → Quietly s tt (log_retstat sys func ret s)
    unfolding log_retstat log_msg
    log_retstat-Quietly func ret s = record {
      log = s.logfile ++ (returned func ret ∷ []);
      runs = refl;
      extends = (returned func ret ∷ [], refl);
    }

    log_failure-Quietly :
        (func : String) (s : State sys.World) → Quietly s (negated s.errno) (log_failure sys func s)
    unfolding log_failure
    log_failure-Quietly func s =
        subst (λ z. Quietly s z (log_failure sys func s)) (minus-negated s.errno)
          (Quietly-bind (log_error sys func) _ (log_error-Quietly func s)
            λ l. Quietly-pure (minus s.errno) (relog l s))

    pub log_syscall-Quietly :
        (func : String) (ret : ℤ) (s : State sys.World)
        → Quietly s (result ret s.errno) (log_syscall sys func ret 0 s)
    unfolding log_syscall
    log_syscall-Quietly func ret s =
        Quietly-bind (log_retstat sys func ret) _ (log_retstat-Quietly func ret s) λ l.
          elim (Bool-cases (ltb_ℤ ret (pos 0))) [
            | inl bad ↦ rw bad (log_failure-Quietly func (relog l s))
            | inr good ↦ rw good (Quietly-pure ret (relog l s))
          ]

    pub or_error-Quietly :
        (func : String) (ret : ℤ) (s : State sys.World)
        → Quietly s (result ret s.errno) (or_error sys func ret s)
    unfolding or_error
    or_error-Quietly func ret s = elim (Bool-cases (ltb_ℤ ret (pos 0))) [
      | inl bad ↦ rw bad (log_error-Quietly func s)
      | inr good ↦ rw good (Quietly-pure ret s)
    ]
