-- ===== src/Bbfs/Shapes.antt =====
-- The shapes that the handlers share, as code that makes one call.
use Prim.Native.String.{String}
use os_ex.Common.{◌<◌, List, ◌++◌, length}
use os_ex.Common.Int.{ℤ}
use os_ex.Block.{Text}
use os_ex.Common.Stateful.{◌>>=◌, ◌>>◌}
use os_ex.Bbfs.{FileInfo, SysCall, Reply, Request, Line, request, System, State, M, Answer}
use os_ex.Bbfs.Logging.{log_msg, log_fi, log_syscall, or_error, invoke, bb_fullpath}
use os_ex.Bbfs.Attributes.{on_path, on_paths}
use os_ex.Bbfs.Files.{on_file}
use os_ex.Bbfs.Quiet.{
  IsQuiet, Quietly, relog, say-Forwards, Forwards, result, Quietly-pure, Quietly-bind,
  Forwards-bind, Forwards-invoke, log_fi-Quietly, log_syscall-Quietly, or_error-Quietly,
  bb_fullpath-Quietly,
}
use os_ex.Bbfs.Noop.{status_answer}

module _ (sys : System) (quiet : IsQuiet sys) where
  -- The request is logged and the path is made full.
  pub begin-Forwards :
      {a : Answer} {c : SysCall} (req : Request) (path : Text) (k : Text → M sys Answer)
      (s : State sys.World)
      → length (s.rootdir ++ path) < sys.path_max
      → ((l : List Line) → Forwards sys (relog l s) c a (k (s.rootdir ++ path) (relog l s)))
      → Forwards sys s c a ((do log_msg sys (request req); fpath ← bb_fullpath sys path; k fpath) s)
  begin-Forwards req path k s fits h = say-Forwards sys quiet _ _ s λ l.
      Forwards-bind sys (bb_fullpath sys path) _
        (bb_fullpath-Quietly sys quiet path (relog l s) fits) h

  -- The request and the file are logged.
  pub begin_file-Forwards :
      {a : Answer} {c : SysCall} (req : Request) (fi : FileInfo) (k : M sys Answer)
      (s : State sys.World)
      → ((l : List Line) → Forwards sys (relog l s) c a (k (relog l s)))
      → Forwards sys s c a ((do log_msg sys (request req); log_fi sys fi; k) s)
  begin_file-Forwards req fi k s h =
      say-Forwards sys quiet _ _ s
        λ l. Forwards-bind sys (log_fi sys fi) _ (log_fi-Quietly sys quiet fi (relog l s)) h

  -- The call is made and logged, and then the code only logs.
  pub call-Forwards :
      {a : Answer} (name : String) (c : SysCall) (k : Reply → ℤ → M sys Answer)
      (s : State sys.World)
      → let (r, w) = sys.call c s.world in
        ((l : List Line)
          → let t = record s { logfile = l; errno = r.errno; world = w } in
            Quietly sys t a (k r (result r.ret r.errno) t))
        → Forwards sys s c a
            ((do r ← invoke sys c; retstat ← log_syscall sys name r.ret 0; k r retstat) s)
  call-Forwards name c k s h =
      Forwards-invoke sys s c _
        (Quietly-bind sys (log_syscall sys name _ 0) _ (log_syscall-Quietly sys quiet name _ _) h)

  -- The call is made, and only a failure is logged.
  pub checked-Forwards :
      {a : Answer} (func : String) (c : SysCall) (k : Reply → ℤ → M sys Answer)
      (s : State sys.World)
      → let (r, w) = sys.call c s.world in
        ((l : List Line)
          → let t = record s { logfile = l; errno = r.errno; world = w } in
            Quietly sys t a (k r (result r.ret r.errno) t))
        → Forwards sys s c a
            ((do r ← invoke sys c; retstat ← or_error sys func r.ret; k r retstat) s)
  checked-Forwards func c k s h =
      Forwards-invoke sys s c _
        (Quietly-bind sys (or_error sys func _) _ (or_error-Quietly sys quiet func _ _) h)

  pub on_path-Forwards :
      (req : Request) (path : Text) (name : String) (c : Text → SysCall) (s : State sys.World)
      → length (s.rootdir ++ path) < sys.path_max
      → Forwards sys s
          (c (s.rootdir ++ path))
          (status_answer (sys.call (c (s.rootdir ++ path)) s.world).0)
          (on_path sys req path name c s)
  on_path-Forwards req path name c s fits =
      begin-Forwards req path _ s fits
        λ l. call-Forwards name _ _ (relog l s) λ _. Quietly-pure sys _ _

  pub on_paths-Forwards :
      (req : Request) (p q : Text) (name : String) (c : Text → Text → SysCall) (s : State sys.World)
      → length (s.rootdir ++ p) < sys.path_max
      → length (s.rootdir ++ q) < sys.path_max
      → let call = c (s.rootdir ++ p) (s.rootdir ++ q) in
        Forwards sys s call
          (status_answer (sys.call call s.world).0)
          (on_paths sys req p q name c s)
  on_paths-Forwards req p q name c s fits fits' = begin-Forwards req p _ s fits λ l.
      Forwards-bind sys (bb_fullpath sys q) _ (bb_fullpath-Quietly sys quiet q (relog l s) fits')
        λ l'. call-Forwards name _ _ (relog l' s) λ _. Quietly-pure sys _ _

  pub on_file-Forwards :
      (req : Request) (fi : FileInfo) (name : String) (c : SysCall) (s : State sys.World)
      → Forwards sys s c (status_answer (sys.call c s.world).0) (on_file sys req fi name c s)
  on_file-Forwards req fi name c s =
      begin_file-Forwards req fi _ s
        λ l. call-Forwards name _ _ (relog l s) λ _. Quietly-pure sys _ _
