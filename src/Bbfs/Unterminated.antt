-- ===== src/Bbfs/Unterminated.antt =====
-- `bb_getxattr` on a value without a zero, as the system gives it for most attributes.
use os_ex.Common.{
  ℕ, ◌++◌, ◌≡◌, ◌≢◌, ◌<◌, refl, false, List, [], ◌∷◌, All, arith, length, undefined, uninitialised,
  ◌==◌,
}
use os_ex.Common.Int.{pos, ltb_ℤ}
use os_ex.Block.{Text}
use os_ex.Common.Stateful.{◌>>=◌}
use os_ex.Bbfs.{SysCall, Request, System, State, M}
use os_ex.Bbfs.Logging.{log_msg, log_syscall, invoke, bb_fullpath, c_string}
use os_ex.Bbfs.Attributes.{bb_getxattr}
use os_ex.Bbfs.Dispatch.{dispatch}
use os_ex.Bbfs.Quiet.{
  IsQuiet, relog, Quietly, log_msg-Quietly, bb_fullpath-Quietly, log_syscall-Quietly,
}

module _ (sys : System) where
  c_string_unterminated :
      (bs : List ℕ) (s : State sys.World)
      → All (λ b. b ≢ 0) bs
      → c_string sys bs s ≡ undefined uninitialised
  unfolding c_string
  c_string_unterminated [] s h = refl
  c_string_unterminated (b ∷ bs) s h =
      let other : (b == 0) ≡ false = ground (arith, h.0) in
      rw other (rw (c_string_unterminated bs s h.1))

  bind_undefined :
      {A B : Type 0} (m : M sys A) (f : A → M sys B) (s : State sys.World) {a : A}
      (q : Quietly sys s a (m s))
      → f a (relog q.log s) ≡ undefined uninitialised
      → (m >>= f) s ≡ undefined uninitialised
  bind_undefined m f s q h = rw (q.runs) h

  -- A value that is read and has no zero byte is logged as a text past its end: the request is
  -- undefined. This is for a path that fits with the root, where printing a line leaves `errno` alone.
  pub dispatch-unterminated :
      (path name : Text) (size : ℕ) (s : State sys.World)
      → IsQuiet sys
      → length (s.rootdir ++ path) < sys.path_max
      → let r = (sys.call (SysCall.lgetxattr (s.rootdir ++ path) name size) s.world).0 in
        ltb_ℤ r.ret (pos 0) ≡ false
        → All (λ b. b ≢ 0) r.filled
        → dispatch sys (Request.getxattr path name size) s ≡ undefined uninitialised
  unfolding dispatch bb_getxattr invoke
  dispatch-unterminated path name size s quiet fits good h =
      bind_undefined (log_msg sys _) _ s (log_msg-Quietly sys quiet _ s) (
        bind_undefined (bb_fullpath sys path) _ _ (bb_fullpath-Quietly sys quiet path _ fits) (
          bind_undefined (log_syscall sys "lgetxattr" _ 0) _ _
            (log_syscall-Quietly sys quiet "lgetxattr" _ _)
            (rw good (rw good (rw (c_string_unterminated _ _ h))))))
