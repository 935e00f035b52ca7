-- ===== src/Example/Answers.antt =====
-- What the requests are answered with, by the number that their call returned.
use os_ex.Common.{zero, suc, ap, ℕ, ◌≡◌, refl, false, [], arith, if◌then◌else◌}
use os_ex.Common.Int.{negated, ℤ, negsuc, pos, eqb_ℤ}
use os_ex.Bbfs.{Reply, Answer, status}
use os_ex.Bbfs.Logging.{minus}
use os_ex.Bbfs.Quiet.{streamed, minus-negated, is_null-streamed}
use os_ex.Bbfs.Directories.{is_null}
use os_ex.Example.{Request}
use os_ex.Example.Methods.{return_errno, filled_by}

-- What the answer to a request is made of: the number that its call returned and what it put into a
-- buffer or struct of the caller, the number alone, a file handle, a stream, or nothing.
pub data Kind : Type 0 where
  buffered numbered opening streaming closing : Kind

abbrev pub kind_of : Request → Kind
kind_of (Request.getattr path) = Kind.buffered
kind_of (Request.readlink path link size) = Kind.buffered
kind_of (Request.read path size offset fh) = Kind.buffered
kind_of (Request.statfs path) = Kind.buffered
kind_of (Request.getxattr path name size) = Kind.buffered
kind_of (Request.listxattr path size) = Kind.buffered
kind_of (Request.open_file path flags) = Kind.opening
kind_of (Request.opendir path) = Kind.streaming
kind_of (Request.releasedir path fh) = Kind.closing
kind_of req = Kind.numbered

-- 0 where the call returned 0, and -errno where it returned any other number, a count included.
abbrev pub told : ℤ → ℕ → ℤ
told (pos zero) errno = pos 0
told (pos (suc n)) errno = negated errno
told (negsuc n) errno = negated errno

-- The answer to a request whose call went so.
abbrev pub answer_by : Kind → Reply → Answer
answer_by Kind.buffered r = record { retstat = told r.ret r.errno; filled = r.filled; fh = pos 0 }
answer_by Kind.numbered r = record { retstat = told r.ret r.errno; filled = []; fh = pos 0 }
answer_by Kind.opening r = record { retstat = pos 0; filled = []; fh = r.ret }
answer_by Kind.streaming r = record { retstat = streamed r.ret r.errno; filled = []; fh = r.ret }
answer_by Kind.closing r = record { retstat = pos 0; filled = []; fh = pos 0 }

-- The same as the code makes it.
abbrev pub made_by : Kind → Reply → Answer
made_by Kind.buffered r = filled_by r
made_by Kind.numbered r = status (return_errno r)
made_by Kind.opening r = record { retstat = pos 0; filled = []; fh = r.ret }
made_by Kind.streaming r = record {
  retstat = if is_null r.ret then minus r.errno else pos 0;
  filled = [];
  fh = r.ret;
}
made_by Kind.closing r = status (pos 0)

returned_lem : (z : ℤ) (e : ℕ) → (if eqb_ℤ z (pos 0) then pos 0 else minus e) ≡ told z e
returned_lem (pos zero) e = refl
returned_lem (pos (suc n)) e =
    let other : eqb_ℤ (pos (suc n)) (pos 0) ≡ false = ground arith in rw other (minus-negated e)
returned_lem (negsuc n) e = minus-negated e

return_errno-told : (r : Reply) → return_errno r ≡ told r.ret r.errno
return_errno-told r = returned_lem r.ret r.errno

pub made_by-answer_by : (k : Kind) (r : Reply) → made_by k r ≡ answer_by k r
made_by-answer_by Kind.buffered r =
    ap (λ z. record { retstat = z; filled = r.filled; fh = pos 0 }) (return_errno-told r)
made_by-answer_by Kind.numbered r = ap status (return_errno-told r)
made_by-answer_by Kind.opening r = refl
made_by-answer_by Kind.streaming r =
    ap (λ z. record { retstat = z; filled = []; fh = r.ret }) (is_null-streamed r.ret r.errno)
made_by-answer_by Kind.closing r = refl
