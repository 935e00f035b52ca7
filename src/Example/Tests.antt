-- ===== src/Example/Tests.antt =====
-- A system where `pread` gives two bytes and one directory is read.
use os_ex.Common.{
  ◌≡◌, ◌∷◌, refl, false, Bool, Option, none, some, List, [], arith, ◌==◌, length, done,
}
use os_ex.Common.Int.{pos}
use os_ex.Block.{Text}
use os_ex.Bbfs.{Reply}
use os_ex.Bbfs.Start.{is_hyphen}
use os_ex.Bbfs.Directories.{enomem}
use os_ex.Bbfs.Logging.{minus}
use os_ex.Example.{LibCall, Request, asked, System, State}
use os_ex.Example.Wrap.{wrap, wrap_readdir}
use os_ex.Example.Carried.{serving, wrap-carried_out}
use os_ex.Example.Stream.{wrap_readdir-taken}
use os_ex.Example.Start.{main2}
use os_ex.Example.Start.Arguments.{main2-arguments}

abbrev next_entry : List Text → Reply × List Text
next_entry [] = (record { ret = pos 0; errno = 0; filled = [] }, [])
next_entry (x ∷ xs) = (record { ret = pos 1; errno = 0; filled = x }, xs)

-- The world is the entries that are left to read.
abbrev answered : LibCall → List Text → Reply × List Text
answered (LibCall.readdir fh) w = next_entry w
answered (LibCall.pread fh size offset) w =
    (record { ret = pos 2; errno = 4; filled = 5 ∷ 6 ∷ [] }, w)
answered c w = (record { ret = pos 0; errno = 0; filled = [] }, w)

abbrev sys : System
sys = record { World = List Text; path_max = 16; call = answered; errno_after = λ line e. e }

abbrev root : Text
root = b'/' ∷ b'r' ∷ []

abbrev file : Text
file = b'/' ∷ b'f' ∷ []

-- A rename to a path that is not put below the root.
wrap-carried_out_example :
    let req = Request.rename file (b'/' ∷ b'g' ∷ []) in
    wrap sys req (serving sys root [] 0 [])
    ≡ done (
      record { retstat = pos 0; filled = []; fh = pos 0 },
      serving sys root (asked req ∷ []) 0 [],
    )
wrap-carried_out_example =
    wrap-carried_out sys root [] 0 [] (Request.rename file (b'/' ∷ b'g' ∷ [])) (omega arith, tt)
      refl

-- The buffer is full after one name.
abbrev full_after_one : List Text → Text → Bool
full_after_one names name = length names == 1

wrap_readdir-taken_example :
    (t : State (List Text)) × (wrap_readdir sys full_after_one
        (pos 4)
        2
        file
        (pos 0)
        (serving sys root [] 0 ((b'x' ∷ []) ∷ (b'y' ∷ []) ∷ []))
      ≡ done (some (record { retstat = minus enomem; names = (b'x' ∷ []) ∷ [] }), t))
wrap_readdir-taken_example =
    wrap_readdir-taken sys full_after_one (pos 4) 2 file (pos 0) (b'x' ∷ []) ((b'y' ∷ []) ∷ [])
      (serving sys root [] 0 ((b'x' ∷ []) ∷ (b'y' ∷ []) ∷ [])) (omega arith)
      (refl, refl, (refl, refl, refl))

abbrev same : Text → Option Text
same p = some p

main2-arguments_example :
    ((root_dir : Text) (rest : List Text)
      → is_hyphen root_dir ≡ false
      → main2 same (b'p' ∷ []) ((b'-' ∷ b'f' ∷ []) ∷ root_dir ∷ rest)
        ≡ record { arguments = (b'p' ∷ []) ∷ (b'-' ∷ b'f' ∷ []) ∷ rest; root = some root_dir })
    × (main2 same (b'p' ∷ []) ((b'-' ∷ b'f' ∷ []) ∷ [])
        ≡ record { arguments = (b'p' ∷ []) ∷ []; root = none })
main2-arguments_example = main2-arguments same (b'p' ∷ []) ((b'-' ∷ b'f' ∷ []) ∷ []) (refl, tt)
