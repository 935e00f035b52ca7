-- ===== src/Example/Wrap.antt =====
-- wrap.cc, and the table of main.c that says which of its functions a request goes to.
use os_ex.Common.{ℕ, Bool, Option, none, some, List, done}
use os_ex.Common.Stateful.{◌>>◌}
use os_ex.Common.Int.{ℤ}
use os_ex.Block.{Text}
use os_ex.Bbfs.{Answer}
use os_ex.Bbfs.Directories.{Listing}
use os_ex.Example.{Request, root_set, System, Instance, M}
use os_ex.Example.Methods
use os_ex.Example.Directory

module _ (sys : System) where
  -- `Instance()` makes the object where there is none, with a root that is not set.
  abbrev pub the_instance : Option Instance → Instance
  the_instance none = record { root = none }
  the_instance (some i) = i

  unfoldable pub instance : M sys (Unit {0})
  instance s = done (tt, record s { instance = some (the_instance s.instance) })

  -- `setRootDir`, of what `realpath` gives.
  unfoldable pub set_root_dir : Option Text → M sys (Unit {0})
  set_root_dir path = do
    Methods.print sys (root_set path)
    λ s. done (tt, record s { instance = some (record { root = path }) })

  unfoldable pub set_rootdir : Option Text → M sys (Unit {0})
  set_rootdir path = do instance; set_root_dir path

  unfoldable pub method : Request → M sys Answer
  method (Request.getattr path) = Methods.getattr sys path
  method (Request.readlink path link size) = Methods.readlink sys path link size
  method (Request.mknod path mode dev) = Methods.mknod sys path mode dev
  method (Request.mkdir path mode) = Methods.mkdir sys path mode
  method (Request.unlink path) = Methods.unlink sys path
  method (Request.rmdir path) = Methods.rmdir sys path
  method (Request.symlink path link) = Methods.symlink sys path link
  method (Request.rename path newpath) = Methods.rename sys path newpath
  method (Request.link path newpath) = Methods.link sys path newpath
  method (Request.chmod path mode) = Methods.chmod sys path mode
  method (Request.chown path uid gid) = Methods.chown sys path uid gid
  method (Request.truncate path new_size) = Methods.truncate sys path new_size
  method (Request.utime path actime modtime) = Methods.utime sys path actime modtime
  method (Request.open_file path flags) = Methods.open_file sys path flags
  method (Request.read path size offset fh) = Methods.read sys path size offset fh
  method (Request.write path buf size offset fh) = Methods.write sys path buf size offset fh
  method (Request.statfs path) = Methods.statfs sys path
  method (Request.flush path) = Methods.flush sys path
  method (Request.release path) = Methods.release sys path
  method (Request.fsync path datasync fh) = Methods.fsync sys path datasync fh
  method (Request.setxattr path name value size flags) =
      Methods.setxattr sys path name value size flags
  method (Request.getxattr path name size) = Methods.getxattr sys path name size
  method (Request.listxattr path size) = Methods.listxattr sys path size
  method (Request.removexattr path name) = Methods.removexattr sys path name
  method (Request.opendir path) = Directory.opendir sys path
  method (Request.releasedir path fh) = Directory.releasedir sys path fh
  method (Request.fsyncdir path datasync) = Directory.fsyncdir sys path datasync
  method Request.init = Directory.init sys

  -- Each function of wrap.cc calls the method of its name on the instance.
  unfoldable pub wrap : Request → M sys Answer
  wrap req = do instance; method req

  unfoldable pub wrap_readdir :
      (List Text → Text → Bool) → ℤ → ℕ → Text → ℤ → M sys (Option Listing)
  wrap_readdir filler fh fuel path offset = do
    instance
    Directory.readdir sys filler fh fuel path offset
