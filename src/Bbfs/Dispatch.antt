-- ===== src/Bbfs/Dispatch.antt =====
-- `bb_oper` of bbfs.c: which handler a request goes to.
use os_ex.Bbfs.{Request, System, M, Answer}
use os_ex.Bbfs.Attributes.{
  bb_getattr, bb_readlink, bb_mknod, bb_mkdir, bb_unlink, bb_rmdir, bb_symlink, bb_rename, bb_link,
  bb_chmod, bb_chown, bb_truncate, bb_utime, bb_statfs, bb_setxattr, bb_getxattr, bb_listxattr,
  bb_removexattr, bb_access,
}
use os_ex.Bbfs.Files.{
  bb_open, bb_read, bb_write, bb_flush, bb_release, bb_fsync, bb_ftruncate, bb_fgetattr,
}
use os_ex.Bbfs.Directories.{bb_opendir, bb_releasedir, bb_fsyncdir, bb_destroy}

unfoldable pub dispatch : (sys : System) → Request → M sys Answer
dispatch sys (Request.getattr path) = bb_getattr sys path
dispatch sys (Request.readlink path link size) = bb_readlink sys path link size
dispatch sys (Request.mknod path mode dev) = bb_mknod sys path mode dev
dispatch sys (Request.mkdir path mode) = bb_mkdir sys path mode
dispatch sys (Request.unlink path) = bb_unlink sys path
dispatch sys (Request.rmdir path) = bb_rmdir sys path
dispatch sys (Request.symlink path link) = bb_symlink sys path link
dispatch sys (Request.rename path newpath) = bb_rename sys path newpath
dispatch sys (Request.link path newpath) = bb_link sys path newpath
dispatch sys (Request.chmod path mode) = bb_chmod sys path mode
dispatch sys (Request.chown path uid gid) = bb_chown sys path uid gid
dispatch sys (Request.truncate path newsize) = bb_truncate sys path newsize
dispatch sys (Request.utime path actime modtime) = bb_utime sys path actime modtime
dispatch sys (Request.open_file path fi) = bb_open sys path fi
dispatch sys (Request.read path size offset fi) = bb_read sys path size offset fi
dispatch sys (Request.write path buf size offset fi) = bb_write sys path buf size offset fi
dispatch sys (Request.statfs path) = bb_statfs sys path
dispatch sys (Request.flush path fi) = bb_flush sys path fi
dispatch sys (Request.release path fi) = bb_release sys path fi
dispatch sys (Request.fsync path datasync fi) = bb_fsync sys path datasync fi
dispatch sys (Request.setxattr path name value size flags) =
    bb_setxattr sys path name value size flags
dispatch sys (Request.getxattr path name size) = bb_getxattr sys path name size
dispatch sys (Request.listxattr path size) = bb_listxattr sys path size
dispatch sys (Request.removexattr path name) = bb_removexattr sys path name
dispatch sys (Request.opendir path fi) = bb_opendir sys path fi
dispatch sys (Request.releasedir path fi) = bb_releasedir sys path fi
dispatch sys (Request.fsyncdir path datasync fi) = bb_fsyncdir sys path datasync fi
dispatch sys (Request.access path mask) = bb_access sys path mask
dispatch sys (Request.ftruncate path offset fi) = bb_ftruncate sys path offset fi
dispatch sys (Request.fgetattr path fi) = bb_fgetattr sys path fi
dispatch sys Request.destroy = bb_destroy sys
