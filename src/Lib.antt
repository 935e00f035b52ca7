-- ===== src/Lib.antt =====
-- A caching file system over FUSE: it shows a directory through a buffer cache of a fixed number of
-- blocks, replaced by frequency with three sections (new, middle and old).
--
-- The program's parts. CachingFileSystem.cpp has `main` and the handlers that FUSE calls;
-- `caching_read` reads through the cache and `caching_rename` tells the cache of new paths.
-- CacheManager.{h,cpp} is the cache: a `std::list` of blocks, a map from block ids to iterators of
-- it, and one iterator for the start of the middle and of the old section. CacheBlock.{h,cpp} is
-- one block. logManager.{h,cpp} writes the log.
--
-- The files. Block.antt is CacheBlock.{h,cpp}: the class is the record `CacheBlock`. Chain.antt is
-- what the cache uses of `std::list`: a node has an address, an iterator is an address, and an
-- iterator whose node is gone is undefined when it is used. Manager.antt is CacheManager.{h,cpp}:
-- `find_block` is `findBlock`, `retrieve_buffer` is `retrieveBuffer`, `insert_block` is
-- `insertBlock`, `construct` is the constructor. Paths.antt is `updatePaths`. Read.antt is the loop
-- of `caching_read` and Read/File.antt what is around it: `fetch` is the lookup with the read of a
-- missing block, `copy_block` the copy, `read_blocks` the loop, whose fuel is the number of rounds
-- that `last_block - first_block` gives, so that it never runs out before the loop ends.
-- Handlers.antt has the handlers under their own names, over `System`, the system calls that they
-- forward to, and `log_call` of logManager.cpp; Handlers/Directory.antt has `caching_readdir`, and
-- Handlers/Reading.antt the whole of `caching_read`, `caching_ioctl` and `ioctl_log`. Table.antt is
-- `cacheToString`, the table that `caching_ioctl` prints. Mount.antt is `main` with `set_root_dir`
-- and `open_log`, up to the call of `fuse_main`. Common.antt has lists, integers, decimal printing
-- and `Outcome`: a call is done, is undefined with the fault that it has, or ends the process.
--
-- Session.antt is a session: `handle` has the handler that `init_caching_oper` gives to each
-- request, and `Reaches` the states that requests lead to, one after the other, since `main` has
-- FUSE run with one thread. Session/Kept.antt and Session/Handled.antt follow the handlers, and
-- Session/Reached.antt the session; Session/Live.antt has sessions of reads alone,
-- and Session/Blind.antt compares systems that differ at the path of the log. They rest on
-- what is so wherever a call goes on: Manager/Wherever.antt for the cache with any counts and any
-- block to go, Paths/Wherever.antt for any paths, and Read/Wherever.antt, Read/Anywhere.antt and
-- Read/Slice.antt for reads from any offset.
--
-- The repository ships a second file system, in resources/fuse-tutorial-2016-03-25/src: bbfs.c
-- passes each request on to the files under its root, and log.c writes all of it to a log.
-- Bbfs.antt has the data, with `State` for `bb_state` of params.h and for `errno`; `Request` has a
-- constructor for each handler, and `SysCall` one for each system call. Bbfs/Logging.antt is log.c,
-- Bbfs/Attributes.antt, Bbfs/Files.antt and Bbfs/Directories.antt are the handlers, under their own
-- names, Bbfs/Dispatch.antt is the table `bb_oper`, and Bbfs/Start.antt is `main`. A message of the
-- log is modelled by the values that its format prints, but for pointers.
--
-- A third one, in resources/example, does the same without a log: Example.antt has its
-- data, Example/Methods.antt and Example/Directory.antt the methods of `ExampleFS` in
-- examplefs.cc, Example/Wrap.antt wrap.cc and the one object, and Example/Start.antt
-- `main2` of main.c. `LibCall` has a constructor for each call of the C library.
-- Example/Carried.antt describes the requests without the objects, arrays and printing,
-- and Example/Answers.antt what they are answered with; Example/Signs.antt and
-- Example/Stream.antt are its results and its loop.
--
-- Policy.antt is not code: it is the replacement that the cache is meant to do, on one list of
-- entries, the one used last in front, whose places are the sections. Policy/View.antt is the list
-- of a manager as the policy sees it, Policy/Lookup.antt and Policy/Admit.antt compare
-- `retrieveBuffer` and `insertBlock` with it, and Policy/Trace.antt runs of both.
--
-- The proofs. Manager/Layout.antt has the well-formed states: the list is the three
-- sections in order, the iterators name the starts of the last two, the map has exactly
-- the blocks of the list, and each block's data is what it was stored with.
-- Manager/Stems.antt is the map against the list, Manager/Bounds.antt the two
-- iterators, Manager/Move.antt and Manager/Hit.antt a hit in each section,
-- Manager/Locate.antt, Manager/Taken.antt and Manager/Found.antt where the block is and
-- goes, Manager/Find.antt `findBlock` and `retrieveBuffer`, Manager/Victim.antt and
-- Manager/Room.antt the block that goes, Manager/Push.antt, Manager/Insert.antt and
-- Manager/Insertion.antt `insertBlock`, Manager/Construct.antt the constructor.
-- Paths/Segments.antt compares bytes with names and Paths/Rename.antt is the loop over
-- the cache. Read/Fetch.antt has what the loop needs of a cache, as a record of laws,
-- and one lookup; Read/Aligned.antt the loop; Read/File.antt the handler from `fstat`
-- on, as `read_file`; Read/Crossing.antt reads over the end of a block.
-- Handlers/Log.antt has the full path in the handlers, Handlers/Rename.antt a rename.
-- Manager/Spare.antt, Manager/Load.antt and Manager/Fill.antt follow the number of
-- empty slots and the greatest count through a hit and an insertion; with them
-- Read/Cached.antt has the manager as a cache with those laws, and Handlers/Served.antt
-- a read from the handler down to the cache. Handlers/Listing.antt compares
-- `caching_readdir` with a reading of the list of entries, and Handlers/Contents.antt
-- and Table/Rows.antt read the printed table back with the reader of
-- Table/Reading.antt. Mount/Ready.antt is what FUSE is started with. Bbfs/Noop.antt
-- describes the handlers of bbfs without their log: the call that a request stands for,
-- the paths it uses, and the answer; Bbfs/Quiet.antt says when a run does no more than
-- that but for the log, and Bbfs/Shapes.antt, Bbfs/Single.antt and Bbfs/Forward.antt
-- compare the handlers with it. Bbfs/Stream.antt is the loop of `bb_readdir`, and
-- Bbfs/Unterminated.antt a value with no zero at its end.
--
-- Bounds. Counts of references are numbers up to 2 ^ 31 - 1, and to count further is undefined; the
-- begin of a block in the file is an `int`. The sizes of the sections are integers of any size. The
-- loops over the entries of a directory have fuel, since a directory may grow while it is read:
-- with more fuel than there are entries they come to their end.
--
-- Not modelled: floating-point numbers (a parameter, `Doubles`), the memory that is never freed,
-- and the flag `direct_io` that `caching_open` sets. `log_utime` of log.c is never called. The FUSE
-- library under resources/ is another project's, and Testing has a test program.
pub mod Common
pub mod Block
pub mod Chain
pub mod Manager
pub mod Paths
pub mod Policy
pub mod Session
pub mod Table
pub mod Mount
pub mod Read
pub mod Handlers
pub mod Bbfs
pub mod Example
