-- ===== src/Lib.antt =====
-- Chunkfs: a file system that is divided into chunks, each of which holds a client file system.
--
-- The program's parts. `mkfs.chunkfs` writes a summary of the pool, of the device and of each chunk.
-- At mount time the kernel module reads them, checks them, and finds the client file system of each
-- chunk where user space has mounted it. A file begins in one chunk; where it outgrows it, a
-- continuation, an inode of another chunk's client, holds the next bytes. Extended attributes of the
-- clients' inodes link the continuations to a list. Reads and writes find the continuation that
-- holds the offset and are done on the client's file.
--
-- The files.
--   Base      names, Boolean tests, lists measured by native numbers, and laws of bit operations.
--   Uino      chunkfs_i.h: the macros UINO_TO_CHUNK_ID, UINO_TO_INO and MAKE_UINO.
--   Device    the bytes of a device, a function from offsets; writes and reads of runs of bytes.
--   Format    chunkfs.h, chunkfs_pool.h, chunkfs_dev.h, chunkfs_chunk.h: the structures as records,
--             their bytes, the casts of a block to a structure, magic numbers and checksums.
--   Mkfs      mkfs.chunkfs.c: `main` is `mkfs`, the loop of `write_chunk_summaries` is
--             `summaries_loop`, the other functions have their names.
--   Decimal   the `%llu` of `sprintf`, and `simple_strtoull`: the kernel's library, called by cont.c.
--   Kernel    what super.c asks of the kernel (a record, the parameter `env`), and the monad of its
--             functions: a result or an error, and the objects, buffers and mounts that are held.
--   Mount     super.c: `chunkfs_read_pool`, `chunkfs_read_dev`, `chunkfs_read_chunk`,
--             `chunkfs_read_client_sb`, `chunkfs_find_chunk` and the three functions that free, without
--             the prefix. Balance, Chain and Outcomes prove how a mount ends.
--   NewFs     mkfs and mount together: what the one writes the other reads.
--   Client    the client file systems, a record of operations on an abstract state, the parameter
--             `c`, with the documented laws of extended attributes.
--   Cont      cont.c: `get_set_cont_data` (to get and to set), `set_cont_data`, `get_cont_data`,
--             `load_continuation`, `chunkfs_put_continuation`, and the monad of the VFS's functions.
--   Walk      cont.c: `chunkfs_get_next_cont`, `chunkfs_get_cont_at_offset`, `chunkfs_get_next_inode`.
--   Create    cont.c: `chunkfs_create_continuation` and `chunkfs_init_cont_data`.
--   File      file.c and inode.c: `chunkfs_open_cont_file`, `chunkfs_close_cont_file`, `chunkfs_read`,
--             `chunkfs_write`, `chunkfs_open`, `chunkfs_fsync_file`, `chunkfs_copy_up_inode`.
--   Names     namei.c: `chunkfs_symlink`, `chunkfs_mkdir` and `chunkfs_mknod`, whose common body is
--             `make_node`, `chunkfs_create`, the removal of entries, and of a lookup what concerns the
--             client's inode; inode.c: `chunkfs_start_inode`. Names/Lives is a file from its creation
--             on.
--   Dentries  namei.c: `chunkfs_lookup` and the set-up and release of dentries, with the references to
--             client dentries and mounts and the objects that they hold.
--   Super     super.c: `chunkfs_read_root` (`read_root`), `chunkfs_fill_super`, `chunkfs_put_super`,
--             `chunkfs_write_super`, `chunkfs_kill_super`, without the prefix, and `chunkfs_sops`; the
--             last two in Super/Killing.
--   Symlink   symlink.c.
--   Directory dir.c.
--   Inodes    inode.c: `chunkfs_iget` and `chunkfs_write_inode`; file.c: `chunkfs_setattr` and
--             `chunkfs_permission`; super.c: the slab cache of inodes, and the module.
--   WritePattern  write_pattern.c: `main` is `write_pattern`, its loop `write_loop`.
--   Tests     runs at concrete inputs.
--
-- Numbers. `u64` values are native numbers with their wrap-around written out (add64, sub64). Errors are
-- the positive `e` of a returned `-e`. The host is little-endian, as the byte swaps of the source are
-- then identities. `loff_t` is taken as the `u64` that the comparisons convert it to.
--
-- Fuel. The loops over chunks, continuations and inodes follow pointers, so that they need not end. They
-- take fuel, one unit a round, and end in `out_of_fuel` without it. Theorems that say how a loop ends
-- ask for more fuel than the list has members, which is enough as they show.
--
-- Undefined behaviour of C and a `BUG_ON` that fires are the result `bug` (`undefined` in mkfs). So
-- `chunkfs_create` ends in `bug` once it has an inode, since it copies a nameidata whose depth, an
-- index, was never written; and symlink, mkdir and mknod do after an error of the client, since the
-- inode that they then put was never started.
--
-- The bytes of a file. File/View is the abstract view of a file, one sequence of bytes, given what the
-- clients' files hold (`ByteLaws` is the documented behaviour of theirs that it relies on); File/Session
-- is the relation between calls and what they answer, File/Life the one for files that grow, by what
-- File/Grows has, and File/Interleaved the one for two files at once.
--
-- Not modelled: fsck.chunkfs.c, which does not compile; the scripts; `chunkfs_mount` and
-- `chunkfs_llseek_file`, which only call the kernel. Locks have no model, since one operation runs at
-- a time, nor have reference counts of inodes and dentries, but for those of Names, Dentries and Super;
-- debug output is left out. A client's `dentry_open` is that with the flags and credentials of the one
-- open file: flags that differ from file to file have no model.
pub mod Base
pub mod Uino
pub mod Device
pub mod Format
pub mod Mkfs
pub mod Decimal
pub mod Kernel
pub mod Mount
pub mod NewFs
pub mod Client
pub mod Cont
pub mod Walk
pub mod Create
pub mod File
pub mod Names
pub mod Dentries
pub mod Super
pub mod Symlink
pub mod Directory
pub mod Inodes
pub mod WritePattern
pub mod Tests
