-- ===== src/Super/Killing.antt =====
-- super.c: the table of the superblock's operations, and `chunkfs_kill_super`. What the kernel does at the
-- end of a mount is a parameter.
use chunkfs.Base.{ℕ, Bool, true, false, Option, List, ◌==◌, bit_or, bit_and, if◌then◌else◌}
use chunkfs.Kernel.{Ret, ok, err, bug, out_of_fuel}
use chunkfs.Client.{Client}
use chunkfs.Cont.{C}
use chunkfs.Names.{Dirs, Node}
use chunkfs.Inodes.{
  AttrOps, VfsInode, Cache, alloc_inode, destroy_inode, clear_inode, chunkfs_write_inode,
}
use chunkfs.Super.{SuperBlock, put_super, write_super}

abbrev pub fmode_excl : ℕ
fmode_excl = 0x80

-- A block device: whether `bd_super` is set, and with which modes it was put.
pub record BlockDev : Type 0 where
  pub bd_super : Bool
  pub dirty : Bool
  pub puts : List ℕ

-- A superblock on its device, with the mode that it was opened in, and whether the kernel has warned,
-- which it does once.
pub record Volume (S : Type 0) : Type 0 where
  pub sb : SuperBlock S
  pub s_bdev : BlockDev
  pub s_mode : ℕ
  pub warned : Bool

pub record SuperOps (c : Client) : Type 0 where
  pub alloc_op : Bool → Cache → Option VfsInode × Cache
  pub destroy_op : VfsInode → Cache → Cache
  pub write_op : Node → C c.State (Unit {0})
  pub put_op : SuperBlock c.State → Ret (Unit {0}) × SuperBlock c.State
  pub sync_op : SuperBlock c.State → Ret (Unit {0}) × SuperBlock c.State
  pub evict_op : VfsInode → Cache → Ret (Unit {0}) × Cache

-- What the kernel does at the end of a mount. It is given the superblock's operations.
pub record Ending (c : Client) : Type 0 where
  pub generic_shutdown_super : SuperOps c → SuperBlock c.State → Ret (Unit {0}) × SuperBlock c.State
  pub sync_blockdev : BlockDev → BlockDev
  pub blkdev_put : BlockDev → ℕ → BlockDev

module _ (c : Client) (dirs : Dirs c) (ops : AttrOps c) (kernel : Ending c) where
  unfoldable pub chunkfs_sops : SuperOps c
  unfolding alloc_inode destroy_inode chunkfs_write_inode put_super write_super clear_inode
  chunkfs_sops = record {
    alloc_op = alloc_inode;
    destroy_op = destroy_inode;
    write_op = chunkfs_write_inode c dirs ops;
    put_op = put_super;
    sync_op = write_super;
    evict_op = clear_inode;
  }

  abbrev put_device : Volume c.State → Volume c.State
  put_device v = record v {
    s_bdev = kernel.blkdev_put (kernel.sync_blockdev v.s_bdev) (bit_or v.s_mode fmode_excl);
    warned = if bit_and v.s_mode fmode_excl == 0 then true else v.warned;
  }

  abbrev shut_down :
      Volume c.State → Ret (Unit {0}) × SuperBlock c.State → Ret (Unit {0}) × Volume c.State
  shut_down v (ok r, sb) = (ok r, put_device (record v { sb = sb }))
  shut_down v (err e, sb) = (err e, record v { sb = sb })
  shut_down v (bug, sb) = (bug, record v { sb = sb })
  shut_down v (out_of_fuel, sb) = (out_of_fuel, record v { sb = sb })

  unfoldable pub kill_super : Volume c.State → Ret (Unit {0}) × Volume c.State
  unfolding chunkfs_sops
  kill_super v =
      shut_down (record v { s_bdev = record (v.s_bdev) { bd_super = false } })
        (kernel.generic_shutdown_super chunkfs_sops v.sb)
