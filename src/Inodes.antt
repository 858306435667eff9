-- ===== src/Inodes.antt =====
-- inode.c and file.c as far as they pass attributes between an inode of chunkfs and its client's:
-- `chunkfs_iget`, `chunkfs_write_inode`, `chunkfs_setattr`, `chunkfs_permission`; and the life of an
-- inode in super.c's slab cache.
pub mod Attributes
use chunkfs.Base.{ℕ, ◌+◌, ◌-◌, Bool, true, false, Option, none, some, if◌then◌else◌}
use chunkfs.Uino.{uino_to_chunk_id, uino_to_ino}
use chunkfs.Kernel.{Ret, ok, err, bug, out_of_fuel, enomem}
use chunkfs.Mount.{ChunkInfo, find_chunk}
use chunkfs.Client.{Inode, Dentry, Status, success, failure, Client}
use chunkfs.Cont.{Head, World, C, pure, raise, crash, ◌>>=◌, ◌>>◌}
use chunkfs.File.{OpenFile, copy_up_inode}
use chunkfs.Names.{Dirs, Node, client_op, start_inode}

-- Calls on a client's inodes: its attributes are set as a whole (`fsstack_copy_attr_all`), it is
-- written, and what `setattr` and `permission` do, which may be missing; the kernel's checks; and
-- whether `iget_locked` has just made the inode.
pub record AttrOps (c : Client) : Type 0 where
  pub set_attrs : c.State → Inode → ℕ → c.State
  pub write_inode : c.State → Inode → Status × c.State
  pub setattr : Option (c.State → Dentry → ℕ → Status × c.State)
  pub inode_change_ok : c.State → Inode → ℕ → Status
  pub security_inode_setattr : c.State → Dentry → ℕ → Status
  pub setattr_copy : c.State → Inode → ℕ → c.State
  pub permission : Option (c.State → Inode → ℕ → Status)
  pub generic_permission : c.State → Inode → ℕ → Status
  pub is_new : c.State → Inode → Bool
  pub dentry_of : c.State → Inode → Dentry

-- What `iget_locked` of chunkfs gives: NULL, or an inode that is new or not.
pub data Own : Type 0 where
  null : Own
  cached : Own
  new : Own

-- What `chunkfs_iget` has done to its inode; what it returns is NULL in each case.
pub data Got : Type 0 where
  held : Got
  half_locked : Got
  started : Node → Got

module _ (c : Client) (dirs : Dirs c) (ops : AttrOps c) where
  abbrev pub start_got : ℕ → ℕ → Option Inode → C c.State Got
  start_got fuel chunk_id none w = (bug, w)
  start_got fuel chunk_id (some i) w =
      if ops.is_new w.fs i
      then (if c.is_bad i
          then (bug, w)
          else (do
            node ← start_inode c dirs fuel (ops.dentry_of w.fs i) i chunk_id
            pure (started node))
              w)
      else (ok half_locked, w)

  abbrev pub client_got : ℕ → ℕ → ℕ → Option ChunkInfo → C c.State Got
  client_got fuel chunk_id ino none = crash
  client_got fuel chunk_id ino (some ci) = start_got fuel chunk_id (c.iget ci.ci_mnt.mnt_sb ino)

  abbrev pub own_got : ℕ → ℕ → Own → C c.State Got
  own_got fuel ino null w = (err enomem, w)
  own_got fuel ino cached w = (ok held, record w { inodes = w.inodes + 1 })
  own_got fuel ino new w =
      client_got fuel (uino_to_chunk_id ino) (uino_to_ino ino)
        (find_chunk c.pool (uino_to_chunk_id ino)) (record w { inodes = w.inodes + 1 })

  unfoldable pub chunkfs_iget : ℕ → ℕ → Own → C c.State Got
  unfolding start_inode
  chunkfs_iget fuel ino own = own_got fuel ino own

  unfoldable pub copy_down_inode : Node → C c.State (Unit {0})
  copy_down_inode node w =
      (ok tt, record w { fs = ops.set_attrs w.fs node.head.client_inode node.shown.i_attrs })

  unfoldable pub chunkfs_write_inode : Node → C c.State (Unit {0})
  unfolding copy_down_inode
  chunkfs_write_inode node = do
    copy_down_inode node
    client_op c dirs (λ s. ops.write_inode s node.head.client_inode)

  -- Where the client has no `setattr`.
  abbrev copied : Status → Inode → ℕ → c.State → Status × c.State
  copied success i attr s = (success, ops.setattr_copy s i attr)
  copied (failure e) i attr s = (failure e, s)

  abbrev secured : Status → Dentry → Inode → ℕ → c.State → Status × c.State
  secured success d i attr s = copied (ops.security_inode_setattr s d attr) i attr s
  secured (failure e) d i attr s = (failure e, s)

  abbrev pub setattr_with :
      Option (c.State → Dentry → ℕ → Status × c.State)
      → Dentry
      → Inode
      → ℕ
      → c.State
      → Status × c.State
  setattr_with (some setattr) d i attr s = setattr s d attr
  setattr_with none d i attr s = secured (ops.inode_change_ok s i attr) d i attr s

  unfoldable pub chunkfs_setattr : ℕ → Node → ℕ → C c.State Node
  chunkfs_setattr fuel node attr = do
    client_op c dirs (setattr_with ops.setattr node.head.client_dentry node.head.client_inode attr)
    shown ← copy_up_inode c fuel node.head node.head.client_inode node.shown
    pure (record node { shown = shown })

  abbrev pub permission_with : Option (c.State → Inode → ℕ → Status) → c.State → Inode → ℕ → Status
  permission_with (some permission) = permission
  permission_with none = ops.generic_permission

  unfoldable pub chunkfs_permission : c.State → Node → ℕ → Status
  chunkfs_permission s node submask =
      permission_with ops.permission s node.head.client_inode submask

-- An inode of the slab cache; `kmem_cache_alloc` does not write the client's inode.
pub record VfsInode : Type 0 where
  pub i_version : ℕ
  pub ii_client_inode : Option Inode

-- How many inodes of the cache are in use, and how many references to clients' inodes are held.
pub record Cache : Type 0 where
  pub used : ℕ
  pub client_inodes : ℕ

unfoldable pub alloc_inode : Bool → Cache → Option VfsInode × Cache
alloc_inode false cache = (none, cache)
alloc_inode true cache = (
  some (record { i_version = 1; ii_client_inode = none }),
  record cache { used = cache.used + 1 },
)

unfoldable pub destroy_inode : VfsInode → Cache → Cache
destroy_inode inode cache = record cache { used = cache.used - 1 }

-- `chunkfs_clear_inode`: an inode that was never started has no client inode to put.
abbrev pub clear_client : Option Inode → Cache → Ret (Unit {0}) × Cache
clear_client none cache = (bug, cache)
clear_client (some i) cache = (ok tt, record cache { client_inodes = cache.client_inodes - 1 })

unfoldable pub clear_inode : VfsInode → Cache → Ret (Unit {0}) × Cache
clear_inode inode cache = clear_client inode.ii_client_inode cache

-- The module: whether the file system is registered, and whether the cache is there.
pub record Module : Type 0 where
  pub registered : Bool
  pub has_cache : Bool

abbrev pub with_cache : Bool → Status → Ret (Unit {0})
with_cache false registered = err enomem
with_cache true success = ok tt
with_cache true (failure e) = err e

abbrev pub succeeded : Status → Bool
succeeded success = true
succeeded (failure e) = false

-- `register_filesystem` answers `registers`, and `kmem_cache_create` gives a cache or NULL.
unfoldable pub init_chunkfs_fs : Status → Bool → Ret (Unit {0}) × Module
init_chunkfs_fs registers caches =
    (with_cache caches registers, record { registered = succeeded registers; has_cache = caches })

unfoldable pub exit_chunkfs_fs : Module → Module
exit_chunkfs_fs m = record { registered = false; has_cache = false }
