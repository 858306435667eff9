-- ===== src/Names.antt =====
-- namei.c, and inode.c as far as it sets inodes up: entries of directories are made and removed in the
-- client of the directory's chunk, and what the client shows is copied up. The locks of the VFS are not
-- modelled.
pub mod Started
pub mod Making
pub mod Lives
pub mod Removing
pub mod Refusals
use chunkfs.Base.{ℕ, ◌+◌, ◌-◌, Bool, true, false, Option, none, some, List, if◌then◌else◌}
use chunkfs.Uino.{uino_to_chunk_id, make_uino}
use chunkfs.Kernel.{Ret, ok, err, bug, out_of_fuel, eio}
use chunkfs.Client.{Inode, Dentry, Status, success, failure, Client}
use chunkfs.Cont.{Head, World, C, pure, raise, crash, starved, ◌>>=◌, ◌>>◌}
use chunkfs.Create.{d_inode, init_cont_data}
use chunkfs.File.{OpenFile, copy_up_inode}

abbrev pub enosys : ℕ
enosys = 38

-- What `i_mode` says an inode is.
pub data Kind : Type 0 where
  symlink : Kind
  directory : Kind
  regular : Kind
  special : Kind

-- The tables of operations; `unset` is what `new_inode` left, and `special_fops` what
-- `init_special_inode` makes of it by the mode.
pub data InodeOps : Type 0 where
  symlink_iops : InodeOps
  dir_iops : InodeOps
  file_iops : InodeOps
  special_iops : InodeOps

pub data FileOps : Type 0 where
  dir_fops : FileOps
  file_fops : FileOps
  special_fops : FileOps
  unset : FileOps

-- The operations of a client's directories, and `new_inode`: NULL, or an inode and whether it is bad.
pub record Dirs (c : Client) : Type 0 where
  pub new_inode : ℕ → Option Bool
  pub kind : c.State → Inode → Kind
  pub create : c.State → Inode → Dentry → ℕ → Status × c.State
  pub mknod : c.State → Inode → Dentry → ℕ → ℕ → Status × c.State
  pub mkdir : c.State → Inode → Dentry → ℕ → Status × c.State
  pub symlink_to : c.State → Inode → Dentry → List ℕ → Status × c.State
  pub link : c.State → Dentry → Inode → Dentry → Status × c.State
  pub unlink : c.State → Inode → Dentry → Status × c.State
  pub rmdir : c.State → Inode → Dentry → Status × c.State

-- An inode of chunkfs that has been started.
pub record Node : Type 0 where
  pub head : Head
  pub shown : OpenFile
  pub i_op : InodeOps
  pub i_fop : FileOps

unfoldable pub set_inode_ops : Kind → InodeOps × FileOps
set_inode_ops symlink = (symlink_iops, unset)
set_inode_ops directory = (dir_iops, dir_fops)
set_inode_ops regular = (file_iops, file_fops)
set_inode_ops special = (special_iops, special_fops)

-- What `new_inode` leaves to be copied up to.
abbrev pub fresh : OpenFile
fresh = record { f_pos = 0; i_size = 0; i_attrs = 0 }

module _ (c : Client) (dirs : Dirs c) where
  -- `is_bad_inode` reads the inode, which may be NULL; a bad inode is not put.
  abbrev pub not_bad : Option Bool → C c.State (Unit {0})
  not_bad none w = (bug, w)
  not_bad (some true) w = (err eio, record w { inodes = w.inodes + 1 })
  not_bad (some false) w = (ok tt, record w { inodes = w.inodes + 1 })

  unfoldable pub chunkfs_new_inode : C c.State (Unit {0})
  chunkfs_new_inode w = not_bad (dirs.new_inode w.calls) (record w { calls = w.calls + 1 })

  abbrev answered : Status → C c.State (Unit {0})
  answered success = pure tt
  answered (failure e) = raise e

  abbrev pub client_op : (c.State → Status × c.State) → C c.State (Unit {0})
  client_op op w = let (r, fs') = op w.fs in answered r (record w { fs = fs' })

  -- `iput` of an inode that was not started evicts it, and `chunkfs_clear_inode` then puts a client's
  -- inode that was never written.
  abbrev pub put_if_failed : {A : Type 0} → Ret A → World c.State → Ret A × World c.State
  put_if_failed (ok a) w = (ok a, w)
  put_if_failed (err e) w = (bug, w)
  put_if_failed bug w = (bug, w)
  put_if_failed out_of_fuel w = (out_of_fuel, w)

  -- `goto out_inode`.
  abbrev pub or_iput : {A : Type 0} → C c.State A → C c.State A
  or_iput m w = let (r, w') = m w in put_if_failed r w'

  abbrev pub head_of : Dentry → Inode → ℕ → Head
  head_of d client_inode chunk_id = record {
    i_ino = make_uino chunk_id (c.i_ino client_inode);
    client_dentry = d;
    client_inode = client_inode;
  }

  unfoldable pub start_inode : ℕ → Dentry → Inode → ℕ → C c.State Node
  unfolding set_inode_ops
  start_inode fuel d client_inode chunk_id w =
      let (i_op, i_fop) = set_inode_ops (dirs.kind w.fs client_inode) in
      (do
        shown ← copy_up_inode c fuel (head_of d client_inode chunk_id) client_inode fresh
        pure (record {
          head = head_of d client_inode chunk_id;
          shown = shown;
          i_op = i_op;
          i_fop = i_fop;
        }))
        w

  -- What follows `chunkfs_new_inode` when an entry is made.
  abbrev pub made_in_client :
      ℕ → Head → OpenFile → Dentry → (c.State → Status × c.State) → C c.State (Node × OpenFile)
  made_in_client fuel dir shown d op = do
    or_iput (client_op op)
    or_iput (init_cont_data c d)
    client_inode ← d_inode c d
    node ← start_inode fuel d client_inode (uino_to_chunk_id dir.i_ino)
    shown' ← copy_up_inode c fuel dir dir.client_inode shown
    pure (node, shown')

  -- How symlink, mkdir and mknod are done, with the client's operation `op`: the new inode, and what
  -- the directory shows.
  unfoldable pub make_node :
      ℕ → Head → OpenFile → Dentry → (c.State → Status × c.State) → C c.State (Node × OpenFile)
  unfolding chunkfs_new_inode start_inode
  make_node fuel dir shown d op = do chunkfs_new_inode; made_in_client fuel dir shown d op

  -- The copies of the nameidata on the stack of `chunkfs_create` are made at its depth, which is an
  -- index; `none` is a depth that was not written.
  abbrev copied_nd : Option ℕ → C c.State (Unit {0})
  copied_nd none = crash
  copied_nd (some depth) = pure tt

  abbrev nd_depth : Option ℕ
  nd_depth = none

  -- What `chunkfs_lookup` does about the client's inode, which a negative dentry lacks.
  unfoldable pub found_inode : ℕ → ℕ → Dentry → Bool → C c.State (Option Node)
  unfolding chunkfs_new_inode start_inode
  found_inode fuel chunk_id d true = pure none
  found_inode fuel chunk_id d false = do
    chunkfs_new_inode
    init_cont_data c d
    client_inode ← d_inode c d
    node ← start_inode fuel d client_inode chunk_id
    pure (some node)

  module _ (fuel : ℕ) (dir : Head) (shown : OpenFile) (d : Dentry) where
    unfoldable pub chunkfs_create : ℕ → C c.State (Node × OpenFile)
    unfolding chunkfs_new_inode
    chunkfs_create mode = do
      chunkfs_new_inode
      copied_nd nd_depth
      result ← made_in_client fuel dir shown d (λ s. dirs.create s dir.client_inode d mode)
      copied_nd nd_depth
      pure result

    unfoldable pub chunkfs_symlink : List ℕ → C c.State (Node × OpenFile)
    unfolding make_node
    chunkfs_symlink oldname =
        make_node fuel dir shown d (λ s. dirs.symlink_to s dir.client_inode d oldname)

    unfoldable pub chunkfs_mkdir : ℕ → C c.State (Node × OpenFile)
    unfolding make_node
    chunkfs_mkdir mode = make_node fuel dir shown d (λ s. dirs.mkdir s dir.client_inode d mode)

    unfoldable pub chunkfs_mknod : ℕ → ℕ → C c.State (Node × OpenFile)
    unfolding make_node
    chunkfs_mknod mode dev =
        make_node fuel dir shown d (λ s. dirs.mknod s dir.client_inode d mode dev)

  -- The inode is linked to one entry more; its link count is among the attributes.
  unfoldable pub chunkfs_link : ℕ → Node → Dentry → Head → Dentry → C c.State Node
  chunkfs_link fuel old old_dentry dir new_dentry = do
    client_op (λ s. dirs.link s old_dentry dir.client_inode new_dentry)
    shown ← copy_up_inode c fuel old.head old.head.client_inode old.shown
    pure (record old { shown = shown })

  -- What the directory shows, and what the inode that had the entry does.
  unfoldable pub chunkfs_unlink : ℕ → Head → OpenFile → Node → Dentry → C c.State (OpenFile × Node)
  chunkfs_unlink fuel dir shown node d = do
    client_op (λ s. dirs.unlink s dir.client_inode d)
    shown' ← copy_up_inode c fuel dir dir.client_inode shown
    own ← copy_up_inode c fuel node.head node.head.client_inode node.shown
    pure (shown', record node { shown = own })

  -- The inode is that of the client's dentry after the removal.
  unfoldable pub chunkfs_rmdir : ℕ → Head → OpenFile → Node → Dentry → C c.State (OpenFile × Node)
  chunkfs_rmdir fuel dir shown node d = do
    client_op (λ s. dirs.rmdir s dir.client_inode d)
    shown' ← copy_up_inode c fuel dir dir.client_inode shown
    client_inode ← d_inode c d
    own ← copy_up_inode c fuel node.head client_inode node.shown
    pure (shown', record node { shown = own })

  unfoldable pub chunkfs_rename : C c.State (Unit {0})
  chunkfs_rename = raise enosys
