-- ===== src/Names/Removing.antt =====
-- namei.c: what `chunkfs_link`, `chunkfs_unlink` and `chunkfs_rmdir` return, and leave in the clients.
use chunkfs.Base.{ℕ, ◌<◌, ◌≡◌, refl, none, List, length}
use chunkfs.Kernel.{Ret, ok, err}
use chunkfs.Client.{Inode, Dentry, Status, success, failure, Client}
use chunkfs.Cont.{Head, World}
use chunkfs.File.{OpenFile}
use chunkfs.File.Sizes.{InodePath, sizes_from, copy_up_inode-InodePath}
use chunkfs.Names.{Dirs, Node, chunkfs_unlink, chunkfs_rmdir}

-- What is shown of a file: its clients' sizes, and the attributes of the inode `i`.
abbrev pub showing : (c : Client) → c.State → Inode → List Inode → OpenFile → OpenFile
showing c s i is file = record file { i_size = sizes_from c s 0 is; i_attrs = c.attrs s i }

pub data Removal : Type 0 where
  unlinking : Removal
  removing_dir : Removal

module _ (c : Client) (dirs : Dirs c) where
  abbrev pub client_removal : Removal → c.State → Inode → Dentry → Status × c.State
  client_removal unlinking = dirs.unlink
  client_removal removing_dir = dirs.rmdir

  -- The inode whose attributes are shown afterwards.
  abbrev pub removed_inode : Removal → Node → c.State → Dentry → Inode
  removed_inode unlinking node s d = node.head.client_inode
  removed_inode removing_dir node s d = c.d_inode s d

  abbrev pub removal :
      Removal
      → ℕ
      → Head
      → OpenFile
      → Node
      → Dentry
      → World c.State
      → Ret (OpenFile × Node) × World c.State
  removal unlinking = chunkfs_unlink c dirs
  removal removing_dir = chunkfs_rmdir c dirs

  module _ (fuel : ℕ) (dir : Head) (shown : OpenFile) (node : Node) (d : Dentry) where
    -- Given the client's answer and its state: the error, or what the client shows then of the
    -- directory and of what had the entry. The clients are as the one call left them.
    abbrev pub Removes :
        Removal
        → List Inode
        → List Inode
        → Status × c.State
        → Ret (OpenFile × Node) × World c.State
        → Type 0
    Removes r is js (success, s) (result, w') =
        (result
          ≡ ok (
            showing c s dir.client_inode is shown,
            record node { shown = showing c s (removed_inode r node s d) js node.shown },
          ))
        × (w'.fs ≡ s)
    Removes r is js (failure e, s) (result, w') = (result ≡ err e) × (w'.fs ≡ s)

    removal_answered :
        (r : Removal) (w : World c.State) (is js : List Inode) (answer : Status × c.State)
        → client_removal r w.fs dir.client_inode d ≡ answer
        → InodePath c answer.1 dir none is
        → InodePath c answer.1 node.head none js
        → length is < fuel
        → length js < fuel
        → Removes r is js answer (removal r fuel dir shown node d w)
    unfolding chunkfs_unlink chunkfs_rmdir
    removal_answered unlinking w is js (failure e, s) answers own_dir own h k =
        rw answers (refl, refl)
    removal_answered removing_dir w is js (failure e, s) answers own_dir own h k =
        rw answers (refl, refl)
    removal_answered unlinking w is js (success, s) answers own_dir own h k =
        rw
          (
            answers,
            copy_up_inode-InodePath c dir fuel dir.client_inode shown is (record w { fs = s })
                own_dir h,
            copy_up_inode-InodePath c node.head fuel node.head.client_inode node.shown js
                (record w { fs = s }) own k,
          )
          (refl, refl)
    removal_answered removing_dir w is js (success, s) answers own_dir own h k =
        rw
          (
            answers,
            copy_up_inode-InodePath c dir fuel dir.client_inode shown is (record w { fs = s })
                own_dir h,
            copy_up_inode-InodePath c node.head fuel (c.d_inode s d) node.shown js
                (record w { fs = s }) own k,
          )
          (refl, refl)

    -- `chunkfs_unlink` and `chunkfs_rmdir` (`Removal`) return the error of the client's operation,
    -- with the clients as it left them. Without an error the directory then shows the sum of the
    -- sizes of its clients' inodes, which wraps at `2 ^ 64`, with its client's attributes, and what
    -- had the entry the sum of the sizes of its own, with the attributes of its client's inode, for
    -- `rmdir` of the one that the entry has afterwards; nothing of the clients has changed but by
    -- the one call. The inodes of both can be had afterwards, and the fuel exceeds their numbers.
    pub removal-Removes :
        (r : Removal) (w : World c.State) (is js : List Inode)
        → let answer = client_removal r w.fs dir.client_inode d in
          InodePath c answer.1 dir none is
          → InodePath c answer.1 node.head none js
          → length is < fuel
          → length js < fuel
          → Removes r is js answer (removal r fuel dir shown node d w)
    removal-Removes r w is js own_dir own h k = removal_answered r w is js _ refl own_dir own h k
