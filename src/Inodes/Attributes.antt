-- ===== src/Inodes/Attributes.antt =====
-- file.c and inode.c: the attributes that `chunkfs_setattr` and `chunkfs_write_inode` pass on.
use chunkfs.Base.{ℕ, ◌<◌, ◌≡◌, refl, sym, none, some, List, length}
use chunkfs.Kernel.{Ret, ok, err}
use chunkfs.Client.{Inode, Dentry, Status, success, failure, Client}
use chunkfs.Cont.{World}
use chunkfs.File.Sizes.{InodePath, sizes_from, copy_up_inode-InodePath}
use chunkfs.Names.{Dirs, Node}
use chunkfs.Inodes.{AttrOps, setattr_with, chunkfs_setattr}

module _ (c : Client) (dirs : Dirs c) (ops : AttrOps c) (node : Node) where
  -- What `setattr` leaves, given the client's answer and its state: the error, or what the client
  -- shows then.
  abbrev pub SetsAttr : List Inode → Status × c.State → Ret Node × World c.State → Type 0
  SetsAttr is (success, s) (r, w') =
      (r
        ≡ ok (record node {
          shown = record (node.shown) {
            i_size = sizes_from c s 0 is;
            i_attrs = c.attrs s node.head.client_inode;
          };
        }))
      × (w'.fs ≡ s)
  SetsAttr is (failure e, s) (r, w') = (r ≡ err e) × (w'.fs ≡ s)

  -- What the client and the kernel's checks answer, and the clients' state then: the client's own
  -- `setattr`, or the first check that refuses, or the copy of the attributes.
  pub data Sets (attr : ℕ) (s : c.State) (answer : Status × c.State) : Type 0 where
    by_client :
        (setattr : c.State → Dentry → ℕ → Status × c.State)
        → ops.setattr ≡ some setattr
        → setattr s node.head.client_dentry attr ≡ answer
        → Sets attr s answer
    not_permitted :
        (e : ℕ)
        → ops.setattr ≡ none
        → ops.inode_change_ok s node.head.client_inode attr ≡ failure e
        → answer ≡ (failure e, s)
        → Sets attr s answer
    insecure :
        (e : ℕ)
        → ops.setattr ≡ none
        → ops.inode_change_ok s node.head.client_inode attr ≡ success
        → ops.security_inode_setattr s node.head.client_dentry attr ≡ failure e
        → answer ≡ (failure e, s)
        → Sets attr s answer
    copies :
        ops.setattr ≡ none
        → ops.inode_change_ok s node.head.client_inode attr ≡ success
        → ops.security_inode_setattr s node.head.client_dentry attr ≡ success
        → answer ≡ (success, ops.setattr_copy s node.head.client_inode attr)
        → Sets attr s answer

  setattr_with-Sets :
      (attr : ℕ) (s : c.State) (answer : Status × c.State)
      → Sets attr s answer
      → setattr_with c dirs ops ops.setattr node.head.client_dentry node.head.client_inode attr s
        ≡ answer
  setattr_with-Sets attr s answer (by_client setattr has answers) = rw has answers
  setattr_with-Sets attr s answer (not_permitted e lacks refuses is) = rw (lacks, refuses) (sym is)
  setattr_with-Sets attr s answer (insecure e lacks allows refuses is) =
      rw (lacks, allows, refuses) (sym is)
  setattr_with-Sets attr s answer (copies lacks allows secure is) =
      rw (lacks, allows, secure) (sym is)

  setattr_answered :
      (fuel attr : ℕ) (w : World c.State) (is : List Inode) (answer : Status × c.State)
      → setattr_with c dirs ops ops.setattr node.head.client_dentry node.head.client_inode attr w.fs
        ≡ answer
      → InodePath c answer.1 node.head none is
      → length is < fuel
      → SetsAttr is answer (chunkfs_setattr c dirs ops fuel node attr w)
  unfolding chunkfs_setattr
  setattr_answered fuel attr w is (failure e, s) answers path h = rw answers (refl, refl)
  setattr_answered fuel attr w is (success, s) answers path h =
      rw
        (
          answers,
          copy_up_inode-InodePath c node.head fuel node.head.client_inode node.shown is
              (record w { fs = s }) path h,
        )
        (refl, refl)

  -- `chunkfs_setattr` is the client's `setattr` where it has one; where not, `inode_change_ok` is
  -- asked, then `security_inode_setattr`, the error of the first that refuses is returned with the
  -- clients as before, and else the attributes are copied (`Sets`). An error is returned with the
  -- clients as that left them; without one the inode then shows the client's attributes and the sum
  -- of the sizes of its clients' inodes. The inodes can be had afterwards, and the fuel exceeds
  -- their number.
  pub chunkfs_setattr_lem :
      (fuel attr : ℕ) (w : World c.State) (is : List Inode) (answer : Status × c.State)
      → Sets attr w.fs answer
      → InodePath c answer.1 node.head none is
      → length is < fuel
      → SetsAttr is answer (chunkfs_setattr c dirs ops fuel node attr w)
  chunkfs_setattr_lem fuel attr w is answer sets path h =
      setattr_answered fuel attr w is answer (setattr_with-Sets attr w.fs answer sets) path h
