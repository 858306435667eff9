-- ===== src/File/Grows.antt =====
-- cont.c: what it takes for a file to get one continuation more.
use chunkfs.Base.{ℕ, ◌+◌, ◌^◌, ◌<◌, ◌≡◌, ◌≢◌, List, [], ◌∷◌, ◌++◌, length}
use chunkfs.Client.{Dentry, Inode, Status, ClientFile, opened, Client, XattrLaws}
use chunkfs.Cont.{Continuation, Head}
use chunkfs.Cont.Attributes.{Settable}
use chunkfs.Walk.Search.{end_from}
use chunkfs.Create.Opens.{OpenLaws, New, new_path}
use chunkfs.File.Sizes.{Gets}
use chunkfs.File.Overwriting.{Bytes}

-- Documented behaviour of the clients' files when one is made and when attributes are set: no other
-- file's bytes change, and the new file is empty.
pub record GrowLaws (c : Client) (held : c.State → Dentry → Bytes) (sizes : c.State → Dentry → ℕ)
    : Type 0 where
  pub open_held :
      (s s' : c.State) (path : List ℕ) (f : ClientFile) (d : Dentry) (o : ℕ)
      → c.filp_open s path ≡ (opened f, s')
      → d ≢ f.f_dentry
      → held s' d o ≡ held s d o
  pub open_sizes :
      (s s' : c.State) (path : List ℕ) (f : ClientFile) (d : Dentry)
      → c.filp_open s path ≡ (opened f, s')
      → d ≢ f.f_dentry
      → sizes s' d ≡ sizes s d
  pub set_held :
      (s s' : c.State) (i : Inode) (name v : List ℕ) (r : Status) (d : Dentry) (o : ℕ)
      → c.setxattr s i name v ≡ (r, s')
      → held s' d o ≡ held s d o
  pub set_sizes :
      (s s' : c.State) (i : Inode) (name v : List ℕ) (r : Status) (d : Dentry)
      → c.setxattr s i name v ≡ (r, s')
      → sizes s' d ≡ sizes s d

-- What the growth of a file relies on. The file that is opened in the next chunk is new and empty.
pub record Grows (c : Client) (held : c.State → Dentry → Bytes) (sizes : c.State → Dentry → ℕ)
    (head : Head) (fuel : ℕ) (before : List Continuation) (p : Continuation) (fs : c.State)
    (f : ClientFile) (s : c.State) : Type 0 where
  pub laws : XattrLaws c
  pub open_laws : OpenLaws c
  pub settable : Settable c
  pub grow : GrowLaws c held sizes
  pub opens : c.filp_open fs (new_path p) ≡ (opened f, s)
  pub new : New c head s f p before
  pub gets :
      Gets c new.chunk.ci_mnt.mnt_sb (c.i_ino (c.d_inode s f.f_dentry)) (c.d_inode s f.f_dentry)
  pub empty : sizes s f.f_dentry ≡ 0
  pub blank : (o : ℕ) → held s f.f_dentry o ≡ 0
  pub small : end_from 0 (before ++ p ∷ []) + 40960 < 2 ^ 64
  pub rounds : length before + 2 < fuel
