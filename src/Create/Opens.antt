-- ===== src/Create/Opens.antt =====
-- cont.c: what `chunkfs_create_continuation` makes behind the last continuation, and what it relies on.
use chunkfs.Base.{ℕ, ◌+◌, ◌^◌, ◌<◌, ◌≡◌, ◌≢◌, some, List, add64}
use chunkfs.Uino.{uino_to_ino, make_uino}
use chunkfs.Mount.{ChunkInfo, find_chunk}
use chunkfs.Client.{Inode, Dentry, ClientFile, opened, Client}
use chunkfs.Cont.{ContData, Continuation, Head}
use chunkfs.Cont.Attributes.{IsContData}
use chunkfs.Walk.{cont_path}
use chunkfs.Create.Kept.{All}

-- Documented behaviour of `filp_open` with `O_CREAT`: the path then leads to the file, paths that led
-- somewhere still do, and other dentries and the attributes of other inodes are as before.
pub record OpenLaws (c : Client) : Type 0 where
  pub opens :
      (s s' : c.State) (path : List ℕ) (f : ClientFile)
      → c.filp_open s path ≡ (opened f, s')
      → c.kern_path s' path ≡ some f.f_dentry
  pub paths :
      (s s' : c.State) (path : List ℕ) (f : ClientFile) (other : List ℕ) (d : Dentry)
      → c.filp_open s path ≡ (opened f, s')
      → c.kern_path s other ≡ some d
      → c.kern_path s' other ≡ some d
  pub dentries :
      (s s' : c.State) (path : List ℕ) (f : ClientFile) (d : Dentry)
      → c.filp_open s path ≡ (opened f, s')
      → d ≢ f.f_dentry
      → c.d_inode s' d ≡ c.d_inode s d
  pub attributes :
      (s s' : c.State) (path : List ℕ) (f : ClientFile) (i : Inode) (name : List ℕ)
      → c.filp_open s path ≡ (opened f, s')
      → i ≢ c.d_inode s' f.f_dentry
      → c.getxattr s' i name ≡ c.getxattr s i name

-- A new file for the continuation behind `p`, apart from what the file has, and numbers that fit.
pub record New (c : Client) (head : Head) (s : c.State) (f : ClientFile) (p : Continuation)
    (before : List Continuation) : Type 0 where
  pub chunk : ChunkInfo
  pub found : find_chunk c.pool (p.co_chunk_id + 1) ≡ some chunk
  pub chunk_id : p.co_chunk_id + 1 < 16
  pub ino : c.i_ino (c.d_inode s f.f_dentry) < 2 ^ 28
  pub not_head : make_uino (p.co_chunk_id + 1) (c.i_ino (c.d_inode s f.f_dentry)) ≢ head.i_ino
  pub uino : p.co_uino < 2 ^ 64
  pub fits : IsContData p.co_cd
  pub last_dentry : p.co_dentry ≢ f.f_dentry
  pub last_inode : p.co_inode ≢ c.d_inode s f.f_dentry
  pub others :
      All
        (λ n.
          (n.co_dentry ≢ f.f_dentry)
          × (n.co_inode ≢ c.d_inode s f.f_dentry)
          × (n.co_inode ≢ p.co_inode))
        before

-- Where the continuation behind `p` is made.
abbrev pub new_path : Continuation → List ℕ
new_path p = cont_path (p.co_chunk_id + 1) p.co_chunk_id (uino_to_ino p.co_uino)

-- The data of the continuation behind `p`.
abbrev pub data_after : Continuation → ContData
data_after p = record {
  cd_next = 0;
  cd_prev = p.co_uino;
  cd_start = add64 p.co_cd.cd_start p.co_cd.cd_len;
  cd_len = 40960;
}
