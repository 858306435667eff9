-- ===== src/Symlink.antt =====
-- symlink.c: the three calls on a symbolic link go to the client, with its own nameidata, into which
-- the caller's is copied and out of which it is copied back.
use chunkfs.Base.{ℕ, ◌≡◌, ◌≢◌, Option, none, some, List, arith}
use chunkfs.Client.{Inode, Dentry, Transfer, Client}
use chunkfs.Dentries.{Nameidata, copy_nd, copy_up_nd, copy_down_nd}

-- A client's calls on its symbolic links: the bytes of the link or `-e`, a cookie, and what became of
-- the nameidata; `put_link` may be missing.
pub record Links (c : Client) : Type 0 where
  pub readlink : c.State → Inode → Dentry → ℕ → Transfer (List ℕ)
  pub follow_link : c.State → Inode → Dentry → Nameidata → ℕ × Nameidata
  pub put_link : Option (c.State → Inode → Dentry → Nameidata → ℕ → Nameidata)

-- The caller's nameidata and the client's one, after a call.
pub record Walks : Type 0 where
  pub nd : Nameidata
  pub client_nd : Nameidata

module _ (c : Client) (links : Links c) (s : c.State) (client_inode : Inode)
    (client_dentry : Dentry) where
  unfoldable pub chunkfs_readlink : ℕ → Transfer (List ℕ)
  chunkfs_readlink buflen = links.readlink s client_inode client_dentry buflen

  unfoldable pub chunkfs_follow_link : Walks → ℕ × Walks
  unfolding copy_down_nd copy_up_nd
  chunkfs_follow_link w =
      let down = copy_down_nd w.nd w.client_nd in
      let (cookie, client_nd) = links.follow_link s client_inode client_dentry down in
      (cookie, record { nd = copy_up_nd w.nd client_nd; client_nd = client_nd })

  abbrev pub put_with :
      Option (c.State → Inode → Dentry → Nameidata → ℕ → Nameidata) → Walks → ℕ → Walks
  put_with none w cookie = w
  put_with (some op) w cookie =
      let client_nd = op s client_inode client_dentry (copy_down_nd w.nd w.client_nd) cookie in
      record { nd = copy_up_nd w.nd client_nd; client_nd = client_nd }

  unfoldable pub chunkfs_put_link : Walks → ℕ → Walks
  unfolding copy_down_nd copy_up_nd
  chunkfs_put_link w cookie = put_with links.put_link w cookie

  -- Documented behaviour of `nd_set_link`, with which a client's `follow_link` names the link: the name
  -- at the depth, which stays, becomes `name`.
  abbrev pub SetsLink : Nameidata → ℕ → Type 0
  SetsLink nd name =
      let (cookie, nd') = links.follow_link s client_inode client_dentry nd in
      (nd'.depth ≡ nd.depth) × (nd'.saved_names nd.depth ≡ name)

  -- `chunkfs_follow_link`, where the client names the link at the depth that it is given, leaves
  -- the caller with that name at its depth and with its other names, its depth and its path as
  -- before.
  pub chunkfs_follow_link_name :
      (w : Walks) (name i : ℕ)
      → SetsLink (copy_down_nd w.nd w.client_nd) name
      → i ≢ w.nd.depth
      → let (cookie, w') = chunkfs_follow_link w in
        (w'.nd.saved_names w.nd.depth ≡ name)
        × (w'.nd.saved_names i ≡ w.nd.saved_names i)
        × (w'.nd.depth ≡ w.nd.depth)
        × (w'.nd.path ≡ w.nd.path)
  unfolding chunkfs_follow_link copy_down_nd copy_up_nd copy_nd
  chunkfs_follow_link_name w name i sets ne = ground (arith, sets.0, sets.1)
