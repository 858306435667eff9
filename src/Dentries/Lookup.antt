-- ===== src/Dentries/Lookup.antt =====
-- namei.c: `chunkfs_lookup` and `chunkfs_clone_dentry`.
use chunkfs.Base.{ℕ, Bool, Option, none, some}
use chunkfs.Uino.{uino_to_chunk_id}
use chunkfs.Kernel.{Ret, ok, err, bug, out_of_fuel, enomem}
use chunkfs.Client.{Inode, Dentry, Client}
use chunkfs.Cont.{Head}
use chunkfs.Names.{Dirs, Node, found_inode}
use chunkfs.Dentries.{
  DentryPriv, D, dput, dget, release_nd, remove_dentry, free_dentry, add_dentry, ◌>>=◌, ◌>>◌, pure,
  lifted, or_undo, init_dentry, init_nd,
}

-- What a client's `lookup` returns: NULL, another dentry, or `-e`.
pub data Replaced : Type 0 where
  null : Replaced
  other : Dentry → Replaced
  refused : ℕ → Replaced

-- What `chunkfs_lookup` returns through `d_splice_alias`: the inode that was found, if any, hooked up.
-- `unhooked` is the NULL of `ERR_PTR(0)`, with nothing set up.
pub data Found : Type 0 where
  hooked : Option Node → Found
  unhooked : Found

-- The dcache and the clients' directories: `d_alloc_name`, a client's `lookup`, and whether a client's
-- dentry has no inode.
pub record Dcache (c : Client) : Type 0 where
  pub d_alloc_name : ℕ → Option Dentry
  pub lookup : c.State → Inode → Dentry → ℕ → Replaced × c.State
  pub is_negative : c.State → Dentry → Bool

module _ (c : Client) (dirs : Dirs c) (dcache : Dcache c) where
  -- `out_dput` and the labels behind it, and those from `out_dentry` on.
  abbrev pub out_dentry : D c.State (Unit {0})
  out_dentry = do remove_dentry; free_dentry

  abbrev pub out_dput : D c.State (Unit {0})
  out_dput = do λ p. (ok tt, dput p); release_nd; out_dentry

  -- Another dentry takes the place of the one that was passed to the client.
  abbrev pub replaced : Dentry → Replaced → D c.State Dentry
  replaced d null p = (ok d, p)
  replaced d (other e) p = (ok e, dput (dget p))
  replaced d (refused e) p = (err e, p)

  abbrev client_lookup : Inode → Dentry → Option DentryPriv → D c.State Dentry
  client_lookup dir d none p = (bug, p)
  client_lookup dir d (some dp) p =
      let (r, fs') = dcache.lookup p.world.fs dir d dp.dp_client_nd.flags in
      replaced d r (record p { world = record (p.world) { fs = fs' } })

  -- The client's dentry is known.
  abbrev pub hook_with : ℕ → Head → Dentry → D c.State Found
  hook_with fuel dir d = do
    node ← λ p.
        lifted
          (found_inode c dirs fuel (uino_to_chunk_id dir.i_ino) d (dcache.is_negative p.world.fs d))
          p
    add_dentry d
    pure (hooked node)

  abbrev pub hook : ℕ → Head → Dentry → D c.State Found
  hook fuel dir d = do
    d' ← λ p. client_lookup dir.client_inode d p.d_fsdata p
    hook_with fuel dir d'

  -- `chunkfs_clone_dentry`, with what `d_alloc_name` gave.
  abbrev pub clone_dentry : Option Dentry → D c.State Dentry
  clone_dentry none p = (err enomem, p)
  clone_dentry (some d) p = (ok d, dget p)

  -- An error of it leaves `err` 0, which is returned.
  abbrev pub cloned : ℕ → Head → Ret Dentry → D c.State Found
  cloned fuel dir (ok d) = do
    init_nd c d (uino_to_chunk_id dir.i_ino)
    or_undo (hook fuel dir d) out_dput
  cloned fuel dir (err e) = do out_dentry; pure unhooked
  cloned fuel dir bug = λ p. (bug, p)
  cloned fuel dir out_of_fuel = λ p. (out_of_fuel, p)

  unfoldable pub chunkfs_lookup : ℕ → Head → D c.State Found
  unfolding init_dentry init_nd
  chunkfs_lookup fuel dir = do
    or_undo (init_dentry c) free_dentry
    λ p. let (r, q) = clone_dentry (dcache.d_alloc_name p.world.calls) p in cloned fuel dir r q
