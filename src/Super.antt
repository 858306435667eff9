-- ===== src/Super.antt =====
-- super.c, mounting and unmounting as a whole: `chunkfs_fill_super` reads the pool and then the root
-- directory; `chunkfs_put_super` writes the pool's summary and gives the pool back. The slab cache of
-- inodes and the module are here too. The global mutex is not modelled.
pub mod Unmount
pub mod Killing
pub mod Root
use chunkfs.Base.{
  ℕ, ◌+◌, ◌-◌, Bool, true, false, Option, none, some, List, [], ◌∷◌, ◌++◌, if◌then◌else◌,
}
use chunkfs.Uino.{make_uino}
use chunkfs.Format.{blk_size}
use chunkfs.Kernel.{Env, Kern, Ret, ok, err, bug, out_of_fuel, einval, enomem}
use chunkfs.Mount.{ChunkInfo, DevInfo, PoolInfo, free_pool, read_pool}
use chunkfs.Client.{Inode, Dentry, Client}
use chunkfs.Cont.{Head, World}
use chunkfs.Create.{init_cont_data}
use chunkfs.Names.{Dirs, Node, start_inode}
use chunkfs.Dentries.{
  Pins, D, dget, dput, pure, lifted, undone, or_undo, ◌>>=◌, ◌>>◌, init_dentry, init_nd, add_dentry,
}

-- "/chunk1/root/".
abbrev pub root_path : List ℕ
root_path =
    b'/'
    ∷ (b'c'
        ∷ (b'h'
            ∷ (b'u'
                ∷ (b'n'
                    ∷ (b'k' ∷ (b'1' ∷ (b'/' ∷ (b'r' ∷ (b'o' ∷ (b'o' ∷ (b't' ∷ (b'/' ∷ []))))))))))))

-- The client's inode number of the root directory.
abbrev pub root_ino : ℕ
root_ino = 12

-- The VFS on a root dentry: `d_make_root`, which gives one or NULL, and the `dput` that frees it.
pub record RootOps (S : Type 0) : Type 0 where
  pub d_make_root : World S → Bool × World S
  pub dput_root : World S → World S

module _ (c : Client) (dirs : Dirs c) (vfs : RootOps c.State) where
  -- `new_inode` is not looked at: NULL is dereferenced.
  abbrev pub new_root : Option Bool → D c.State (Unit {0})
  new_root none p = (bug, p)
  new_root (some bad) p = (
    ok tt,
    record p {
      world = record (p.world) { inodes = p.world.inodes + 1; calls = p.world.calls + 1 };
    },
  )

  -- Without the path `sb->s_root`, which is NULL, is freed.
  abbrev pub found_path : Option Dentry → D c.State Dentry
  found_path none p = (bug, p)
  found_path (some d) p = (ok d, record p { drefs = p.drefs + 1; mnts = p.mnts + 1 })

  abbrev iput : World c.State → World c.State
  iput w = record w { inodes = w.inodes - 1 }

  abbrev pub made_root : Bool → D c.State (Unit {0})
  made_root true p = (ok tt, p)
  made_root false p = (err enomem, record p { world = iput p.world })

  abbrev make_root : D c.State (Unit {0})
  make_root p = let (made, w) = vfs.d_make_root p.world in made_root made (record p { world = w })

  -- `out_dput` and `out_iput`.
  abbrev out_dput : D c.State (Unit {0})
  out_dput p = (ok tt, record p { world = iput (vfs.dput_root p.world) })

  -- An error of `chunkfs_init_cont_data` is not looked at.
  abbrev init_root_data : Dentry → D c.State (Unit {0})
  init_root_data d p = (ok tt, record p { world = (init_cont_data c d p.world).1 })

  abbrev path_put : D c.State (Unit {0})
  path_put p = (ok tt, record p { drefs = p.drefs - 1; mnts = p.mnts - 1 })

  -- `i_ino` is set again behind `chunkfs_start_inode`.
  abbrev root_node : ℕ → Node → Node
  root_node chunk_id node = record node {
    head = record (node.head) { i_ino = make_uino chunk_id root_ino };
  }

  -- What follows once the root dentry was or was not made.
  abbrev pub hook_root : ChunkInfo → Dentry → Node → D c.State Node
  hook_root ci d node = do
    or_undo (init_dentry c) out_dput
    init_nd c d ci.ci_chunk_id
    add_dentry d
    path_put
    pure (root_node ci.ci_chunk_id node)

  abbrev pub start_root : ℕ → ChunkInfo → Dentry → D c.State Node
  start_root fuel ci d = do
    λ p. (ok tt, dget p)
    init_root_data d
    node ← λ p. lifted (start_inode c dirs fuel d (c.d_inode p.world.fs d) ci.ci_chunk_id) p
    make_root
    hook_root ci d node

  abbrev pub read_root_in : ℕ → ChunkInfo → D c.State Node
  read_root_in fuel ci = do
    λ p. new_root (dirs.new_inode p.world.calls) p
    d ← λ p. found_path (c.kern_path p.world.fs root_path) p
    start_root fuel ci d

  abbrev pub root_chunk : Option DevInfo → Option ChunkInfo
  root_chunk none = none
  root_chunk (some di) = di.di_root_chunk

  abbrev pub in_root_chunk : ℕ → Option ChunkInfo → D c.State Node
  in_root_chunk fuel none p = (bug, p)
  in_root_chunk fuel (some ci) p = read_root_in fuel ci p

  unfoldable pub read_root : ℕ → D c.State Node
  unfolding start_inode init_dentry init_nd add_dentry
  read_root fuel = in_root_chunk fuel (root_chunk c.pool.pi_root_dev)

-- What is done to the buffer of the pool's summary.
pub data Commit : Type 0 where
  dirtied : List ℕ → Commit
  synced : List ℕ → Commit

-- A superblock: the pool, whether the mount is read-only, what was done to the summary, and what is
-- held of the kernel and of the clients.
pub record SuperBlock (S : Type 0) : Type 0 where
  pub s_fs_info : Option PoolInfo
  pub read_only : Bool
  pub commits : List Commit
  pub kern : Kern
  pub pins : Pins S

-- The clients are reached through the pool.
abbrev pub with_pool : Client → PoolInfo → Client
with_pool c pi = record c { pool = pi }

module _ (c : Client) (dirs : (pi : PoolInfo) → Dirs (with_pool c pi)) (vfs : RootOps c.State)
    (env : Env) where
  abbrev with_root : SuperBlock c.State → Ret Node × Pins c.State → Ret Node × SuperBlock c.State
  with_root sb (r, p) = (r, record sb { pins = p })

  -- After an error the pool stays where it is.
  abbrev pub with_info :
      ℕ → SuperBlock c.State → Ret PoolInfo × Kern → Ret Node × SuperBlock c.State
  with_info fuel sb (ok pi, k) =
      with_root (record sb { s_fs_info = some pi; kern = k })
        (read_root (with_pool c pi) (dirs pi) vfs fuel sb.pins)
  with_info fuel sb (err e, k) = (err e, record sb { kern = k })
  with_info fuel sb (bug, k) = (bug, record sb { kern = k })
  with_info fuel sb (out_of_fuel, k) = (out_of_fuel, record sb { kern = k })

  unfoldable pub fill_super : ℕ → SuperBlock c.State → Ret Node × SuperBlock c.State
  fill_super fuel sb =
      if env.set_blocksize blk_size
      then with_info fuel sb (read_pool env fuel sb.kern)
      else (err einval, sb)

-- `pi_bh`, which is there once a pool has been read.
unfoldable pub commit_super : Option (List ℕ) → Bool → List Commit
commit_super none sync = []
commit_super (some sbh) sync = dirtied sbh ∷ (if sync then synced sbh ∷ [] else [])

module _ {S : Type 0} where
  abbrev pub put_info : Option PoolInfo → SuperBlock S → Ret (Unit {0}) × SuperBlock S
  put_info none sb = (bug, sb)
  put_info (some pi) sb = (
    ok tt,
    record sb {
      s_fs_info = none;
      commits =
          if sb.read_only then sb.commits else sb.commits ++ commit_super (some pi.pi_bh) true;
      kern = free_pool pi sb.kern;
    },
  )

  unfoldable pub put_super : SuperBlock S → Ret (Unit {0}) × SuperBlock S
  put_super sb = put_info sb.s_fs_info sb

  abbrev pub write_info : Option PoolInfo → SuperBlock S → Ret (Unit {0}) × SuperBlock S
  write_info none sb = (bug, sb)
  write_info (some pi) sb =
      (ok tt, record sb { commits = sb.commits ++ commit_super (some pi.pi_bh) true })

  unfoldable pub write_super : SuperBlock S → Ret (Unit {0}) × SuperBlock S
  write_super sb = write_info sb.s_fs_info sb
