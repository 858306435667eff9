-- ===== src/Super/Root.antt =====
-- super.c: `chunkfs_read_root` and `chunkfs_fill_super` where nothing fails.
use chunkfs.Base.{ℕ, ◌+◌, ◌-◌, ◌%◌, ◌^◌, ◌≡◌, ◌<◌, refl, true, false, none, some, [], ◌∷◌, arith}
use chunkfs.Uino.{make_uino}
use chunkfs.Kernel.{Env, Kern, ok}
use chunkfs.Mount.{ChunkInfo, DevInfo, PoolInfo, find_chunk, read_pool}
use chunkfs.Client.{Dentry, Client, XattrLaws}
use chunkfs.Cont.{World, set_cont_data, set_cont_value}
use chunkfs.Cont.Attributes.{Settable}
use chunkfs.Walk.Path.{HasMemory}
use chunkfs.File.Sizes.{Gets, sizes_from, copy_up_inode-InodePath}
use chunkfs.Names.{Dirs, Node, fresh, head_of, start_inode, set_inode_ops}
use chunkfs.Names.Started.{given, given_init, given_inode, first_inodes}
use chunkfs.Dentries.{Pins, init_dentry, init_nd, add_dentry}
use chunkfs.Super.{RootOps, SuperBlock, with_pool, root_path, root_ino, read_root, fill_super}

-- What the root directory relies on: a chunk that is the root, its directory "/root", and calls that
-- succeed. `held` is the world once `new_inode` has given the inode.
pub record Rootable (c : Client) (dirs : Dirs c) (vfs : RootOps c.State) (p : Pins c.State)
    (d : Dentry) (ci : ChunkInfo) : Type 0 where
  pub fsdata : p.d_fsdata ≡ none
  pub memory : HasMemory c
  pub laws : XattrLaws c
  pub settable : Settable c
  pub dev : DevInfo
  pub root_dev : c.pool.pi_root_dev ≡ some dev
  pub root_chunk : dev.di_root_chunk ≡ some ci
  pub found : find_chunk c.pool ci.ci_chunk_id ≡ some ci
  pub chunk_id : ci.ci_chunk_id < 16
  pub new_inode : dirs.new_inode p.world.calls ≡ some false
  pub path : c.kern_path p.world.fs root_path ≡ some d
  pub ino : c.i_ino (c.d_inode p.world.fs d) < 2 ^ 28
  pub gets : let i = c.d_inode p.world.fs d in Gets c (c.i_sb i) (c.i_ino i) i
  pub makes : (w : World c.State) → vfs.d_make_root w ≡ (true, w)

module _ (c : Client) (dirs : Dirs c) (vfs : RootOps c.State) (fuel : ℕ) (p : Pins c.State)
    (d : Dentry) (ci : ChunkInfo) (ready : Rootable c dirs vfs p d ci) (one : 1 < fuel) where
  abbrev held : World c.State
  held = record (p.world) { inodes = p.world.inodes + 1; calls = p.world.calls + 1 }

  -- The world once the root's client inode has its continuation data.
  abbrev pub rooted : World c.State
  rooted = given c dirs ready.laws ready.settable d ci.ci_chunk_id ci ready.found held

  abbrev inode : ℕ
  inode = c.d_inode p.world.fs d

  abbrev pub root : Node
  root = record {
    head = record (head_of c dirs d inode ci.ci_chunk_id) {
      i_ino = make_uino ci.ci_chunk_id root_ino;
    };
    shown = record {
      f_pos = 0;
      i_size = sizes_from c rooted.fs 0 (inode ∷ []);
      i_attrs = c.attrs rooted.fs inode;
    };
    i_op = (set_inode_ops (dirs.kind rooted.fs inode)).0;
    i_fop = (set_inode_ops (dirs.kind rooted.fs inode)).1;
  }

  abbrev pub mounted : Pins c.State
  mounted = record {
    world = record rooted { calls = rooted.calls + 1 + 1 };
    d_fsdata = some (record {
      dp_client_dentry = some d;
      dp_client_nd = record {
        path = some (record { dentry = d; mnt = ci.ci_mnt.mnt });
        flags = 0;
        seq = 0;
        depth = 0;
        saved_names = λ i. 0;
      };
    });
    objs = p.objs + 1 + 1;
    drefs = p.drefs + 1 + 1 + 1 - 1;
    mnts = p.mnts + 1 + 1 - 1;
  }

  pub read_root_done : read_root c dirs vfs fuel p ≡ (ok root, mounted)
  unfolding read_root start_inode init_dentry init_nd add_dentry make_uino set_cont_data
      set_cont_value
  read_root_done = rw (
    ready.root_dev,
    ready.root_chunk,
    ready.new_inode,
    ready.path,
    given_init c dirs ready.laws ready.settable d ci.ci_chunk_id ci ready.found held,
    given_inode c dirs ready.laws ready.settable d ci.ci_chunk_id ci ready.found held,
    copy_up_inode-InodePath c (head_of c dirs d inode ci.ci_chunk_id) fuel inode fresh (inode ∷ [])
        rooted
        (first_inodes c dirs ready.laws ready.settable d ci.ci_chunk_id ci ready.found held
          ready.chunk_id ready.ino ready.gets)
        one,
    ready.makes,
    ready.fsdata,
    ready.memory.kzalloc rooted.calls,
    ready.memory.kzalloc (rooted.calls + 1),
    ready.found,
  )

-- `chunkfs_fill_super` succeeds if the block size can be set, `chunkfs_read_pool` succeeds, the
-- path of the root directory is found, its chunk is below 16 and its client's inode number fits 28
-- bits, no attribute is refused and nothing fails (`Rootable`), with fuel above 1. The root then
-- has the number made of its chunk and 12, its size is the client's modulo `2 ^ 64`, and the
-- superblock has the pool.
pub fill_super_done :
    (c : Client) (dirs : (pi : PoolInfo) → Dirs (with_pool c pi)) (vfs : RootOps c.State)
    (env : Env) (fuel : ℕ) (sb : SuperBlock c.State) (pi : PoolInfo) (k : Kern) (d : Dentry)
    (ci : ChunkInfo)
    → env.set_blocksize 4096 ≡ true
    → read_pool env fuel sb.kern ≡ (ok pi, k)
    → Rootable (with_pool c pi) (dirs pi) vfs sb.pins d ci
    → 1 < fuel
    → (node : Node) × (sb' : SuperBlock c.State) × (fill_super c dirs vfs env fuel sb
        ≡ (ok node, sb'))
      × (node.head.i_ino ≡ make_uino ci.ci_chunk_id root_ino)
      × (node.head.client_dentry ≡ d)
      × (node.shown.i_size ≡ c.i_size sb'.pins.world.fs (c.d_inode sb.pins.world.fs d) % 2 ^ 64)
      × (sb'.s_fs_info ≡ some pi)
      × (sb'.kern ≡ k)
unfolding fill_super
fill_super_done c dirs vfs env fuel sb pi k d ci sized reads ready one =
    let c' = with_pool c pi in
    (
      root c' (dirs pi) vfs fuel sb.pins d ci ready one,
      record sb {
        s_fs_info = some pi;
        kern = k;
        pins = mounted c' (dirs pi) vfs fuel sb.pins d ci ready one;
      },
      rw (sized, reads, read_root_done c' (dirs pi) vfs fuel sb.pins d ci ready one),
      refl,
      refl,
      omega arith,
      refl,
      refl,
    )
