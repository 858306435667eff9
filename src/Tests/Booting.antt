-- ===== src/Tests/Booting.antt =====
-- A device of one chunk from `mkfs.chunkfs` to its root directory.
use chunkfs.Base.{◌≡◌, refl, some, [], ◌∷◌, arith}
use chunkfs.Kernel.{ok}
use chunkfs.Uino.{make_uino}
use chunkfs.Mount.{PoolInfo}
use chunkfs.Names.{Node}
use chunkfs.NewFs.Device.{new_device}
use chunkfs.NewFs.Mounts.{All, Finds, root_dev_ids}
use chunkfs.NewFs.Roots.{ReadyRoot, mkfs-fill_super}
use chunkfs.Super.{SuperBlock, with_pool, fill_super}
use chunkfs.Tests.Store.{Store, client, laws}
use chunkfs.Tests.Making
use chunkfs.Tests.Supers.{pool_dirs, vfs, super_block}

ready : (pi : PoolInfo) → ReadyRoot (with_pool client pi) (pool_dirs pi) vfs super_block.pins 5
ready pi = record {
  fsdata = refl;
  memory = record { kzalloc = λ n. refl; getname = λ n. refl };
  laws = record {
    get_set = laws.get_set;
    get_set_other = laws.get_set_other;
    kern_path_set = laws.kern_path_set;
    d_inode_set = laws.d_inode_set;
  };
  settable = λ s i name v. refl;
  new_inode = refl;
  path = refl;
  ino = omega arith;
  gets = (refl, refl);
  makes = λ w. refl;
}

mkfs-fill_super_example :
    (node : Node) × (sb' : SuperBlock Store) × (pool : PoolInfo) × (fill_super client pool_dirs vfs
        (Making.env (new_device 1 Making.size Making.zeros))
        2
        super_block
      ≡ (ok node, sb'))
    × (sb'.s_fs_info ≡ some pool)
    × (node.head.i_ino ≡ make_uino 1 12)
    × (node.head.client_dentry ≡ 5)
    × (root_dev_ids pool ≡ some (1 ∷ []))
    × All (Finds pool Making.client) (1 ∷ [])
mkfs-fill_super_example =
    mkfs-fill_super (Making.io Making.size) 2 0 Making.size [] Making.name Making.zeros
      (Making.env (new_device 1 Making.size Making.zeros)) Making.client client pool_dirs vfs
      super_block 5 (Making.io-Works Making.size) refl refl (omega arith) Making.holds (omega arith)
      (omega arith) (omega arith) (λ n. refl)
      (λ d' e.
        Making.Serves-all Making.size (new_device 1 Making.size Making.zeros) d' _ Making.made e)
      refl ready
