-- ===== src/Tests/Supers.antt =====
-- The mount of a device of two chunks as a whole, and the program that writes a pattern.
use chunkfs.Base.{
  ℕ, ◌%◌, ◌^◌, ◌≤◌, ◌<◌, ◌≡◌, refl, none, some, true, false, [], ◌∷◌, map, arith, if◌then◌else◌,
}
use chunkfs.Uino.{make_uino}
use chunkfs.Kernel.{ok}
use chunkfs.Format.{as_chunk, chunk_image}
use chunkfs.Format.Bytes.{get_le, put_le}
use chunkfs.Mount.{ChunkInfo, PoolInfo, chunk_info, find_chunk, find_in_devs, find_in_chunks}
use chunkfs.Mount.Chain.{info, plus}
use chunkfs.Mount.Outcomes.{pool_of, opened, read_pool_mounts}
use chunkfs.Client.{XattrLaws, moved}
use chunkfs.Names.{Dirs, Node, directory}
use chunkfs.Super.{RootOps, SuperBlock, with_pool, root_path, fill_super}
use chunkfs.Super.Root.{Rootable, fill_super_done}
use chunkfs.WritePattern.{write_pattern, write_pattern_ends}
use chunkfs.Tests.Clients.{stored}
use chunkfs.Tests.Store.{Store, client, laws, same}
use chunkfs.Tests.Entries.{dirs}
use chunkfs.Tests.Lookups.{pins}
use chunkfs.Tests.Devices
use chunkfs.Tests.Mounting

abbrev pub pool_dirs : (pi : PoolInfo) → Dirs (with_pool client pi)
pool_dirs pi = record {
  new_inode = dirs.new_inode;
  kind = λ s i. directory;
  create = dirs.create;
  mknod = dirs.mknod;
  mkdir = dirs.mkdir;
  symlink_to = dirs.symlink_to;
  link = dirs.link;
  unlink = dirs.unlink;
  rmdir = dirs.rmdir;
}

abbrev pub vfs : RootOps Store
vfs = record { d_make_root = λ w. (true, w); dput_root = λ w. w }

-- The path of the root directory leads to dentry 5.
abbrev pub rooted_store : Store
rooted_store = record stored { names = λ q. if same root_path q then some 5 else stored.names q }

abbrev pub super_block : SuperBlock Store
super_block = record {
  s_fs_info = none;
  read_only = false;
  commits = [];
  kern = Devices.idle;
  pins = record pins { world = record (pins.world) { fs = rooted_store } };
}

abbrev root_info : ChunkInfo
root_info = chunk_info (Devices.chunk 1 1 45056) Devices.client

abbrev pool_info : PoolInfo
pool_info = pool_of Devices.pool (Devices.dev 40960) (map info Mounting.two_chunks) root_info

pool_laws : XattrLaws (with_pool client pool_info)
pool_laws = record {
  get_set = laws.get_set;
  get_set_other = laws.get_set_other;
  kern_path_set = laws.kern_path_set;
  d_inode_set = laws.d_inode_set;
}

rootable :
    Rootable (with_pool client pool_info) (pool_dirs pool_info) vfs super_block.pins 5 root_info
unfolding find_chunk find_in_devs find_in_chunks chunk_info chunk_image as_chunk get_le put_le
rootable = record {
  fsdata = refl;
  memory = record { kzalloc = λ n. refl; getname = λ n. refl };
  laws = pool_laws;
  settable = λ s i name v. refl;
  dev = _;
  root_dev = refl;
  root_chunk = refl;
  found = refl;
  chunk_id = omega arith;
  new_inode = refl;
  path = refl;
  ino = omega arith;
  gets = (refl, refl);
  makes = λ w. refl;
}

fill_super_done_example :
    (node : Node) × (sb' : SuperBlock Store) × (fill_super client pool_dirs vfs Devices.two 3
        super_block
      ≡ (ok node, sb'))
    × (node.head.i_ino ≡ make_uino root_info.ci_chunk_id 12)
    × (node.head.client_dentry ≡ 5)
    × (node.shown.i_size ≡ client.i_size sb'.pins.world.fs 5 % 2 ^ 64)
    × (sb'.s_fs_info ≡ some pool_info)
    × (sb'.kern ≡ plus 2 (opened (opened Devices.idle)))
fill_super_done_example =
    fill_super_done client pool_dirs vfs Devices.two 3 super_block pool_info
      (plus 2 (opened (opened Devices.idle))) 5 root_info refl
      (read_pool_mounts Devices.two Devices.pool (Devices.dev 40960) Mounting.two_chunks
        Mounting.two-Sound 3 Devices.idle [] root_info
        (chunk_info (Devices.chunk 0 2 0) Devices.client ∷ []) (omega arith) refl tt
        Mounting.root_is_root (Mounting.plain_is_plain, tt))
      rootable (omega arith)

-- Every call takes one byte.
write_pattern_ends_example :
    (total : ℕ) × (write_pattern true true (λ turn bytes size. moved 1) 33554433 ≡ ok total)
    × (33554432 ≤ total)
    × (total < 33558528)
write_pattern_ends_example =
    write_pattern_ends (λ turn bytes size. moved 1) 33554433
      (λ turn. (1, refl, omega arith, omega arith)) (omega arith)
