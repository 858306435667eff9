-- ===== src/NewFs/Roots.antt =====
-- mkfs.chunkfs.c and super.c: a new device, mounted with its root directory.
use chunkfs.Base.{
  ℕ, suc, ◌+◌, ◌-◌, ◌*◌, ◌^◌, ◌<◌, ◌≡◌, ◌≢◌, refl, ap, ◌∙◌, none, true, false, some, List, [], ◌∷◌,
  map, arith, length,
}
use chunkfs.Device.{Disk}
use chunkfs.Format.{blk_size, chunk_size}
use chunkfs.Kernel.{Ret, Env, Kern, Mnt, ok}
use chunkfs.Mount.{ChunkInfo, PoolInfo, DevInfo, find_chunk, chunk_info, read_pool}
use chunkfs.Mount.Chain.{info, Allocates}
use chunkfs.Mount.Outcomes.{read_pool_mounts}
use chunkfs.Mkfs.{Io, done, mkfs}
use chunkfs.Mkfs.Summaries.{Works, summary_block}
use chunkfs.NewFs.Device.{Holds, first_chunk, new_device, mkfs_done}
use chunkfs.NewFs.Chain.{Serves, links, chunk_id_lem, summary-root, links-Plain}
use chunkfs.NewFs.Mounts.{
  count_up, All, Finds, root_dev_ids, length-links, chunk_ids-links, count_up-All, links-Finds,
  new_device-Sound,
}
use chunkfs.Client.{Dentry, Client, XattrLaws}
use chunkfs.Uino.{make_uino}
use chunkfs.Cont.{World}
use chunkfs.Cont.Attributes.{Settable}
use chunkfs.Walk.Path.{HasMemory}
use chunkfs.File.Sizes.{Gets}
use chunkfs.Names.{Dirs, Node}
use chunkfs.Dentries.{Pins}
use chunkfs.Super.{RootOps, SuperBlock, with_pool, root_path, root_ino, fill_super}
use chunkfs.Super.Root.{fill_super_done}

-- The pool of a mounted device: its root device and that one's root chunk, which is chunk 1.
pub record Mounted (env : Env) (fuel : ℕ) (mnt : ℕ → Mnt) (k : Kern) (n : ℕ) : Type 0 where
  pub pool : PoolInfo
  pub kern : Kern
  pub dev : DevInfo
  pub root : ChunkInfo
  pub reads : read_pool env fuel k ≡ (ok pool, kern)
  pub root_dev : pool.pi_root_dev ≡ some dev
  pub root_chunk : dev.di_root_chunk ≡ some root
  pub first : root.ci_chunk_id ≡ 1
  pub found : find_chunk pool root.ci_chunk_id ≡ some root
  pub ids : root_dev_ids pool ≡ some (count_up (suc n) 1)
  pub finds : All (Finds pool mnt) (count_up (suc n) 1)

mkfs-Mounted :
    (io : Io) (fuel n raw : ℕ) (cmd name : List ℕ) (d : Disk) (env : Env) (mnt : ℕ → Mnt) (k : Kern)
    → Works io
    → io.opens name ≡ true
    → io.st_size ≡ some raw
    → length name < 1024
    → Holds (suc n) raw
    → raw < 2 ^ 59
    → raw ≢ first_chunk + 1 + (n + 2) * chunk_size
    → suc n < fuel
    → Allocates env
    → ((d' : Disk) → mkfs io fuel (cmd ∷ (name ∷ [])) d ≡ done d' → Serves env mnt raw d')
    → Mounted env fuel mnt k n
unfolding find_chunk chunk_info
mkfs-Mounted io fuel n raw cmd name d env mnt k w opens size short holds small exact rounds
      allocates serve =
    let written = mkfs_done io fuel (suc n) raw cmd name d w opens size short holds rounds in
    let serves = serve (new_device (suc n) raw d) written in
    let dev_end = raw - 2 in
    let root = chunk_info (summary_block dev_end first_chunk 1) (mnt 1) in
    let bs = links mnt dev_end (suc n) first_chunk 1 in
    let first = chunk_id_lem dev_end first_chunk 1 (omega arith) (omega arith) in
    record {
      pool = _;
      kern = _;
      dev = _;
      root = root;
      reads =
          read_pool_mounts env _ _ bs
            (new_device-Sound n raw d env mnt holds small serves exact allocates) fuel k [] root
            (map info (links mnt dev_end n (first_chunk + chunk_size) 2))
            (rw (length-links mnt dev_end (suc n) first_chunk 1) rounds) refl tt
            (summary-root (mnt 1) dev_end first_chunk 1 (omega arith) (omega arith))
            (links-Plain mnt n dev_end (first_chunk + chunk_size) 2 (omega arith) (omega arith)
              (omega arith));
      root_dev = refl;
      root_chunk = refl;
      first = first;
      found = rw first refl;
      ids = ap some (chunk_ids-links mnt dev_end (suc n) first_chunk 1 (omega arith) (omega arith));
      finds =
          count_up-All _ (suc n) 1
            (λ i h. links-Finds n dev_end mnt _ _ root i (omega arith) (omega arith));
    }

-- A device of `raw` bytes, with room for the pool and device summaries and `suc n` chunks but not
-- for one more, is made into a file system by `mkfs.chunkfs` and then mounted by a kernel that
-- reads it and finds a client file system at each chunk's place. No call or allocation fails, the
-- fuel exceeds `suc n`, the name is shorter than 1024 bytes, `raw < 2 ^ 59`, and `raw` is not
-- `first_chunk + 1 + (n + 2) * chunk_size`. Then `read_pool` succeeds: the root device has the
-- chunks 1 to `suc n` in order, and each is found by its number with its own mount, chunk 1 alone
-- as a root.
pub mkfs-read_pool :
    (io : Io) (fuel n raw : ℕ) (cmd name : List ℕ) (d : Disk) (env : Env) (mnt : ℕ → Mnt) (k : Kern)
    → Works io
    → io.opens name ≡ true
    → io.st_size ≡ some raw
    → length name < 1024
    → Holds (suc n) raw
    → raw < 2 ^ 59
    → raw ≢ first_chunk + 1 + (n + 2) * chunk_size
    → suc n < fuel
    → Allocates env
    → ((d' : Disk) → mkfs io fuel (cmd ∷ (name ∷ [])) d ≡ done d' → Serves env mnt raw d')
    → (pool : PoolInfo) × ((read_pool env fuel k).0 ≡ ok pool)
      × (root_dev_ids pool ≡ some (count_up (suc n) 1))
      × All (Finds pool mnt) (count_up (suc n) 1)
mkfs-read_pool io fuel n raw cmd name d env mnt k w opens size short holds small exact rounds
      allocates serve =
    let m =
      mkfs-Mounted io fuel n raw cmd name d env mnt k w opens size short holds small exact rounds
        allocates serve in
    (m.pool, ap (λ (r : Ret PoolInfo × Kern). r.0) m.reads, m.ids, m.finds)

-- What the root directory relies on, whichever pool the clients are reached through.
pub record ReadyRoot (c : Client) (dirs : Dirs c) (vfs : RootOps c.State) (p : Pins c.State)
    (d : Dentry) : Type 0 where
  pub fsdata : p.d_fsdata ≡ none
  pub memory : HasMemory c
  pub laws : XattrLaws c
  pub settable : Settable c
  pub new_inode : dirs.new_inode p.world.calls ≡ some false
  pub path : c.kern_path p.world.fs root_path ≡ some d
  pub ino : c.i_ino (c.d_inode p.world.fs d) < 2 ^ 28
  pub gets : let i = c.d_inode p.world.fs d in Gets c (c.i_sb i) (c.i_ino i) i
  pub makes : (w : World c.State) → vfs.d_make_root w ≡ (true, w)

-- A device of `raw` bytes, with room for the pool and device summaries and `suc n` chunks but not
-- for one more, is made into a file system by `mkfs.chunkfs` and then mounted by a kernel that
-- reads it and finds a client file system at each chunk's place. No call or allocation fails, the
-- fuel exceeds `suc n`, the name is shorter than 1024 bytes, `raw < 2 ^ 59`, and `raw` is not
-- `first_chunk + 1 + (n + 2) * chunk_size`; the clients have the root directory's path, with an
-- inode number of 28 bits, and refuse no attribute (`ReadyRoot`). Then `chunkfs_fill_super`
-- succeeds: the superblock has the pool, whose root device has the chunks 1 to `suc n` in order,
-- each found by its number with its own mount, chunk 1 alone as a root; the root directory is the
-- client's and has the number made of chunk 1 and 12.
pub mkfs-fill_super :
    (io : Io) (fuel n raw : ℕ) (cmd name : List ℕ) (disk : Disk) (env : Env) (mnt : ℕ → Mnt)
    (c : Client) (dirs : (pi : PoolInfo) → Dirs (with_pool c pi)) (vfs : RootOps c.State)
    (sb : SuperBlock c.State) (d : Dentry)
    → Works io
    → io.opens name ≡ true
    → io.st_size ≡ some raw
    → length name < 1024
    → Holds (suc n) raw
    → raw < 2 ^ 59
    → raw ≢ first_chunk + 1 + (n + 2) * chunk_size
    → suc n < fuel
    → Allocates env
    → ((d' : Disk) → mkfs io fuel (cmd ∷ (name ∷ [])) disk ≡ done d' → Serves env mnt raw d')
    → env.set_blocksize blk_size ≡ true
    → ((pi : PoolInfo) → ReadyRoot (with_pool c pi) (dirs pi) vfs sb.pins d)
    → (node : Node) × (sb' : SuperBlock c.State) × (pool : PoolInfo) × (fill_super c dirs vfs env
          fuel sb
        ≡ (ok node, sb'))
      × (sb'.s_fs_info ≡ some pool)
      × (node.head.i_ino ≡ make_uino 1 root_ino)
      × (node.head.client_dentry ≡ d)
      × (root_dev_ids pool ≡ some (count_up (suc n) 1))
      × All (Finds pool mnt) (count_up (suc n) 1)
mkfs-fill_super io fuel n raw cmd name disk env mnt c dirs vfs sb d w opens size short holds small
      exact rounds allocates serve sized ready =
    let m =
      mkfs-Mounted io fuel n raw cmd name disk env mnt sb.kern w opens size short holds small exact
        rounds allocates serve in
    let r = ready m.pool in
    let (node, sb', done', ino, dentry, shown, info', kern') =
      fill_super_done c dirs vfs env fuel sb m.pool m.kern d m.root sized m.reads
        (record {
          fsdata = r.fsdata;
          memory = r.memory;
          laws = r.laws;
          settable = r.settable;
          dev = m.dev;
          root_dev = m.root_dev;
          root_chunk = m.root_chunk;
          found = m.found;
          chunk_id = omega (arith, m.first);
          new_inode = r.new_inode;
          path = r.path;
          ino = r.ino;
          gets = r.gets;
          makes = r.makes;
        })
        (omega arith) in
    (
      node,
      sb',
      m.pool,
      done',
      info',
      ino ∙ ap (λ id. make_uino id root_ino) m.first,
      dentry,
      m.ids,
      m.finds,
    )
