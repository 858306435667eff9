-- ===== src/Mount.antt =====
-- super.c: reading the pool, its device and the device's chunks at mount time, giving them back,
-- and finding a chunk by its number. Lists of the kernel are lists; a pointer to the device or the
-- chunk that holds the root is an option.
pub mod Held
pub mod Balance
pub mod Chain
pub mod Outcomes
use chunkfs.Base.{
  ℕ, zero, suc, ◌+◌, ◌/◌, Bool, true, false, Option, none, some, List, [], ◌∷◌, ◌++◌, ◌==◌, leb,
  if◌then◌else◌, length, bit_and,
}
use chunkfs.Decimal.{print_u64}
use chunkfs.Kernel.{
  Env, Kern, Ret, Mnt, Lookup, found, refused, M, pure, raise, bug_on, ◌>>=◌, ◌>>◌, or_cleanup,
  check_that, kfree, brelse, mntput, mntget, kzalloc, sb_bread, eio, ok, err, out_of_fuel,
}
use chunkfs.Format.{
  blk_size, pool_blk, dev_blk, root_flag, Chunk, as_pool, as_dev, as_chunk, check_pool, check_dev,
  check_chunk,
}

pub record ChunkInfo : Type 0 where
  pub ci_bh : List ℕ
  pub ci_mnt : Mnt
  pub ci_flags : ℕ
  pub ci_chunk_id : ℕ
  pub ci_client_fs : List ℕ

pub record DevInfo : Type 0 where
  pub di_bh : List ℕ
  pub di_flags : ℕ
  pub di_chunks : List ChunkInfo
  pub di_root_chunk : Option ChunkInfo

pub record PoolInfo : Type 0 where
  pub pi_bh : List ℕ
  pub pi_flags : ℕ
  pub pi_devs : List DevInfo
  pub pi_root_dev : Option DevInfo

-- `CHUNKFS_IS_ROOT`.
abbrev pub is_root : ChunkInfo → Bool
is_root ci = if bit_and ci.ci_flags root_flag == 0 then false else true

-- The name of a chunk's mount point, "/chunk" and the number.
unfoldable pub mount_path : ℕ → List ℕ
mount_path id = b'/' ∷ (b'c' ∷ (b'h' ∷ (b'u' ∷ (b'n' ∷ (b'k' ∷ print_u64 id)))))

-- `sizeof(path_prefix) + 10`, where `path_prefix` is a pointer.
abbrev pub mount_path_len : ℕ
mount_path_len = 18

abbrev looked_up : Lookup → M Mnt
looked_up (found m) = mntget >> pure m
looked_up (refused e) = raise e

unfoldable pub read_client_sb : Env → ℕ → M Mnt
read_client_sb env id =
    if leb (length (mount_path id) + 1) mount_path_len
    then looked_up (env.kern_path (mount_path id))
    else bug_on

unfoldable pub find_in_chunks : List ChunkInfo → ℕ → Option ChunkInfo
find_in_chunks [] id = none
find_in_chunks (ci ∷ cs) id = if ci.ci_chunk_id == id then some ci else find_in_chunks cs id

abbrev found_or : Option ChunkInfo → Option ChunkInfo → Option ChunkInfo
found_or (some ci) later = some ci
found_or none later = later

unfoldable pub find_in_devs : List DevInfo → ℕ → Option ChunkInfo
unfolding find_in_chunks
find_in_devs [] id = none
find_in_devs (di ∷ ds) id = found_or (find_in_chunks di.di_chunks id) (find_in_devs ds id)

unfoldable pub find_chunk : PoolInfo → ℕ → Option ChunkInfo
unfolding find_in_devs
find_chunk pi id = find_in_devs pi.pi_devs id

-- The three functions give back what the structure holds.
abbrev pub free_chunk : ChunkInfo → Kern → Kern
free_chunk ci k = kfree (mntput (brelse k))

unfoldable pub free_chunks : List ChunkInfo → Kern → Kern
free_chunks [] k = k
free_chunks (ci ∷ cs) k = free_chunks cs (free_chunk ci k)

unfoldable pub free_dev : DevInfo → Kern → Kern
unfolding free_chunks
free_dev di k = kfree (brelse (free_chunks di.di_chunks k))

unfoldable pub free_devs : List DevInfo → Kern → Kern
unfolding free_dev
free_devs [] k = k
free_devs (di ∷ ds) k = free_devs ds (free_dev di k)

unfoldable pub free_pool : PoolInfo → Kern → Kern
unfolding free_devs
free_pool pi k = kfree (brelse (free_devs pi.pi_devs k))

-- The chunk's summary, and the offset of the next one.
unfoldable pub chunk_info : List ℕ → Mnt → ChunkInfo
chunk_info bh m =
    let chunk = as_chunk bh in
    record {
      ci_bh = bh;
      ci_mnt = m;
      ci_flags = chunk.c_flags;
      ci_chunk_id = chunk.c_chunk_id;
      ci_client_fs = chunk.c_client_fs;
    }

-- How `chunkfs_read_chunk`, `chunkfs_read_dev` and `chunkfs_read_pool` begin: an object, the block
-- of the summary, and its check, with what their labels undo.
unfoldable pub open_summary : Env → ℕ → (List ℕ → ℕ) → M (List ℕ)
open_summary env block check = do
  kzalloc env
  bh ← or_cleanup (sb_bread env block) kfree
  or_cleanup (check_that (check bh == 0) eio) (λ k. kfree (brelse k))
  pure bh

unfoldable pub read_chunk : Env → ℕ → M (ChunkInfo × ℕ)
read_chunk env chunk_offset = do
  bh ← open_summary env (chunk_offset / blk_size) check_chunk
  m ← or_cleanup (read_client_sb env (as_chunk bh).c_chunk_id) (λ k. kfree (brelse k))
  pure (chunk_info bh m, (as_chunk bh).c_next_chunk)

-- What the loop of `chunkfs_read_dev` carries: the chunks so far and the pointers to the root. One
-- Boolean says whether `pi_root_dev` is set.
pub record Scan : Type 0 where
  pub chunks : List ChunkInfo
  pub root_dev : Bool
  pub root_chunk : Option ChunkInfo

abbrev is_set : Option ChunkInfo → Bool
is_set none = false
is_set (some ci) = true

-- One chunk is added to the list; a second root is a `BUG_ON`.
unfoldable pub add_chunk : ChunkInfo → Scan → M Scan
add_chunk ci s =
    let added : Scan = record s { chunks = s.chunks ++ ci ∷ [] } in
    if is_root ci
    then (if s.root_dev
        then bug_on
        else if is_set s.root_chunk
        then bug_on
        else pure (record added { root_dev = true; root_chunk = some ci }))
    else pure added

unfoldable pub read_chunks : Env → ℕ → Scan → ℕ → M Scan
read_chunks env zero s chunk_offset k = (out_of_fuel, k)
read_chunks env (suc fuel) s zero k = (pure s) k
read_chunks env (suc fuel) s (suc o) k =
    (do
      (ci, next_chunk_offset) ← or_cleanup (read_chunk env (suc o)) (free_chunks s.chunks)
      s' ← add_chunk ci s
      read_chunks env fuel s' next_chunk_offset)
      k

-- After the loop of `chunkfs_read_dev`: without a root everything is given back, and `retval` is
-- what it last was: 0 once a chunk was read, when `*dev_info` stays unwritten (`none`).
abbrev pub rootless : List ChunkInfo → Ret (Option DevInfo)
rootless [] = err eio
rootless (ci ∷ cs) = ok none

unfoldable pub finish_dev : List ℕ → Scan → M (Option DevInfo)
finish_dev bh s k = elim s.root_chunk [
  | some ci ↦ (
    ok (
        some (record {
          di_bh = bh;
          di_flags = (as_dev bh).d_flags;
          di_chunks = s.chunks;
          di_root_chunk = some ci;
        })),
    k,
  )
  | none ↦ (rootless s.chunks, kfree (brelse (free_chunks s.chunks k)))
]

-- `root_dev` says whether the pool has a device with the root already.
unfoldable pub read_dev : Env → ℕ → Bool → M (Option DevInfo)
read_dev env fuel root_dev = do
  bh ← open_summary env dev_blk check_dev
  s ←
      or_cleanup
        (read_chunks env fuel (record { chunks = []; root_dev = root_dev; root_chunk = none })
          (as_dev bh).d_innards_begin)
        (λ k. kfree (brelse k))
  finish_dev bh s

-- `list_add_tail(&di->di_dlist, …)`: the use of an unwritten `di` is undefined.
abbrev add_dev : List ℕ → Option DevInfo → M PoolInfo
add_dev bh none = bug_on
add_dev bh (some di) = pure (record {
  pi_bh = bh;
  pi_flags = (as_pool bh).p_flags;
  pi_devs = di ∷ [];
  pi_root_dev = some di;
})

unfoldable pub read_pool : Env → ℕ → M PoolInfo
read_pool env fuel = do
  bh ← open_summary env pool_blk check_pool
  di ← or_cleanup (read_dev env fuel false) (λ k. kfree (brelse k))
  add_dev bh di
