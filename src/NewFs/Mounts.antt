-- ===== src/NewFs/Mounts.antt =====
-- mkfs.chunkfs.c and super.c: the pool that a mount makes of a new device, and `chunkfs_find_chunk` on it.
use chunkfs.Base.{
  ℕ, zero, suc, ◌+◌, ◌-◌, ◌*◌, ◌^◌, ◌≤◌, ◌<◌, ◌≡◌, ◌≢◌, refl, ap, true, false, Option, some, List,
  [], ◌∷◌, map, arith, ◌==◌, length,
}
use mathlib.Core.Option
use mathlib.Core.Path.{subst}
use chunkfs.Device.{Disk, read_at}
use chunkfs.Format.{as_dev, blk_size, pool_blk, dev_blk, pool_offset, dev_offset, chunk_size}
use chunkfs.Kernel.{Env, Mnt}
use chunkfs.Mount.{ChunkInfo, PoolInfo, DevInfo, is_root, find_in_chunks, find_chunk, chunk_info}
use chunkfs.Mount.Chain.{ChunkPath, info, Allocates}
use chunkfs.Mount.Outcomes.{Sound, pool_of}
use chunkfs.Mkfs.Summaries.{summary_block}
use chunkfs.NewFs.Device.{
  Holds, first_chunk, new_device, new_device-Stored, pool_checks, dev_checks, dev_first_chunk,
}
use chunkfs.NewFs.Chain.{Serves, links, last_pointer, chunk_id_lem, Stored-ChunkPath, summary-root}

abbrev pub count_up : ℕ → ℕ → List ℕ
count_up zero id = []
count_up (suc n) id = id ∷ count_up n (id + 1)

abbrev pub chunk_ids : List ChunkInfo → List ℕ
chunk_ids = map (λ ci. ci.ci_chunk_id)

pub length-links : (mnt : ℕ → Mnt) (dev_end n o id : ℕ) → length (links mnt dev_end n o id) ≡ n
length-links mnt dev_end zero o id = refl
length-links mnt dev_end (suc n) o id =
    ap suc (length-links mnt dev_end n (o + chunk_size) (id + 1))

pub chunk_ids-links :
    (mnt : ℕ → Mnt) (dev_end n o id : ℕ)
    → o + n * chunk_size < 2 ^ 63
    → id + n < 2 ^ 63
    → chunk_ids (map info (links mnt dev_end n o id)) ≡ count_up n id
unfolding chunk_info
chunk_ids-links mnt dev_end zero o id ho hid = refl
chunk_ids-links mnt dev_end (suc n) o id ho hid = rw (
  chunk_id_lem dev_end o id (omega arith) (omega arith),
  chunk_ids-links mnt dev_end n (o + chunk_size) (id + 1) (omega arith) (omega arith),
)

find_in_chunks-links :
    (mnt : ℕ → Mnt) (dev_end n o id i : ℕ)
    → o + n * chunk_size < 2 ^ 63
    → id + n < 2 ^ 63
    → i < n
    → find_in_chunks (map info (links mnt dev_end n o id)) (id + i)
      ≡ some (chunk_info (summary_block dev_end (o + i * chunk_size) (id + i)) (mnt (id + i)))
unfolding chunk_info find_in_chunks
find_in_chunks-links mnt dev_end zero o id i ho hid h = absurd (omega arith)
find_in_chunks-links mnt dev_end (suc n) o id zero ho hid h =
    let same : id + 0 ≡ id = omega arith in
    let first : o + 0 * chunk_size ≡ o = omega arith in
    let it : (id == id) ≡ true = ground arith in
    rw (same, first, chunk_id_lem dev_end o id (omega arith) (omega arith), it)
find_in_chunks-links mnt dev_end (suc n) o id (suc i) ho hid h =
    let same : id + suc i ≡ id + 1 + i = omega arith in
    let later : o + suc i * chunk_size ≡ o + chunk_size + i * chunk_size = omega arith in
    let other : (id == id + 1 + i) ≡ false = ground arith in
    rw (same, later, chunk_id_lem dev_end o id (omega arith) (omega arith), other)
      (find_in_chunks-links mnt dev_end n (o + chunk_size) (id + 1) i (omega arith) (omega arith)
        (omega arith))

-- Where the chunks' summaries lead: to the end, or to the ghost chunk behind the last.
unfoldable pub new_stop : ℕ → ℕ → ℕ
new_stop n raw = last_pointer (raw - 2) (first_chunk + n * chunk_size)

module _ (n raw : ℕ) (d : Disk) (env : Env) (mnt : ℕ → Mnt) (holds : Holds (suc n) raw)
    (small : raw < 2 ^ 59) (serves : Serves env mnt raw (new_device (suc n) raw d)) where
  pub new_path :
      ChunkPath env
        (new_stop (suc n) raw)
        (as_dev (read_at (new_device (suc n) raw d) dev_offset blk_size)).d_innards_begin
        (links mnt (raw - 2) (suc n) first_chunk 1)
  unfolding new_stop
  new_path = rw (dev_first_chunk (suc n) raw d holds) (
      Stored-ChunkPath env mnt raw _ serves (raw - 2) (suc n) first_chunk 1
        (new_device-Stored (suc n) raw d holds)
        (record {
          enough = omega arith;
          last = omega arith;
          size = omega arith;
          begins = omega arith;
        })
        (omega arith) (omega arith) (omega arith) refl (omega arith))

  pub new_device-Sound :
      raw ≢ first_chunk + 1 + (n + 2) * chunk_size
      → Allocates env
      → Sound env
          (read_at (new_device (suc n) raw d) pool_offset blk_size)
          (read_at (new_device (suc n) raw d) dev_offset blk_size)
          (links mnt (raw - 2) (suc n) first_chunk 1)
  unfolding new_stop
  new_device-Sound exact allocates =
      let ends : new_stop (suc n) raw ≡ 0 = ground arith in
      record {
        allocates = allocates;
        pool = serves.blocks pool_blk (omega arith);
        pool_checked = pool_checks (suc n) raw d holds;
        dev = serves.blocks dev_blk (omega arith);
        dev_checked = dev_checks (suc n) raw d holds;
        chain = rw ends at new_path;
      }

-- The chunk that `find_chunk` gives for a number: that chunk, with its mount, and the root flag on
-- chunk 1 alone.
pub record Finds (pool : PoolInfo) (mnt : ℕ → Mnt) (id : ℕ) : Type 0 where
  pub chunk : ChunkInfo
  pub found : find_chunk pool id ≡ some chunk
  pub same_id : chunk.ci_chunk_id ≡ id
  pub mounted : chunk.ci_mnt ≡ mnt id
  pub rooted : is_root chunk ≡ (id == 1)

abbrev pub All : (ℕ → Type 0) → List ℕ → Type 0
All P [] = Unit
All P (i ∷ is) = P i × All P is

first_lem : (id : ℕ) → id + 0 ≡ id
first_lem id = omega arith

later_lem : (id i : ℕ) → id + suc i ≡ id + 1 + i
later_lem id i = omega arith

pub count_up-All :
    (P : ℕ → Type 0) (n id : ℕ) → ((i : ℕ) → i < n → P (id + i)) → All P (count_up n id)
count_up-All P zero id h = tt
count_up-All P (suc n) id h = (
  subst P (first_lem id) (h 0 (omega arith)),
  count_up-All P n (id + 1) (λ i lt. subst P (later_lem id i) (h (suc i) (omega arith))),
)

abbrev pub root_dev_ids : PoolInfo → Option (List ℕ)
root_dev_ids pool = Option.map (λ (di : DevInfo). chunk_ids di.di_chunks) pool.pi_root_dev

pub links-Finds :
    (n dev_end : ℕ) (mnt : ℕ → Mnt) (pb db : List ℕ) (root : ChunkInfo) (i : ℕ)
    → n < 2 ^ 36
    → i ≤ n
    → Finds (pool_of pb db (map info (links mnt dev_end (suc n) first_chunk 1)) root) mnt (1 + i)
unfolding find_chunk chunk_info
links-Finds n dev_end mnt pb db root i small h =
    let o = first_chunk + i * chunk_size in
    record {
      chunk = chunk_info (summary_block dev_end o (1 + i)) (mnt (1 + i));
      found =
          rw
            (find_in_chunks-links mnt dev_end (suc n) first_chunk 1 i (omega arith) (omega arith)
              (omega arith))
            refl;
      same_id = chunk_id_lem dev_end o (1 + i) (omega arith) (omega arith);
      mounted = refl;
      rooted = summary-root (mnt (1 + i)) dev_end o (1 + i) (omega arith) (omega arith);
    }
