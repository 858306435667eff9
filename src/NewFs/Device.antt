-- ===== src/NewFs/Device.antt =====
-- The device that `mkfs.chunkfs` leaves behind.
use chunkfs.Base.{
  ℕ, ◌+◌, ◌-◌, ◌*◌, ◌^◌, ◌≤◌, ◌<◌, ◌≡◌, refl, ◌∙◌, inl, inr, true, some, List, [], ◌∷◌, arith, leb,
  sub64, length, length-replicate, replicate,
}
use chunkfs.Device.{Disk, write_at, read_at, read_at-write_at_self, read_at-write_at_apart}
use chunkfs.Format.{
  blk_size, pool_offset, dev_offset, chunk_size, super_magic, Pool, Dev, pool_image, dev_image,
  as_dev, check_pool, check_dev,
}
use chunkfs.Mkfs.{
  Io, done, metadata_block, zero_pool, zero_desc, strcpy, create_pool_summary, create_dev_summary,
  write_chunk_summaries, make_fs, mkfs,
}
use chunkfs.Mkfs.Blocks.{
  IsDesc, IsPool, IsDev, length-pool_block, length-dev_block, check_pool-metadata_block,
  check_dev-metadata_block, as_dev-metadata_block,
}
use chunkfs.Mkfs.Summaries.{
  Works, Stored, with_summaries, write_block_done, summaries_loop_done, read_at-with_summaries,
  with_summaries-Stored,
}

-- Where the first chunk begins.
abbrev pub first_chunk : ℕ
first_chunk = dev_offset + blk_size

abbrev pub pool_summary : Pool
pool_summary = record { p_magic = super_magic; p_chksum = 0; p_flags = 0; p_root_desc = zero_desc }

unfoldable pub dev_summary : ℕ → Dev
unfolding create_dev_summary
dev_summary raw = create_dev_summary pool_summary dev_offset (sub64 (sub64 raw dev_offset) 1)

-- The device with the pool and the device summary, and with the summaries of `n` chunks.
abbrev pub headed : ℕ → Disk → Disk
headed raw d =
    write_at (write_at d pool_offset (metadata_block (pool_image pool_summary))) dev_offset
      (metadata_block (dev_image (dev_summary raw)))

unfoldable pub new_device : ℕ → ℕ → Disk → Disk
new_device n raw d = with_summaries n (raw - 2) first_chunk 1 (headed raw d)

-- A device of `raw` bytes takes `n` chunks.
pub record Holds (n raw : ℕ) : Type 0 where
  pub lower : first_chunk + n * chunk_size + 2 ≤ raw
  pub upper : raw < first_chunk + n * chunk_size + chunk_size + 2
  pub size : raw < 2 ^ 63

-- The summary's fields on a device that is large enough.
pub dev_summary_fields :
    (raw : ℕ)
    → first_chunk ≤ raw
    → raw < 2 ^ 63
    → ((dev_summary raw).d_end ≡ raw - 2)
      × ((dev_summary raw).d_innards_begin ≡ first_chunk)
      × ((dev_summary raw).d_root_chunk ≡ first_chunk)
unfolding dev_summary
dev_summary_fields raw lo hi = (omega arith, omega arith, omega arith)

zero_desc-IsDesc : IsDesc zero_desc
zero_desc-IsDesc = record { hint = length-replicate 1024 0; uuid = omega arith }

pool_summary-IsPool : IsPool pool_summary
pool_summary-IsPool = record {
  magic = omega arith;
  flags = omega arith;
  root_desc = zero_desc-IsDesc;
}

dev_summary-IsDev : (raw : ℕ) → IsDev (dev_summary raw)
unfolding dev_summary
dev_summary-IsDev raw = record {
  magic = omega arith;
  flags = omega arith;
  uuid = omega arith;
  begins = omega arith;
  ends = omega arith;
  innards_begin = omega arith;
  innards_end = omega arith;
  root_chunk = omega arith;
  next_dev = zero_desc-IsDesc;
}

create_pool_summary_done :
    (name : List ℕ) → length name < 1024 → create_pool_summary name zero_pool ≡ done pool_summary
unfolding create_pool_summary strcpy
create_pool_summary_done name h =
    let room : leb (length name + 1) (length (replicate {A = ℕ} 1024 0)) ≡ true =
      rw length-replicate (ground arith) in
    rw room

dev_summary_lem :
    (raw : ℕ)
    → create_dev_summary pool_summary dev_offset (sub64 (sub64 raw dev_offset) 1) ≡ dev_summary raw
unfolding dev_summary
dev_summary_lem raw = refl

make_fs_done :
    (io : Io) (fuel n raw : ℕ) (name : List ℕ) (d : Disk)
    → Works io
    → length name < 1024
    → Holds n raw
    → n < fuel
    → make_fs io fuel name raw d ≡ done (new_device n raw d)
unfolding make_fs write_chunk_summaries new_device
make_fs_done io fuel n raw name d w short holds h =
    let (ends, _, root) = dev_summary_fields raw (omega arith) holds.size in
    rw
      (
        create_pool_summary_done name short,
        write_block_done io (pool_image pool_summary) pool_offset d w,
        dev_summary_lem raw,
        write_block_done io (dev_image (dev_summary raw)) dev_offset _ w,
        ends,
        root,
      )
      (summaries_loop_done io fuel n (raw - 2) first_chunk 1 _ w
        (record {
          enough = omega arith;
          last = omega arith;
          size = omega arith;
          begins = omega arith;
        })
        h (omega arith))

-- The pool and the device summary lie in front of the chunks.
pub headed_apart :
    (raw : ℕ) (d : Disk) (p : ℕ)
    → first_chunk ≤ p
    → read_at (headed raw d) p blk_size ≡ read_at d p blk_size
headed_apart raw d p h =
    let pool_size = length-pool_block pool_summary pool_summary-IsPool in
    let dev_size = length-dev_block (dev_summary raw) (dev_summary-IsDev raw) in
    read_at-write_at_apart _ dev_offset _ p blk_size (inr (omega arith))
    ∙ read_at-write_at_apart d pool_offset _ p blk_size (inr (omega arith))

-- `mkfs.chunkfs` on a device of `raw` bytes that takes `n` chunks ends with exit code 0 and leaves
-- `new_device`, if no call fails, the name is shorter than 1024 bytes and the fuel exceeds `n`.
pub mkfs_done :
    (io : Io) (fuel n raw : ℕ) (cmd name : List ℕ) (d : Disk)
    → Works io
    → io.opens name ≡ true
    → io.st_size ≡ some raw
    → length name < 1024
    → Holds n raw
    → n < fuel
    → mkfs io fuel (cmd ∷ (name ∷ [])) d ≡ done (new_device n raw d)
unfolding mkfs
mkfs_done io fuel n raw cmd name d w opens size short holds h =
    rw (opens, size) (make_fs_done io fuel n raw name d w short holds h)

module _ (n raw : ℕ) (d : Disk) (holds : Holds n raw) where
  pool_block_read :
      read_at (new_device n raw d) pool_offset blk_size ≡ metadata_block (pool_image pool_summary)
  unfolding new_device
  pool_block_read =
      read_at-with_summaries n (raw - 2) first_chunk 1 _ pool_offset (omega arith)
      ∙ read_at-write_at_apart _ dev_offset _ pool_offset blk_size (inl (omega arith))
      ∙ read_at-write_at_self d pool_offset _ blk_size (length-pool_block _ pool_summary-IsPool)

  dev_block_read :
      read_at (new_device n raw d) dev_offset blk_size
      ≡ metadata_block (dev_image (dev_summary raw))
  unfolding new_device
  dev_block_read =
      read_at-with_summaries n (raw - 2) first_chunk 1 _ dev_offset (omega arith)
      ∙ read_at-write_at_self _ dev_offset _ blk_size (length-dev_block _ (dev_summary-IsDev raw))

  pub new_device-Stored : Stored (new_device n raw d) (raw - 2) n first_chunk 1
  unfolding new_device
  new_device-Stored = with_summaries-Stored n (raw - 2) first_chunk 1 _ (omega arith) (omega arith)

  pub pool_checks : check_pool (read_at (new_device n raw d) pool_offset blk_size) ≡ 0
  pool_checks = rw pool_block_read (check_pool-metadata_block pool_summary (omega arith))

  pub dev_checks : check_dev (read_at (new_device n raw d) dev_offset blk_size) ≡ 0
  dev_checks =
      rw (dev_block_read, check_dev-metadata_block (dev_summary raw) (dev_summary-IsDev raw).magic)
        (unfold dev_summary in refl)

  pub dev_first_chunk :
      (as_dev (read_at (new_device n raw d) dev_offset blk_size)).d_innards_begin ≡ first_chunk
  dev_first_chunk =
      rw (dev_block_read, as_dev-metadata_block (dev_summary raw) (dev_summary-IsDev raw))
        (dev_summary_fields raw (omega arith) holds.size).1
