-- ===== src/Mkfs/ReadBack.antt =====
-- mkfs.chunkfs.c and the structures' headers: the blocks that `write_block` makes of the three summaries,
-- as the kernel reads them.
use chunkfs.Base.{◌≡◌, length, ◌==◌, if◌then◌else◌}
use chunkfs.Format.{
  blk_size, super_magic, dev_magic, chunk_magic, fixed_chksum, Pool, Dev, Chunk, pool_image,
  dev_image, chunk_image, as_pool, as_dev, as_chunk, check_pool, check_dev, check_chunk,
}
use chunkfs.Mkfs.{metadata_block}
use chunkfs.Mkfs.Blocks.{
  IsPool, IsDev, as_pool-metadata_block, as_dev-metadata_block, check_pool-metadata_block,
  check_dev-metadata_block, length-pool_block, length-dev_block,
}
use chunkfs.Mkfs.Metadata.{
  IsChunk, as_chunk-metadata_block, check_chunk-metadata_block, length-chunk_block,
}

-- The block that `write_block` makes of a chunk summary whose fields fit their widths reads back as
-- that summary, with the checksum filled in, passes `check_chunk` if its magic number is that of
-- chunks and else is answered by 1, and has the size of a block.
pub read_back_chunk :
    (c : Chunk)
    → IsChunk c
    → let block = metadata_block (chunk_image c) in
      (as_chunk block ≡ record c { c_chksum = fixed_chksum })
      × (check_chunk block ≡ (if c.c_magic == chunk_magic then 0 else 1))
      × (length block ≡ blk_size)
read_back_chunk c h =
    (as_chunk-metadata_block c h, check_chunk-metadata_block c h.magic, length-chunk_block c h)

-- The block that `write_block` makes of a pool summary whose fields fit their widths reads back as
-- that summary, with the checksum filled in, passes `check_pool` if its magic number is that of
-- pools and else is answered by 1, and has the size of a block.
pub read_back_pool :
    (p : Pool)
    → IsPool p
    → let block = metadata_block (pool_image p) in
      (as_pool block ≡ record p { p_chksum = fixed_chksum })
      × (check_pool block ≡ (if p.p_magic == super_magic then 0 else 1))
      × (length block ≡ blk_size)
read_back_pool p h =
    (as_pool-metadata_block p h, check_pool-metadata_block p h.magic, length-pool_block p h)

-- The block that `write_block` makes of a device summary whose fields fit their widths reads back
-- as that summary, with the checksum filled in, passes `check_dev` if its magic number is that of
-- devices and else is answered by 1, and has the size of a block.
pub read_back_dev :
    (d : Dev)
    → IsDev d
    → let block = metadata_block (dev_image d) in
      (as_dev block ≡ record d { d_chksum = fixed_chksum })
      × (check_dev block ≡ (if d.d_magic == dev_magic then 0 else 1))
      × (length block ≡ blk_size)
read_back_dev d h =
    (as_dev-metadata_block d h, check_dev-metadata_block d h.magic, length-dev_block d h)
