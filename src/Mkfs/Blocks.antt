-- ===== src/Mkfs/Blocks.antt =====
-- mkfs.chunkfs.c and the headers: the blocks of the pool and of the device, read and checked.
use chunkfs.Base.{
  ℕ, ◌+◌, ◌^◌, ◌<◌, ◌≡◌, ap, List, [], ◌++◌, arith, length, ◌==◌, if◌then◌else◌, length-append,
}
use mathlib.Core.List.{append_assoc}
use chunkfs.Format.{
  check_pool, check_dev, super_magic, dev_magic, blk_size, dev_path_len, fixed_chksum, DevDesc,
  Pool, Dev, desc_image, pool_image, dev_image, read_desc, as_pool, as_dev,
}
use chunkfs.Format.Bytes.{get_le-put_le, put_le-append, length-put_le, take_whole, drop_whole}
use chunkfs.Mkfs.{metadata_block}
use chunkfs.Mkfs.Metadata.{
  metadata_block-put_le, length-metadata_block, check_metadata-metadata_block,
}

pub record IsDesc (d : DevDesc) : Type 0 where
  pub hint : length d.d_hint ≡ dev_path_len
  pub uuid : d.d_uuid < 2 ^ 64

pub read_desc-desc_image :
    (d : DevDesc) (rest tail : List ℕ) → IsDesc d → read_desc (desc_image d rest ++ tail) ≡ d
unfolding read_desc desc_image
read_desc-desc_image d rest tail h =
    simp (append_assoc, put_le-append)
      (rw (
        take_whole 1024 d.d_hint _ h.hint,
        drop_whole 1024 d.d_hint _ h.hint,
        get_le-put_le 8 d.d_uuid _ h.uuid,
      ))

length-desc_image :
    (d : DevDesc) (rest : List ℕ) → IsDesc d → length (desc_image d rest) ≡ 1032 + length rest
unfolding desc_image
length-desc_image d rest h = rw (length-append, length-put_le) (omega (arith, h.hint))

-- The fields of a pool summary and of a device summary fit their widths.
pub record IsPool (p : Pool) : Type 0 where
  pub magic : p.p_magic < 2 ^ 32
  pub flags : p.p_flags < 2 ^ 64
  pub root_desc : IsDesc p.p_root_desc

pub record IsDev (d : Dev) : Type 0 where
  pub magic : d.d_magic < 2 ^ 32
  pub flags : d.d_flags < 2 ^ 64
  pub uuid : d.d_uuid < 2 ^ 64
  pub begins : d.d_begin < 2 ^ 64
  pub ends : d.d_end < 2 ^ 64
  pub innards_begin : d.d_innards_begin < 2 ^ 64
  pub innards_end : d.d_innards_end < 2 ^ 64
  pub root_chunk : d.d_root_chunk < 2 ^ 64
  pub next_dev : IsDesc d.d_next_dev

-- A pool summary whose fields fit their widths is read back from the block that `write_block` makes
-- of it, with the checksum filled in.
pub as_pool-metadata_block :
    (p : Pool)
    → IsPool p
    → as_pool (metadata_block (pool_image p)) ≡ record p { p_chksum = fixed_chksum }
unfolding as_pool pool_image
as_pool-metadata_block p h = rw metadata_block-put_le (
    simp put_le-append (
      rw
        (
          get_le-put_le 4 p.p_magic _ h.magic,
          get_le-put_le 4 fixed_chksum _ (omega arith),
          get_le-put_le 8 p.p_flags _ h.flags,
        )
        (ap (λ (d : DevDesc). record p { p_chksum = fixed_chksum; p_root_desc = d })
          (read_desc-desc_image p.p_root_desc [] _ h.root_desc))))

-- A device summary whose fields fit their widths is read back from the block that `write_block`
-- makes of it, with the checksum filled in.
pub as_dev-metadata_block :
    (d : Dev)
    → IsDev d
    → as_dev (metadata_block (dev_image d)) ≡ record d { d_chksum = fixed_chksum }
unfolding as_dev dev_image
as_dev-metadata_block d h = rw metadata_block-put_le (
    simp put_le-append (
      rw
        (
          get_le-put_le 4 d.d_magic _ h.magic,
          get_le-put_le 4 fixed_chksum _ (omega arith),
          get_le-put_le 8 d.d_flags _ h.flags,
          get_le-put_le 8 d.d_uuid _ h.uuid,
          get_le-put_le 8 d.d_begin _ h.begins,
          get_le-put_le 8 d.d_end _ h.ends,
          get_le-put_le 8 d.d_innards_begin _ h.innards_begin,
          get_le-put_le 8 d.d_innards_end _ h.innards_end,
          get_le-put_le 8 d.d_root_chunk _ h.root_chunk,
        )
        (ap (λ (n : DevDesc). record d { d_chksum = fixed_chksum; d_next_dev = n })
          (read_desc-desc_image d.d_next_dev [] _ h.next_dev))))

-- The block that `write_block` makes of a pool summary passes `check_pool` if its magic number is
-- that of pools, and else is answered by 1. The magic number fits 32 bits.
pub check_pool-metadata_block :
    (p : Pool)
    → p.p_magic < 2 ^ 32
    → check_pool (metadata_block (pool_image p)) ≡ (if p.p_magic == super_magic then 0 else 1)
unfolding check_pool pool_image
check_pool-metadata_block p h = check_metadata-metadata_block p.p_magic p.p_chksum _ super_magic h

-- The block that `write_block` makes of a device summary passes `check_dev` if its magic number is
-- that of devices, and else is answered by 1. The magic number fits 32 bits.
pub check_dev-metadata_block :
    (d : Dev)
    → d.d_magic < 2 ^ 32
    → check_dev (metadata_block (dev_image d)) ≡ (if d.d_magic == dev_magic then 0 else 1)
unfolding check_dev dev_image
check_dev-metadata_block d h = check_metadata-metadata_block d.d_magic d.d_chksum _ dev_magic h

pub length-pool_block : (p : Pool) → IsPool p → length (metadata_block (pool_image p)) ≡ blk_size
unfolding pool_image
length-pool_block p h =
    length-metadata_block p.p_magic p.p_chksum _
      (rw (length-put_le, length-desc_image p.p_root_desc [] h.root_desc) (omega arith))

pub length-dev_block : (d : Dev) → IsDev d → length (metadata_block (dev_image d)) ≡ blk_size
unfolding dev_image
length-dev_block d h = length-metadata_block d.d_magic d.d_chksum _ (
    rw
      (
        length-put_le,
        length-put_le,
        length-put_le,
        length-put_le,
        length-put_le,
        length-put_le,
        length-put_le,
        length-desc_image d.d_next_dev [] h.next_dev,
      )
      (omega arith))
