-- ===== src/Mkfs/Metadata.antt =====
-- mkfs.chunkfs.c: the checksummed block that `mkfs` writes, and the summary of a chunk in it.
use chunkfs.Base.{
  ℕ, ◌-◌, ◌^◌, ◌≤◌, ◌<◌, ◌≡◌, refl, ap, List, ◌++◌, arith, length, replicate, ◌==◌, if◌then◌else◌,
  length-append, length-replicate,
}
use chunkfs.Format.{
  check_metadata, blk_size, client_name_len, chunk_magic, fixed_chksum, Chunk, chunk_image,
  write_chksum, as_chunk, check_chunk,
}
use chunkfs.Format.Bytes.{put_le, get_le-put_le, put_le-append, length-put_le, take_whole}
use chunkfs.Mkfs.{metadata_block}

write_chksum-put_le :
    (magic chksum : ℕ) (rest : List ℕ)
    → write_chksum (put_le 4 magic (put_le 4 chksum rest))
      ≡ put_le 4 magic (put_le 4 fixed_chksum rest)
unfolding write_chksum put_le
write_chksum-put_le magic chksum rest = refl

-- The block of an image: its checksum replaced, and zeros up to the block's end.
pub metadata_block-put_le :
    (magic chksum : ℕ) (rest : List ℕ)
    → metadata_block (put_le 4 magic (put_le 4 chksum rest))
      ≡ put_le 4 magic (put_le 4 fixed_chksum (rest ++ replicate (4088 - length rest) 0))
unfolding metadata_block
metadata_block-put_le magic chksum rest =
    let room : 4096 - length (put_le 4 magic (put_le 4 chksum rest)) ≡ 4088 - length rest =
      omega (arith, length-put_le 4 magic (put_le 4 chksum rest), length-put_le 4 chksum rest) in
    rw room (simp put_le-append (write_chksum-put_le magic chksum _))

pub length-metadata_block :
    (magic chksum : ℕ) (rest : List ℕ)
    → length rest ≤ 4088
    → length (metadata_block (put_le 4 magic (put_le 4 chksum rest))) ≡ 4096
length-metadata_block magic chksum rest h =
    rw (metadata_block-put_le, length-put_le, length-put_le, length-append, length-replicate)
      (omega arith)

-- The fields of a chunk summary fit their widths.
pub record IsChunk (c : Chunk) : Type 0 where
  pub magic : c.c_magic < 2 ^ 32
  pub flags : c.c_flags < 2 ^ 64
  pub id : c.c_chunk_id < 2 ^ 64
  pub begins : c.c_begin < 2 ^ 64
  pub ends : c.c_end < 2 ^ 64
  pub innards_begin : c.c_innards_begin < 2 ^ 64
  pub innards_end : c.c_innards_end < 2 ^ 64
  pub next_chunk : c.c_next_chunk < 2 ^ 64
  pub client_fs : length c.c_client_fs ≡ client_name_len

-- A chunk summary whose fields fit their widths is read back from the block that `write_block`
-- makes of it, with the checksum filled in.
pub as_chunk-metadata_block :
    (c : Chunk)
    → IsChunk c
    → as_chunk (metadata_block (chunk_image c)) ≡ record c { c_chksum = fixed_chksum }
unfolding as_chunk chunk_image
as_chunk-metadata_block c h = rw metadata_block-put_le (
    simp put_le-append (
      rw
        (
          get_le-put_le 4 c.c_magic _ h.magic,
          get_le-put_le 4 fixed_chksum _ (omega arith),
          get_le-put_le 8 c.c_flags _ h.flags,
          get_le-put_le 8 c.c_chunk_id _ h.id,
          get_le-put_le 8 c.c_begin _ h.begins,
          get_le-put_le 8 c.c_end _ h.ends,
          get_le-put_le 8 c.c_innards_begin _ h.innards_begin,
          get_le-put_le 8 c.c_innards_end _ h.innards_end,
          get_le-put_le 8 c.c_next_chunk _ h.next_chunk,
        )
        (ap (λ (n : List ℕ). record c { c_chksum = fixed_chksum; c_client_fs = n })
          (take_whole 32 c.c_client_fs _ h.client_fs))))

-- The checks of the kernel on such a block: the magic number decides.
pub check_metadata-metadata_block :
    (magic chksum : ℕ) (rest : List ℕ) (expected : ℕ)
    → magic < 2 ^ 32
    → check_metadata (metadata_block (put_le 4 magic (put_le 4 chksum rest))) expected
      ≡ (if magic == expected then 0 else 1)
unfolding check_metadata
check_metadata-metadata_block magic chksum rest expected h =
    rw
      (
        metadata_block-put_le,
        get_le-put_le 4 magic _ h,
        get_le-put_le 4 fixed_chksum _ (omega arith),
      )
      (ground arith)

-- The block that `write_block` makes of a chunk summary passes `check_chunk` if its magic number is
-- that of chunks, and else is answered by 1. The magic number fits 32 bits.
pub check_chunk-metadata_block :
    (c : Chunk)
    → c.c_magic < 2 ^ 32
    → check_chunk (metadata_block (chunk_image c)) ≡ (if c.c_magic == chunk_magic then 0 else 1)
unfolding check_chunk chunk_image
check_chunk-metadata_block c h = check_metadata-metadata_block c.c_magic c.c_chksum _ chunk_magic h

pub length-chunk_block :
    (c : Chunk) → IsChunk c → length (metadata_block (chunk_image c)) ≡ blk_size
unfolding chunk_image
length-chunk_block c h = length-metadata_block c.c_magic c.c_chksum _ (
    rw
      (
        length-put_le, length-put_le, length-put_le, length-put_le, length-put_le, length-put_le,
        length-put_le,
      )
      (omega (arith, h.client_fs)))
