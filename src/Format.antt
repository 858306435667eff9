-- ===== src/Format.antt =====
-- The on-disk structures: chunkfs.h, chunkfs_pool.h, chunkfs_dev.h and chunkfs_chunk.h. A structure
-- is a record of its fields, as the CPU reads them; its image is the bytes that it takes, every
-- field in little-endian order and no padding between them.
pub mod Bytes
use chunkfs.Base.{ℕ, ◌+◌, ◌*◌, Bool, true, false, List, [], ◌++◌, ◌==◌, if◌then◌else◌, take, drop}
use chunkfs.Format.Bytes.{put_le, get_le, get_bytes}

abbrev pub blk_size : ℕ
blk_size = 4096

abbrev pub super_magic : ℕ
super_magic = 0x5afe5afe

abbrev pub dev_magic : ℕ
dev_magic = 0xdeeddeed

abbrev pub chunk_magic : ℕ
chunk_magic = 0xf00df00d

abbrev pub dev_path_len : ℕ
dev_path_len = 1024

abbrev pub client_name_len : ℕ
client_name_len = 32

abbrev pub pool_blk : ℕ
pool_blk = 8

abbrev pub pool_offset : ℕ
pool_offset = pool_blk * blk_size

abbrev pub dev_blk : ℕ
dev_blk = pool_blk + 1

abbrev pub dev_offset : ℕ
dev_offset = dev_blk * blk_size

abbrev pub chunk_size : ℕ
chunk_size = 10 * 1024 * 1024

-- The flag of the chunk that holds the root directory.
abbrev pub root_flag : ℕ
root_flag = 1

pub record DevDesc : Type 0 where
  pub d_hint : List ℕ
  pub d_uuid : ℕ

pub record Pool : Type 0 where
  pub p_magic : ℕ
  pub p_chksum : ℕ
  pub p_flags : ℕ
  pub p_root_desc : DevDesc

pub record Dev : Type 0 where
  pub d_magic : ℕ
  pub d_chksum : ℕ
  pub d_flags : ℕ
  pub d_uuid : ℕ
  pub d_begin : ℕ
  pub d_end : ℕ
  pub d_innards_begin : ℕ
  pub d_innards_end : ℕ
  pub d_root_chunk : ℕ
  pub d_next_dev : DevDesc

pub record Chunk : Type 0 where
  pub c_magic : ℕ
  pub c_chksum : ℕ
  pub c_flags : ℕ
  pub c_chunk_id : ℕ
  pub c_begin : ℕ
  pub c_end : ℕ
  pub c_innards_begin : ℕ
  pub c_innards_end : ℕ
  pub c_next_chunk : ℕ
  pub c_client_fs : List ℕ

unfoldable pub desc_image : DevDesc → List ℕ → List ℕ
desc_image d rest = d.d_hint ++ put_le 8 d.d_uuid rest

unfoldable pub pool_image : Pool → List ℕ
unfolding desc_image
pool_image p =
    put_le 4 p.p_magic (put_le 4 p.p_chksum (put_le 8 p.p_flags (desc_image p.p_root_desc [])))

unfoldable pub dev_image : Dev → List ℕ
unfolding desc_image
dev_image d = put_le 4 d.d_magic (
    put_le 4 d.d_chksum (
      put_le 8 d.d_flags (
        put_le 8 d.d_uuid (
          put_le 8 d.d_begin (
            put_le 8 d.d_end (
              put_le 8 d.d_innards_begin (
                put_le 8 d.d_innards_end
                  (put_le 8 d.d_root_chunk (desc_image d.d_next_dev [])))))))))

unfoldable pub chunk_image : Chunk → List ℕ
chunk_image c = put_le 4 c.c_magic (
    put_le 4 c.c_chksum (
      put_le 8 c.c_flags (
        put_le 8 c.c_chunk_id (
          put_le 8 c.c_begin (
            put_le 8 c.c_end (
              put_le 8 c.c_innards_begin
                (put_le 8 c.c_innards_end (put_le 8 c.c_next_chunk c.c_client_fs))))))))

-- A block read as a structure: the cast of the buffer to a pointer to the structure.
unfoldable pub read_desc : List ℕ → DevDesc
read_desc bs =
    let (hint, bs) = get_bytes dev_path_len bs in
    let (uuid, bs) = get_le 8 bs in record { d_hint = hint; d_uuid = uuid }

unfoldable pub as_pool : List ℕ → Pool
unfolding read_desc
as_pool bs =
    let (magic, bs) = get_le 4 bs in
    let (chksum, bs) = get_le 4 bs in
    let (flags, bs) = get_le 8 bs in
    record { p_magic = magic; p_chksum = chksum; p_flags = flags; p_root_desc = read_desc bs }

unfoldable pub as_dev : List ℕ → Dev
unfolding read_desc
as_dev bs =
    let (magic, bs) = get_le 4 bs in
    let (chksum, bs) = get_le 4 bs in
    let (flags, bs) = get_le 8 bs in
    let (uuid, bs) = get_le 8 bs in
    let (begin_, bs) = get_le 8 bs in
    let (end_, bs) = get_le 8 bs in
    let (innards_begin, bs) = get_le 8 bs in
    let (innards_end, bs) = get_le 8 bs in
    let (root_chunk, bs) = get_le 8 bs in
    record {
      d_magic = magic;
      d_chksum = chksum;
      d_flags = flags;
      d_uuid = uuid;
      d_begin = begin_;
      d_end = end_;
      d_innards_begin = innards_begin;
      d_innards_end = innards_end;
      d_root_chunk = root_chunk;
      d_next_dev = read_desc bs;
    }

unfoldable pub as_chunk : List ℕ → Chunk
as_chunk bs =
    let (magic, bs) = get_le 4 bs in
    let (chksum, bs) = get_le 4 bs in
    let (flags, bs) = get_le 8 bs in
    let (id, bs) = get_le 8 bs in
    let (begin_, bs) = get_le 8 bs in
    let (end_, bs) = get_le 8 bs in
    let (innards_begin, bs) = get_le 8 bs in
    let (innards_end, bs) = get_le 8 bs in
    let (next_chunk, bs) = get_le 8 bs in
    record {
      c_magic = magic;
      c_chksum = chksum;
      c_flags = flags;
      c_chunk_id = id;
      c_begin = begin_;
      c_end = end_;
      c_innards_begin = innards_begin;
      c_innards_end = innards_end;
      c_next_chunk = next_chunk;
      c_client_fs = take client_name_len bs;
    }

-- The constant that stands for a checksum.
abbrev pub fixed_chksum : ℕ
fixed_chksum = 0x32323232

-- `write_chksum`: the checksum lies behind the magic number in every structure.
unfoldable pub write_chksum : List ℕ → List ℕ
write_chksum buf = take 4 buf ++ put_le 4 fixed_chksum (drop 8 buf)

-- `check_magic` and `check_chksum` answer nonzero (`true`) when the test fails.
unfoldable pub check_magic : List ℕ → ℕ → Bool
check_magic buf expected_magic = if (get_le 4 buf).0 == expected_magic then false else true

unfoldable pub check_chksum : List ℕ → Bool
check_chksum buf = if (get_le 4 (get_le 4 buf).1).0 == fixed_chksum then false else true

unfoldable pub check_metadata : List ℕ → ℕ → ℕ
unfolding check_magic check_chksum
check_metadata buf expected_magic =
    if check_magic buf expected_magic then 1 else if check_chksum buf then 2 else 0

unfoldable pub check_pool : List ℕ → ℕ
unfolding check_metadata
check_pool buf = check_metadata buf super_magic

unfoldable pub check_dev : List ℕ → ℕ
unfolding check_metadata
check_dev buf = check_metadata buf dev_magic

unfoldable pub check_chunk : List ℕ → ℕ
unfolding check_metadata
check_chunk buf = check_metadata buf chunk_magic
