-- ===== src/Tests/Numbers.antt =====
-- Inode numbers, decimal numbers and blocks at concrete inputs.
use chunkfs.Base.{◌≡◌, ◌↔◌, ◌<◌, ◌++◌, [], ◌∷◌, arith, length, replicate, length-replicate}
use chunkfs.Uino.{uino_to_chunk_id, uino_to_ino, make_uino}
use chunkfs.Uino.RoundTrip.{split_make_uino, chunk_id_survives_iff, make_uino_split}
use chunkfs.Decimal.{print_u64, simple_strtoull, strtoull-print_u64}
use chunkfs.Format.{
  Chunk, Pool, Dev, as_chunk, as_pool, as_dev, chunk_image, pool_image, dev_image, chunk_magic,
  super_magic, dev_magic, fixed_chksum, check_chunk, check_pool, check_dev,
}
use chunkfs.Mkfs.{metadata_block, zero_desc}
use chunkfs.Mkfs.ReadBack.{read_back_chunk, read_back_pool, read_back_dev}
use chunkfs.Mkfs.Blocks.{IsDesc}

split_make_uino_here : (uino_to_chunk_id (make_uino 17 5) ≡ 1) × (uino_to_ino (make_uino 17 5) ≡ 5)
split_make_uino_here = split_make_uino 17 5 (omega arith) (omega arith)

chunk_id_survives_iff_example : (uino_to_chunk_id (make_uino 15 5) ≡ 15) ↔ (15 < 16)
chunk_id_survives_iff_example = chunk_id_survives_iff 15 5 (omega arith) (omega arith)

make_uino_split_here : make_uino (uino_to_chunk_id 536870918) (uino_to_ino 536870918) ≡ 536870918
make_uino_split_here = make_uino_split 536870918 (omega arith)

strtoull-print_u64_here : simple_strtoull (print_u64 40960 ++ 0 ∷ (b'7' ∷ [])) ≡ 40960
strtoull-print_u64_here = strtoull-print_u64 40960 (b'7' ∷ []) (omega arith)

abbrev chunk_two : Chunk
chunk_two = record {
  c_magic = chunk_magic;
  c_chksum = 0;
  c_flags = 0;
  c_chunk_id = 2;
  c_begin = 10526720;
  c_end = 21012479;
  c_innards_begin = 10530816;
  c_innards_end = 21012479;
  c_next_chunk = 21012480;
  c_client_fs = replicate 32 0;
}

abbrev pool : Pool
pool = record { p_magic = super_magic; p_chksum = 0; p_flags = 3; p_root_desc = zero_desc }

abbrev dev : Dev
dev = record {
  d_magic = dev_magic;
  d_chksum = 0;
  d_flags = 0;
  d_uuid = 7;
  d_begin = 36864;
  d_end = 99999999;
  d_innards_begin = 40960;
  d_innards_end = 99999999;
  d_root_chunk = 40960;
  d_next_dev = zero_desc;
}

zero_desc-IsDesc_here : IsDesc zero_desc
zero_desc-IsDesc_here = record { hint = length-replicate 1024 0; uuid = omega arith }

read_back_chunk_example :
    let block = metadata_block (chunk_image chunk_two) in
    (as_chunk block ≡ record chunk_two { c_chksum = fixed_chksum })
    × (check_chunk block ≡ 0)
    × (length block ≡ 4096)
read_back_chunk_example = read_back_chunk chunk_two (record {
  magic = omega arith;
  flags = omega arith;
  id = omega arith;
  begins = omega arith;
  ends = omega arith;
  innards_begin = omega arith;
  innards_end = omega arith;
  next_chunk = omega arith;
  client_fs = length-replicate 32 0;
})

read_back_pool_here :
    let block = metadata_block (pool_image pool) in
    (as_pool block ≡ record pool { p_chksum = fixed_chksum })
    × (check_pool block ≡ 0)
    × (length block ≡ 4096)
read_back_pool_here =
    read_back_pool pool
      (record { magic = omega arith; flags = omega arith; root_desc = zero_desc-IsDesc_here })

read_back_dev_here :
    let block = metadata_block (dev_image dev) in
    (as_dev block ≡ record dev { d_chksum = fixed_chksum })
    × (check_dev block ≡ 0)
    × (length block ≡ 4096)
read_back_dev_here = read_back_dev dev (record {
  magic = omega arith;
  flags = omega arith;
  uuid = omega arith;
  begins = omega arith;
  ends = omega arith;
  innards_begin = omega arith;
  innards_end = omega arith;
  root_chunk = omega arith;
  next_dev = zero_desc-IsDesc_here;
})
