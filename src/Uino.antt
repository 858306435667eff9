-- ===== src/Uino.antt =====
-- Inode numbers of the whole file system: the chunk number in the bits above 28, the number of the
-- client inode in the 28 bits below (chunkfs_i.h). Values are `u64`.
pub mod RoundTrip
pub mod Bijective
use chunkfs.Base.{ℕ, ◌*◌, ◌/◌, ◌%◌, ◌^◌, bit_and, bit_or}

unfoldable pub uino_to_chunk_id : ℕ → ℕ
uino_to_chunk_id ino = bit_and ino 0xF0000000 / 2 ^ 28

unfoldable pub uino_to_ino : ℕ → ℕ
uino_to_ino ino = bit_and ino 0x0FFFFFFF

-- The shift is of a `u64`, so it loses what passes bit 63.
unfoldable pub make_uino : ℕ → ℕ → ℕ
make_uino chunk_id ino = bit_or (chunk_id * 2 ^ 28 % 2 ^ 64) ino
