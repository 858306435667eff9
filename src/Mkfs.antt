-- ===== src/Mkfs.antt =====
-- mkfs.chunkfs.c: writes the pool, device and chunk summaries of a new file system. The host is
-- little-endian, as the program's header line says, so `__cpu_to_le64` is the identity. What the
-- operating system answers is the parameter `io`; the contents of the device are a function from
-- byte offsets to bytes.
pub mod Metadata
pub mod Blocks
pub mod ReadBack
pub mod Summaries
use chunkfs.Base.{
  ℕ, zero, suc, ◌+◌, ◌-◌, Bool, true, false, Option, none, some, List, [], ◌∷◌, ◌++◌, ltb, leb,
  ◌==◌, if◌then◌else◌, add64, sub64, length, drop, replicate, bit_or,
}
use chunkfs.Device.{Disk, write_at}
use chunkfs.Format.{
  blk_size, dev_path_len, client_name_len, super_magic, dev_magic, chunk_magic, pool_offset,
  dev_offset, chunk_size, root_flag, DevDesc, Pool, Dev, Chunk, pool_image, dev_image, chunk_image,
  write_chksum,
}

-- The answers of `open`, `fstat`, `lseek` and `write`; a `write` that is not complete counts as
-- refused, since the program ends with it.
pub record Io : Type 0 where
  pub opens : List ℕ → Bool
  pub st_size : Option ℕ
  pub seeks : ℕ → Bool
  pub writes : ℕ → Bool

-- `failed` is the end of the program by `error(1, …)` or `usage()`; `undefined` an overflow of a
-- buffer.
pub data Run (A : Type 0) : Type 0 where
  done : A → Run A
  failed : Run A
  undefined : Run A
  out_of_fuel : Run A

infixl 5 ◌>>=◌
abbrev pub ◌>>=◌ : {A B : Type 0} → Run A → (A → Run B) → Run B
done a >>= f = f a
failed >>= f = failed
undefined >>= f = undefined
out_of_fuel >>= f = out_of_fuel

-- The buffer that `write_block` hands to `write`.
unfoldable pub metadata_block : List ℕ → List ℕ
unfolding write_chksum
metadata_block metadata = write_chksum (metadata ++ replicate (blk_size - length metadata) 0)

unfoldable pub write_block : Io → List ℕ → ℕ → Disk → Run Disk
write_block io metadata offset disk =
    if io.seeks offset
    then (if io.writes offset
        then done (write_at disk offset (metadata_block metadata))
        else failed)
    else failed

-- What `bzero` leaves in a device description.
abbrev pub zero_desc : DevDesc
zero_desc = record { d_hint = replicate dev_path_len 0; d_uuid = 0 }

abbrev pub zero_pool : Pool
zero_pool = record { p_magic = 0; p_chksum = 0; p_flags = 0; p_root_desc = zero_desc }

-- `strcpy` into an array that holds `old`.
unfoldable pub strcpy : List ℕ → List ℕ → Run (List ℕ)
strcpy old name =
    if leb (length name + 1) (length old)
    then done (name ++ (0 ∷ drop (length name + 1) old))
    else undefined

unfoldable pub create_pool_summary : List ℕ → Pool → Run Pool
unfolding strcpy
create_pool_summary dev_name pool = do
  hint ← strcpy pool.p_root_desc.d_hint dev_name
  let desc : DevDesc = record { d_hint = hint; d_uuid = 0x001d001d }
  let described : Pool = record pool { p_root_desc = desc }
  let cleared : Pool = zero_pool
  done (record cleared { p_magic = super_magic })

unfoldable pub create_dev_summary : Pool → ℕ → ℕ → Dev
create_dev_summary pool dev_begin dev_size =
    let dev_end = sub64 (add64 dev_begin dev_size) 1 in
    let innards_begin = add64 dev_begin blk_size in
    record {
      d_magic = dev_magic;
      d_chksum = 0;
      d_flags = 0;
      d_uuid = pool.p_root_desc.d_uuid;
      d_begin = dev_begin;
      d_end = dev_end;
      d_innards_begin = innards_begin;
      d_innards_end = dev_end;
      d_root_chunk = innards_begin;
      d_next_dev = zero_desc;
    }

unfoldable pub create_chunk_summary : ℕ → ℕ → ℕ → Chunk
create_chunk_summary chunk_start size chunk_id =
    let chunk_end = sub64 (add64 chunk_start size) 1 in
    record {
      c_magic = chunk_magic;
      c_chksum = 0;
      c_flags = 0;
      c_chunk_id = chunk_id;
      c_begin = chunk_start;
      c_end = chunk_end;
      c_innards_begin = add64 chunk_start blk_size;
      c_innards_end = chunk_end;
      c_next_chunk = 0;
      c_client_fs = replicate client_name_len 0;
    }

-- The summary that one round of the loop in `write_chunk_summaries` writes.
unfoldable pub chunk_summary : ℕ → ℕ → ℕ → Chunk
unfolding create_chunk_summary
chunk_summary dev_end chunk_start chunk_id =
    let chunk = create_chunk_summary chunk_start chunk_size chunk_id in
    record chunk {
      c_flags = if chunk_id == 1 then bit_or chunk.c_flags root_flag else chunk.c_flags;
      c_next_chunk =
          if ltb (sub64 (add64 chunk.c_end chunk_size) 1) dev_end
          then add64 chunk.c_end 1
          else chunk.c_next_chunk;
    }

-- The loop's test: does a whole chunk fit?
abbrev pub fits : ℕ → ℕ → Bool
fits dev_end chunk_start = ltb (sub64 (add64 chunk_start chunk_size) 1) dev_end

unfoldable pub summaries_loop : Io → ℕ → ℕ → ℕ → ℕ → Disk → Run Disk
summaries_loop io zero dev_end chunk_start chunk_id disk = out_of_fuel
summaries_loop io (suc fuel) dev_end chunk_start chunk_id disk = elim (fits dev_end chunk_start) [
  | true ↦ do
    disk' ←
        write_block io (chunk_image (chunk_summary dev_end chunk_start chunk_id)) chunk_start disk
    summaries_loop io fuel dev_end (add64 chunk_start chunk_size) (add64 chunk_id 1) disk'
  | false ↦ done disk
]

unfoldable pub write_chunk_summaries : Io → ℕ → Dev → Disk → Run Disk
unfolding summaries_loop
write_chunk_summaries io fuel dev disk = summaries_loop io fuel dev.d_end dev.d_root_chunk 1 disk

-- The device is open and `raw_dev_size` bytes long.
unfoldable pub make_fs : Io → ℕ → List ℕ → ℕ → Disk → Run Disk
make_fs io fuel dev_name raw_dev_size disk = do
  pool ← create_pool_summary dev_name zero_pool
  disk ← write_block io (pool_image pool) pool_offset disk
  let dev = create_dev_summary pool dev_offset (sub64 (sub64 raw_dev_size dev_offset) 1)
  disk ← write_block io (dev_image dev) dev_offset disk
  write_chunk_summaries io fuel dev disk

-- `main`, on its arguments `argv`.
unfoldable pub mkfs : Io → ℕ → List (List ℕ) → Disk → Run Disk
mkfs io fuel (cmd ∷ (dev_name ∷ [])) disk =
    if io.opens dev_name
    then elim io.st_size [ none ↦ failed | some size ↦ make_fs io fuel dev_name size disk ]
    else failed
mkfs io fuel argv disk = failed
